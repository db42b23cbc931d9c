-- ===== src/Tests/SendTests.antt =====
-- One send in flight at the fake provider, and the properties of the send job at it.
use unified_search_safe_send.Prelude.{
  Option, ◌≤◌, ◌≡◌, refl, sym, ap, Bool, true, false, none, some, List, [], ◌∷◌, arith,
}
use unified_search_safe_send.Enums.{slack, in_flight, active, send, adapter_run, JobKind}
use unified_search_safe_send.Jobs.Table.{ClaimedJob}
use unified_search_safe_send.Jobs.Recovery.{ReconcileOutcome}
use unified_search_safe_send.Jobs.Queue.Consistent.{IsConsistent}
use unified_search_safe_send.Jobs.Sweep.{sweep}
use unified_search_safe_send.Jobs.Sweep.Kept.{routed, sweep-IsConsistent}
use unified_search_safe_send.Tests.JobsTests.{table, nobody, table-IsConsistent}
use unified_search_safe_send.Send.Reconcile.{reconcile_send_job}
use unified_search_safe_send.Connections.Row.{Connection}
use unified_search_safe_send.Send.Row.{Send, Draft, load_send, load_draft}
use unified_search_safe_send.Send.Provider.Fake.{
  Fake, Fakes, fake_provider, delivery_count, deliveries_for, probe_fake, probe_matches,
}
use unified_search_safe_send.Send.Provider.Fake.Honest.{fake_provider-IsHonest}
use unified_search_safe_send.Send.Handler.{CrashPoint, after_provider_accept}
use unified_search_safe_send.Send.Reconcile.{
  World, reconcile_send, not_sent, reconcile_row, reconcile_dispatched, ask, settle, settle_verdict,
}
use unified_search_safe_send.Send.Handler.Once.{IsOnce, IsClear}
use unified_search_safe_send.Send.Handler.Exactly.{reconcile_send-IsClear}
use unified_search_safe_send.Send.Handler.Schedule.{
  Event, works, sweeps, happen_all, delivered_at_most_once,
}

abbrev pub open_send : Send
open_send = record {
  id = 5;
  user_id = 1;
  draft_id = 9;
  connection_id = 7;
  provider = slack;
  idempotency_key = "k-5";
  state = in_flight;
  confirmed_sha256 = "4:abcd";
  provider_draft_id = none;
  provider_message_id = none;
  attempts = 0;
  reconcile_attempts = 0;
  dispatched_at = none;
  delivered_at = none;
  last_error_class = none;
  last_error_detail = none;
  is_seed = false;
  created_at = 40;
  updated_at = 40;
}

abbrev pub slack_draft : Draft
slack_draft = record {
  id = 9;
  user_id = 1;
  connection_id = 7;
  channel = slack;
  recipient = "C1";
  recipient_display = "general";
  subject = none;
  body = "hello";
  idempotency_key = "k-5";
  in_reply_to_result_id = none;
  in_reply_to_external = none;
  created_at = 30;
  updated_at = 30;
}

abbrev pub slack_connection : Connection
slack_connection = record {
  id = 7;
  user_id = 1;
  provider = slack;
  external_account_id = "T1";
  display_name = "workspace";
  status = active;
  granted_scopes = "chat:write" ∷ [];
  access_token_ct = none;
  refresh_token_ct = none;
  bot_token_ct = none;
  key_version = 1;
  access_expires_at = none;
  refresh_expires_at = none;
  last_success_at = none;
  last_error_class = none;
  last_error_detail = none;
  created_at = 10;
  updated_at = 10;
}

abbrev idle_fake : Fake
idle_fake = record {
  deliveries = [];
  next_failure = none;
  accept_then_fail = false;
  probe_verdict = none;
  minted = 0;
}

abbrev pub world : World Fakes
world = record {
  sends = open_send ∷ [];
  drafts = slack_draft ∷ [];
  connections = slack_connection ∷ [];
  provider = record { gmail_fake = idle_fake; slack_fake = idle_fake };
}

abbrev one_job : ClaimedJob
one_job = record {
  id = 1;
  kind = send;
  ref_id = 5;
  attempts = 1;
  max_attempts = 5;
  partition_key = some "slack:7";
  dedupe_key = some "send:5";
  claimed_by = some "w1";
  lease_expires_at = some 90;
  started_at = some 50;
}

-- the process dies once the provider has accepted
abbrev dies : CrashPoint → Bool
dies after_provider_accept = true
dies _ = false

abbrev lives : CrashPoint → Bool
lives _ = false

-- a crash after the provider took the message, a sweep, and a second run
abbrev events : List Event
events = works 50 dies one_job ∷ sweeps 100 one_job ∷ works 110 lives one_job ∷ []

world-IsOnce : IsOnce delivery_count 5 slack "k-5" world
unfolding delivery_count deliveries_for load_send
world-IsOnce = record {
  once = omega arith;
  unsent = λ s e d. refl;
  ours = λ s e.
      let q : some open_send ≡ some s = e in
      let r : open_send ≡ s = cc in
      (sym (ap (λ (x : Send). x.provider) r), sym (ap (λ (x : Send). x.idempotency_key) r));
  others = λ j s ne e. absurd (ground arith);
}

-- a run that died after the commit of `dispatched_at` left this
abbrev doubtful_send : Send
doubtful_send = record open_send { dispatched_at = some 45; attempts = 1 }

abbrev doubtful_world : World Fakes
doubtful_world = record world { sends = doubtful_send ∷ [] }

doubtful_world-IsOnce : IsOnce delivery_count 5 slack "k-5" doubtful_world
unfolding delivery_count deliveries_for load_send
doubtful_world-IsOnce = record {
  once = omega arith;
  unsent = λ s e d. refl;
  ours = λ s e.
      let q : some doubtful_send ≡ some s = e in
      let r : doubtful_send ≡ s = cc in
      (sym (ap (λ (x : Send). x.provider) r), sym (ap (λ (x : Send). x.idempotency_key) r));
  others = λ j s ne e. absurd (ground arith);
}

delivered_at_most_once_example :
    delivery_count (happen_all fake_provider world events).provider slack "k-5" ≤ 1
delivered_at_most_once_example =
    delivered_at_most_once delivery_count 5 slack "k-5" fake_provider fake_provider-IsHonest world
      events world-IsOnce

never_dispatched : (reconcile_send fake_provider 100 doubtful_world 5 "").0 ≡ not_sent
unfolding reconcile_send reconcile_row load_send reconcile_dispatched load_draft ask settle
    settle_verdict probe_fake probe_matches deliveries_for
never_dispatched = refl

reconcile_send-IsClear_example :
    IsClear delivery_count 5 slack "k-5" (reconcile_send fake_provider 100 doubtful_world 5 "").1
reconcile_send-IsClear_example =
    reconcile_send-IsClear delivery_count 5 slack "k-5" fake_provider fake_provider-IsHonest 100
      doubtful_world "" doubtful_world-IsOnce never_dispatched

-- the sweeper's registry: sends are reconciled
abbrev registry : JobKind → Option (World Fakes → ClaimedJob → ReconcileOutcome × World Fakes)
registry send = some (reconcile_send_job fake_provider 100)
registry adapter_run = none

sweep-IsConsistent_example :
    IsConsistent (sweep registry 100 true nobody 20 table world).jobs
    × (routed (sweep registry 100 true nobody 20 table world).report
        ≡ (sweep registry 100 true nobody 20 table world).report.stale)
sweep-IsConsistent_example =
    sweep-IsConsistent registry 100 true nobody 20 table world table-IsConsistent
