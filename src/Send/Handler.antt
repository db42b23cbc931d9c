-- ===== src/Send/Handler.antt =====
-- packages/core/send/handler.py: the send job. Each UPDATE is its own transaction, so what a crash leaves is the world at
-- that seam; `armed` says at which seams of packages/core/send/crash.py the process dies, and `now`
-- is the clock of the run.
pub mod Follows
pub mod Quiet
pub mod Once
pub mod Exactly
pub mod Schedule
use unified_search_safe_send.Prelude.{
  ℕ, ◌+◌, Bool, true, false, not, ◌&&◌, Option, none, some, List, String, ◌==◌, leb, str_eq,
  if◌then◌else◌,
}
use unified_search_safe_send.Prelude.Text.{◌<>◌, show, truthy, text_or}
use unified_search_safe_send.Enums.{
  ProviderKind, SendState, ErrorClass, gmail, slack, transient, failed_transient, failed_permanent,
}
use unified_search_safe_send.Errors.{ProviderError, Exn, provider_error, bug, classify, str}
use unified_search_safe_send.Jobs.Table.{ClaimedJob}
use unified_search_safe_send.Jobs.Queue.{is_transient}
use unified_search_safe_send.Jobs.Recovery.{ReconcileOutcome, safe_to_dispatch, resolved}
use unified_search_safe_send.Connections.Row.{Connection, mark_success}
use unified_search_safe_send.Send.Row.{
  Send, Draft, SendReceipt, is_in_flight, load_send, load_draft, commit_dispatch_attempt,
  mark_delivered, mark_uncertain, record_error, set_terminal, bump_reconcile_attempts,
}
use unified_search_safe_send.Send.Reconcile.{
  World, ReconcileVerdict, not_sent, retry_later, with_sends, with_provider, request_for,
  reconcile_send,
}
use unified_search_safe_send.Send.Provider.{
  SendProvider, SendRequest, PreparedSend, ProbeResult, ProbeVerdict, found, absent, inconclusive,
  Reply, returns, raises, fingerprint_for,
}

pub data CrashPoint : Type 0 where
  after_lease_commit after_provider_accept before_delivery_commit after_delivery_commit : CrashPoint

-- how a run of the job ends: it returns, it raises, or the process dies at a seam
pub data Ending : Type 0 where
  finished : Ending
  failed_with : Exn → Ending
  crashed : CrashPoint → Ending

abbrev pub provider_name : ProviderKind → String
provider_name gmail = "gmail"
provider_name slack = "slack"

module _ {P : Type 0} (ops : SendProvider P) (now : ℕ) where
  -- the row after a failure at the attempt ceiling
  unfoldable pub finalize_at_ceiling :
      ℕ → ErrorClass → String → ReconcileVerdict × World P → World P
  finalize_at_ceiling id error_class detail (not_sent, w) =
      with_sends w (set_terminal now id failed_transient error_class detail w.sends)
  finalize_at_ceiling id error_class detail (retry_later, w) =
      with_sends w (mark_uncertain now id detail w.sends)
  finalize_at_ceiling id error_class detail (_, w) = w

  -- the best-effort tidying of a draft at the provider; its failure is swallowed
  unfoldable pub tidy : World P → ProviderKind → Option SendRequest → World P
  tidy w kind none = w
  tidy w kind (some request) = elim request.provider_draft_id [
    | none ↦ w
    | some draft_id ↦
        if truthy draft_id then with_provider w (ops.discard kind w.provider request).1 else w
  ]

  -- `sent` is the request that the failure path may tidy up after
  unfoldable pub finalize_failure :
      World P → ProviderKind → ℕ → Exn → ClaimedJob → Option SendRequest → World P
  finalize_failure w kind id exc job sent =
      let error_class = classify exc in
      let detail = str exc in
      if is_transient error_class
      then (if leb job.max_attempts job.attempts
          then finalize_at_ceiling id error_class detail
              (reconcile_send ops now w id ("attempt ceiling reached: " <> detail))
          else with_sends w (record_error now id error_class detail w.sends))
      else tidy (with_sends w (set_terminal now id failed_permanent error_class detail w.sends))
          kind sent

  module _ (armed : CrashPoint → Bool) where
    -- after the provider's answer: the delivery commit and the bookkeeping
    unfoldable pub deliver : World P → Send → SendReceipt → Ending × World P
    deliver w send receipt =
        if armed after_provider_accept
        then (crashed after_provider_accept, w)
        else if armed before_delivery_commit
        then (crashed before_delivery_commit, w)
        else let (applied, sends) = mark_delivered now send.id receipt "" w.sends in
          if armed after_delivery_commit
          then (crashed after_delivery_commit, with_sends w sends)
          else (
            finished,
            record w {
              sends = sends;
              connections = mark_success now send.connection_id w.connections;
            },
          )

    unfoldable pub after_dispatch :
        ClaimedJob → World P → Send → SendRequest → Reply SendReceipt → Ending × World P
    after_dispatch job w send request (raises exc) =
        (failed_with exc, finalize_failure w send.provider send.id exc job (some request))
    after_dispatch job w send request (returns receipt) = deliver w send receipt

    -- the commit of `dispatched_at`, and the provider's call
    unfoldable pub contact :
        ClaimedJob → World P → Send → SendRequest → Option String → Ending × World P
    contact job w send request draft_id =
        let sends = commit_dispatch_attempt now send.id draft_id w.sends in
        if armed after_lease_commit
        then (crashed after_lease_commit, with_sends w sends)
        else let (reply, provider) = ops.dispatch send.provider w.provider request in
          after_dispatch job (record w { sends = sends; provider = provider }) send request reply

    abbrev pub with_draft_id : SendRequest → Option String → SendRequest
    with_draft_id request none = request
    with_draft_id request (some draft_id) =
        if truthy draft_id then record request { provider_draft_id = some draft_id } else request

    unfoldable pub after_prepare :
        ClaimedJob → World P → Send → SendRequest → Reply PreparedSend → Ending × World P
    after_prepare job w send request (raises exc) =
        (failed_with exc, finalize_failure w send.provider send.id exc job none)
    after_prepare job w send request (returns prepared) =
        contact job w send (with_draft_id request prepared.provider_draft_id)
          prepared.provider_draft_id

    unfoldable pub dispatch_send : ClaimedJob → World P → Send → Ending × World P
    dispatch_send job w send = elim (load_draft w.drafts send.draft_id) [
      | none ↦ (
        failed_with (
            bug (
              "send "
              <> show send.id
              <> " references draft "
              <> show send.draft_id
              <> ", which is gone")),
        w,
      )
      | some draft ↦
          let request = request_for send draft in
          let (reply, provider) = ops.prepare send.provider w.provider request in
          after_prepare job (with_provider w provider) send request reply
    ]

    unfoldable pub inconclusive_error : Send → Exn
    inconclusive_error send = provider_error (record {
      provider = provider_name send.provider;
      code = "reconciliation_inconclusive";
      detail = "could not establish whether the message was sent; will re-probe";
      status = some 503;
      retry_after = none;
    })

    unfoldable pub after_reconcile :
        ClaimedJob → Send → ReconcileVerdict × World P → Ending × World P
    after_reconcile job send (retry_later, w) = (failed_with (inconclusive_error send), w)
    after_reconcile job send (not_sent, w) = dispatch_send job w send
    after_reconcile job send (_, w) = (finished, w)

    unfoldable pub run_row : ClaimedJob → World P → Send → Ending × World P
    run_row job w send =
        if is_in_flight send.state
        then elim send.dispatched_at [
          | none ↦ dispatch_send job w send
          | some at ↦ after_reconcile job send (reconcile_send ops now w send.id "")
        ]
        else (finished, w)

    unfoldable pub run_send : ClaimedJob → World P → Ending × World P
    run_send job w = elim (load_send w.sends job.ref_id) [
      | none ↦ (finished, w)
      | some send ↦ run_row job w send
    ]
