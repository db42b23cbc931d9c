-- ===== src/Send/Reconcile.antt =====
-- packages/core/send/handler.py: the reconciliation of a send with what its provider holds, on the
-- world of the send job: the tables that it touches and the provider's own state. Each UPDATE is its
-- own transaction.
use unified_search_safe_send.Prelude.{ℕ, none, some, List, String, ◌==◌, leb, if◌then◌else◌}
use unified_search_safe_send.Prelude.Text.{◌<>◌, text_or}
use unified_search_safe_send.Enums.{transient}
use unified_search_safe_send.Errors.{str}
use unified_search_safe_send.Jobs.Table.{ClaimedJob}
use unified_search_safe_send.Jobs.Recovery.{ReconcileOutcome, safe_to_dispatch, resolved}
use unified_search_safe_send.Connections.Row.{Connection}
use unified_search_safe_send.Send.Row.{
  Send, Draft, SendReceipt, is_in_flight, load_send, load_draft, mark_delivered, mark_uncertain,
  record_error, bump_reconcile_attempts,
}
use unified_search_safe_send.Send.Provider.{
  SendProvider, SendRequest, ProbeResult, ProbeVerdict, found, absent, inconclusive, Reply, returns,
  raises, fingerprint_for,
}

abbrev pub max_reconcile_attempts : ℕ
max_reconcile_attempts = 3

pub data ReconcileVerdict : Type 0 where
  not_sent adopted parked_uncertain retry_later already_terminal : ReconcileVerdict

pub record World (P : Type 0) : Type 0 where
  pub sends : List Send
  pub drafts : List Draft
  pub connections : List Connection
  pub provider : P

unfoldable pub request_for : Send → Draft → SendRequest
unfolding fingerprint_for
request_for send draft = record {
  fingerprint = fingerprint_for send.idempotency_key;
  channel = draft.channel;
  recipient = draft.recipient;
  recipient_display = draft.recipient_display;
  subject = draft.subject;
  body = draft.body;
  provider_draft_id = send.provider_draft_id;
  connection_id = if send.connection_id == 0 then none else some send.connection_id;
  dispatched_at = send.dispatched_at;
}

module _ {P : Type 0} where
  abbrev pub with_sends : World P → List Send → World P
  with_sends w sends = record w { sends = sends }

  abbrev pub with_provider : World P → P → World P
  with_provider w provider = record w { provider = provider }

  unfoldable pub park_uncertain : ℕ → World P → ℕ → String → ReconcileVerdict × World P
  park_uncertain now w id reason =
      (parked_uncertain, with_sends w (mark_uncertain now id reason w.sends))

  unfoldable pub note_error : ℕ → World P → ℕ → String → World P
  note_error now w id detail = with_sends w (record_error now id transient detail w.sends)

  -- out of attempts, or try again later
  unfoldable pub give_up_or_wait :
      ℕ → World P → ℕ → ℕ → String → String → ReconcileVerdict × World P
  unfolding park_uncertain note_error
  give_up_or_wait now w id attempts park_reason wait_reason =
      if leb max_reconcile_attempts attempts
      then park_uncertain now w id park_reason
      else (retry_later, note_error now w id wait_reason)

  unfoldable pub adopt : ℕ → World P → Send → String → String → ReconcileVerdict × World P
  adopt now w send message_id evidence =
      let receipt : SendReceipt = record {
        provider_message_id = message_id;
        provider_draft_id = send.provider_draft_id;
      } in
      let (applied, sends) = mark_delivered now send.id receipt evidence w.sends in
      (if applied then adopted else already_terminal, with_sends w sends)

  -- what the probe's answer does to the row; `w` is the world after the probe
  unfoldable pub settle_verdict :
      ℕ → World P → Send → ℕ → String → ProbeResult → ProbeVerdict → ReconcileVerdict × World P
  settle_verdict now w send attempts note probe found = elim probe.provider_message_id [
    | none ↦
        park_uncertain now w send.id
          ("a matching message exists but carries no id we can record: " <> probe.evidence)
    | some message_id ↦ adopt now w send message_id probe.evidence
  ]
  settle_verdict now w send attempts note probe absent =
      (not_sent, note_error now w send.id ("reconciled: " <> probe.evidence))
  settle_verdict now w send attempts note probe inconclusive =
      give_up_or_wait now w send.id attempts (text_or probe.evidence note)
        (text_or probe.evidence "probe inconclusive")

  unfoldable pub settle :
      ℕ → World P → Send → ℕ → String → Reply ProbeResult → ReconcileVerdict × World P
  settle now w send attempts note (raises exc) =
      let evidence = "probe failed: " <> str exc in
      give_up_or_wait now w send.id attempts evidence evidence
  settle now w send attempts note (returns probe) =
      settle_verdict now w send attempts note probe probe.verdict

abbrev pub outcome_of : ReconcileVerdict → ReconcileOutcome
outcome_of not_sent = safe_to_dispatch
outcome_of retry_later = safe_to_dispatch
outcome_of _ = resolved

module _ {P : Type 0} (ops : SendProvider P) (now : ℕ) where
  -- the probe of one dispatched send whose draft is there
  unfoldable pub ask : World P → Send → Draft → String → ReconcileVerdict × World P
  ask w send draft note =
      let (attempts, sends) = bump_reconcile_attempts now send.id w.sends in
      let (reply, provider) =
        ops.probe_by_fingerprint send.provider w.provider (request_for send draft) in
      settle now (record w { sends = sends; provider = provider }) send attempts note reply

  unfoldable pub reconcile_dispatched : World P → Send → String → ReconcileVerdict × World P
  reconcile_dispatched w send note =
      if leb max_reconcile_attempts send.reconcile_attempts
      then park_uncertain now w send.id (text_or note "reconciliation attempts exhausted")
      else elim (load_draft w.drafts send.draft_id) [
        | none ↦ park_uncertain now w send.id "the draft this send was built from no longer exists"
        | some draft ↦ ask w send draft note
      ]

  unfoldable pub reconcile_row : World P → Send → String → ReconcileVerdict × World P
  reconcile_row w send note =
      if is_in_flight send.state
      then elim send.dispatched_at [
        | none ↦ (not_sent, w)
        | some at ↦ reconcile_dispatched w send note
      ]
      else (already_terminal, w)

  unfoldable pub reconcile_send : World P → ℕ → String → ReconcileVerdict × World P
  reconcile_send w id note = elim (load_send w.sends id) [
    | none ↦ (already_terminal, w)
    | some send ↦ reconcile_row w send note
  ]

  -- What the sweeper calls for an orphaned send: the verdict as a `ReconcileOutcome`.
  unfoldable pub reconcile_send_job : World P → ClaimedJob → ReconcileOutcome × World P
  reconcile_send_job w job =
      let (verdict, w') = reconcile_send w job.ref_id "" in (outcome_of verdict, w')
