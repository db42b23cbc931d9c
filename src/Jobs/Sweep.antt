-- ===== src/Jobs/Sweep.antt =====
-- `sweep` of packages/core/jobs/runtime.py: what becomes of the jobs whose worker died. `W` is what
-- the reconcilers read and write; a reconciler that raises rolls the sweep back and is not modelled.
-- The advisory lock's answer is `got`.
pub mod Kept
use unified_search_safe_send.Prelude.{
  ℕ, suc, Bool, true, false, Option, none, some, List, [], ◌∷◌, String, leb, length, if◌then◌else◌,
}
use unified_search_safe_send.Prelude.Text.{◌<>◌}
use unified_search_safe_send.Enums.{JobKind, adapter_run, send}
use unified_search_safe_send.Jobs.Table.{Jobs, ClaimedJob}
use unified_search_safe_send.Jobs.Queue.{requeue, park, resolve, select_stale}
use unified_search_safe_send.Jobs.Recovery.{
  RecoveryPolicy, retry, reconcile, policy_for, ReconcileOutcome, safe_to_dispatch, resolved,
  inconclusive,
}

pub record SweepReport : Type 0 where
  pub held_lock : Bool
  pub stale : ℕ
  pub requeued : ℕ
  pub parked : ℕ
  pub reconciled : ℕ
  pub resolved : ℕ

abbrev pub empty_report : SweepReport
empty_report = record {
  held_lock = true;
  stale = 0;
  requeued = 0;
  parked = 0;
  reconciled = 0;
  resolved = 0;
}

-- `job.claimed_by` in an f-string
abbrev pub worker_text : Option String → String
worker_text none = "None"
worker_text (some worker) = worker

-- `job.kind.value!r`
abbrev pub kind_repr : JobKind → String
kind_repr adapter_run = "'adapter_run'"
kind_repr send = "'send'"

pub record Swept (W : Type 0) : Type 0 where
  pub report : SweepReport
  pub jobs : Jobs
  pub world : W

module _ {W : Type 0} (reconcilers : JobKind → Option (W → ClaimedJob → ReconcileOutcome × W))
    (now : ℕ) where
  unfoldable pub requeue_one : ClaimedJob → Swept W → Swept W
  requeue_one job s = record s {
    report = record s.report { requeued = suc s.report.requeued };
    jobs = (requeue now s.jobs job.id).1;
  }

  unfoldable pub park_one : ClaimedJob → String → Swept W → Swept W
  park_one job detail s = record s {
    report = record s.report { parked = suc s.report.parked };
    jobs = (park now s.jobs job.id detail).1;
  }

  unfoldable pub resolve_one : ClaimedJob → Swept W → Swept W
  resolve_one job s = record s {
    report = record s.report { resolved = suc s.report.resolved };
    jobs = (resolve now s.jobs job.id).1;
  }

  unfoldable pub after_outcome : ClaimedJob → ReconcileOutcome → Swept W → Swept W
  after_outcome job safe_to_dispatch s = requeue_one job s
  after_outcome job resolved s = resolve_one job s
  after_outcome job inconclusive s =
      park_one job "reconciliation was inconclusive; awaiting an operator" s

  unfoldable pub retry_one : ClaimedJob → Swept W → Swept W
  retry_one job s =
      if leb job.max_attempts job.attempts
      then park_one job
          ("lease expired after the final attempt; worker "
            <> worker_text job.claimed_by
            <> " did not report back")
          s
      else requeue_one job s

  unfoldable pub reconcile_one : ClaimedJob → Swept W → Swept W
  reconcile_one job s = elim (reconcilers job.kind) [
    | none ↦
        park_one job
          ("orphaned lease on job kind "
            <> kind_repr job.kind
            <> " with no reconciler registered; not re-executed because the side effect cannot be ruled out")
          s
    | some reconciler ↦
        let (outcome, world) = reconciler s.world job in
        after_outcome job outcome (record s {
          report = record s.report { reconciled = suc s.report.reconciled };
          world = world;
        })
  ]

  unfoldable pub sweep_one : ClaimedJob → RecoveryPolicy → Swept W → Swept W
  sweep_one job retry s = retry_one job s
  sweep_one job reconcile s = reconcile_one job s

  unfoldable pub sweep_jobs : List ClaimedJob → Swept W → Swept W
  sweep_jobs [] s = s
  sweep_jobs (job ∷ jobs) s = sweep_jobs jobs (sweep_one job (policy_for job.kind) s)

  unfoldable pub sweep : Bool → (ℕ → Bool) → ℕ → Jobs → W → Swept W
  sweep got locked limit t w =
      if got
      then (let stale = select_stale now locked limit t in
          sweep_jobs stale
            (record { report = record empty_report { stale = length stale }; jobs = t; world = w }))
      else record { report = record empty_report { held_lock = false }; jobs = t; world = w }
