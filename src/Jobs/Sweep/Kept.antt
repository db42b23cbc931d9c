-- ===== src/Jobs/Sweep/Kept.antt =====
-- What a sweep keeps, and what its report adds up to.
use unified_search_safe_send.Prelude.{
  ℕ, suc, ◌+◌, ◌≡◌, refl, ◌∙◌, Bool, true, false, Option, List, [], ◌∷◌, String, arith, leb, length,
  Bool-cases, Option-cases, inl, inr,
}
use unified_search_safe_send.Enums.{JobKind}
use unified_search_safe_send.Jobs.Table.{Jobs, ClaimedJob}
use unified_search_safe_send.Jobs.Queue.Consistent.{IsConsistent}
use unified_search_safe_send.Jobs.Queue.Preserved.{sweeps-IsConsistent}
use unified_search_safe_send.Jobs.Queue.{select_stale}
use unified_search_safe_send.Jobs.Recovery.{
  RecoveryPolicy, retry, reconcile, policy_for, ReconcileOutcome, safe_to_dispatch, resolved,
  inconclusive,
}
use unified_search_safe_send.Jobs.Sweep.{
  SweepReport, Swept, requeue_one, park_one, resolve_one, after_outcome, retry_one, reconcile_one,
  sweep_one, sweep_jobs, sweep,
}

abbrev pub routed : SweepReport → ℕ
routed r = r.requeued + r.parked + r.resolved

-- One job was routed: the table is still consistent and one counter moved.
record IsRouted {W : Type 0} (s s' : Swept W) : Type 0 where
  kept : IsConsistent s.jobs → IsConsistent s'.jobs
  counted : routed s'.report ≡ suc (routed s.report)
  same_stale : s'.report.stale ≡ s.report.stale

module _ {W : Type 0} (reconcilers : JobKind → Option (W → ClaimedJob → ReconcileOutcome × W))
    (now : ℕ) where
  requeue_one-IsRouted :
      (job : ClaimedJob) (s : Swept W) → IsRouted s (requeue_one reconcilers now job s)
  unfolding requeue_one
  requeue_one-IsRouted job s = record {
    kept = λ c. (sweeps-IsConsistent now s.jobs c job.id "").0;
    counted = omega arith;
    same_stale = refl;
  }

  park_one-IsRouted :
      (job : ClaimedJob) (detail : String) (s : Swept W)
      → IsRouted s (park_one reconcilers now job detail s)
  unfolding park_one
  park_one-IsRouted job detail s = record {
    kept = λ c. (sweeps-IsConsistent now s.jobs c job.id detail).1;
    counted = omega arith;
    same_stale = refl;
  }

  resolve_one-IsRouted :
      (job : ClaimedJob) (s : Swept W) → IsRouted s (resolve_one reconcilers now job s)
  unfolding resolve_one
  resolve_one-IsRouted job s = record {
    kept = λ c. (sweeps-IsConsistent now s.jobs c job.id "").2;
    counted = omega arith;
    same_stale = refl;
  }

  after_outcome-IsRouted :
      (job : ClaimedJob) (o : ReconcileOutcome) (s : Swept W)
      → IsRouted s (after_outcome reconcilers now job o s)
  unfolding after_outcome
  after_outcome-IsRouted job safe_to_dispatch s = requeue_one-IsRouted job s
  after_outcome-IsRouted job resolved s = resolve_one-IsRouted job s
  after_outcome-IsRouted job inconclusive s = park_one-IsRouted job _ s

  sweep_one-IsRouted :
      (job : ClaimedJob) (p : RecoveryPolicy) (s : Swept W)
      → IsRouted s (sweep_one reconcilers now job p s)
  unfolding sweep_one retry_one reconcile_one
  sweep_one-IsRouted job retry s = elim (Bool-cases (leb job.max_attempts job.attempts)) [
    | inl e ↦ rw e (park_one-IsRouted job _ s)
    | inr e ↦ rw e (requeue_one-IsRouted job s)
  ]
  sweep_one-IsRouted job reconcile s = elim (Option-cases (reconcilers job.kind)) [
    | inl e ↦ rw (e, reconcile_one) (park_one-IsRouted job _ s)
    | inr (r, e) ↦
        rw (e, reconcile_one)
          (let step = after_outcome-IsRouted job (r s.world job).0 _ in
            record { kept = step.kept; counted = step.counted; same_stale = step.same_stale })
  ]

  sweep_jobs-kept :
      (jobs : List ClaimedJob) (s : Swept W)
      → IsConsistent s.jobs
      → IsConsistent (sweep_jobs reconcilers now jobs s).jobs
        × (routed (sweep_jobs reconcilers now jobs s).report ≡ length jobs + routed s.report)
        × ((sweep_jobs reconcilers now jobs s).report.stale ≡ s.report.stale)
  unfolding sweep_jobs
  sweep_jobs-kept [] s c = (c, omega arith, refl)
  sweep_jobs-kept (job ∷ jobs) s c =
      let step = sweep_one-IsRouted job (policy_for job.kind) s in
      let (kept, counted, stale) =
        sweep_jobs-kept jobs (sweep_one reconcilers now job (policy_for job.kind) s)
          (step.kept c) in
      (kept, omega (arith, counted, step.counted), stale ∙ step.same_stale)

  -- A sweep, with or without the advisory lock and whatever its reconcilers answer, keeps the
  -- constraints of a table that satisfies them, and each stale job that it reports is counted once
  -- as requeued, parked or resolved.
  pub sweep-IsConsistent :
      (got : Bool) (locked : ℕ → Bool) (limit : ℕ) (t : Jobs) (w : W)
      → IsConsistent t
      → IsConsistent (sweep reconcilers now got locked limit t w).jobs
        × (routed (sweep reconcilers now got locked limit t w).report
            ≡ (sweep reconcilers now got locked limit t w).report.stale)
  unfolding sweep
  sweep-IsConsistent true locked limit t w c =
      let (kept, counted, stale) = sweep_jobs-kept (select_stale now locked limit t) _ c in
      (kept, omega (arith, counted, stale))
  sweep-IsConsistent false locked limit t w c = (c, omega arith)
