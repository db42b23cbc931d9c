-- ===== src/Jobs/Queue/Swap.antt =====
-- The compare-and-swap of a worker's bookkeeping: a worker that lost its lease changes nothing, and
-- one that holds it is told so.
use unified_search_safe_send.Prelude.{
  ℕ, ◌≡◌, refl, true, false, Option, String, arith, In, update-none, rowcount-one, rowcount, ◌==◌,
}
use unified_search_safe_send.Enums.{ErrorClass}
use unified_search_safe_send.Jobs.Table.{Job, Jobs, ClaimedJob, held_by}
use unified_search_safe_send.Jobs.Queue.{succeed, fail, fail_plan, set_succeeded}
use unified_search_safe_send.Jobs.Queue.Consistent.{IsConsistent}

module _ (now : ℕ) (t : Jobs) (job : ClaimedJob) (worker : String) where
  -- A worker whose row was requeued, claimed by another worker or finished since: its success and
  -- its failure both report that they did not apply, and neither changes the table.
  pub lost_lease :
      (uniform : ℕ → ℕ → ℕ) (e : ErrorClass) (detail : String) (retry_after : Option ℕ)
      → ((x : Job) → In x t.rows → held_by job.id worker x ≡ false)
      → (succeed now t job.id worker ≡ (false, t))
        × ((fail uniform now t job worker e detail retry_after).0.applied ≡ false)
        × ((fail uniform now t job worker e detail retry_after).1 ≡ t)
  unfolding succeed fail
  lost_lease uniform e detail retry_after h =
      let (same, zero_rows) = update-none (held_by job.id worker) (set_succeeded now) t.rows h in
      let (same', _) = update-none (held_by job.id worker) change t.rows h in
      (rw (same, zero_rows) refl, rw zero_rows refl, rw same' refl)
    where
      change : Job → Job
      change = (fail_plan uniform now job e detail retry_after).2

  -- A worker that holds the row is told that its success and its failure applied.
  pub held_lease :
      (uniform : ℕ → ℕ → ℕ) (e : ErrorClass) (detail : String) (retry_after : Option ℕ) (x : Job)
      → IsConsistent t
      → In x t.rows
      → held_by job.id worker x ≡ true
      → ((succeed now t job.id worker).0 ≡ true)
        × ((fail uniform now t job worker e detail retry_after).0.applied ≡ true)
  unfolding succeed fail
  held_lease uniform e detail retry_after x c m h = (one, one)
    where
      one : (rowcount (held_by job.id worker) t.rows == 1) ≡ true
      one =
          rowcount-one (λ j. j.id) (held_by job.id worker) job.id t.rows x (λ y q. ground arith)
            c.distinct m h
