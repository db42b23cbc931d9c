-- ===== src/Jobs/Queue/Preserved.antt =====
-- Every transition of the queue keeps the constraints of the `jobs` table.
use unified_search_safe_send.Prelude.{
  ℕ, ◌≡◌, refl, Bool, true, false, Option, none, String, arith, Bool-cases, inl, inr, leb,
}
use unified_search_safe_send.Enums.{ErrorClass, JobState, parked, failed}
use unified_search_safe_send.Jobs.Backoff.{full_jitter}
use unified_search_safe_send.Jobs.Table.{Job, Jobs, ClaimedJob, held_by, running_row, is_running}
use unified_search_safe_send.Jobs.Queue.{
  succeed, fail, fail_plan, requeue, park, resolve, set_succeeded, set_retry, set_terminal,
  set_requeued, set_parked, is_transient, cap, update_rows,
}
use unified_search_safe_send.Jobs.Queue.Consistent.{IsConsistent, IsTame, update_rows-IsConsistent}

-- What a finished or requeued row keeps.
record IsRelease (f : Job → Job) : Type 0 where
  id : (x : Job) → (f x).id ≡ x.id
  partition_key : (x : Job) → (f x).partition_key ≡ x.partition_key
  dedupe_key : (x : Job) → (f x).dedupe_key ≡ x.dedupe_key
  attempts : (x : Job) → (f x).attempts ≡ x.attempts
  max_attempts : (x : Job) → (f x).max_attempts ≡ x.max_attempts
  stopped : (x : Job) → is_running (f x).state ≡ false
  unleased : (x : Job) → (f x).lease_expires_at ≡ none

IsRelease-IsTame :
    (f : Job → Job) (x : Job) → IsRelease f → is_running x.state ≡ true → IsTame x (f x)
IsRelease-IsTame f x r run = record {
  same_id = r.id x;
  same_partition = r.partition_key x;
  same_dedupe = r.dedupe_key x;
  still_bounded = λ b. rw (r.attempts x, r.max_attempts x) b;
  still_leased = λ b. ground (arith, r.stopped x, r.unleased x);
  was_running = λ b. run;
  was_live = λ b. ground arith;
}

release-IsConsistent :
    (p : Job → Bool) (f : Job → Job) (t : Jobs)
    → ((x : Job) → p x ≡ true → is_running x.state ≡ true)
    → IsRelease f
    → IsConsistent t
    → IsConsistent (update_rows p f t)
release-IsConsistent p f t run r =
    update_rows-IsConsistent p f t r.id (λ x h. IsRelease-IsTame f x r (run x h))

held_by-running :
    (id : ℕ) (w : String) (x : Job) → held_by id w x ≡ true → is_running x.state ≡ true
held_by-running id w x h = ground arith

running_row-running : (id : ℕ) (x : Job) → running_row id x ≡ true → is_running x.state ≡ true
running_row-running id x h = ground arith

set_succeeded-IsRelease : (now : ℕ) → IsRelease (set_succeeded now)
set_succeeded-IsRelease now = record {
  id = λ x. refl;
  partition_key = λ x. refl;
  dedupe_key = λ x. refl;
  attempts = λ x. refl;
  max_attempts = λ x. refl;
  stopped = λ x. refl;
  unleased = λ x. refl;
}

set_requeued-IsRelease : (now : ℕ) → IsRelease (set_requeued now)
set_requeued-IsRelease now = record {
  id = λ x. refl;
  partition_key = λ x. refl;
  dedupe_key = λ x. refl;
  attempts = λ x. refl;
  max_attempts = λ x. refl;
  stopped = λ x. refl;
  unleased = λ x. refl;
}

set_parked-IsRelease : (now : ℕ) (detail : String) → IsRelease (set_parked now detail)
set_parked-IsRelease now detail = record {
  id = λ x. refl;
  partition_key = λ x. refl;
  dedupe_key = λ x. refl;
  attempts = λ x. refl;
  max_attempts = λ x. refl;
  stopped = λ x. refl;
  unleased = λ x. refl;
}

set_retry-IsRelease :
    (now delay : ℕ) (e : ErrorClass) (detail : String) → IsRelease (set_retry now delay e detail)
set_retry-IsRelease now delay e detail = record {
  id = λ x. refl;
  partition_key = λ x. refl;
  dedupe_key = λ x. refl;
  attempts = λ x. refl;
  max_attempts = λ x. refl;
  stopped = λ x. refl;
  unleased = λ x. refl;
}

set_terminal-IsRelease :
    (now : ℕ) (s : JobState) (e : ErrorClass) (detail : String)
    → is_running s ≡ false
    → IsRelease (set_terminal now s e detail)
set_terminal-IsRelease now s e detail h = record {
  id = λ x. refl;
  partition_key = λ x. refl;
  dedupe_key = λ x. refl;
  attempts = λ x. refl;
  max_attempts = λ x. refl;
  stopped = λ x. h;
  unleased = λ x. refl;
}

fail_plan-IsRelease :
    (uniform : ℕ → ℕ → ℕ) (now : ℕ) (job : ClaimedJob) (e : ErrorClass) (d : String) (r : Option ℕ)
    → IsRelease (fail_plan uniform now job e d r).2
unfolding fail_plan
fail_plan-IsRelease uniform now job e d r = elim (Bool-cases (is_transient e)) [
  | inl t ↦ elim (Bool-cases (leb job.max_attempts job.attempts)) [
    | inl top ↦ rw (t, top) (set_terminal-IsRelease now parked e (cap d) refl)
    | inr below ↦
        rw (t, below) (set_retry-IsRelease now (full_jitter uniform job.attempts r) e (cap d))
  ]
  | inr t ↦ rw t (set_terminal-IsRelease now failed e (cap d) refl)
]

module _ (now : ℕ) (t : Jobs) (c : IsConsistent t) where
  succeed-IsConsistent : (id : ℕ) (w : String) → IsConsistent (succeed now t id w).1
  unfolding succeed
  succeed-IsConsistent id w =
      release-IsConsistent (held_by id w) _ t (held_by-running id w) (set_succeeded-IsRelease now) c

  requeue-IsConsistent : (id : ℕ) → IsConsistent (requeue now t id).1
  unfolding requeue
  requeue-IsConsistent id =
      release-IsConsistent (running_row id) _ t (running_row-running id)
        (set_requeued-IsRelease now) c

  resolve-IsConsistent : (id : ℕ) → IsConsistent (resolve now t id).1
  unfolding resolve
  resolve-IsConsistent id =
      release-IsConsistent (running_row id) _ t (running_row-running id)
        (set_succeeded-IsRelease now) c

  park-IsConsistent : (id : ℕ) (d : String) → IsConsistent (park now t id d).1
  unfolding park
  park-IsConsistent id d =
      release-IsConsistent (running_row id) _ t (running_row-running id)
        (set_parked-IsRelease now (cap d)) c

  fail-IsConsistent :
      (uniform : ℕ → ℕ → ℕ) (job : ClaimedJob) (w : String) (e : ErrorClass) (d : String)
      (r : Option ℕ)
      → IsConsistent (fail uniform now t job w e d r).1
  unfolding fail
  fail-IsConsistent uniform job w e d r =
      release-IsConsistent (held_by job.id w) _ t (held_by-running job.id w)
        (fail_plan-IsRelease uniform now job e d r) c

  -- Both endings of a run, success and failure of any class, keep the constraints of a table that
  -- satisfies them, whether or not the worker still holds its lease.
  pub endings-IsConsistent :
      (uniform : ℕ → ℕ → ℕ) (job : ClaimedJob) (worker : String) (e : ErrorClass) (detail : String)
      (retry_after : Option ℕ)
      → IsConsistent (succeed now t job.id worker).1
        × IsConsistent (fail uniform now t job worker e detail retry_after).1
  endings-IsConsistent uniform job worker e detail retry_after = (
    succeed-IsConsistent job.id worker,
    fail-IsConsistent uniform job worker e detail retry_after,
  )

  -- The sweeper's three ways with an orphaned row, requeue, park and resolve, keep the constraints of
  -- a table that satisfies them.
  pub sweeps-IsConsistent :
      (id : ℕ) (detail : String)
      → IsConsistent (requeue now t id).1
        × IsConsistent (park now t id detail).1
        × IsConsistent (resolve now t id).1
  sweeps-IsConsistent id detail =
      (requeue-IsConsistent id, park-IsConsistent id detail, resolve-IsConsistent id)
