-- ===== src/Jobs/Runtime/Settles.antt =====
-- What the end of an execution does to the jobs table.
use unified_search_safe_send.Prelude.{
  ◌≢◌, update-In, ℕ, ◌≡◌, refl, ◌⊎◌, inl, inr, true, false, Option, String, arith, Bool-cases,
  if◌then◌else◌, In, In-update, leb,
}
use unified_search_safe_send.Enums.{JobState, ErrorClass}
use unified_search_safe_send.Jobs.Table.{Job, Jobs, ClaimedJob, held_by, is_running}
use unified_search_safe_send.Jobs.Queue.{fail_plan, is_transient, update_rows}
use unified_search_safe_send.Jobs.Queue.Consistent.{IsConsistent}
use unified_search_safe_send.Jobs.Runtime.{Execution, did_break, execution_of}

-- no row of the job is leased to the worker
abbrev pub IsReleased : String → Jobs → ℕ → Type 0
IsReleased worker t id = (x : Job) → In x t.rows → held_by id worker x ≡ false

-- an ending leaves the row that it changes not running
unfoldable pub Ends : (Job → Job) → Type 0
Ends f = (x : Job) → is_running (f x).state ≡ false

IsReleased-own :
    (worker : String) (t : Jobs) (id : ℕ) (f : Job → Job)
    → Ends f
    → IsReleased worker (update_rows (held_by id worker) f t) id
unfolding Ends
IsReleased-own worker t id f ends y m =
    let (x, mx, e) = In-update (held_by id worker) f t.rows y m in
    rw e (at x (Bool-cases (held_by id worker x)))
  where
    at :
        (x : Job)
        → (held_by id worker x ≡ true) ⊎ (held_by id worker x ≡ false)
        → held_by id worker (if held_by id worker x then f x else x) ≡ false
    at x (inl t) = rw t (ground (arith, ends x))
    at x (inr t) = rw t t

IsReleased-other :
    (worker : String) (t : Jobs) (id other : ℕ) (f : Job → Job)
    → Ends f
    → IsReleased worker t other
    → IsReleased worker (update_rows (held_by id worker) f t) other
unfolding Ends
IsReleased-other worker t id other f ends h y m =
    let (x, mx, e) = In-update (held_by id worker) f t.rows y m in
    rw e (at x mx (Bool-cases (held_by id worker x)))
  where
    at :
        (x : Job)
        → In x t.rows
        → (held_by id worker x ≡ true) ⊎ (held_by id worker x ≡ false)
        → held_by other worker (if held_by id worker x then f x else x) ≡ false
    at x mx (inl t) = rw t (ground (arith, ends x))
    at x mx (inr t) = rw t (h x mx)

pub plan-Ends :
    (uniform : ℕ → ℕ → ℕ) (now : ℕ) (job : ClaimedJob) (e : ErrorClass) (text : String)
    (retry_after : Option ℕ)
    → Ends (fail_plan uniform now job e text retry_after).2
unfolding fail_plan Ends
plan-Ends uniform now job e text retry_after x = elim (Bool-cases (is_transient e)) [
  | inr t ↦ ground (arith, t)
  | inl t ↦ elim (Bool-cases (leb job.max_attempts job.attempts)) [
    | inl c ↦ ground (arith, t, c)
    | inr c ↦ ground (arith, t, c)
  ]
]

pub execution_of-ends : (state : JobState) → did_break (execution_of state) ≡ false
execution_of-ends JobState.ready = refl
execution_of-ends JobState.running = refl
execution_of-ends JobState.succeeded = refl
execution_of-ends JobState.failed = refl
execution_of-ends JobState.parked = refl
execution_of-ends JobState.cancelled = refl

-- what an execution does to the table: it ends the job's lease or, broken, changes nothing; it ends no
-- other job's lease for worse, and leaves the rows of other jobs
pub record Settles (worker : String) (id : ℕ) (e : Execution) (before after : Jobs) : Type 0 where
  pub own : did_break e ≡ false → IsReleased worker after id
  pub untouched : did_break e ≡ true → after ≡ before
  pub others : (other : ℕ) → IsReleased worker before other → IsReleased worker after other
  pub elsewhere : (x : Job) → In x before.rows → x.id ≢ id → In x after.rows
  pub consistent : IsConsistent before → IsConsistent after

elsewhere-In :
    (worker : String) (t : Jobs) (id : ℕ) (f : Job → Job) (x : Job)
    → In x t.rows
    → x.id ≢ id
    → In x (update_rows (held_by id worker) f t).rows
elsewhere-In worker t id f x m n =
    let free : held_by id worker x ≡ false = ground (arith, n) in
    rw free at (update-In (held_by id worker) f t.rows x m)

-- nothing done
pub broken-Settles : (worker : String) (id : ℕ) (t : Jobs) → Settles worker id Execution.broken t t
broken-Settles worker id t = record {
  own = λ h. cc (h);
  untouched = λ h. refl;
  others = λ other h. h;
  elsewhere = λ x m n. m;
  consistent = λ c. c;
}

-- an ending of the job's own lease
pub ending-Settles :
    (worker : String) (id : ℕ) (t : Jobs) (f : Job → Job) (e : Execution)
    → Ends f
    → did_break e ≡ false
    → (IsConsistent t → IsConsistent (update_rows (held_by id worker) f t))
    → Settles worker id e t (update_rows (held_by id worker) f t)
ending-Settles worker id t f e ends whole keeps = record {
  own = λ h. IsReleased-own worker t id f ends;
  untouched = λ h. cc (h, whole);
  others = λ other h. IsReleased-other worker t id other f ends h;
  elsewhere = elsewhere-In worker t id f;
  consistent = keeps;
}
