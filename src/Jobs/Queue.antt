-- ===== src/Jobs/Queue.antt =====
-- packages/core/jobs/queue.py without the claim: enqueue, the compare-and-swap transitions of a
-- worker, the sweeper's transitions and the operator's retry. Each statement is one function of the
-- table, the transaction's `now` and the statement's parameters; a rollback is the old table.
pub mod Consistent
pub mod Preserved
pub mod Entry
pub mod Swap
use Prim.Native.String.{len, slice}
use unified_search_safe_send.Prelude.{
  ℕ, ◌+◌, ◌*◌, max, Bool, true, false, ◌&&◌, Option, none, some, List, [], ◌∷◌, ◌++◌, String, leb,
  ◌==◌, if◌then◌else◌, or_default, update_where, rowcount, where_, exists_where, take, map,
}
use unified_search_safe_send.Enums.{
  JobKind, JobState, ErrorClass, ready, succeeded, failed, parked, transient,
}
use unified_search_safe_send.Jobs.Backoff.{full_jitter}
use unified_search_safe_send.Jobs.Table.{
  Job, Jobs, ClaimedJob, from_row, is_running, is_live, is_resumable, sql_eq, held_by, running_row,
}

abbrev pub max_error_detail_bytes : ℕ
max_error_detail_bytes = 16 * 1024

-- A text stands for its bytes in UTF-8. Where the cut splits a character, the source also drops that
-- character's first bytes, and the model keeps them.
unfoldable pub cap : String → String
cap detail =
    if leb (len detail) max_error_detail_bytes
    then detail
    else slice detail 0 max_error_detail_bytes

pub record Enqueue : Type 0 where
  pub kind : JobKind
  pub ref_id : ℕ
  pub dedupe_key : Option String
  pub partition_key : Option String
  pub priority : ℕ
  pub run_at : Option ℕ
  pub max_attempts : Option ℕ

-- the row that the INSERT would write; `limit` is the setting MAX_ATTEMPTS
unfoldable pub new_job : ℕ → ℕ → ℕ → Enqueue → Job
new_job now limit id e = record {
  id = id;
  kind = e.kind;
  ref_id = e.ref_id;
  dedupe_key = e.dedupe_key;
  partition_key = e.partition_key;
  state = ready;
  priority = e.priority;
  run_at = or_default e.run_at now;
  attempts = 0;
  max_attempts = or_default e.max_attempts limit;
  backoff_seconds = none;
  claimed_at = none;
  claimed_by = none;
  lease_expires_at = none;
  started_at = none;
  finished_at = none;
  last_error_class = none;
  last_error_detail = none;
  last_error_at = none;
  created_at = now;
  updated_at = now;
}

-- a live row that holds the key, in the sense of the partial unique index `jobs_dedupe_idx`
abbrev pub live_duplicate : Option String → Job → Bool
live_duplicate key j = is_live j.state && sql_eq j.dedupe_key key

-- The sequence moves on a conflict too.
unfoldable pub enqueue : ℕ → ℕ → Jobs → Enqueue → Option ℕ × Jobs
unfolding new_job
enqueue now limit t e =
    let after = t.next_id + 1 in
    if exists_where (live_duplicate e.dedupe_key) t.rows
    then (none, record t { next_id = after })
    else (
      some t.next_id,
      record { rows = t.rows ++ new_job now limit t.next_id e ∷ []; next_id = after },
    )

abbrev pub update_rows : (Job → Bool) → (Job → Job) → Jobs → Jobs
update_rows p f t = record t { rows = update_where p f t.rows }

-- the SET clause that `_SUCCEED` and `_RESOLVE` share
abbrev pub set_succeeded : ℕ → Job → Job
set_succeeded now j = record j {
  state = succeeded;
  finished_at = some now;
  lease_expires_at = none;
  backoff_seconds = none;
  updated_at = now;
}

unfoldable pub succeed : ℕ → Jobs → ℕ → String → Bool × Jobs
succeed now t id worker = (
  rowcount (held_by id worker) t.rows == 1,
  update_rows (held_by id worker) (set_succeeded now) t,
)

abbrev pub set_retry : ℕ → ℕ → ErrorClass → String → Job → Job
set_retry now delay error_class detail j = record j {
  state = ready;
  run_at = now + delay;
  backoff_seconds = some delay;
  lease_expires_at = none;
  last_error_class = some error_class;
  last_error_detail = some detail;
  last_error_at = some now;
  updated_at = now;
}

abbrev pub set_terminal : ℕ → JobState → ErrorClass → String → Job → Job
set_terminal now state error_class detail j = record j {
  state = state;
  finished_at = some now;
  lease_expires_at = none;
  backoff_seconds = none;
  last_error_class = some error_class;
  last_error_detail = some detail;
  last_error_at = some now;
  updated_at = now;
}

pub record FailOutcome : Type 0 where
  pub state : JobState
  pub delay_seconds : Option ℕ
  pub applied : Bool

abbrev pub is_transient : ErrorClass → Bool
is_transient transient = true
is_transient _ = false

-- what a failure does to the row, and the state and delay that it reports
unfoldable pub fail_plan :
    (ℕ → ℕ → ℕ)
    → ℕ
    → ClaimedJob
    → ErrorClass
    → String
    → Option ℕ
    → JobState × Option ℕ × (Job → Job)
fail_plan uniform now job error_class detail retry_after =
    if is_transient error_class
    then (if leb job.max_attempts job.attempts
        then (parked, none, set_terminal now parked error_class (cap detail))
        else let delay = full_jitter uniform job.attempts retry_after in
          (ready, some delay, set_retry now delay error_class (cap detail)))
    else (failed, none, set_terminal now failed error_class (cap detail))

unfoldable pub fail :
    (ℕ → ℕ → ℕ)
    → ℕ
    → Jobs
    → ClaimedJob
    → String
    → ErrorClass
    → String
    → Option ℕ
    → FailOutcome × Jobs
unfolding fail_plan
fail uniform now t job worker error_class detail retry_after =
    let (state, delay, change) = fail_plan uniform now job error_class detail retry_after in
    (
      record {
        state = state;
        delay_seconds = delay;
        applied = rowcount (held_by job.id worker) t.rows == 1;
      },
      update_rows (held_by job.id worker) change t,
    )

abbrev pub set_requeued : ℕ → Job → Job
set_requeued now j = record j {
  state = ready;
  run_at = now;
  lease_expires_at = none;
  updated_at = now;
}

unfoldable pub requeue : ℕ → Jobs → ℕ → Bool × Jobs
requeue now t id =
    (rowcount (running_row id) t.rows == 1, update_rows (running_row id) (set_requeued now) t)

abbrev pub set_parked : ℕ → String → Job → Job
set_parked now detail j = record j {
  state = parked;
  finished_at = some now;
  lease_expires_at = none;
  last_error_class = some transient;
  last_error_detail = some detail;
  last_error_at = some now;
  updated_at = now;
}

unfoldable pub park : ℕ → Jobs → ℕ → String → Bool × Jobs
park now t id detail = (
  rowcount (running_row id) t.rows == 1,
  update_rows (running_row id) (set_parked now (cap detail)) t,
)

unfoldable pub resolve : ℕ → Jobs → ℕ → Bool × Jobs
resolve now t id =
    (rowcount (running_row id) t.rows == 1, update_rows (running_row id) (set_succeeded now) t)

abbrev pub resumable_row : ℕ → Job → Bool
resumable_row id j = j.id == id && is_resumable j.state

abbrev pub set_resumed : ℕ → ℕ → Job → Job
set_resumed now grant j = record j {
  state = ready;
  run_at = now;
  finished_at = none;
  lease_expires_at = none;
  backoff_seconds = none;
  max_attempts = max j.max_attempts (j.attempts + grant);
  updated_at = now;
}

-- a row that a resumed row would meet in `jobs_dedupe_idx`
abbrev pub clashes : ℕ → List Job → Job → Bool
clashes id rows j = resumable_row id j && exists_where (live_duplicate j.dedupe_key) rows

-- `none` is the IntegrityError of `jobs_dedupe_idx`: another live row holds the same key.
unfoldable pub operator_retry : ℕ → Jobs → ℕ → ℕ → Option (Bool × Jobs)
operator_retry now t id extra_attempts =
    if exists_where (clashes id t.rows) t.rows
    then none
    else some (
      leb 1 (rowcount (resumable_row id) t.rows),
      update_rows (resumable_row id) (set_resumed now extra_attempts) t,
    )

-- ORDER BY lease_expires_at, with the rows that other transactions hold skipped
abbrev lease_key : Job → ℕ
lease_key j = or_default j.lease_expires_at 0

insert_by_lease : Job → List Job → List Job
insert_by_lease j [] = j ∷ []
insert_by_lease j (k ∷ ks) =
    let rest = insert_by_lease j ks in
    if leb (lease_key j) (lease_key k) then j ∷ k ∷ ks else k ∷ rest

sort_by_lease : List Job → List Job
sort_by_lease [] = []
sort_by_lease (j ∷ js) = insert_by_lease j (sort_by_lease js)

abbrev pub stale : ℕ → (ℕ → Bool) → Job → Bool
stale now locked j =
    is_running j.state
    && (elim j.lease_expires_at [ none ↦ false | some e ↦ leb (e + 1) now ]
        && (if locked j.id then false else true))

unfoldable pub select_stale : ℕ → (ℕ → Bool) → ℕ → Jobs → List ClaimedJob
unfolding sort_by_lease insert_by_lease from_row
select_stale now locked limit t =
    map from_row (take limit (sort_by_lease (where_ (stale now locked) t.rows)))
