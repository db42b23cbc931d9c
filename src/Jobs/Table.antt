-- ===== src/Jobs/Table.antt =====
-- The `jobs` table (migrations/versions/0002_core_schema.py, packages/core/models.py) as a list of
-- rows beside the identity sequence, and `ClaimedJob`, the worker's copy of a row. A column that
-- PostgreSQL lets be NULL is an `Option`; a time is in microseconds; `ref_id` is an opaque number.
use unified_search_safe_send.Prelude.{
  ℕ, Bool, true, false, ◌&&◌, Option, none, some, List, String, str_eq, ◌==◌,
}
use unified_search_safe_send.Enums.{JobKind, JobState, ErrorClass, ready, running, parked, failed}

pub record Job : Type 0 where
  pub id : ℕ
  pub kind : JobKind
  pub ref_id : ℕ
  pub dedupe_key : Option String
  pub partition_key : Option String
  pub state : JobState
  pub priority : ℕ
  pub run_at : ℕ
  pub attempts : ℕ
  pub max_attempts : ℕ
  pub backoff_seconds : Option ℕ
  pub claimed_at : Option ℕ
  pub claimed_by : Option String
  pub lease_expires_at : Option ℕ
  pub started_at : Option ℕ
  pub finished_at : Option ℕ
  pub last_error_class : Option ErrorClass
  pub last_error_detail : Option String
  pub last_error_at : Option ℕ
  pub created_at : ℕ
  pub updated_at : ℕ

pub record Jobs : Type 0 where
  pub rows : List Job
  pub next_id : ℕ

pub record ClaimedJob : Type 0 where
  pub id : ℕ
  pub kind : JobKind
  pub ref_id : ℕ
  pub attempts : ℕ
  pub max_attempts : ℕ
  pub partition_key : Option String
  pub dedupe_key : Option String
  pub claimed_by : Option String
  pub lease_expires_at : Option ℕ
  pub started_at : Option ℕ

unfoldable pub from_row : Job → ClaimedJob
from_row row = record {
  id = row.id;
  kind = row.kind;
  ref_id = row.ref_id;
  attempts = row.attempts;
  max_attempts = row.max_attempts;
  partition_key = row.partition_key;
  dedupe_key = row.dedupe_key;
  claimed_by = row.claimed_by;
  lease_expires_at = row.lease_expires_at;
  started_at = row.started_at;
}

abbrev pub is_ready : JobState → Bool
is_ready ready = true
is_ready _ = false

abbrev pub is_running : JobState → Bool
is_running running = true
is_running _ = false

-- `state IN ('ready','running')`
abbrev pub is_live : JobState → Bool
is_live ready = true
is_live running = true
is_live _ = false

-- `state IN ('parked','failed')`
abbrev pub is_resumable : JobState → Bool
is_resumable parked = true
is_resumable failed = true
is_resumable _ = false

-- SQL's `a = b`, which a NULL on either side does not pass
abbrev pub sql_eq : Option String → Option String → Bool
sql_eq none _ = false
sql_eq (some a) none = false
sql_eq (some a) (some b) = str_eq a b

-- `WHERE id = :id AND state = 'running' AND claimed_by = :worker`
abbrev pub held_by : ℕ → String → Job → Bool
held_by id worker j = j.id == id && (is_running j.state && sql_eq j.claimed_by (some worker))

-- `WHERE id = :id AND state = 'running'`
abbrev pub running_row : ℕ → Job → Bool
running_row id j = j.id == id && is_running j.state
