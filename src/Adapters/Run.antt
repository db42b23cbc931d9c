-- ===== src/Adapters/Run.antt =====
-- packages/core/jobs/handlers.py: the adapter job. Each UPDATE commits on its own.
pub mod Replaced
pub mod Early
use unified_search_safe_send.Prelude.{
  ℕ, Bool, true, false, not, ◌&&◌, Option, none, some, List, String, ltb, coalesce, first_where,
  update_where, if◌then◌else◌,
}
use unified_search_safe_send.Enums.{RunStatus, running, failed, ErrorClass, transient}
use unified_search_safe_send.Errors.{Exn, classify, str}
use unified_search_safe_send.Jobs.Table.{ClaimedJob}
use unified_search_safe_send.Jobs.Queue.{is_transient}
use unified_search_safe_send.Connections.Row.{mark_success}
use unified_search_safe_send.Adapters.Registry.{Registration}
use unified_search_safe_send.Adapters.Table.{Search, AdapterRun, SearchDb, has_run_id}
use unified_search_safe_send.Adapters.Orchestrator.{
  Searched, Executed, stored, not_stored, execute_adapter_run, close_search_if_complete,
}

pub data Ran : Type 0 where
  returned : Ran
  raised : Exn → Ran

abbrev pub failure_status : ErrorClass → RunStatus
failure_status ErrorClass.needs_reconnect = RunStatus.needs_reconnect
failure_status _ = failed

abbrev pub will_retry : Exn → ClaimedJob → Bool
will_retry e job = is_transient (classify e) && ltb job.attempts job.max_attempts

module _ (now : ℕ) where
  abbrev pub set_started : AdapterRun → AdapterRun
  set_started r = record r {
    status = running;
    started_at = coalesce r.started_at (some now);
    error_class = none;
    error_detail = none;
  }

  unfoldable pub mark_run_started : SearchDb → ℕ → SearchDb
  mark_run_started db run_id = record db {
    runs = update_where (has_run_id run_id) set_started db.runs;
  }

  abbrev pub set_failed : Exn → AdapterRun → AdapterRun
  set_failed e r = record r {
    status = failure_status (classify e);
    finished_at = some now;
    error_class = some (classify e);
    error_detail = some (str e);
  }

  unfoldable pub record_run_failure : SearchDb → ℕ → ℕ → Exn → ClaimedJob → SearchDb
  record_run_failure db run_id search_id e job =
      let after = record db { runs = update_where (has_run_id run_id) (set_failed e) db.runs } in
      if will_retry e job then after else close_search_if_complete now after search_id

  -- connections.record_success, whose failure is swallowed
  unfoldable pub record_success : SearchDb → Option ℕ → SearchDb
  record_success db none = db
  record_success db (some connection_id) = record db {
    connections = mark_success now connection_id db.connections;
  }

  module _ (recency : Option ℕ → ℕ) (score : ℕ → Option ℕ → ℕ) (parse_iso8601 : String → Option ℕ)
      (naive : String → Bool) where
    unfoldable pub after_execution : AdapterRun → ClaimedJob → SearchDb → Executed → Ran × SearchDb
    after_execution run job db (not_stored e) =
        (raised e, record_run_failure db run.id run.search_id e job)
    after_execution run job db (stored count after) = (
      returned,
      close_search_if_complete now (record_success after run.connection_id) run.search_id,
    )

    -- `answer` is what the adapter gives in this run
    unfoldable pub run_adapter :
        List Registration → Searched → SearchDb → ClaimedJob → Ran × SearchDb
    run_adapter registry answer db job = elim (first_where (has_run_id job.ref_id) db.runs) [
      | none ↦ (returned, db)
      | some run ↦
          let started = mark_run_started db run.id in
          after_execution run job started
            (execute_adapter_run recency score parse_iso8601 naive now registry answer started run)
    ]
