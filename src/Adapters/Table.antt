-- ===== src/Adapters/Table.antt =====
-- The `searches`, `adapter_runs` and `search_results` tables (packages/core/models.py). A uuid is an
-- opaque number, a score the bit pattern of a float, and a time is in microseconds.
use unified_search_safe_send.Prelude.{ℕ, Bool, true, false, Option, List, String, ◌==◌}
use unified_search_safe_send.Enums.{RunStatus, pending, running, SourceMode, ErrorClass}
use unified_search_safe_send.Connections.Row.{Connection}
use unified_search_safe_send.Jobs.Table.{Jobs}

pub record Search : Type 0 where
  pub id : ℕ
  pub user_id : ℕ
  pub query : String
  pub is_seed : Bool
  pub created_at : ℕ
  pub finished_at : Option ℕ

pub record AdapterRun : Type 0 where
  pub id : ℕ
  pub search_id : ℕ
  pub source : String
  pub connection_id : Option ℕ
  pub status : RunStatus
  pub mode : SourceMode
  pub result_count : ℕ
  pub error_class : Option ErrorClass
  pub error_detail : Option String
  pub started_at : Option ℕ
  pub finished_at : Option ℕ

pub record SearchResult : Type 0 where
  pub search_id : ℕ
  pub adapter_run_id : ℕ
  pub source : String
  pub external_id : String
  pub title : String
  pub snippet : String
  pub author : Option String
  pub occurred_at : Option ℕ
  pub url : String
  pub source_rank : ℕ
  pub blended_score : ℕ

pub record SearchDb : Type 0 where
  pub searches : List Search
  pub runs : List AdapterRun
  pub results : List SearchResult
  pub connections : List Connection
  pub jobs : Jobs

-- `status IN ('pending','running')`
abbrev pub is_outstanding : RunStatus → Bool
is_outstanding pending = true
is_outstanding running = true
is_outstanding _ = false

abbrev pub of_search : ℕ → AdapterRun → Bool
of_search search_id r = r.search_id == search_id

abbrev pub has_run_id : ℕ → AdapterRun → Bool
has_run_id id r = r.id == id

abbrev pub of_run : ℕ → SearchResult → Bool
of_run run_id r = r.adapter_run_id == run_id
