-- ===== src/Adapters/Orchestrator.antt =====
-- packages/core/adapters/orchestrator.py: the fan-out of a search, the execution of one run and the
-- closing of the search. What an adapter answers, its own deadline included, is an argument, as are
-- the uuids of new rows, the parser of timestamps and the arithmetic of scores.
use unified_search_safe_send.Prelude.{
  ℕ, suc, Bool, false, not, ◌&&◌, Option, none, some, List, [], ◌∷◌, ◌++◌, String, ◌==◌, str_eq,
  is_some, leb, if◌then◌else◌, first_where, where_, update_where, exists_where, length, map,
}
use unified_search_safe_send.Prelude.Text.{◌<>◌, show}
use unified_search_safe_send.Enums.{JobKind, SourceMode, pending, done}
use unified_search_safe_send.Errors.{Exn}
use unified_search_safe_send.Send.Digest.{channel_value}
use unified_search_safe_send.Jobs.Queue.{Enqueue, enqueue}
use unified_search_safe_send.Connections.Row.{Connection, is_active}
use unified_search_safe_send.Adapters.Types.{Result, is_normalized, occurred_at}
use unified_search_safe_send.Adapters.Merge.{
  Ranked, sort_by, per_source_cap, rank_within_source, merge,
}
use unified_search_safe_send.Adapters.Registry.{Registration, registration, default_sources}
use unified_search_safe_send.Adapters.Table.{
  Search, AdapterRun, SearchResult, SearchDb, is_outstanding, of_search, has_run_id, of_run,
}

pub record PlannedRun : Type 0 where
  pub source : String
  pub adapter_run_id : ℕ
  pub job_id : Option ℕ
  pub connection_id : Option ℕ
  pub mode : SourceMode

pub record SearchPlan : Type 0 where
  pub search_id : ℕ
  pub query : String
  pub runs : List PlannedRun

abbrev pub id_leb : Connection → Connection → Bool
id_leb a b = leb a.id b.id

abbrev pub own_active_of : ℕ → String → Connection → Bool
own_active_of user_id source c =
    c.user_id == user_id && (is_active c.status && str_eq (channel_value c.provider) source)

-- the ids that `_active_connections` groups under a provider's name
unfoldable pub active_connections : List Connection → ℕ → String → List ℕ
active_connections connections user_id source =
    map (λ c. c.id) (sort_by id_leb (where_ (own_active_of user_id source) connections))

-- one target for each connection, and one without where there is none
unfoldable pub targets : List Connection → ℕ → Registration → List (Option ℕ)
targets connections user_id reg =
    if reg.requires_connection
    then elim (active_connections connections user_id reg.source) [
      | [] ↦ none ∷ []
      | id ∷ ids ↦ map some (id ∷ ids)
    ]
    else none ∷ []

abbrev pub registrations : List Registration → List String → Option (List Registration)
registrations registry [] = some []
registrations registry (source ∷ sources) =
    let rest = registrations registry sources in
    elim (registration registry source) [
      | none ↦ none
      | some reg ↦ elim rest [ none ↦ none | some regs ↦ some (reg ∷ regs) ]
    ]

abbrev pub run_job : ℕ → Enqueue
run_job run_id = record {
  kind = JobKind.adapter_run;
  ref_id = run_id;
  dedupe_key = some ("adapter_run:" <> show run_id);
  partition_key = none;
  priority = 0;
  run_at = none;
  max_attempts = none;
}

unfoldable pub new_run : ℕ → ℕ → Registration → Option ℕ → AdapterRun
new_run id search_id reg connection_id = record {
  id = id;
  search_id = search_id;
  source = reg.source;
  connection_id = connection_id;
  status = pending;
  mode = reg.mode;
  result_count = 0;
  error_class = none;
  error_detail = none;
  started_at = none;
  finished_at = none;
}

-- `uuids n` is the n-th uuid that the transaction generates
module _ (now limit : ℕ) (uuids : ℕ → ℕ) where
  unfoldable pub plan_run : ℕ → ℕ → Registration → Option ℕ → SearchDb → PlannedRun × SearchDb
  plan_run n search_id reg connection_id db =
      let (job_id, jobs) = enqueue now limit db.jobs (run_job (uuids n)) in
      (
        record {
          source = reg.source;
          adapter_run_id = uuids n;
          job_id = job_id;
          connection_id = connection_id;
          mode = reg.mode;
        },
        record db {
          runs = db.runs ++ new_run (uuids n) search_id reg connection_id ∷ [];
          jobs = jobs;
        },
      )

  unfoldable pub plan_runs :
      ℕ → ℕ → List (Registration × Option ℕ) → SearchDb → List PlannedRun × SearchDb
  plan_runs n search_id [] db = ([], db)
  plan_runs n search_id ((reg, connection_id) ∷ rest) db =
      let (planned, after) = plan_run n search_id reg connection_id db in
      let (others, final) = plan_runs (suc n) search_id rest after in (planned ∷ others, final)

  abbrev pub fan_out : List Connection → ℕ → List Registration → List (Registration × Option ℕ)
  fan_out connections user_id [] = []
  fan_out connections user_id (reg ∷ regs) =
      map (λ target. (reg, target)) (targets connections user_id reg)
      ++ fan_out connections user_id regs

  unfoldable pub new_search : ℕ → String → Search
  new_search user_id query = record {
    id = uuids 0;
    user_id = user_id;
    query = query;
    is_seed = false;
    created_at = now;
    finished_at = none;
  }

  abbrev pub chosen : List Registration → List String → List String
  chosen registry [] = default_sources registry
  chosen registry (source ∷ sources) = source ∷ sources

  -- `none` is UnknownSource; `[]` stands for no `sources` too
  unfoldable pub plan_search :
      List Registration → SearchDb → ℕ → String → List String → Option (SearchPlan × SearchDb)
  plan_search registry db user_id query sources = elim (chosen registry sources) [
    | [] ↦ none
    | source ∷ rest ↦ elim (registrations registry (source ∷ rest)) [
      | none ↦ none
      | some regs ↦
          let opened = record db { searches = db.searches ++ new_search user_id query ∷ [] } in
          let (runs, after) = plan_runs 1 (uuids 0) (fan_out db.connections user_id regs) opened in
          some (record { search_id = uuids 0; query = query; runs = runs }, after)
    ]
  ]

-- what `adapter.search` under `wait_for` gives, with the adapter's `reported_mode`
pub data Searched : Type 0 where
  found_results : List Result → Option SourceMode → Searched
  search_failed : Exn → Searched

pub data Executed : Type 0 where
  stored : ℕ → SearchDb → Executed
  not_stored : Exn → Executed

module _ (recency : Option ℕ → ℕ) (score : ℕ → Option ℕ → ℕ) (parse_iso8601 : String → Option ℕ)
    (naive : String → Bool) (now : ℕ) where
  unfoldable pub result_row : ℕ → ℕ → Ranked → SearchResult
  result_row search_id run_id item = record {
    search_id = search_id;
    adapter_run_id = run_id;
    source = item.result.source;
    external_id = item.result.id;
    title = item.result.title;
    snippet = item.result.snippet;
    author = item.result.author;
    occurred_at = occurred_at parse_iso8601 item.result;
    url = item.result.url;
    source_rank = item.source_rank;
    blended_score = item.blended_score;
  }

  -- the results that are kept, and ranked, or `none` where the ranking raises
  abbrev pub kept_results : List Result → Option (List Ranked)
  kept_results raw =
      rank_within_source recency score parse_iso8601 naive
        (where_ (is_normalized parse_iso8601) raw)

  abbrev pub set_done : ℕ → Option SourceMode → AdapterRun → AdapterRun
  set_done count reported r = record r {
    status = done;
    result_count = count;
    finished_at = some now;
    mode = elim reported [ none ↦ r.mode | some mode ↦ mode ];
  }

  -- the transaction after the adapter's answer
  unfoldable pub store_results : SearchDb → ℕ → ℕ → List Ranked → Option SourceMode → SearchDb
  store_results db run_id search_id ranked reported = record db {
    results =
        where_ (λ r. not (of_run run_id r)) db.results ++ map (result_row search_id run_id) ranked;
    runs = update_where (has_run_id run_id) (set_done (length ranked) reported) db.runs;
  }

  -- UnknownSource comes with a shorter message than the source's
  unfoldable pub execute_adapter_run :
      List Registration → Searched → SearchDb → AdapterRun → Executed
  execute_adapter_run registry answer db run = elim (registration registry run.source) [
    | none ↦ not_stored (Exn.bug ("no adapter registered for source " <> run.source))
    | some reg ↦ elim answer [
      | search_failed e ↦ not_stored e
      | found_results raw reported ↦ elim (kept_results raw) [
        | none ↦ not_stored (Exn.bug "can't subtract offset-naive and offset-aware datetimes")
        | some ranked ↦
            stored (length ranked) (store_results db run.id run.search_id ranked reported)
      ]
    ]
  ]

abbrev pub open_search : List AdapterRun → ℕ → Search → Bool
open_search runs search_id s =
    s.id == search_id
    && (not (is_some s.finished_at)
        && not (exists_where (λ r. of_search search_id r && is_outstanding r.status) runs))

abbrev pub set_finished : ℕ → Search → Search
set_finished now s = record s { finished_at = some now }

unfoldable pub close_search_if_complete : ℕ → SearchDb → ℕ → SearchDb
close_search_if_complete now db search_id = record db {
  searches = update_where (open_search db.runs search_id) (set_finished now) db.searches;
}

-- `Snapshot` without its list of runs, which is the rows of the search as they are
pub record Snapshot : Type 0 where
  pub search_id : ℕ
  pub query : String
  pub is_seed : Bool
  pub finished : Bool
  pub results : List Ranked

-- a stored row as `Ranked`, with the isoformat of its time
abbrev pub stored_ranked : (ℕ → String) → SearchResult → Ranked
stored_ranked isoformat row = record {
  result = record {
    source = row.source;
    id = row.external_id;
    title = row.title;
    snippet = row.snippet;
    url = row.url;
    author = row.author;
    timestamp = elim row.occurred_at [ none ↦ none | some at ↦ some (isoformat at) ];
  };
  source_rank = row.source_rank;
  recency_weight = 0;
  blended_score = row.blended_score;
}

unfoldable pub snapshot_within : (ℕ → String) → SearchDb → ℕ → ℕ → Option Snapshot
snapshot_within isoformat db search_id user_id =
    elim (first_where (λ s. s.id == search_id && s.user_id == user_id) db.searches) [
      | none ↦ none
      | some s ↦ some (record {
        search_id = s.id;
        query = s.query;
        is_seed = s.is_seed;
        finished = is_some s.finished_at;
        results =
            merge per_source_cap
              (map (stored_ranked isoformat) (where_ (λ r. r.search_id == search_id) db.results));
      })
    ]
