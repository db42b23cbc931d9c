-- ===== src/Tests/AdapterTests.antt =====
-- A search over two sources.
use unified_search_safe_send.Prelude.{
  Bool, or_default, ℕ, ◌-◌, ◌≡◌, ◌≤◌, refl, sym, eq_iff, inl, inr, ◌⊎◌, true, false, Option, none,
  some, List, [], ◌∷◌, ◌++◌, String, arith, In, rowcount, where_, map, first_where, str_eq,
  Bool-cases,
}
use unified_search_safe_send.Enums.{pending, done, live, JobKind}
use unified_search_safe_send.Errors.{transport, classify}
use unified_search_safe_send.Jobs.Table.{ClaimedJob}
use unified_search_safe_send.Adapters.Types.{Result, is_normalized}
use unified_search_safe_send.Prelude.Text.{strip}
use unified_search_safe_send.Adapters.Merge.{Ranked, merge, rank_within_source, rank_from}
use unified_search_safe_send.Adapters.Merge.Fair.{is_from, merge-keeps_rows}
use unified_search_safe_send.Adapters.Registry.{Registration, registration}
use unified_search_safe_send.Adapters.Table.{
  Search, AdapterRun, SearchResult, SearchDb, has_run_id, of_run, is_outstanding,
}
use unified_search_safe_send.Adapters.Orchestrator.{
  found_results, result_row, kept_results, execute_adapter_run, set_finished,
  close_search_if_complete,
}
use unified_search_safe_send.Adapters.Run.{
  returned, run_adapter, after_execution, will_retry, record_run_failure,
}
use unified_search_safe_send.Adapters.Run.Replaced.{run_adapter-replaces}
use unified_search_safe_send.Adapters.Run.Early.{closed_before_retry}

abbrev no_time : String → Option ℕ
no_time raw = none

abbrev flat : Option ℕ → ℕ
flat at = 0

abbrev by_rank : ℕ → Option ℕ → ℕ
by_rank rank at = 100 - rank

-- no text gives a time without an offset
abbrev zoned : String → Bool
zoned raw = false

abbrev mail : Result
mail = record {
  source = "gmail";
  id = "m1";
  title = "Invoice";
  snippet = "due";
  url = "https://mail/m1";
  author = none;
  timestamp = none;
}

abbrev blank : Result
blank = record mail { id = "m2"; title = "  " }

abbrev page : Result
page = record mail { source = "web"; id = "p1" }

abbrev ranked : List Ranked
ranked =
    or_default (rank_within_source flat by_rank no_time zoned (mail ∷ [])) []
    ++ or_default (rank_within_source flat by_rank no_time zoned (page ∷ [])) []

few : (source : String) → rowcount (is_from source) ranked ≤ 1
unfolding rank_within_source rank_from
few source = elim (Bool-cases (str_eq "gmail" source)) [
  | inl e ↦
      let q : ◌≡◌ {A = String} source "gmail" = sym ((eq_iff "gmail" source).0 e) in
      rw q (omega arith)
  | inr e ↦ ground (arith, e)
]

merge-keeps_rows_example :
    rowcount (is_from "web") (merge 1 ranked) ≡ rowcount (is_from "web") ranked
merge-keeps_rows_example = merge-keeps_rows 1 ranked (is_from "web") few

abbrev web : Registration
web = record {
  source = "web";
  participates_by_default = true;
  mode = live;
  requires_connection = false;
}

abbrev search : Search
search = record {
  id = 20;
  user_id = 1;
  query = "invoice";
  is_seed = false;
  created_at = 5;
  finished_at = none;
}

abbrev web_run : AdapterRun
web_run = record {
  id = 30;
  search_id = 20;
  source = "web";
  connection_id = none;
  status = pending;
  mode = live;
  result_count = 0;
  error_class = none;
  error_detail = none;
  started_at = none;
  finished_at = none;
}

abbrev done_run : AdapterRun
done_run = record web_run { id = 31; source = "gmail"; status = done }

abbrev job : ClaimedJob
job = record {
  id = 3;
  kind = JobKind.adapter_run;
  ref_id = 30;
  attempts = 1;
  max_attempts = 5;
  partition_key = none;
  dedupe_key = none;
  claimed_by = some "w1";
  lease_expires_at = none;
  started_at = none;
}

-- a row that an earlier attempt of the run had stored
abbrev earlier : SearchResult
earlier =
    result_row flat by_rank no_time zoned 7 20 30
      (record { result = page; source_rank = 1; recency_weight = 0; blended_score = 99 })

abbrev db : SearchDb
db = record {
  searches = search ∷ [];
  runs = web_run ∷ done_run ∷ [];
  results = earlier ∷ [];
  connections = [];
  jobs = record { rows = []; next_id = 1 };
}

abbrev after_run : SearchDb
after_run =
    (run_adapter 50 flat by_rank no_time zoned (web ∷ []) (found_results (page ∷ blank ∷ []) none)
      db job).1

the_run : first_where (has_run_id 30) db.runs ≡ some web_run
the_run = refl

runs_well :
    run_adapter 50 flat by_rank no_time zoned
      (web ∷ [])
      (found_results (page ∷ blank ∷ []) none)
      db
      job
    ≡ (returned, after_run)
unfolding run_adapter execute_adapter_run registration after_execution rank_within_source
    is_normalized strip
runs_well = refl

run_adapter-replaces_example :
    (ranked : List Ranked) × (kept_results flat by_rank no_time zoned 50 (page ∷ blank ∷ [])
      ≡ some ranked)
    × (where_ (of_run 30) after_run.results
        ≡ map (result_row flat by_rank no_time zoned 50 20 30) ranked)
    × (where_ (of_run 31) after_run.results ≡ where_ (of_run 31) db.results)
run_adapter-replaces_example =
    run_adapter-replaces flat by_rank no_time zoned 50 (web ∷ []) (page ∷ blank ∷ []) none db
      after_run job web_run 31 the_run runs_well refl

all_ended :
    (r : AdapterRun)
    → In r db.runs
    → r.search_id ≡ 20
    → (r.id ≡ 30) ⊎ (is_outstanding r.status ≡ false)
all_ended r (inl e) q = inl (rw e refl)
all_ended r (inr (inl e)) q = inr (rw e refl)
all_ended r (inr (inr z)) q = absurd z

is_transient_failure : will_retry (transport "down") job ≡ true
unfolding classify
is_transient_failure = refl

closed_before_retry_example :
    In
      (set_finished 70 search)
      (close_search_if_complete 70
        (record_run_failure 60 db 30 20 (transport "down") job)
        20).searches
closed_before_retry_example =
    closed_before_retry 60 70 db 30 (transport "down") job search is_transient_failure (inl refl)
      refl all_ended
