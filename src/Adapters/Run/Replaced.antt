-- ===== src/Adapters/Run/Replaced.antt =====
-- A run that is done again replaces its results.
use unified_search_safe_send.Prelude.{
  ℕ, ◌≡◌, refl, ap, ◌∙◌, inl, inr, Bool, false, not, Option, some, List, [], ◌∷◌, ◌++◌, String,
  arith, ◌==◌, ==_iff, Bool-cases, Option-cases, where_, map, first_where,
}
use unified_search_safe_send.Jobs.Table.{ClaimedJob}
use unified_search_safe_send.Enums.{SourceMode}
use unified_search_safe_send.Adapters.Types.{Result}
use unified_search_safe_send.Adapters.Merge.{Ranked}
use unified_search_safe_send.Adapters.Registry.{Registration, registration}
use unified_search_safe_send.Adapters.Table.{AdapterRun, SearchResult, SearchDb, has_run_id, of_run}
use unified_search_safe_send.Adapters.Orchestrator.{
  found_results, result_row, kept_results, store_results, execute_adapter_run,
  close_search_if_complete,
}
use unified_search_safe_send.Adapters.Run.{
  returned, mark_run_started, record_success, after_execution, run_adapter,
}

where-append :
    {A : Type 0} (p : A → Bool) (xs ys : List A) → where_ p (xs ++ ys) ≡ where_ p xs ++ where_ p ys
where-append p [] ys = refl
where-append p (x ∷ xs) ys = elim (Bool-cases (p x)) [
  | inl e ↦ ground (arith, e, where-append p xs ys)
  | inr e ↦ ground (arith, e, where-append p xs ys)
]

-- the rows that are deleted leave none
deleted :
    (id : ℕ) (rs : List SearchResult) → where_ (of_run id) (where_ (λ r. not (of_run id r)) rs) ≡ []
deleted id [] = refl
deleted id (r ∷ rs) = elim (Bool-cases (of_run id r)) [
  | inl e ↦ ground (arith, e, deleted id rs)
  | inr e ↦ ground (arith, e, deleted id rs)
]

foreign :
    (id other : ℕ) (rs : List SearchResult)
    → (other == id) ≡ false
    → where_ (of_run other) (where_ (λ r. not (of_run id r)) rs) ≡ where_ (of_run other) rs
foreign id other [] n = refl
foreign id other (r ∷ rs) n = elim (Bool-cases (of_run id r)) [
  | inl e ↦
      let apart : of_run other r ≡ false = ground (arith, e, n) in
      ground (arith, e, apart, foreign id other rs n)
  | inr e ↦ elim (Bool-cases (of_run other r)) [
    | inl f ↦ ground (arith, e, f, foreign id other rs n)
    | inr f ↦ ground (arith, e, f, foreign id other rs n)
  ]
]

module _ (recency : Option ℕ → ℕ) (score : ℕ → Option ℕ → ℕ) (parse_iso8601 : String → Option ℕ)
    (naive : String → Bool) (now : ℕ) where
  own_rows :
      (search_id run_id : ℕ) (items : List Ranked)
      → where_
          (of_run run_id)
          (map (result_row recency score parse_iso8601 naive now search_id run_id) items)
        ≡ map (result_row recency score parse_iso8601 naive now search_id run_id) items
  unfolding result_row
  own_rows search_id run_id [] = refl
  own_rows search_id run_id (x ∷ xs) =
      rw ((==_iff run_id run_id).1 refl, own_rows search_id run_id xs) refl

  other_rows :
      (search_id run_id other : ℕ) (items : List Ranked)
      → (other == run_id) ≡ false
      → where_
          (of_run other)
          (map (result_row recency score parse_iso8601 naive now search_id run_id) items)
        ≡ []
  unfolding result_row
  other_rows search_id run_id other [] n = refl
  other_rows search_id run_id other (x ∷ xs) n =
      let flip : (run_id == other) ≡ false = ground (arith, n) in
      rw (flip, other_rows search_id run_id other xs n) refl

  -- the results that a run that returned leaves
  results_after :
      (registry : List Registration) (raw : List Result) (reported : Option SourceMode)
      (db after : SearchDb) (job : ClaimedJob) (run : AdapterRun)
      → first_where (has_run_id job.ref_id) db.runs ≡ some run
      → run_adapter now recency score parse_iso8601 naive registry
          (found_results raw reported)
          db
          job
        ≡ (returned, after)
      → (ranked : List Ranked) × (kept_results recency score parse_iso8601 naive now raw
          ≡ some ranked)
        × (after.results
            ≡ where_ (λ r. not (of_run run.id r)) db.results
              ++ map (result_row recency score parse_iso8601 naive now run.search_id run.id) ranked)
  unfolding run_adapter execute_adapter_run after_execution mark_run_started store_results
      record_success close_search_if_complete
  results_after registry raw reported db after job run f h =
      elim (Option-cases (registration registry run.source)) [
        | inl n ↦ absurd (ground (arith, f, n, h))
        | inr (reg, n) ↦
            elim (Option-cases (kept_results recency score parse_iso8601 naive now raw)) [
              | inl k ↦ absurd (ground (arith, f, n, k, h))
              | inr (ranked, k) ↦ elim (Option-cases run.connection_id) [
                | inl c ↦ (ranked, k, ground (arith, f, n, c, k, h))
                | inr (id, c) ↦ (ranked, k, ground (arith, f, n, c, k, h))
              ]
            ]
      ]

  -- A run of the adapter job that returns could rank its normalized answer, and leaves as the run's
  -- results the rows of that answer, ranked in its order, whatever the run had stored before, and leaves the results of every
  -- other run as they were.
  pub run_adapter-replaces :
      (registry : List Registration) (raw : List Result) (reported : Option SourceMode)
      (db after : SearchDb) (job : ClaimedJob) (run : AdapterRun) (other : ℕ)
      → first_where (has_run_id job.ref_id) db.runs ≡ some run
      → run_adapter now recency score parse_iso8601 naive registry
          (found_results raw reported)
          db
          job
        ≡ (returned, after)
      → (other == run.id) ≡ false
      → (ranked : List Ranked) × (kept_results recency score parse_iso8601 naive now raw
          ≡ some ranked)
        × (where_ (of_run run.id) after.results
            ≡ map (result_row recency score parse_iso8601 naive now run.search_id run.id) ranked)
        × (where_ (of_run other) after.results ≡ where_ (of_run other) db.results)
  run_adapter-replaces registry raw reported db after job run other f h n =
      let (kept, k, rows) = results_after registry raw reported db after job run f h in
      let old = where_ (λ r. not (of_run run.id r)) db.results in
      let new = map (result_row recency score parse_iso8601 naive now run.search_id run.id) kept in
      (
        kept,
        k,
        ap (where_ (of_run run.id)) rows
            ∙ where-append (of_run run.id) old new
            ∙ rw (deleted run.id db.results) (own_rows run.search_id run.id kept),
        ap (where_ (of_run other)) rows
            ∙ where-append (of_run other) old new
            ∙ rw (other_rows run.search_id run.id other kept n)
                (append_nil (where_ (of_run other) old) ∙ foreign run.id other db.results n),
      )
    where
      append_nil : (xs : List SearchResult) → xs ++ [] ≡ xs
      append_nil [] = refl
      append_nil (x ∷ xs) = ap (λ ys. x ∷ ys) (append_nil xs)
