-- ===== src/Adapters/Run/Early.antt =====
-- When a search is stamped as finished.
use unified_search_safe_send.Prelude.{
  ℕ, ◌≡◌, refl, sym, ap, ◌∙◌, ◌⊎◌, inl, inr, true, false, ◌&&◌, none, List, arith, ==_iff,
  Bool-cases, if◌then◌else◌, In, In-update, update-In, exists_where, exists_where-find,
  update_where,
}
use unified_search_safe_send.Enums.{ErrorClass}
use unified_search_safe_send.Errors.{Exn, classify}
use unified_search_safe_send.Jobs.Table.{ClaimedJob}
use unified_search_safe_send.Adapters.Table.{
  Search, AdapterRun, SearchDb, is_outstanding, of_search, has_run_id,
}
use unified_search_safe_send.Adapters.Orchestrator.{
  open_search, set_finished, close_search_if_complete,
}
use unified_search_safe_send.Adapters.Run.{
  failure_status, set_failed, will_retry, record_run_failure,
}

failed-is_terminal : (c : ErrorClass) → is_outstanding (failure_status c) ≡ false
failed-is_terminal ErrorClass.transient = refl
failed-is_terminal ErrorClass.permanent = refl
failed-is_terminal ErrorClass.needs_reconnect = refl
failed-is_terminal ErrorClass.config = refl

-- no row of a search waits or runs
quiet :
    (search_id : ℕ) (runs : List AdapterRun)
    → ((r : AdapterRun) → In r runs → r.search_id ≡ search_id → is_outstanding r.status ≡ false)
    → exists_where (λ r. of_search search_id r && is_outstanding r.status) runs ≡ false
quiet search_id runs h =
    elim (Bool-cases (exists_where (λ r. of_search search_id r && is_outstanding r.status) runs)) [
      | inr e ↦ e
      | inl e ↦
          let (r, m, t) =
            exists_where-find (λ r. of_search search_id r && is_outstanding r.status) runs e in
          let mine : of_search search_id r ≡ true = ground arith in
          let waits : is_outstanding r.status ≡ true = ground arith in
          cc (h r m ((==_iff r.search_id search_id).0 mine), waits)
    ]

-- A run fails in a way that will be retried, and every other run of its search has ended: when the
-- search is then looked at, as a sibling does after its own commit, it is stamped as finished, though
-- the retry of the failed run is still to come.
pub closed_before_retry :
    (now later : ℕ) (db : SearchDb) (run_id : ℕ) (e : Exn) (job : ClaimedJob) (s : Search)
    → will_retry e job ≡ true
    → In s db.searches
    → s.finished_at ≡ none
    → ((r : AdapterRun)
        → In r db.runs
        → r.search_id ≡ s.id
        → (r.id ≡ run_id) ⊎ (is_outstanding r.status ≡ false))
    → In
        (set_finished later s)
        (close_search_if_complete later (record_run_failure now db run_id s.id e job) s.id).searches
unfolding record_run_failure close_search_if_complete
closed_before_retry now later db run_id e job s w m unfinished h =
    let ended = update_where (has_run_id run_id) (set_failed now e) db.runs in
    let opens : open_search ended s.id s ≡ true =
      ground (arith, (==_iff s.id s.id).1 refl, unfinished, quiet s.id ended after) in
    let stamped = update-In (open_search ended s.id) (set_finished later) db.searches s m in
    let here : In (set_finished later s)
        (update_where (open_search ended s.id) (set_finished later) db.searches) =
      rw opens at stamped in
    rw w here
  where
    failed_row :
        (r : AdapterRun)
        → (r.id ≡ run_id) ⊎ (is_outstanding r.status ≡ false)
        → is_outstanding (if has_run_id run_id r then set_failed now e r else r).status ≡ false
    failed_row r o = elim (Bool-cases (has_run_id run_id r)) [
      | inl t ↦ rw t (failed-is_terminal (classify e))
      | inr t ↦ elim o [ inl q ↦ cc (t, (==_iff r.id run_id).1 q) | inr q ↦ rw t q ]
    ]

    same_search :
        (r : AdapterRun)
        → (if has_run_id run_id r then set_failed now e r else r).search_id ≡ r.search_id
    same_search r = ground arith

    after :
        (r : AdapterRun)
        → In r (update_where (has_run_id run_id) (set_failed now e) db.runs)
        → r.search_id ≡ s.id
        → is_outstanding r.status ≡ false
    after r k q =
        let (x, mx, same) = In-update (has_run_id run_id) (set_failed now e) db.runs r k in
        rw same (
          failed_row x
            (h x mx (sym (same_search x) ∙ ap (λ (y : AdapterRun). y.search_id) (sym same) ∙ q)))
