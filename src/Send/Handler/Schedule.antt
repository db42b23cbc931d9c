-- ===== src/Send/Handler/Schedule.antt =====
-- Every schedule of job runs and sweeps, with the process dying at any seam of any run, hands the
-- provider a message at most once.
use unified_search_safe_send.Prelude.{
  ℕ, ◌≤◌, ◌≡◌, ◌≢◌, ◌⊎◌, refl, sym, ap, ◌∙◌, Bool, true, none, some, List, [], ◌∷◌, String, arith,
  Bool-cases, Option-cases, inl, inr,
}
use unified_search_safe_send.Enums.{ProviderKind}
use unified_search_safe_send.Jobs.Table.{ClaimedJob}
use unified_search_safe_send.Send.Row.{Send, is_in_flight, load_send}
use unified_search_safe_send.Send.Row.Load.{load-id}
use unified_search_safe_send.Send.Provider.{SendProvider, IsHonest}
use unified_search_safe_send.Send.Handler.{CrashPoint, after_reconcile, run_row, run_send}
use unified_search_safe_send.Send.Reconcile.{
  World, ReconcileVerdict, not_sent, retry_later, reconcile_send,
}
use unified_search_safe_send.Send.Handler.Quiet.{reconcile_send-Follows}
use unified_search_safe_send.Send.Handler.Once.{
  IsOnce, MayDispatch, Follows-IsOnce, dispatch_send-IsOnce,
}
use unified_search_safe_send.Send.Reconcile.{reconcile_send_job}
use unified_search_safe_send.Send.Handler.Exactly.{reconcile_send-IsClear}

-- One thing that happens: a worker runs the job of a send, dying where `armed` says, or the sweeper
-- reconciles it.
pub data Event : Type 0 where
  works : (now : ℕ) → (CrashPoint → Bool) → ClaimedJob → Event
  sweeps : (now : ℕ) → ClaimedJob → Event

module _ {P : Type 0} (ops : SendProvider P) where
  pub happen : World P → Event → World P
  happen w (works now armed job) = (run_send ops now armed job w).1
  happen w (sweeps now job) = (reconcile_send_job ops now w job).1

  pub happen_all : World P → List Event → World P
  happen_all w [] = w
  happen_all w (e ∷ es) = happen_all (happen w e) es

module _ {P : Type 0} (count_of : P → ProviderKind → String → ℕ) (id : ℕ) (k : ProviderKind)
    (fp : String) (ops : SendProvider P) (honest : IsHonest ops count_of) where
  after_reconcile-IsOnce :
      (now : ℕ) (armed : CrashPoint → Bool) (job : ClaimedJob) (send : Send) (v : ReconcileVerdict)
      (w : World P)
      → IsOnce count_of id k fp w
      → (v ≡ not_sent → MayDispatch count_of id k fp w send)
      → IsOnce count_of id k fp (after_reconcile ops now armed job send (v, w)).1
  unfolding after_reconcile
  after_reconcile-IsOnce now armed job send retry_later w o may = o
  after_reconcile-IsOnce now armed job send not_sent w o may =
      dispatch_send-IsOnce count_of id k fp ops honest now armed job w send o (may refl)
  after_reconcile-IsOnce now armed job send _ w o may = o

  module _ (now : ℕ) (armed : CrashPoint → Bool) (job : ClaimedJob) (w : World P)
      (o : IsOnce count_of id k fp w) where
    -- the row of a job is ours or has another provider or key
    others_apart :
        (send : Send)
        → load_send w.sends job.ref_id ≡ some send
        → send.id ≢ id
        → (send.provider ≢ k) ⊎ (send.idempotency_key ≢ fp)
    others_apart send e ne =
        o.others job.ref_id send (λ q. ne (load-id w.sends job.ref_id send e ∙ q)) e

    found_ours :
        (send : Send)
        → load_send w.sends job.ref_id ≡ some send
        → send.id ≡ id
        → load_send w.sends id ≡ some send
    found_ours send e q = ap (load_send w.sends) (sym q ∙ load-id w.sends job.ref_id send e) ∙ e

    fresh_MayDispatch :
        (send : Send)
        → load_send w.sends job.ref_id ≡ some send
        → is_in_flight send.state ≡ true
        → send.dispatched_at ≡ none
        → MayDispatch count_of id k fp w send
    fresh_MayDispatch send e f d = record {
      ours = λ q.
          let here = found_ours send e q in
          let (p, key) = o.ours send here in
          (p, key, record { absent = o.unsent send here d; open_row = λ s l. ground arith });
      others = others_apart send e;
    }

    reconciled_MayDispatch :
        (send : Send)
        → load_send w.sends job.ref_id ≡ some send
        → (reconcile_send ops now w send.id "").0 ≡ not_sent
        → MayDispatch count_of id k fp (reconcile_send ops now w send.id "").1 send
    reconciled_MayDispatch send e h = record {
      ours = λ q.
          let (p, key) = o.ours send (found_ours send e q) in
          (
            p,
            key,
            rw q (reconcile_send-IsClear count_of id k fp ops honest now w "" o (rw q at h)),
          );
      others = others_apart send e;
    }

    -- One run of the send job, ending wherever it ends, keeps the invariant.
    pub run_send-IsOnce : IsOnce count_of id k fp (run_send ops now armed job w).1
    unfolding run_send run_row
    run_send-IsOnce = elim (Option-cases (load_send w.sends job.ref_id)) [
      | inl e ↦ rw (e, run_send) o
      | inr (send, e) ↦ elim (Bool-cases (is_in_flight send.state)) [
        | inr f ↦ rw (e, run_send) (rw f o)
        | inl f ↦ elim (Option-cases send.dispatched_at) [
          | inl d ↦
              rw (e, run_send)
                (rw (f, d, run_row)
                  (dispatch_send-IsOnce count_of id k fp ops honest now armed job w send o
                    (fresh_MayDispatch send e f d)))
          | inr (at, d) ↦
              rw (e, run_send)
                (rw (f, d, run_row)
                  (after_reconcile-IsOnce now armed job send _ _
                    (Follows-IsOnce count_of id k fp w _
                      (reconcile_send-Follows count_of k fp ops honest now w send.id "") o)
                    (reconciled_MayDispatch send e)))
        ]
      ]
    ]

  happen-IsOnce :
      (w : World P) (e : Event)
      → IsOnce count_of id k fp w
      → IsOnce count_of id k fp (happen ops w e)
  unfolding happen reconcile_send_job
  happen-IsOnce w (works now armed job) o = run_send-IsOnce now armed job w o
  happen-IsOnce w (sweeps now job) o =
      Follows-IsOnce count_of id k fp w _
        (reconcile_send-Follows count_of k fp ops honest now w job.ref_id "") o

  happen_all-IsOnce :
      (w : World P) (es : List Event)
      → IsOnce count_of id k fp w
      → IsOnce count_of id k fp (happen_all ops w es)
  unfolding happen_all
  happen_all-IsOnce w [] o = o
  happen_all-IsOnce w (e ∷ es) o = happen_all-IsOnce (happen ops w e) es (happen-IsOnce w e o)

  -- With an honest provider, and from a world in which the send's message is out at most once, not at
  -- all if no dispatch of it was committed, and no other row has its provider and key: after any
  -- sequence of job runs and sweeps for any sends, each run dying at any seam or at none and each
  -- provider call answering or raising, the provider has taken the message at most once.
  pub delivered_at_most_once :
      (w : World P) (es : List Event)
      → IsOnce count_of id k fp w
      → count_of (happen_all ops w es).provider k fp ≤ 1
  delivered_at_most_once w es o = (happen_all-IsOnce w es o).once
