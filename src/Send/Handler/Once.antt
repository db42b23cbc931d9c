-- ===== src/Send/Handler/Once.antt =====
-- A message is handed to the provider at most once: the invariant, and that every run of the send
-- job keeps it, at whatever seam the process dies and whatever the provider answers.
use native.Mathlib.Decide.{ℕ_discrete}
use unified_search_safe_send.Prelude.{
  ℕ, ◌≤◌, ◌≡◌, ◌≢◌, ◌⊎◌, refl, sym, ap, ◌∙◌, Bool, true, Option, none, some, List, String, arith,
  Bool-cases, Option-cases, inl, inr,
}
use unified_search_safe_send.Enums.{ProviderKind}
use unified_search_safe_send.Jobs.Table.{ClaimedJob}
use unified_search_safe_send.Send.Row.{
  Send, Draft, SendReceipt, is_in_flight, load_send, load_draft, commit_dispatch_attempt,
  while_in_flight, set_dispatched,
}
use unified_search_safe_send.Send.Row.Load.{load-update, load-id, after_update}
use unified_search_safe_send.Send.Provider.{
  SendProvider, SendRequest, PreparedSend, Reply, returns, raises, IsHonest,
}
use unified_search_safe_send.Send.Handler.{
  CrashPoint, after_dispatch, contact, with_draft_id, after_prepare, dispatch_send,
  after_lease_commit,
}
use unified_search_safe_send.Send.Reconcile.{World, with_sends, with_provider, request_for}
use unified_search_safe_send.Send.Handler.Follows.{RowsFollow-refl}
use unified_search_safe_send.Send.Handler.Quiet.{
  Follows, finalize_failure-Follows, deliver-Follows, dispatched-RowsFollow,
}

fingerprint_lem : (s : Send) (d : Draft) → (request_for s d).fingerprint ≡ s.idempotency_key
unfolding request_for
fingerprint_lem s d = refl

module _ {P : Type 0} (count_of : P → ProviderKind → String → ℕ) (id : ℕ) (k : ProviderKind)
    (fp : String) where
  -- One send `id`, of provider `k` and key `fp`: at most one message is out, none before a dispatch
  -- was committed, and no other row shares both the provider and the key.
  pub record IsOnce (w : World P) : Type 0 where
    pub once : count_of w.provider k fp ≤ 1
    pub unsent :
        (s : Send)
        → load_send w.sends id ≡ some s
        → s.dispatched_at ≡ none
        → count_of w.provider k fp ≡ 0
    pub ours :
        (s : Send) → load_send w.sends id ≡ some s → (s.provider ≡ k) × (s.idempotency_key ≡ fp)
    pub others :
        (j : ℕ) (s : Send)
        → j ≢ id
        → load_send w.sends j ≡ some s
        → (s.provider ≢ k) ⊎ (s.idempotency_key ≢ fp)

  pub Follows-IsOnce : (w w' : World P) → Follows count_of k fp w w' → IsOnce w → IsOnce w'
  Follows-IsOnce w w' f o = record {
    once = rw f.count o.once;
    unsent =
        λ s e d. let (t, et, _, _, back) = f.rows.row id s e in f.count ∙ o.unsent t et (back d);
    ours = λ s e.
        let (t, et, key, p, _) = f.rows.row id s e in let (a, b) = o.ours t et in (p ∙ a, key ∙ b);
    others =
        λ j s ne e. let (t, et, key, p, _) = f.rows.row j s e in rw (p, key) (o.others j t ne et);
  }

  -- Nothing of the send is at the provider, and its row is in flight.
  pub record IsClear (w : World P) : Type 0 where
    pub absent : count_of w.provider k fp ≡ 0
    pub open_row : (s : Send) → load_send w.sends id ≡ some s → is_in_flight s.state ≡ true

  -- What a dispatch of `send` needs: a clear send if it is ours, and another fingerprint if not.
  pub record MayDispatch (w : World P) (send : Send) : Type 0 where
    pub ours : send.id ≡ id → (send.provider ≡ k) × (send.idempotency_key ≡ fp) × IsClear w
    pub others : send.id ≢ id → (send.provider ≢ k) ⊎ (send.idempotency_key ≢ fp)

  module _ (ops : SendProvider P) (honest : IsHonest ops count_of) (now : ℕ)
      (armed : CrashPoint → Bool) where
    -- After the commit our row has a dispatch time.
    dispatched_now :
        (w : World P) (send : Send) (d : Option String) (s : Send)
        → send.id ≡ id
        → IsClear w
        → load_send (commit_dispatch_attempt now send.id d w.sends) id ≡ some s
        → s.dispatched_at ≢ none
    unfolding commit_dispatch_attempt
    dispatched_now w send d s e c l n = from (load_send w.sends id) refl (
        sym (load-update send.id id while_in_flight (set_dispatched now d) w.sends (λ s. refl)) ∙ l)
      where
        from :
            (o : Option Send)
            → load_send w.sends id ≡ o
            → after_update send.id while_in_flight (set_dispatched now d) o ≡ some s
            → ⊥
        from none q h = cc
        from (some x) q h = ground (arith, e, n, c.open_row x q, load-id w.sends id x q)

    after_dispatch-IsOnce :
        (job : ClaimedJob) (w : World P) (send : Send) (r : SendRequest) (reply : Reply SendReceipt)
        → IsOnce w
        → IsOnce (after_dispatch ops now armed job w send r reply).1
    unfolding after_dispatch
    after_dispatch-IsOnce job w send r (raises exc) o =
        Follows-IsOnce w _
          (finalize_failure-Follows count_of k fp ops honest now w send.provider send.id exc job
            (some r))
          o
    after_dispatch-IsOnce job w send r (returns receipt) o =
        Follows-IsOnce w _ (deliver-Follows count_of k fp now armed ops w send receipt) o

    contact-IsOnce :
        (job : ClaimedJob) (w : World P) (send : Send) (r : SendRequest) (d : Option String)
        → r.fingerprint ≡ send.idempotency_key
        → IsOnce w
        → MayDispatch w send
        → IsOnce (contact ops now armed job w send r d).1
    unfolding contact
    contact-IsOnce job w send r d fr o may = elim (Bool-cases (armed after_lease_commit)) [
      | inl e ↦ rw e committed
      | inr e ↦ rw e (after_dispatch-IsOnce job sent send r _ sent-IsOnce)
    ]
      where
        sends : List Send
        sends = commit_dispatch_attempt now send.id d w.sends

        committed : IsOnce (with_sends w sends)
        committed =
            Follows-IsOnce w _
              (record { rows = dispatched-RowsFollow now send.id d w.sends; count = refl }) o

        sent : World P
        sent = record w { sends = sends; provider = (ops.dispatch send.provider w.provider r).1 }

        sent-IsOnce : IsOnce sent
        sent-IsOnce = elim (ℕ_discrete send.id id) [
          | yes same ↦
              let (p, key, clear) = may.ours same in
              let taken = honest.dispatch_once send.provider w.provider r in
              let after : count_of sent.provider k fp
                  ≡ count_of sent.provider send.provider r.fingerprint =
                cc (p, key, fr) in
              let before : count_of w.provider send.provider r.fingerprint
                  ≡ count_of w.provider k fp =
                cc (p, key, fr) in
              record {
                once = omega (arith, taken, after, before, clear.absent);
                unsent = λ s e n. absurd (dispatched_now w send d s same clear e n);
                ours = committed.ours;
                others = committed.others;
              }
          | no other ↦
              let keeps : count_of sent.provider k fp ≡ count_of w.provider k fp =
                honest.dispatch_other send.provider k w.provider r fp (rw fr (may.others other)) in
              record {
                once = rw keeps o.once;
                unsent = λ s e n. keeps ∙ committed.unsent s e n;
                ours = committed.ours;
                others = committed.others;
              }
        ]

    with_draft_id-fingerprint :
        (r : SendRequest) (d : Option String)
        → (with_draft_id ops now armed r d).fingerprint ≡ r.fingerprint
    with_draft_id-fingerprint r none = refl
    with_draft_id-fingerprint r (some d) = ground arith

    quiet_MayDispatch :
        (w w' : World P) (send : Send)
        → w'.sends ≡ w.sends
        → count_of w'.provider k fp ≡ count_of w.provider k fp
        → MayDispatch w send
        → MayDispatch w' send
    quiet_MayDispatch w w' send rows count may = record {
      ours = λ e.
          let (p, key, clear) = may.ours e in
          (
            p,
            key,
            record {
              absent = count ∙ clear.absent;
              open_row = λ s l. clear.open_row s (sym (ap (λ x. load_send x id) rows) ∙ l);
            },
          );
      others = may.others;
    }

    after_prepare-IsOnce :
        (job : ClaimedJob) (w : World P) (send : Send) (r : SendRequest)
        (reply : Reply PreparedSend)
        → r.fingerprint ≡ send.idempotency_key
        → IsOnce w
        → MayDispatch w send
        → IsOnce (after_prepare ops now armed job w send r reply).1
    unfolding after_prepare
    after_prepare-IsOnce job w send r (raises exc) fr o may =
        Follows-IsOnce w _
          (finalize_failure-Follows count_of k fp ops honest now w send.provider send.id exc job
            none)
          o
    after_prepare-IsOnce job w send r (returns prepared) fr o may =
        contact-IsOnce job w send _ prepared.provider_draft_id
          (with_draft_id-fingerprint r prepared.provider_draft_id ∙ fr) o may

    pub dispatch_send-IsOnce :
        (job : ClaimedJob) (w : World P) (send : Send)
        → IsOnce w
        → MayDispatch w send
        → IsOnce (dispatch_send ops now armed job w send).1
    unfolding dispatch_send
    dispatch_send-IsOnce job w send o may =
        elim (Option-cases (load_draft w.drafts send.draft_id)) [
          | inl e ↦ rw (e, dispatch_send) o
          | inr (d, e) ↦
              let asked = ops.prepare send.provider w.provider (request_for send d) in
              let keeps = honest.prepare_keeps send.provider k w.provider (request_for send d) fp in
              rw (e, dispatch_send)
                (after_prepare-IsOnce job (with_provider w asked.1) send (request_for send d)
                  asked.0 (fingerprint_lem send d)
                  (Follows-IsOnce w _ (record { rows = RowsFollow-refl w.sends; count = keeps }) o)
                  (quiet_MayDispatch w _ send refl keeps may))
        ]
