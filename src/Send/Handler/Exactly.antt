-- ===== src/Send/Handler/Exactly.antt =====
-- Reconciliation says `not_sent` only where nothing is out, and the theorem on the send job: no run
-- hands the provider a second message.
use unified_search_safe_send.Prelude.{
  ℕ, ◌≡◌, ◌≢◌, refl, sym, ◌∙◌, Bool, true, Option, none, some, List, String, arith, leb, Bool-cases,
  Option-cases, inl, inr,
}
use unified_search_safe_send.Enums.{ProviderKind}
use unified_search_safe_send.Send.Row.{
  Send, Draft, is_in_flight, load_send, load_draft, update_send, while_in_flight, any_state,
  set_bumped, record_error, bump_reconcile_attempts,
}
use unified_search_safe_send.Send.Row.Load.{load-update, after_update}
use unified_search_safe_send.Send.Provider.{
  SendProvider, ProbeResult, ProbeVerdict, found, inconclusive, Reply, returns, raises, IsHonest,
  fingerprint_for,
}
use unified_search_safe_send.Send.Reconcile.{
  World, not_sent, park_uncertain, note_error, give_up_or_wait, adopt, settle_verdict, settle, ask,
  reconcile_dispatched, reconcile_row, reconcile_send, request_for, max_reconcile_attempts,
}
use unified_search_safe_send.Send.Handler.Once.{IsOnce, IsClear}

module _ {P : Type 0} (count_of : P → ProviderKind → String → ℕ) (id : ℕ) (k : ProviderKind)
    (fp : String) (ops : SendProvider P) (honest : IsHonest ops count_of) (now : ℕ) where
  -- the rows of our send stay in flight under an UPDATE that keeps the state
  open_row-update :
      (w : World P) (sends : List Send) (j : ℕ) (test : Send → Bool) (f : Send → Send)
      → ((s : Send) → ((f s).id ≡ s.id) × ((f s).state ≡ s.state))
      → ((s : Send) → load_send sends id ≡ some s → is_in_flight s.state ≡ true)
      → (s : Send) → load_send (update_send j test f sends) id ≡ some s
      → is_in_flight s.state ≡ true
  open_row-update w sends j test f same open_row s l =
      from (load_send sends id) refl (sym (load-update j id test f sends (λ x. (same x).0)) ∙ l)
    where
      from :
          (o : Option Send)
          → load_send sends id ≡ o
          → after_update j test f o ≡ some s
          → is_in_flight s.state ≡ true
      from none q h = cc
      from (some x) q h = ground (arith, open_row x q, same x)

  waits : (w : World P) (j n : ℕ) (a b : String) → (give_up_or_wait now w j n a b).0 ≢ not_sent
  unfolding give_up_or_wait park_uncertain
  waits w j n a b h = ground arith

  adopts :
      (w : World P) (send : Send) (n : ℕ) (note : String) (probe : ProbeResult)
      → (settle_verdict now w send n note probe found).0 ≢ not_sent
  unfolding settle_verdict park_uncertain adopt
  adopts w send n note probe h = ground arith

  settle_verdict-IsClear :
      (w : World P) (send : Send) (n : ℕ) (note : String) (probe : ProbeResult) (v : ProbeVerdict)
      → (settle_verdict now w send n note probe v).0 ≡ not_sent
      → (v ≡ ProbeVerdict.absent → count_of w.provider k fp ≡ 0)
      → ((s : Send) → load_send w.sends id ≡ some s → is_in_flight s.state ≡ true)
      → IsClear count_of id k fp (settle_verdict now w send n note probe v).1
  unfolding settle_verdict note_error record_error
  settle_verdict-IsClear w send n note probe found h a o = absurd (adopts w send n note probe h)
  settle_verdict-IsClear w send n note probe ProbeVerdict.absent h a o = record {
    absent = a refl;
    open_row = open_row-update w w.sends send.id while_in_flight _ (λ s. (refl, refl)) o;
  }
  settle_verdict-IsClear w send n note probe inconclusive h a o = absurd (waits w send.id n _ _ h)

  settle-IsClear :
      (w : World P) (send : Send) (n : ℕ) (note : String) (reply : Reply ProbeResult)
      → (settle now w send n note reply).0 ≡ not_sent
      → ((res : ProbeResult)
          → reply ≡ returns res
          → res.verdict ≡ ProbeVerdict.absent
          → count_of w.provider k fp ≡ 0)
      → ((s : Send) → load_send w.sends id ≡ some s → is_in_flight s.state ≡ true)
      → IsClear count_of id k fp (settle now w send n note reply).1
  unfolding settle
  settle-IsClear w send n note (raises exc) h a o = absurd (waits w send.id n _ _ h)
  settle-IsClear w send n note (returns probe) h a o =
      settle_verdict-IsClear w send n note probe probe.verdict h (a probe refl) o

  -- the bumped row is in flight if the row was
  bumped_open :
      (w : World P) (send : Send)
      → load_send w.sends id ≡ some send
      → is_in_flight send.state ≡ true
      → (s : Send) → load_send (bump_reconcile_attempts now send.id w.sends).1 id ≡ some s
      → is_in_flight s.state ≡ true
  unfolding bump_reconcile_attempts
  bumped_open w send e f =
      open_row-update w w.sends send.id any_state (set_bumped now) (λ s. (refl, refl))
        (λ s l. ground arith)

  ask-IsClear :
      (w : World P) (send : Send) (d : Draft) (note : String)
      → IsOnce count_of id k fp w
      → load_send w.sends id ≡ some send
      → is_in_flight send.state ≡ true
      → (ask ops now w send d note).0 ≡ not_sent
      → IsClear count_of id k fp (ask ops now w send d note).1
  unfolding ask request_for fingerprint_for
  ask-IsClear w send d note o e f h =
      settle-IsClear _ send _ note _ h
        (λ res er ev.
          let zero_there =
            honest.probe_absent send.provider w.provider (request_for send d) res er ev in
          let keeps = honest.probe_keeps send.provider k w.provider (request_for send d) fp in
          let (p, key) = o.ours send e in cc (zero_there, keeps, p, key))
        (bumped_open w send e f)

  reconcile_dispatched-IsClear :
      (w : World P) (send : Send) (note : String)
      → IsOnce count_of id k fp w
      → load_send w.sends id ≡ some send
      → is_in_flight send.state ≡ true
      → (reconcile_dispatched ops now w send note).0 ≡ not_sent
      → IsClear count_of id k fp (reconcile_dispatched ops now w send note).1
  unfolding reconcile_dispatched park_uncertain
  reconcile_dispatched-IsClear w send note o e f h =
      elim (Bool-cases (leb max_reconcile_attempts send.reconcile_attempts)) [
        | inl t ↦ cc (rw t at h)
        | inr t ↦ elim (Option-cases (load_draft w.drafts send.draft_id)) [
          | inl m ↦ absurd (ground (arith, t, m, h))
          | inr (d, m) ↦
              rw (t, m, reconcile_dispatched)
                (ask-IsClear w send d note o e f (rw (t, m, reconcile_dispatched) at h))
        ]
      ]

  -- With an honest provider, and from a world in which the send's message is out at most once, not at
  -- all if no dispatch of it was committed, and no other row has its provider and key: if the
  -- reconciliation says `not_sent`, the provider holds no message of the send, and its row, if there
  -- is one, is in flight.
  pub reconcile_send-IsClear :
      (w : World P) (note : String)
      → IsOnce count_of id k fp w
      → (reconcile_send ops now w id note).0 ≡ not_sent
      → IsClear count_of id k fp (reconcile_send ops now w id note).1
  unfolding reconcile_send reconcile_row
  reconcile_send-IsClear w note o h = elim (Option-cases (load_send w.sends id)) [
    | inl e ↦ absurd (ground (arith, e, h))
    | inr (send, e) ↦ elim (Bool-cases (is_in_flight send.state)) [
      | inr f ↦ absurd (ground (arith, e, f, h))
      | inl f ↦ elim (Option-cases send.dispatched_at) [
        | inl d ↦
            rw (e, reconcile_send)
              (rw (f, d, reconcile_row)
                (record { absent = o.unsent send e d; open_row = λ s l. ground arith }))
        | inr (at, d) ↦
            rw (e, reconcile_send)
              (rw (f, d, reconcile_row)
                (reconcile_dispatched-IsClear w send note o e f
                  (rw (f, d, reconcile_row) at (rw (e, reconcile_send) at h))))
      ]
    ]
  ]
