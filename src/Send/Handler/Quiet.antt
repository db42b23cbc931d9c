-- ===== src/Send/Handler/Quiet.antt =====
-- Every step of the send job but the provider's call is quiet: reconciliation, the failure path and
-- the delivery commit.
use unified_search_safe_send.Prelude.{
  ℕ, ◌≡◌, refl, ◌∙◌, Bool, Option, none, some, List, String, arith, leb, Bool-cases, Option-cases,
  inl, inr,
}
use unified_search_safe_send.Prelude.Text.{truthy}
use unified_search_safe_send.Enums.{ProviderKind, SendState, ErrorClass}
use unified_search_safe_send.Errors.{Exn, classify, str}
use unified_search_safe_send.Jobs.Table.{ClaimedJob}
use unified_search_safe_send.Jobs.Queue.{is_transient}
use unified_search_safe_send.Send.Row.{
  Send, Draft, SendReceipt, is_in_flight, load_send, load_draft, commit_dispatch_attempt,
  mark_delivered, mark_uncertain, record_error, set_terminal, bump_reconcile_attempts,
  while_in_flight, in_doubt, any_state, set_dispatched, set_delivered, set_uncertain, set_error,
  set_state, set_bumped,
}
use unified_search_safe_send.Send.Provider.{
  SendProvider, SendRequest, ProbeResult, ProbeVerdict, found, absent, inconclusive, Reply, returns,
  raises, IsHonest,
}
use unified_search_safe_send.Send.Handler.{
  CrashPoint, finalize_at_ceiling, tidy, finalize_failure, deliver, after_provider_accept,
  before_delivery_commit, after_delivery_commit,
}
use unified_search_safe_send.Send.Reconcile.{
  World, ReconcileVerdict, not_sent, retry_later, with_sends, park_uncertain, note_error,
  give_up_or_wait, adopt, settle_verdict, settle, ask, reconcile_dispatched, reconcile_row,
  reconcile_send, request_for, max_reconcile_attempts,
}
use unified_search_safe_send.Send.Handler.Follows.{
  RowsFollow, RowsFollow-refl, RowsFollow-trans, update-RowsFollow,
}

bump-RowsFollow :
    (now id : ℕ) (sends : List Send) → RowsFollow sends (bump_reconcile_attempts now id sends).1
unfolding bump_reconcile_attempts
bump-RowsFollow now id sends = update-RowsFollow id any_state (set_bumped now) sends (record {
  same_id = λ s. refl;
  same_key = λ s. refl;
  same_provider = λ s. refl;
  kept = λ s h. h;
})

delivered-RowsFollow :
    (now id : ℕ) (r : SendReceipt) (e : String) (sends : List Send)
    → RowsFollow sends (mark_delivered now id r e sends).1
unfolding mark_delivered
delivered-RowsFollow now id r e sends =
    update-RowsFollow id while_in_flight (set_delivered now r e) sends (record {
      same_id = λ s. refl;
      same_key = λ s. refl;
      same_provider = λ s. refl;
      kept = λ s h. h;
    })

uncertain-RowsFollow :
    (now id : ℕ) (d : String) (sends : List Send) → RowsFollow sends (mark_uncertain now id d sends)
unfolding mark_uncertain
uncertain-RowsFollow now id d sends =
    update-RowsFollow id in_doubt (set_uncertain now d) sends (record {
      same_id = λ s. refl;
      same_key = λ s. refl;
      same_provider = λ s. refl;
      kept = λ s h. h;
    })

error-RowsFollow :
    (now id : ℕ) (c : ErrorClass) (d : String) (sends : List Send)
    → RowsFollow sends (record_error now id c d sends)
unfolding record_error
error-RowsFollow now id c d sends =
    update-RowsFollow id while_in_flight (set_error now c d) sends (record {
      same_id = λ s. refl;
      same_key = λ s. refl;
      same_provider = λ s. refl;
      kept = λ s h. h;
    })

terminal-RowsFollow :
    (now id : ℕ) (t : SendState) (c : ErrorClass) (d : String) (sends : List Send)
    → RowsFollow sends (set_terminal now id t c d sends)
unfolding set_terminal
terminal-RowsFollow now id t c d sends =
    update-RowsFollow id while_in_flight (set_state now t c d) sends (record {
      same_id = λ s. refl;
      same_key = λ s. refl;
      same_provider = λ s. refl;
      kept = λ s h. h;
    })

pub dispatched-RowsFollow :
    (now id : ℕ) (d : Option String) (sends : List Send)
    → RowsFollow sends (commit_dispatch_attempt now id d sends)
unfolding commit_dispatch_attempt
dispatched-RowsFollow now id d sends =
    update-RowsFollow id while_in_flight (set_dispatched now d) sends (record {
      same_id = λ s. refl;
      same_key = λ s. refl;
      same_provider = λ s. refl;
      kept = λ s h. ground arith;
    })

module _ {P : Type 0} (delivered_count : P → ProviderKind → String → ℕ) (k : ProviderKind)
    (fp : String) where
  -- The world moved on and the provider has taken no message more with the fingerprint.
  pub record Follows (w w' : World P) : Type 0 where
    pub rows : RowsFollow w.sends w'.sends
    pub count : delivered_count w'.provider k fp ≡ delivered_count w.provider k fp

  pub Follows-refl : (w : World P) → Follows w w
  Follows-refl w = record { rows = RowsFollow-refl w.sends; count = refl }

  pub Follows-trans : (a b c : World P) → Follows a b → Follows b c → Follows a c
  Follows-trans a b c f g = record {
    rows = RowsFollow-trans a.sends b.sends c.sends f.rows g.rows;
    count = g.count ∙ f.count;
  }

  sends-Follows :
      (w : World P) (sends : List Send) → RowsFollow w.sends sends → Follows w (with_sends w sends)
  sends-Follows w sends r = record { rows = r; count = refl }

  park-Follows :
      (now : ℕ) (w : World P) (id : ℕ) (d : String) → Follows w (park_uncertain now w id d).1
  unfolding park_uncertain
  park-Follows now w id d = sends-Follows w _ (uncertain-RowsFollow now id d w.sends)

  note-Follows : (now : ℕ) (w : World P) (id : ℕ) (d : String) → Follows w (note_error now w id d)
  unfolding note_error
  note-Follows now w id d = sends-Follows w _ (error-RowsFollow now id _ d w.sends)

  give_up_or_wait-Follows :
      (now : ℕ) (w : World P) (id n : ℕ) (a b : String)
      → Follows w (give_up_or_wait now w id n a b).1
  unfolding give_up_or_wait
  give_up_or_wait-Follows now w id n a b = elim (Bool-cases (leb max_reconcile_attempts n)) [
    | inl e ↦ rw e (park-Follows now w id a)
    | inr e ↦ rw e (note-Follows now w id b)
  ]

  adopt-Follows :
      (now : ℕ) (w : World P) (s : Send) (m e : String) → Follows w (adopt now w s m e).1
  unfolding adopt
  adopt-Follows now w s m e = sends-Follows w _ (delivered-RowsFollow now s.id _ e w.sends)

  settle_verdict-Follows :
      (now : ℕ) (w : World P) (s : Send) (n : ℕ) (note : String) (probe : ProbeResult)
      (v : ProbeVerdict)
      → Follows w (settle_verdict now w s n note probe v).1
  unfolding settle_verdict
  settle_verdict-Follows now w s n note probe found =
      elim (Option-cases probe.provider_message_id) [
        | inl e ↦ rw (e, settle_verdict) (park-Follows now w s.id _)
        | inr (m, e) ↦ rw (e, settle_verdict) (adopt-Follows now w s m probe.evidence)
      ]
  settle_verdict-Follows now w s n note probe absent = note-Follows now w s.id _
  settle_verdict-Follows now w s n note probe inconclusive =
      give_up_or_wait-Follows now w s.id n _ _

  pub settle-Follows :
      (now : ℕ) (w : World P) (s : Send) (n : ℕ) (note : String) (reply : Reply ProbeResult)
      → Follows w (settle now w s n note reply).1
  unfolding settle
  settle-Follows now w s n note (raises exc) = give_up_or_wait-Follows now w s.id n _ _
  settle-Follows now w s n note (returns probe) =
      settle_verdict-Follows now w s n note probe probe.verdict

  pub deliver-Follows :
      (now : ℕ) (armed : CrashPoint → Bool) (ops : SendProvider P) (w : World P) (s : Send)
      (r : SendReceipt)
      → Follows w (deliver ops now armed w s r).1
  unfolding deliver
  deliver-Follows now armed ops w s r = elim (Bool-cases (armed after_provider_accept)) [
    | inl e ↦ rw e (Follows-refl w)
    | inr e ↦ elim (Bool-cases (armed before_delivery_commit)) [
      | inl e' ↦ rw (e, e') (Follows-refl w)
      | inr e' ↦ elim (Bool-cases (armed after_delivery_commit)) [
        | inl e'' ↦ rw (e, e', e'') (sends-Follows w _ (delivered-RowsFollow now s.id r "" w.sends))
        | inr e'' ↦
            rw (e, e', e'')
              (record { rows = delivered-RowsFollow now s.id r "" w.sends; count = refl })
      ]
    ]
  ]

  module _ (ops : SendProvider P) (honest : IsHonest ops delivered_count) (now : ℕ) where
    pub ask-Follows :
        (w : World P) (s : Send) (d : Draft) (note : String) → Follows w (ask ops now w s d note).1
    unfolding ask
    ask-Follows w s d note =
        Follows-trans w asked _
          (record {
            rows = bump-RowsFollow now s.id w.sends;
            count = honest.probe_keeps s.provider k w.provider (request_for s d) fp;
          })
          (settle-Follows now asked s _ note _)
      where
        asked : World P
        asked = record w {
          sends = (bump_reconcile_attempts now s.id w.sends).1;
          provider = (ops.probe_by_fingerprint s.provider w.provider (request_for s d)).1;
        }

    reconcile_dispatched-Follows :
        (w : World P) (s : Send) (note : String)
        → Follows w (reconcile_dispatched ops now w s note).1
    unfolding reconcile_dispatched
    reconcile_dispatched-Follows w s note =
        elim (Bool-cases (leb max_reconcile_attempts s.reconcile_attempts)) [
          | inl e ↦ rw e (park-Follows now w s.id _)
          | inr e ↦ elim (Option-cases (load_draft w.drafts s.draft_id)) [
            | inl m ↦ rw (e, m, reconcile_dispatched) (park-Follows now w s.id _)
            | inr (d, m) ↦ rw (e, m, reconcile_dispatched) (ask-Follows w s d note)
          ]
        ]

    reconcile_row-Follows :
        (w : World P) (s : Send) (note : String) → Follows w (reconcile_row ops now w s note).1
    unfolding reconcile_row
    reconcile_row-Follows w s note = elim (Bool-cases (is_in_flight s.state)) [
      | inr e ↦ rw e (Follows-refl w)
      | inl e ↦ elim (Option-cases s.dispatched_at) [
        | inl m ↦ rw (e, m, reconcile_row) (Follows-refl w)
        | inr (at, m) ↦ rw (e, m, reconcile_row) (reconcile_dispatched-Follows w s note)
      ]
    ]

    -- Reconciling a send is quiet, whatever the provider answers.
    pub reconcile_send-Follows :
        (w : World P) (id : ℕ) (note : String) → Follows w (reconcile_send ops now w id note).1
    unfolding reconcile_send
    reconcile_send-Follows w id note = elim (Option-cases (load_send w.sends id)) [
      | inl e ↦ rw (e, reconcile_send) (Follows-refl w)
      | inr (s, e) ↦ rw (e, reconcile_send) (reconcile_row-Follows w s note)
    ]

    ceiling-Follows :
        (w : World P) (id : ℕ) (c : ErrorClass) (d : String) (v : ReconcileVerdict) (w' : World P)
        → Follows w w'
        → Follows w (finalize_at_ceiling ops now id c d (v, w'))
    unfolding finalize_at_ceiling
    ceiling-Follows w id c d not_sent w' f =
        Follows-trans w w' _ f (sends-Follows w' _ (terminal-RowsFollow now id _ c d w'.sends))
    ceiling-Follows w id c d retry_later w' f =
        Follows-trans w w' _ f (sends-Follows w' _ (uncertain-RowsFollow now id d w'.sends))
    ceiling-Follows w id c d _ w' f = f

    tidy-Follows :
        (w : World P) (j : ProviderKind) (o : Option SendRequest) → Follows w (tidy ops now w j o)
    unfolding tidy
    tidy-Follows w j none = Follows-refl w
    tidy-Follows w j (some r) = elim (Option-cases r.provider_draft_id) [
      | inl e ↦ rw (e, tidy) (Follows-refl w)
      | inr (d, e) ↦ elim (Bool-cases (truthy d)) [
        | inl t ↦
            rw (e, tidy)
              (rw t (record {
                rows = RowsFollow-refl w.sends;
                count = honest.discard_keeps j k w.provider r fp;
              }))
        | inr t ↦ rw (e, tidy) (rw t (Follows-refl w))
      ]
    ]

    pub finalize_failure-Follows :
        (w : World P) (j : ProviderKind) (id : ℕ) (exc : Exn) (job : ClaimedJob)
        (o : Option SendRequest)
        → Follows w (finalize_failure ops now w j id exc job o)
    unfolding finalize_failure
    finalize_failure-Follows w j id exc job o = elim (Bool-cases (is_transient (classify exc))) [
      | inl t ↦ elim (Bool-cases (leb job.max_attempts job.attempts)) [
        | inl top ↦ rw (t, top) (ceiling-Follows w id _ _ _ _ (reconcile_send-Follows w id _))
        | inr below ↦ rw (t, below) (sends-Follows w _ (error-RowsFollow now id _ _ w.sends))
      ]
      | inr t ↦ rw t (
          Follows-trans w _ _ (sends-Follows w _ (terminal-RowsFollow now id _ _ (str exc) w.sends))
            (tidy-Follows _ j o))
    ]
