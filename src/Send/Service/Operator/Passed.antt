-- ===== src/Send/Service/Operator/Passed.antt =====
-- The row and the answer that an operator's action leaves.
use mathlib.Core.Path.{subst}
use unified_search_safe_send.Prelude.{
  ℕ, ◌≡◌, refl, sym, ap, true, false, some, List, arith, first_where-In, first_where-update, ◌==◌,
  ◌&&◌, ◌∙◌, Bool, if◌then◌else◌,
}
use unified_search_safe_send.Enums.{SendState}
use unified_search_safe_send.Send.Row.{Send, update_send, at_send}
use unified_search_safe_send.Send.Service.{ok, Db, SendPayload, send_payload}
use unified_search_safe_send.Send.Service.Operator.{load_own_send, answer}

-- the user's row after an UPDATE by its id
pub own-update :
    (sends : List Send) (id user_id : ℕ) (row : Send) (test : Send → Bool) (f : Send → Send)
    → ((s : Send) → ((f s).id ≡ s.id) × ((f s).user_id ≡ s.user_id))
    → load_own_send sends id user_id ≡ some row
    → test row ≡ true
    → (row.id ≡ id)
      × (row.user_id ≡ user_id)
      × (load_own_send (update_send row.id test f sends) row.id user_id ≡ some (f row))
unfolding load_own_send update_send
own-update sends id user_id row test f same l t =
    let (m, own) = first_where-In (λ s. s.id == id && s.user_id == user_id) sends row l in
    let ei : row.id ≡ id = ground arith in
    let eu : row.user_id ≡ user_id = ground arith in
    let hit : at_send row.id test row ≡ true = ground (arith, t) in
    let after =
      first_where-update (λ s. s.id == id && s.user_id == user_id) (at_send row.id test) f sends row
        (λ y. ground (arith, same y)) l in
    (
      ei,
      eu,
      subst (λ k. load_own_send (update_send row.id test f sends) k user_id ≡ some (f row)) (sym ei)
          (after ∙ ap (λ (b : Bool). some (if b then f row else row)) hit),
    )

-- the answer to an action that the row has passed
pub record IsNow (db' : Db) (send_id user_id : ℕ) (payload : SendPayload) : Type 0 where
  pub row : Send
  pub stored : load_own_send db'.sends send_id user_id ≡ some row
  pub in_flight : row.state ≡ SendState.in_flight
  pub fresh_budget : row.reconcile_attempts ≡ 0
  pub told_id : payload.send_id ≡ send_id
  pub told_state : payload.state ≡ SendState.in_flight

-- where the user's row is in flight with no reconciliation spent, the answer says so
pub answer-IsNow :
    (now : ℕ) (db : Db) (id user_id : ℕ) (row : Send)
    → load_own_send db.sends id user_id ≡ some row
    → row.id ≡ id
    → row.state ≡ SendState.in_flight
    → row.reconcile_attempts ≡ 0
    → (payload : SendPayload) × (answer now db id user_id ≡ ok (payload, db))
      × (is_now : IsNow db id user_id payload) × (is_now.row ≡ row)
unfolding answer send_payload
answer-IsNow now db id user_id row l e f b = (
  send_payload now row false,
  rw (l, answer) refl,
  record { row = row; stored = l; in_flight = f; fresh_budget = b; told_id = e; told_state = f },
  refl,
)
