-- ===== src/Send/Claim/Winner.antt =====
-- The claim answers with the row that the table holds under the key, whoever made it.
use text.Mathlib.TextPositions.{eq_refl}
use unified_search_safe_send.Prelude.{
  ℕ, zero, suc, ◌≡◌, Bool, true, none, some, List, [], ◌∷◌, ◌++◌, arith, first_where-snoc,
  Option-cases, inl, inr,
}
use unified_search_safe_send.Send.Row.{Send}
use unified_search_safe_send.Send.Claim.{
  ClaimArgs, new_send, has_key, load_send_by_key, insert_send, claimed, Interleaving, claim_tries,
  claim_send, claim_retries,
}

pub inserted_found :
    (now id : ℕ) (a : ClaimArgs) (sends : List Send)
    → load_send_by_key sends a.user_id a.idempotency_key ≡ none
    → load_send_by_key (sends ++ new_send now id a ∷ []) a.user_id a.idempotency_key
      ≡ some (new_send now id a)
unfolding load_send_by_key new_send
inserted_found now id a sends h =
    first_where-snoc (has_key a.user_id a.idempotency_key) sends (new_send now id a) h
      (ground (arith, eq_refl a.idempotency_key))

claim_tries-load :
    (tries : ℕ) (others : Interleaving) (now id : ℕ) (a : ClaimArgs) (sends after : List Send)
    (row : Send) (won : Bool)
    → claim_tries tries others now id a sends ≡ (claimed row won, after)
    → load_send_by_key after a.user_id a.idempotency_key ≡ some row
unfolding claim_tries insert_send
claim_tries-load zero others now id a sends after row won h = cc
claim_tries-load (suc tries) others now id a sends after row won h =
    elim (Option-cases (load_send_by_key sends a.user_id a.idempotency_key)) [
      | inl e ↦ ground (arith, e, h, inserted_found now id a sends e)
      | inr (r, e) ↦
          let seen = others.between tries sends in
          ground (
            arith,
            e,
            h,
            claim_tries-load tries others now id a (others.next tries seen) after row won,
          )
    ]

-- Whatever other transactions do between the statements: if the claim answers with a row, won or
-- not, that row is the one that the table then holds under the user's key.
pub claim_send-load :
    (others : Interleaving) (now id : ℕ) (a : ClaimArgs) (sends after : List Send) (row : Send)
    (won : Bool)
    → claim_send others now id a sends ≡ (claimed row won, after)
    → load_send_by_key after a.user_id a.idempotency_key ≡ some row
unfolding claim_send
claim_send-load = claim_tries-load claim_retries

claim_tries-digest :
    (tries : ℕ) (others : Interleaving) (now id : ℕ) (a : ClaimArgs) (sends after : List Send)
    (row : Send)
    → claim_tries tries others now id a sends ≡ (claimed row true, after)
    → row.confirmed_sha256 ≡ a.confirmed_sha256
unfolding claim_tries insert_send new_send
claim_tries-digest zero others now id a sends after row h = cc
claim_tries-digest (suc tries) others now id a sends after row h =
    elim (Option-cases (load_send_by_key sends a.user_id a.idempotency_key)) [
      | inl e ↦ ground (arith, e, h)
      | inr (r, e) ↦
          let seen = others.between tries sends in
          ground (
            arith,
            e,
            h,
            claim_tries-digest tries others now id a (others.next tries seen) after row,
          )
    ]

-- a row that the claim won carries the digest that it was given
pub claim_send-digest :
    (others : Interleaving) (now id : ℕ) (a : ClaimArgs) (sends after : List Send) (row : Send)
    → claim_send others now id a sends ≡ (claimed row true, after)
    → row.confirmed_sha256 ≡ a.confirmed_sha256
unfolding claim_send
claim_send-digest = claim_tries-digest claim_retries
