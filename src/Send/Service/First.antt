-- ===== src/Send/Service/First.antt =====
-- The first row of the gate's decision table: no send yet, and the digest of the draft as it is.
use text.Mathlib.TextPositions.{eq_refl}
use unified_search_safe_send.Prelude.{
  ℕ, ◌≡◌, refl, true, none, some, List, [], ◌∷◌, ◌++◌, String, arith,
}
use unified_search_safe_send.Connections.Row.{Connection}
use unified_search_safe_send.Send.Row.{Send, Draft}
use unified_search_safe_send.Send.Claim.{
  Interleaving, ClaimArgs, claimed, new_send, insert_send, load_send_by_key, claim_tries,
  claim_send,
}
use unified_search_safe_send.Send.Service.{
  ok, Db, SendOutcome, send_payload, get_draft, draft_digest, after_claim, claim_args, decide,
  given, send_draft,
}

claim_send-fresh :
    (others : Interleaving) (now id : ℕ) (a : ClaimArgs) (sends : List Send)
    → load_send_by_key sends a.user_id a.idempotency_key ≡ none
    → claim_send others now id a sends
      ≡ (claimed (new_send now id a) true, sends ++ new_send now id a ∷ [])
unfolding claim_send claim_tries insert_send
claim_send-fresh others now id a sends h = ground (arith, h)

-- what a send that the gate created is told to its caller
pub record IsSent (sha256 : String → String) (others : Interleaving) (now id : ℕ) (db : Db)
    (draft_id user_id : ℕ) (digest : String) : Type 0 where
  pub outcome : SendOutcome
  pub after : Db
  pub answer :
      send_draft sha256 others now id db draft_id user_id (some digest) ≡ ok (outcome, after)
  pub created : outcome.status ≡ 201
  pub send_id : outcome.payload.send_id ≡ id

pub first_confirmation :
    (sha256 : String → String) (others : Interleaving) (now id : ℕ) (db : Db) (draft_id user_id : ℕ)
    (d : Draft) (c : Connection)
    → get_draft db draft_id user_id ≡ some (d, c)
    → load_send_by_key db.sends user_id d.idempotency_key ≡ none
    → load_send_by_key (others.before db.sends) user_id d.idempotency_key ≡ none
    → given (some (draft_digest sha256 d)) ≡ true
    → IsSent sha256 others now id db draft_id user_id (draft_digest sha256 d)
unfolding send_draft decide send_payload new_send after_claim
first_confirmation sha256 others now id db draft_id user_id d c g l free h =
    let claim =
      claim_send-fresh others now id (claim_args user_id d c (draft_digest sha256 d))
        (others.before db.sends) free in
    let last =
      created_last now db (draft_digest sha256 d)
        (new_send now id (claim_args user_id d c (draft_digest sha256 d)))
        (others.before db.sends
          ++ new_send now id (claim_args user_id d c (draft_digest sha256 d)) ∷ []) in
    record {
      outcome = last.0;
      after = last.1;
      answer = ground (arith, g, l, h, eq_refl (draft_digest sha256 d), claim, last.2);
      created = last.3;
      send_id = last.4;
    }
  where
    created_last :
        (now : ℕ) (db : Db) (digest : String) (row : Send) (sends : List Send)
        → (outcome : SendOutcome) × (after : Db) × (after_claim now db digest
              (claimed row true, sends)
            ≡ ok (outcome, after))
          × (outcome.status ≡ 201)
          × (outcome.payload.send_id ≡ row.id)
    created_last now db digest row sends = (_, _, refl, refl, refl)
