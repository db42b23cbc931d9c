-- ===== src/Send/Service/Twice.antt =====
-- The double tap: what a caller that confirms twice is told.
use text.Mathlib.TextPositions.{eq_refl}
use unified_search_safe_send.Prelude.{
  ℕ, ◌≡◌, refl, sym, ap, ◌∙◌, true, false, Option, none, some, List, String, arith, str_eq,
  Bool-cases, inl, inr,
}
use unified_search_safe_send.Connections.Row.{Connection}
use unified_search_safe_send.Send.Row.{Send, Draft}
use unified_search_safe_send.Send.Claim.{
  Interleaving, ClaimResult, claimed, contention, load_send_by_key, claim_send,
}
use unified_search_safe_send.Send.Claim.Winner.{claim_send-load, claim_send-digest}
use unified_search_safe_send.Send.Service.{
  ok, Db, SendOutcome, send_payload, replay, get_draft, draft_digest, answer_with, after_claim,
  claim_args, decide, given, send_draft,
}
use unified_search_safe_send.Send.Service.Answered.{replay-inverse, answer_with-inverse}
use unified_search_safe_send.Send.Service.Decision.{send_draft_created, send_draft_replays, told}

-- What a creation leaves in the tables.
record IsCreated (db : Db) (r : ClaimResult) (sends : List Send) (outcome : SendOutcome) (db' : Db)
    : Type 0 where
  row : Send
  won : r ≡ claimed row true
  stored : db'.sends ≡ sends
  drafts : db'.drafts ≡ db.drafts
  connections : db'.connections ≡ db.connections
  told_id : outcome.payload.send_id ≡ row.id

after_claim-IsCreated :
    (now : ℕ) (db : Db) (confirmed : String) (r : ClaimResult) (sends : List Send)
    (outcome : SendOutcome) (db' : Db)
    → after_claim now db confirmed (r, sends) ≡ ok (outcome, db')
    → outcome.status ≡ 201
    → IsCreated db r sends outcome db'
unfolding after_claim replay send_payload answer_with
after_claim-IsCreated now db confirmed contention sends outcome db' h s = absurd (cc)
after_claim-IsCreated now db confirmed (claimed row true) sends outcome db' h s = record {
  row = row;
  won = refl;
  stored = ground arith;
  drafts = ground arith;
  connections = ground arith;
  told_id = ground arith;
}
after_claim-IsCreated now db confirmed (claimed row false) sends outcome db' h s =
    let (r, _) =
      answer_with-inverse (replay now row confirmed) (record db { sends = sends }) db' outcome h in
    let (_, e) = replay-inverse now row confirmed outcome r in
    absurd (omega (arith, s, ap (λ (o : SendOutcome). o.status) e))

replayed :
    (now : ℕ) (db : Db) (row : Send) (digest : String)
    → row.confirmed_sha256 ≡ digest
    → (again : SendOutcome) × (told now db row digest ≡ ok (again, db))
      × (again.payload.send_id ≡ row.id)
      × (again.status ≡ 200)
      × (again.idempotent_replay ≡ true)
unfolding send_payload
replayed now db row digest e =
    let same : str_eq row.confirmed_sha256 digest ≡ true = rw e (eq_refl digest) in
    (
      record { payload = send_payload now row true; status = 200; idempotent_replay = true },
      rw same refl,
      refl,
      refl,
      refl,
    )

-- the call that created the send, at its last step
created_by_claim :
    (sha256 : String → String) (others : Interleaving) (now id : ℕ) (db : Db) (draft_id user_id : ℕ)
    (d : Draft) (c : Connection) (outcome : SendOutcome) (db' : Db)
    → get_draft db draft_id user_id ≡ some (d, c)
    → load_send_by_key db.sends user_id d.idempotency_key ≡ none
    → send_draft sha256 others now id db draft_id user_id (some (draft_digest sha256 d))
      ≡ ok (outcome, db')
    → (given (some (draft_digest sha256 d)) ≡ true)
      × (after_claim now db (draft_digest sha256 d) (
            claim_send others now id
              (claim_args user_id d c (draft_digest sha256 d))
              (others.before db.sends))
          ≡ ok (outcome, db'))
unfolding send_draft decide
created_by_claim sha256 others now id db draft_id user_id d c outcome db' g l h =
    elim (Bool-cases (given (some (draft_digest sha256 d)))) [
      | inl e ↦ (e, ground (arith, g, l, e, h, eq_refl (draft_digest sha256 d)))
      | inr e ↦ absurd (ground (arith, g, h, e))
    ]

same_draft :
    (db db' : Db) (draft_id user_id : ℕ) (found : Draft × Connection)
    → db'.drafts ≡ db.drafts
    → db'.connections ≡ db.connections
    → get_draft db draft_id user_id ≡ some found
    → get_draft db' draft_id user_id ≡ some found
unfolding get_draft
same_draft db db' draft_id user_id found drafts connections g = rw (drafts, connections) g

module _ (sha256 : String → String) (others others' : Interleaving) (now id now' id' : ℕ) (db : Db)
    (draft_id user_id : ℕ) where
  second_call :
      (d : Draft) (c : Connection) (outcome : SendOutcome) (db' : Db)
      → get_draft db draft_id user_id ≡ some (d, c)
      → load_send_by_key db.sends user_id d.idempotency_key ≡ none
      → send_draft sha256 others now id db draft_id user_id (some (draft_digest sha256 d))
        ≡ ok (outcome, db')
      → outcome.status ≡ 201
      → (again : SendOutcome) × (send_draft sha256 others' now' id' db' draft_id user_id
            (some (draft_digest sha256 d))
          ≡ ok (again, db'))
        × (again.payload.send_id ≡ outcome.payload.send_id)
        × (again.status ≡ 200)
        × (again.idempotent_replay ≡ true)
  second_call d c outcome db' g l h s =
      let digest = draft_digest sha256 d in
      let args = claim_args user_id d c digest in
      let (full, claim) =
        created_by_claim sha256 others now id db draft_id user_id d c outcome db' g l h in
      let left = after_claim-IsCreated now db digest _ _ outcome db' claim s in
      let made : claim_send others now id args (others.before db.sends)
          ≡ (claimed left.row true, db'.sends) =
        cc (left.won, left.stored) in
      let (again, answer, same, status, flag) =
        replayed now' db' left.row digest
          (claim_send-digest others now id args (others.before db.sends) db'.sends left.row made) in
      (
        again,
        send_draft_replays sha256 others' now' id' db' draft_id user_id digest d c left.row
              (same_draft db db' draft_id user_id (d, c) left.drafts left.connections g)
              (claim_send-load others now id args (others.before db.sends) db'.sends left.row true
                made)
              full
            ∙ answer,
        same ∙ sym left.told_id,
        status,
        flag,
      )

  -- A caller that created a send and asks again with the same digest, whatever clock, fresh id and
  -- interleaving the second call meets: it is told 200 with `idempotent_replay` and the id of the send
  -- that it created, and the tables do not change.
  pub send_draft_twice :
      (confirmed : Option String) (outcome : SendOutcome) (db' : Db)
      → send_draft sha256 others now id db draft_id user_id confirmed ≡ ok (outcome, db')
      → outcome.status ≡ 201
      → (again : SendOutcome) × (send_draft sha256 others' now' id' db' draft_id user_id confirmed
          ≡ ok (again, db'))
        × (again.payload.send_id ≡ outcome.payload.send_id)
        × (again.status ≡ 200)
        × (again.idempotent_replay ≡ true)
  send_draft_twice confirmed outcome db' h s =
      let seen =
        send_draft_created sha256 others now id db draft_id user_id confirmed outcome db' h s in
      from seen.draft seen.connection seen.drafted seen.first seen.seen
    where
      from :
          (d : Draft) (c : Connection)
          → get_draft db draft_id user_id ≡ some (d, c)
          → load_send_by_key db.sends user_id d.idempotency_key ≡ none
          → confirmed ≡ some (draft_digest sha256 d)
          → (again : SendOutcome) × (send_draft sha256 others' now' id' db' draft_id user_id
                confirmed
              ≡ ok (again, db'))
            × (again.payload.send_id ≡ outcome.payload.send_id)
            × (again.status ≡ 200)
            × (again.idempotent_replay ≡ true)
      from d c g l e = rw e (second_call d c outcome db' g l (rw e at h) s)
