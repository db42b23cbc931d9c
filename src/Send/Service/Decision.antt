-- ===== src/Send/Service/Decision.antt =====
-- The decision table of the gate.
use unified_search_safe_send.Prelude.{
  ℕ, ◌≡◌, ap, true, Option, none, some, String, arith, eq_iff, str_eq, if◌then◌else◌, Bool-cases,
  Option-cases, inl, inr,
}
use unified_search_safe_send.Connections.Row.{Connection}
use unified_search_safe_send.Send.Row.{Send, Draft}
use unified_search_safe_send.Send.Claim.{Interleaving, load_send_by_key}
use unified_search_safe_send.Send.Service.{
  Gate, ok, refused, refusal, Db, SendOutcome, send_payload, replay, answer_with, get_draft,
  draft_digest, decide, given, send_draft,
}

-- what a caller is told about a row that exists, the tables unchanged
abbrev pub told : ℕ → Db → Send → String → Gate (SendOutcome × Db)
told now db row digest =
    if str_eq row.confirmed_sha256 digest
    then ok
        (record { payload = send_payload now row true; status = 200; idempotent_replay = true }, db)
    else refused (refusal "idempotency_key_body_mismatch" 422)

-- A caller with a digest, whose draft's key has a send: the answer is that row with status 200 and
-- `idempotent_replay` if the digest is the row's, and the mismatch refusal if not, whatever state the
-- send is in and whether or not the draft was edited since; no table changes and no job is booked.
pub send_draft_replays :
    (sha256 : String → String) (others : Interleaving) (now id : ℕ) (db : Db) (draft_id user_id : ℕ)
    (digest : String) (d : Draft) (c : Connection) (row : Send)
    → get_draft db draft_id user_id ≡ some (d, c)
    → load_send_by_key db.sends user_id d.idempotency_key ≡ some row
    → given (some digest) ≡ true
    → send_draft sha256 others now id db draft_id user_id (some digest) ≡ told now db row digest
unfolding send_draft decide replay answer_with
send_draft_replays sha256 others now id db draft_id user_id digest d c row g l h =
    elim (Bool-cases (str_eq row.confirmed_sha256 digest)) [
      | inl e ↦ ground (arith, g, l, h, e)
      | inr e ↦ ground (arith, g, l, h, e)
    ]

-- What a created send had behind it.
pub record IsConfirmed (sha256 : String → String) (db : Db) (draft_id user_id : ℕ)
    (confirmed : Option String) : Type 0 where
  pub draft : Draft
  pub connection : Connection
  pub drafted : get_draft db draft_id user_id ≡ some (draft, connection)
  pub seen : confirmed ≡ some (draft_digest sha256 draft)
  pub first : load_send_by_key db.sends user_id draft.idempotency_key ≡ none

-- A send is created (status 201) only if the caller gave the digest of the draft's present content,
-- recipient included, and the draft's key had no send before.
pub send_draft_created :
    (sha256 : String → String) (others : Interleaving) (now id : ℕ) (db : Db) (draft_id user_id : ℕ)
    (confirmed : Option String) (outcome : SendOutcome) (db' : Db)
    → send_draft sha256 others now id db draft_id user_id confirmed ≡ ok (outcome, db')
    → outcome.status ≡ 201
    → IsConfirmed sha256 db draft_id user_id confirmed
unfolding send_draft decide replay answer_with
send_draft_created sha256 others now id db draft_id user_id none outcome db' h s =
    elim (Option-cases (get_draft db draft_id user_id)) [
      | inl g ↦ absurd (ground (arith, g, h))
      | inr ((d, c), g) ↦ absurd (ground (arith, g, h))
    ]
send_draft_created sha256 others now id db draft_id user_id (some digest) outcome db' h s =
    elim (Option-cases (get_draft db draft_id user_id)) [
      | inl g ↦ absurd (ground (arith, g, h))
      | inr ((d, c), g) ↦ elim (Bool-cases (str_eq digest "")) [
        | inl empty ↦ absurd (ground (arith, g, h, empty))
        | inr full ↦ elim (Option-cases (load_send_by_key db.sends user_id d.idempotency_key)) [
          | inr (row, l) ↦ absurd (ground (arith, g, h, full, l, s))
          | inl l ↦ elim (Bool-cases (str_eq digest (draft_digest sha256 d))) [
            | inr stale ↦ absurd (ground (arith, g, h, full, l, stale))
            | inl same ↦ record {
              draft = d;
              connection = c;
              drafted = g;
              seen = ap some ((eq_iff digest (draft_digest sha256 d)).0 same);
              first = l;
            }
          ]
        ]
      ]
    ]
