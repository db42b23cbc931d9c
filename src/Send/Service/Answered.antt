-- ===== src/Send/Service/Answered.antt =====
-- What an answer of the gate says of the tables, whoever made the send.
use unified_search_safe_send.Prelude.{
  ℕ, ◌≡◌, refl, sym, ap, ◌∙◌, ◌⊎◌, inl, inr, true, false, Option, none, some, List, String, arith,
  eq_iff, str_eq, Bool-cases, Option-cases,
}
use unified_search_safe_send.Connections.Row.{Connection}
use unified_search_safe_send.Send.Row.{Send, Draft}
use unified_search_safe_send.Send.Claim.{
  Interleaving, ClaimResult, claimed, contention, load_send_by_key, claim_send,
}
use unified_search_safe_send.Send.Claim.Winner.{claim_send-load, claim_send-digest}
use unified_search_safe_send.Send.Service.{
  Gate, ok, refused, conflict, Db, SendOutcome, send_payload, replay, get_draft, draft_digest,
  answer_with, after_claim, claim_args, decide, send_draft,
}

-- the answer is about the row that the table holds under the key, and its digest is the caller's
pub record IsOf (db' : Db) (user_id : ℕ) (key digest : String) (outcome : SendOutcome)
    : Type 0 where
  pub row : Send
  pub stored : load_send_by_key db'.sends user_id key ≡ some row
  pub same : row.confirmed_sha256 ≡ digest
  pub send_id : outcome.payload.send_id ≡ row.id
  pub state : outcome.payload.state ≡ row.state

-- a created send with its job booked, or a replay that books none
abbrev pub IsCreatedOrReplayed : (String → String) → Db → Db → Draft → String → SendOutcome → Type 0
IsCreatedOrReplayed sha256 db db' d digest outcome =
    ((outcome.status ≡ 201)
      × (outcome.idempotent_replay ≡ false)
      × (digest ≡ draft_digest sha256 d))
    ⊎ ((outcome.status ≡ 200) × (outcome.idempotent_replay ≡ true) × (db'.jobs ≡ db.jobs))

pub record IsAnswered (sha256 : String → String) (db : Db) (draft_id user_id : ℕ)
    (confirmed : Option String) (outcome : SendOutcome) (db' : Db) : Type 0 where
  pub draft : Draft
  pub connection : Connection
  pub digest : String
  pub drafted : get_draft db draft_id user_id ≡ some (draft, connection)
  pub seen : confirmed ≡ some digest
  pub about : IsOf db' user_id draft.idempotency_key digest outcome
  pub kind : IsCreatedOrReplayed sha256 db db' draft digest outcome

pub replay-inverse :
    (now : ℕ) (row : Send) (digest : String) (outcome : SendOutcome)
    → replay now row digest ≡ ok outcome
    → (row.confirmed_sha256 ≡ digest)
      × (outcome
          ≡ record { payload = send_payload now row true; status = 200; idempotent_replay = true })
unfolding replay
replay-inverse now row digest outcome h = elim (Bool-cases (str_eq row.confirmed_sha256 digest)) [
  | inr e ↦ absurd (ground (arith, e, h))
  | inl e ↦
      let q : Gate.ok
            (record { payload = send_payload now row true; status = 200; idempotent_replay = true })
          ≡ Gate.ok outcome =
        rw e at h in
      ((eq_iff row.confirmed_sha256 digest).0 e, cc)
]

pub answer_with-inverse :
    (r : Gate SendOutcome) (db db' : Db) (outcome : SendOutcome)
    → answer_with r db ≡ ok (outcome, db')
    → (r ≡ ok outcome) × (db ≡ db')
unfolding answer_with
answer_with-inverse (ok o) db db' outcome h = let e : o ≡ outcome = cc in (ap Gate.ok e, cc)
answer_with-inverse (refused e) db db' outcome h = absurd (cc)
answer_with-inverse conflict db db' outcome h = absurd (cc)

about_replay :
    (now : ℕ) (db' : Db) (user_id : ℕ) (key digest : String) (row : Send) (outcome : SendOutcome)
    → load_send_by_key db'.sends user_id key ≡ some row
    → replay now row digest ≡ ok outcome
    → IsOf db' user_id key digest outcome
      × (outcome.status ≡ 200)
      × (outcome.idempotent_replay ≡ true)
unfolding send_payload
about_replay now db' user_id key digest row outcome l h =
    let (same, e) = replay-inverse now row digest outcome h in
    (
      record {
        row = row;
        stored = l;
        same = same;
        send_id = ap (λ (o : SendOutcome). o.payload.send_id) e;
        state = ap (λ (o : SendOutcome). o.payload.state) e;
      },
      ap (λ (o : SendOutcome). o.status) e,
      ap (λ (o : SendOutcome). o.idempotent_replay) e,
    )

-- the last step, after a claim with the digest of the draft as it is
after_claim-answers :
    (sha256 : String → String) (others : Interleaving) (now id : ℕ) (db : Db) (user_id : ℕ)
    (d : Draft) (c : Connection) (r : ClaimResult) (sends : List Send) (outcome : SendOutcome)
    (db' : Db)
    → claim_send others now id
        (claim_args user_id d c (draft_digest sha256 d))
        (others.before db.sends)
      ≡ (r, sends)
    → after_claim now db (draft_digest sha256 d) (r, sends) ≡ ok (outcome, db')
    → IsOf db' user_id d.idempotency_key (draft_digest sha256 d) outcome
      × IsCreatedOrReplayed sha256 db db' d (draft_digest sha256 d) outcome
unfolding after_claim send_payload answer_with
after_claim-answers sha256 others now id db user_id d c contention sends outcome db' e h =
    absurd (cc)
after_claim-answers sha256 others now id db user_id d c (claimed row false) sends outcome db' e h =
    let (r, same) =
      answer_with-inverse (replay now row (draft_digest sha256 d)) (record db { sends = sends }) db'
        outcome h in
    let load =
      claim_send-load others now id (claim_args user_id d c (draft_digest sha256 d))
        (others.before db.sends) sends row false e in
    let stored : load_send_by_key db'.sends user_id d.idempotency_key ≡ some row =
      ap (λ (x : Db). load_send_by_key x.sends user_id d.idempotency_key) (sym same) ∙ load in
    let (about, status, flag) =
      about_replay now db' user_id d.idempotency_key (draft_digest sha256 d) row outcome stored r in
    (about, inr (status, flag, ap (λ (x : Db). x.jobs) (sym same)))
after_claim-answers sha256 others now id db user_id d c (claimed row true) sends outcome db' e h =
    let a = claim_args user_id d c (draft_digest sha256 d) in
    let load = claim_send-load others now id a (others.before db.sends) sends row true e in
    let kept : db'.sends ≡ sends = ground arith in
    (
      record {
        row = row;
        stored = ap (λ (x : List Send). load_send_by_key x user_id d.idempotency_key) kept ∙ load;
        same = claim_send-digest others now id a (others.before db.sends) sends row e;
        send_id = ground arith;
        state = ground arith;
      },
      inl (ground arith, ground arith, refl),
    )

-- the decision, once a digest was given
decide-answers :
    (sha256 : String → String) (others : Interleaving) (now id : ℕ) (db : Db) (user_id : ℕ)
    (digest : String) (d : Draft) (c : Connection) (outcome : SendOutcome) (db' : Db)
    → decide sha256 others now id db user_id digest d c ≡ ok (outcome, db')
    → IsOf db' user_id d.idempotency_key digest outcome
      × IsCreatedOrReplayed sha256 db db' d digest outcome
unfolding decide answer_with
decide-answers sha256 others now id db user_id digest d c outcome db' h =
    elim (Option-cases (load_send_by_key db.sends user_id d.idempotency_key)) [
      | inr (row, l) ↦
          let (r, same) =
            answer_with-inverse (replay now row digest) db db' outcome (ground (arith, l, h)) in
          let stored : load_send_by_key db'.sends user_id d.idempotency_key ≡ some row =
            ap (λ (x : Db). load_send_by_key x.sends user_id d.idempotency_key) (sym same) ∙ l in
          let (about, status, flag) =
            about_replay now db' user_id d.idempotency_key digest row outcome stored r in
          (about, inr (status, flag, ap (λ (x : Db). x.jobs) (sym same)))
      | inl l ↦ elim (Bool-cases (str_eq digest (draft_digest sha256 d))) [
        | inr stale ↦ absurd (ground (arith, l, stale, h))
        | inl fresh ↦
            let e : digest ≡ draft_digest sha256 d =
              (eq_iff digest (draft_digest sha256 d)).0 fresh in
            let a = claim_args user_id d c (draft_digest sha256 d) in
            let r = claim_send others now id a (others.before db.sends) in
            let last : after_claim now db (draft_digest sha256 d) (r.0, r.1) ≡ ok (outcome, db') =
              ground (arith, l, fresh, e, h) in
            rw e (
              after_claim-answers sha256 others now id db user_id d c r.0 r.1 outcome db' refl last)
      ]
    ]

-- Whatever other transactions do between the statements, before the INSERT among them: an answer of
-- the gate that is not a refusal is about the send that the table then holds under the key of the
-- caller's draft, with its id and its state, and the digest of that send is the one that the caller
-- gave. It is 201 without `idempotent_replay`, where the digest is that of the draft as it is, or 200
-- with it, where no job is booked.
pub send_draft_answers :
    (sha256 : String → String) (others : Interleaving) (now id : ℕ) (db : Db) (draft_id user_id : ℕ)
    (confirmed : Option String) (outcome : SendOutcome) (db' : Db)
    → send_draft sha256 others now id db draft_id user_id confirmed ≡ ok (outcome, db')
    → IsAnswered sha256 db draft_id user_id confirmed outcome db'
unfolding send_draft
send_draft_answers sha256 others now id db draft_id user_id none outcome db' h =
    elim (Option-cases (get_draft db draft_id user_id)) [
      | inl g ↦ absurd (ground (arith, g, h))
      | inr ((d, c), g) ↦ absurd (ground (arith, g, h))
    ]
send_draft_answers sha256 others now id db draft_id user_id (some digest) outcome db' h =
    elim (Option-cases (get_draft db draft_id user_id)) [
      | inl g ↦ absurd (ground (arith, g, h))
      | inr ((d, c), g) ↦ elim (Bool-cases (str_eq digest "")) [
        | inl empty ↦ absurd (ground (arith, g, h, empty))
        | inr full ↦
            let made : decide sha256 others now id db user_id digest d c ≡ ok (outcome, db') =
              ground (arith, g, h, full) in
            let (about, kind) =
              decide-answers sha256 others now id db user_id digest d c outcome db' made in
            record {
              draft = d;
              connection = c;
              digest = digest;
              drafted = g;
              seen = refl;
              about = about;
              kind = kind;
            }
      ]
    ]
