-- ===== src/Send/Drafts/Edits.antt =====
-- An edit of a draft makes every digest that was shown before stale.
use unified_search_safe_send.Prelude.{
  ℕ, ◌≡◌, ◌≢◌, ◌⊎◌, inl, inr, sym, ap, ◌∙◌, Bool, true, ◌&&◌, Option, none, some, List, String,
  arith, ◌==◌, eq_iff, if◌then◌else◌, or_default, first_where, first_where-update, update_where,
  first_where-In, Option-cases,
}
use unified_search_safe_send.Connections.Row.{Connection}
use unified_search_safe_send.Send.Row.{Draft, Send}
use unified_search_safe_send.Send.Digest.{payload, digest_parts}
use unified_search_safe_send.Send.Digest.Injective.{confirmation_digest_inj}
use unified_search_safe_send.Send.Claim.{Interleaving, load_send_by_key}
use unified_search_safe_send.Send.Service.{
  Gate, ok, refused, refusal, Db, get_draft, draft_digest, given, decide, send_draft,
}
use unified_search_safe_send.Send.Drafts.{
  DraftView, draft_view, edited, next_display, set_edited, own_draft, update_draft,
}

abbrev pub parts_of : Draft → String
parts_of d = payload (digest_parts d.channel d.recipient d.recipient_display d.subject d.body)

-- the contents differ in what a recipient or a reader would see
abbrev pub Differs : Draft → Draft → Type 0
Differs d e =
    (e.recipient ≢ d.recipient)
    ⊎ ((or_default e.subject "" ≢ or_default d.subject "") ⊎ (e.body ≢ d.body))

digest_moves :
    (sha256 : String → String) (d e : Draft)
    → (sha256 (parts_of e) ≡ sha256 (parts_of d) → parts_of e ≡ parts_of d)
    → Differs d e
    → draft_digest sha256 d ≢ draft_digest sha256 e
unfolding draft_digest
digest_moves sha256 d e free (inl n) h =
    n
      (confirmation_digest_inj sha256 e.channel d.channel e.recipient d.recipient
        e.recipient_display d.recipient_display e.subject d.subject e.body d.body free (sym h)).1
digest_moves sha256 d e free (inr (inl n)) h =
    n
      (confirmation_digest_inj sha256 e.channel d.channel e.recipient d.recipient
        e.recipient_display d.recipient_display e.subject d.subject e.body d.body free (sym h)).3
digest_moves sha256 d e free (inr (inr n)) h =
    n
      (confirmation_digest_inj sha256 e.channel d.channel e.recipient d.recipient
        e.recipient_display d.recipient_display e.subject d.subject e.body d.body free (sym h)).4

-- no send yet and another digest than the draft's: the body-changed refusal
stale_refused :
    (sha256 : String → String) (others : Interleaving) (now id : ℕ) (db : Db) (draft_id user_id : ℕ)
    (digest : String) (d : Draft) (c : Connection)
    → get_draft db draft_id user_id ≡ some (d, c)
    → load_send_by_key db.sends user_id d.idempotency_key ≡ none
    → given (some digest) ≡ true
    → digest ≢ draft_digest sha256 d
    → send_draft sha256 others now id db draft_id user_id (some digest)
      ≡ refused (refusal "body_changed_since_confirmation" 422)
unfolding send_draft decide
stale_refused sha256 others now id db draft_id user_id digest d c g l h n =
    ground (arith, g, l, h, n, eq_iff digest (draft_digest sha256 d))

get_draft-parts :
    (db : Db) (id user_id : ℕ) (d : Draft) (c : Connection)
    → get_draft db id user_id ≡ some (d, c)
    → (first_where (λ x. x.id == id && x.user_id == user_id) db.drafts ≡ some d)
      × (first_where (λ x. x.id == d.connection_id) db.connections ≡ some c)
unfolding get_draft
get_draft-parts db id user_id d c g =
    elim (Option-cases (first_where (λ x. x.id == id && x.user_id == user_id) db.drafts)) [
      | inl e ↦ absurd (ground (arith, e, g))
      | inr (d', e) ↦
          elim (Option-cases (first_where (λ x. x.id == d'.connection_id) db.connections)) [
            | inl f ↦ absurd (ground (arith, e, f, g))
            | inr (c', f) ↦
                let q : ◌≡◌ {A = Option (Draft × Connection)} (some (d', c')) (some (d, c)) =
                  ground (arith, e, f, g) in
                let r : d' ≡ d = cc in
                let s : c' ≡ c = cc in
                (
                  e ∙ ap some r,
                  ap
                        (λ (x : Draft).
                          first_where (λ (y : Connection). y.id == x.connection_id) db.connections)
                        (sym r)
                      ∙ f
                      ∙ ap some s,
                )
          ]
    ]

get_draft-make :
    (db : Db) (id user_id : ℕ) (d : Draft) (c : Connection)
    → first_where (λ x. x.id == id && x.user_id == user_id) db.drafts ≡ some d
    → first_where (λ x. x.id == d.connection_id) db.connections ≡ some c
    → get_draft db id user_id ≡ some (d, c)
unfolding get_draft
get_draft-make db id user_id d c e f = ground (arith, e, f)

module _ (sha256 : String → String) (channel_name : ℕ → String → Option String) (now : ℕ) where
  -- the gate finds the edited row
  edited_found :
      (db : Db) (id user_id : ℕ) (recipient subject body : Option String) (view : DraftView)
      (db' : Db) (d : Draft) (c : Connection)
      → get_draft db id user_id ≡ some (d, c)
      → update_draft sha256 channel_name now db id user_id recipient subject body ≡ ok (view, db')
      → (get_draft db' id user_id
          ≡ some (edited sha256 channel_name now recipient subject body d c, c))
        × (db'.sends ≡ db.sends)
        × (view.confirm_sha256
            ≡ draft_digest sha256 (edited sha256 channel_name now recipient subject body d c))
  unfolding update_draft edited draft_view
  edited_found db id user_id recipient subject body view db' d c g h =
      let next_recipient = or_default recipient d.recipient in
      let change =
        set_edited sha256 channel_name now next_recipient
          (next_display sha256 channel_name now d c next_recipient) subject body in
      let own = own_draft sha256 channel_name now id user_id in
      let made : ◌≡◌ {A = Gate (DraftView × Db)}
          (ok (
            draft_view sha256 (edited sha256 channel_name now recipient subject body d c) c,
            record db { drafts = update_where own change db.drafts },
          ))
          (ok (view, db')) =
        ground (arith, g, h) in
      let drafts : db'.drafts ≡ update_where own change db.drafts = ground arith in
      let connections : db'.connections ≡ db.connections = ground arith in
      let (mine, linked) = get_draft-parts db id user_id d c g in
      let (_, is_own) = first_where-In own db.drafts d mine in
      let after : first_where own (update_where own change db.drafts)
          ≡ some (if own d then change d else d) =
        first_where-update own own change db.drafts d (λ y. ground arith) mine in
      (
        get_draft-make db' id user_id (change d) c
            (ap (first_where own) drafts
              ∙ after
              ∙ ap (λ (b : Bool). some (if b then change d else d)) is_own)
            (ap (first_where (λ (x : Connection). x.id == d.connection_id)) connections ∙ linked),
        ground arith,
        ground arith,
      )

  -- A draft without a send is edited, and the edit leaves another recipient, subject or body than the
  -- draft had, where no subject counts as the empty one: with a hash that tells the two payloads
  -- apart, confirming the digest of the draft before the edit is refused as
  -- `body_changed_since_confirmation`.
  pub edit_makes_stale :
      (others : Interleaving) (later send_id : ℕ) (db : Db) (id user_id : ℕ)
      (recipient subject body : Option String) (view : DraftView) (db' : Db) (d : Draft)
      (c : Connection)
      → get_draft db id user_id ≡ some (d, c)
      → update_draft sha256 channel_name now db id user_id recipient subject body ≡ ok (view, db')
      → load_send_by_key db.sends user_id d.idempotency_key ≡ none
      → given (some (draft_digest sha256 d)) ≡ true
      → (sha256 (parts_of (edited sha256 channel_name now recipient subject body d c))
            ≡ sha256 (parts_of d)
          → parts_of (edited sha256 channel_name now recipient subject body d c) ≡ parts_of d)
      → Differs d (edited sha256 channel_name now recipient subject body d c)
      → send_draft sha256 others later send_id db' id user_id (some (draft_digest sha256 d))
        ≡ refused (refusal "body_changed_since_confirmation" 422)
  unfolding edited
  edit_makes_stale others later send_id db id user_id recipient subject body view db' d c g h l full
        free n =
      let (found, sends, _) = edited_found db id user_id recipient subject body view db' d c g h in
      stale_refused sha256 others later send_id db' id user_id (draft_digest sha256 d)
        (edited sha256 channel_name now recipient subject body d c) c found
        (ap (λ (x : List Send). load_send_by_key x user_id d.idempotency_key) sends ∙ l) full
        (digest_moves sha256 d (edited sha256 channel_name now recipient subject body d c) free n)
