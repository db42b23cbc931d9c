-- ===== src/Send/Drafts/Confirm.antt =====
-- From a draft to a send: the digest that `create_draft` shows opens the gate.
use unified_search_safe_send.Prelude.{
  ℕ, ◌≡◌, ◌≢◌, inl, inr, refl, sym, ap, ◌∙◌, Bool, true, ◌&&◌, Option, none, some, List, [], ◌∷◌,
  ◌++◌, String, arith, In, ◌==◌, ==_iff, leb, first_where, first_where-snoc, first_where-none,
  first_where-some, first_where-In, Bool-cases, Option-cases,
}
use unified_search_safe_send.Enums.{ProviderKind}
use unified_search_safe_send.Connections.Row.{Connection, lowest_id, own_active}
use unified_search_safe_send.Send.Row.{Draft}
use unified_search_safe_send.Send.Claim.{Interleaving, load_send_by_key}
use unified_search_safe_send.Send.Service.{
  Gate, ok, refused, conflict, Db, get_draft, draft_digest, given,
}
use unified_search_safe_send.Send.Service.First.{IsSent, first_confirmation}
use unified_search_safe_send.Send.Drafts.{
  DraftView, DraftArgs, draft_view, connection_by_id, resolve_connection, new_draft, insert_draft,
  create_draft,
}

lowest_id-In :
    (test : Connection → Bool) (cs : List Connection) (c : Connection)
    → lowest_id test cs ≡ some c
    → In c cs × (test c ≡ true)
unfolding lowest_id
lowest_id-In test [] c h = cc
lowest_id-In test (x ∷ cs) c h = elim (Bool-cases (test x)) [
  | inr e ↦ let (m, t) = lowest_id-In test cs c (rw e at h) in (inr m, t)
  | inl e ↦ elim (Option-cases (lowest_id test cs)) [
    | inl n ↦
        let q : some x ≡ some c = ground (arith, e, n, h) in
        let r : x ≡ c = cc in (inl (sym r), rw r at e)
    | inr (best, n) ↦
        let (m, t) = lowest_id-In test cs best n in
        elim (Bool-cases (leb x.id best.id)) [
          | inl l ↦
              let q : some x ≡ some c = ground (arith, e, n, l, h) in
              let r : x ≡ c = cc in (inl (sym r), rw r at e)
          | inr l ↦
              let q : some best ≡ some c = ground (arith, e, n, l, h) in
              let r : best ≡ c = cc in (inr (rw r at m), rw r at t)
        ]
  ]
]

-- the connection of a new draft is a row of the table, and the user's
resolve_connection-In :
    (cs : List Connection) (user_id : ℕ) (channel : ProviderKind) (wanted : Option ℕ)
    (c : Connection)
    → resolve_connection cs user_id channel wanted ≡ ok c
    → In c cs × (c.user_id ≡ user_id)
unfolding resolve_connection connection_by_id
resolve_connection-In cs user_id channel none c h =
    elim (Option-cases (lowest_id (own_active user_id channel) cs)) [
      | inl e ↦ absurd (ground (arith, e, h))
      | inr (b, e) ↦
          let q : Gate.ok b ≡ Gate.ok c = ground (arith, e, h) in
          let r : b ≡ c = cc in
          let (m, t) = lowest_id-In (own_active user_id channel) cs c (e ∙ ap some r) in
          (m, ground arith)
    ]
resolve_connection-In cs user_id channel (some id) c h =
    elim (Option-cases (first_where (λ x. x.id == id) cs)) [
      | inl e ↦ absurd (ground (arith, e, h))
      | inr (b, e) ↦ elim (Bool-cases (b.user_id == user_id)) [
        | inr f ↦ absurd (ground (arith, e, f, h))
        | inl f ↦
            let q : Gate.ok b ≡ Gate.ok c = ground (arith, e, f, h) in
            let r : b ≡ c = cc in
            let (m, t) = first_where-In (λ x. x.id == id) cs c (e ∙ ap some r) in
            (m, sym (ap (λ (x : Connection). x.user_id) r) ∙ (==_iff b.user_id user_id).0 f)
      ]
    ]

row_found :
    (cs : List Connection) (c : Connection)
    → In c cs
    → (c' : Connection) × (first_where (λ x. x.id == c.id) cs ≡ some c')
row_found cs c m = first_where-some (λ x. x.id == c.id) cs c m (ground arith)

appended_found :
    (db db' : Db) (id user_id : ℕ) (row : Draft) (c : Connection)
    → db'.drafts ≡ db.drafts ++ row ∷ []
    → db'.connections ≡ db.connections
    → ((d : Draft) → In d db.drafts → d.id ≢ id)
    → row.id ≡ id
    → row.user_id ≡ user_id
    → first_where (λ x. x.id == row.connection_id) db.connections ≡ some c
    → get_draft db' id user_id ≡ some (row, c)
unfolding get_draft
appended_found db db' id user_id row c drafts connections fresh own_id own_user at =
    let mine : first_where (λ d. d.id == id && d.user_id == user_id) (db.drafts ++ row ∷ [])
        ≡ some row =
      first_where-snoc (λ d. d.id == id && d.user_id == user_id) db.drafts row
        (first_where-none (λ d. d.id == id && d.user_id == user_id) db.drafts
          (λ d m. ground (arith, fresh d m)))
        (ground arith) in
    ground (
      arith,
      ap (first_where (λ (d : Draft). d.id == id && d.user_id == user_id)) drafts ∙ mine,
      ap (first_where (λ (x : Connection). x.id == row.connection_id)) connections ∙ at,
    )

module _ (sha256 : String → String) (channel_name : ℕ → String → Option String) (now : ℕ) where
  create_draft-inverse :
      (id : ℕ) (key : String) (db : Db) (a : DraftArgs) (view : DraftView) (db' : Db)
      → create_draft sha256 channel_name now id key db a ≡ ok (view, db')
      → (c : Connection) × (resolve_connection db.connections a.user_id a.channel a.connection_id
          ≡ ok c)
        × (insert_draft sha256 channel_name now id key db a c ≡ (view, db'))
  unfolding create_draft
  create_draft-inverse id key db a view db' h =
      from (resolve_connection db.connections a.user_id a.channel a.connection_id) refl
    where
      from :
          (g : Gate Connection)
          → resolve_connection db.connections a.user_id a.channel a.connection_id ≡ g
          → (c : Connection) × (resolve_connection db.connections a.user_id a.channel
                a.connection_id
              ≡ ok c)
            × (insert_draft sha256 channel_name now id key db a c ≡ (view, db'))
      from (ok c) e = (c, e, ground (arith, e, h))
      from (refused r) e = absurd (ground (arith, e, h))
      from conflict e = absurd (ground (arith, e, h))

  -- the draft that was created, as the gate finds it
  created_draft :
      (id : ℕ) (key : String) (db : Db) (a : DraftArgs) (view : DraftView) (db' : Db)
      → ((d : Draft) → In d db.drafts → d.id ≢ id)
      → create_draft sha256 channel_name now id key db a ≡ ok (view, db')
      → (d : Draft) × (c : Connection) × (get_draft db' id a.user_id ≡ some (d, c))
        × (d.idempotency_key ≡ key)
        × (db'.sends ≡ db.sends)
        × (view.confirm_sha256 ≡ draft_digest sha256 d)
  unfolding insert_draft draft_view new_draft
  created_draft id key db a view db' fresh h =
      let (c, found, made) = create_draft-inverse id key db a view db' h in
      let row = (insert_draft sha256 channel_name now id key db a c).0.draft in
      let (c', at) =
        row_found db.connections c
          (resolve_connection-In db.connections a.user_id a.channel a.connection_id c found).0 in
      let drafts : db'.drafts ≡ db.drafts ++ row ∷ [] =
        ap (λ (x : DraftView × Db). x.1.drafts) (sym made) in
      let connections : db'.connections ≡ db.connections =
        ap (λ (x : DraftView × Db). x.1.connections) (sym made) in
      (
        row,
        c',
        appended_found db db' id a.user_id row c' drafts connections fresh refl refl at,
        refl,
        ap (λ (x : DraftView × Db). x.1.sends) (sym made),
        ap (λ (x : DraftView × Db). x.0.confirm_sha256) (sym made),
      )

  -- A draft that was created, with an id that no draft had and a key that no send of the user has:
  -- confirming the digest that its view shows creates a send, if no other transaction claims the key
  -- between the gate's look at it and the INSERT.
  pub create_then_send :
      (others : Interleaving) (later id send_id : ℕ) (key : String) (db : Db) (a : DraftArgs)
      (view : DraftView) (db' : Db)
      → ((d : Draft) → In d db.drafts → d.id ≢ id)
      → load_send_by_key db.sends a.user_id key ≡ none
      → load_send_by_key (others.before db.sends) a.user_id key ≡ none
      → given (some view.confirm_sha256) ≡ true
      → create_draft sha256 channel_name now id key db a ≡ ok (view, db')
      → IsSent sha256 others later send_id db' id a.user_id view.confirm_sha256
  create_then_send others later id send_id key db a view db' fresh unsent free full h =
      let (d, c, g, k, sends, digest) = created_draft id key db a view db' fresh h in
      rw digest (
        first_confirmation sha256 others later send_id db' id a.user_id d c g (rw (sends, k) unsent)
          (rw (sends, k) free) (rw digest at full))
