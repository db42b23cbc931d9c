-- ===== src/Connections/Tokens/Served.antt =====
-- A caller that queues behind the one that refreshed is served the token that it stored.
use unified_search_safe_send.Prelude.{
  ℕ, ◌<◌, ◌≡◌, refl, sym, ap, ◌∙◌, ◌⊎◌, inl, inr, true, false, not, ◌&&◌, Option, none, some, List,
  String, arith, length, Bool-cases, Option-cases,
}
use unified_search_safe_send.Prelude.Text.{truthy}
use unified_search_safe_send.Enums.{ProviderKind, gmail, slack}
use unified_search_safe_send.Security.Crypto.{
  Bytes, CryptoResult, done, key_not_found, envelope_error, overflow_error, Cipher, Keyring, Field,
  access, refresh, bot, key_for, nonce_bytes,
}
use unified_search_safe_send.Security.Crypto.Envelope.{Opens}
use unified_search_safe_send.Connections.Row.{Connection}
use unified_search_safe_send.Connections.Store.{Grant, by_id, token, persist_tokens}
use unified_search_safe_send.Connections.Store.Tokens.{
  persisted_row, token-persist_tokens, by_id-id,
}
use unified_search_safe_send.Connections.Tokens.{
  TokenKind, column_for, TokenAnswer, served, Refreshed, granted, failed, expiring, is_cached,
  is_revocation, accept_grant, use_refresh_token, refresh_google, from_stored, get_token,
}

cached-access : (p : ProviderKind) (f : Field) → is_cached p f ≡ true → f ≡ access
cached-access gmail access h = refl
cached-access gmail refresh h = cc
cached-access gmail bot h = cc
cached-access slack access h = cc
cached-access slack refresh h = cc
cached-access slack bot h = cc

served_inj :
    (s t : String) (cs ds : List Connection)
    → ◌≡◌ {A = TokenAnswer × List Connection} (served s, cs) (served t, ds)
    → (s ≡ t) × (cs ≡ ds)
served_inj s t cs ds h =
    let a : TokenAnswer.served s ≡ served t = ap (λ (x : TokenAnswer × List Connection). x.0) h in
    (cc, ap (λ (x : TokenAnswer × List Connection). x.1) h)

module _ (cipher : Cipher) (ring : Keyring) (nonces : Field → Bytes) (now : ℕ) where
  -- a stored, live token is the answer, whatever the provider would say
  stored_served :
      (refresh_access : String → Refreshed) (cs : List Connection) (id : ℕ) (kind : TokenKind)
      (row : Connection) (field : Field) (t : String)
      → by_id cs id ≡ some row
      → column_for row.provider kind ≡ some field
      → token cipher ring row field ≡ done (some t)
      → truthy t ≡ true
      → expiring now row.access_expires_at ≡ false
      → get_token cipher ring nonces now refresh_access cs id kind ≡ (served t, cs)
  unfolding get_token from_stored
  stored_served refresh_access cs id kind row field t e f k l x =
      rw (e, f, k, get_token)
        (elim (Bool-cases (is_cached row.provider field)) [
          | inl c ↦ ground (arith, c, l, x)
          | inr c ↦ ground (arith, c, l, x)
        ])

  -- a refresh that serves a token has stored it
  record Renewed (cs : List Connection) (c : Connection) (t : String) (after : List Connection)
      : Type 0 where
    grant : Grant
    persisted : persist_tokens cipher ring nonces now c.id c.provider grant cs ≡ done after
    fresh : grant.access_token ≡ some t
    full : truthy t ≡ true

  refreshed :
      (refresh_access : String → Refreshed) (cs : List Connection) (c : Connection) (t : String)
      (after : List Connection)
      → refresh_google cipher ring nonces now refresh_access cs c ≡ (served t, after)
      → Renewed cs c t after
  unfolding refresh_google use_refresh_token accept_grant
  refreshed refresh_access cs c t after h = by_token (token cipher ring c refresh) refl
    where
      by_fresh :
          (grant : Grant) (table : List Connection) (o : Option String)
          → grant.access_token ≡ o
          → persist_tokens cipher ring nonces now c.id c.provider grant cs ≡ done table
          → accept_grant cipher ring nonces now refresh_access cs c grant ≡ (served t, after)
          → Renewed cs c t after
      by_fresh grant table none a p g = absurd (ground (arith, a, p, g))
      by_fresh grant table (some fresh) a p g = elim (Bool-cases (truthy fresh)) [
        | inr l ↦ absurd (ground (arith, a, p, l, g))
        | inl l ↦
            let (s, d) = served_inj fresh t table after (ground (arith, a, p, l, g)) in
            record { grant = grant; persisted = rw d at p; fresh = a ∙ ap some s; full = rw s at l }
      ]

      by_persist :
          (grant : Grant) (o : CryptoResult (List Connection))
          → persist_tokens cipher ring nonces now c.id c.provider grant cs ≡ o
          → accept_grant cipher ring nonces now refresh_access cs c grant ≡ (served t, after)
          → Renewed cs c t after
      by_persist grant (done table) p g = by_fresh grant table grant.access_token refl p g
      by_persist grant key_not_found p g = absurd (ground (arith, p, g))
      by_persist grant envelope_error p g = absurd (ground (arith, p, g))
      by_persist grant overflow_error p g = absurd (ground (arith, p, g))

      by_answer :
          (s : String) (o : Refreshed)
          → refresh_access s ≡ o
          → use_refresh_token cipher ring nonces now refresh_access cs c s ≡ (served t, after)
          → Renewed cs c t after
      by_answer s (granted grant) r u =
          by_persist grant (persist_tokens cipher ring nonces now c.id c.provider grant cs) refl
            (ground (arith, r, u))
      by_answer s (failed e) r u = elim (Bool-cases (is_revocation e)) [
        | inl v ↦ absurd (ground (arith, r, v, u))
        | inr v ↦ absurd (ground (arith, r, v, u))
      ]

      by_token :
          (o : CryptoResult (Option String))
          → token cipher ring c refresh ≡ o
          → Renewed cs c t after
      by_token (done none) k = absurd (ground (arith, k, h))
      by_token (done (some s)) k = elim (Bool-cases (truthy s)) [
        | inl l ↦ by_answer s (refresh_access s) refl (ground (arith, k, l, h))
        | inr l ↦ absurd (ground (arith, k, l, h))
      ]
      by_token key_not_found k = absurd (ground (arith, k, h))
      by_token envelope_error k = absurd (ground (arith, k, h))
      by_token overflow_error k = absurd (ground (arith, k, h))

  -- What a caller that was served leaves: the table as it was, with the token in it, or the table
  -- after a refresh that stored the token.
  Origin :
      (cs : List Connection) (c : Connection) (kind : TokenKind) (field : Field) (t : String)
      (after : List Connection)
      → Type 0
  Origin cs c kind field t after =
      ((after ≡ cs) × (token cipher ring c field ≡ done (some t)) × (truthy t ≡ true))
      ⊎ ((is_cached c.provider field ≡ true) × Renewed cs c t after)

  from_stored-Origin :
      (refresh_access : String → Refreshed) (cs : List Connection) (c : Connection)
      (kind : TokenKind) (field : Field) (stored : Option String) (t : String)
      (after : List Connection)
      → token cipher ring c field ≡ done stored
      → from_stored cipher ring nonces now refresh_access cs c kind field stored ≡ (served t, after)
      → Origin cs c kind field t after
  unfolding from_stored Origin
  from_stored-Origin refresh_access cs c kind field none t after k h =
      elim (Bool-cases (is_cached c.provider field)) [
        | inl x ↦ inr (x, refreshed refresh_access cs c t after (ground (arith, x, h)))
        | inr x ↦ absurd (ground (arith, x, h))
      ]
  from_stored-Origin refresh_access cs c kind field (some s) t after k h =
      elim (Bool-cases (is_cached c.provider field)) [
        | inl x ↦ elim (Bool-cases (truthy s && not (expiring now c.access_expires_at))) [
          | inl l ↦
              let (e, d) = served_inj s t cs after (ground (arith, x, l, h)) in
              let full : truthy s ≡ true = ground arith in
              inl (sym d, k ∙ ap (λ (z : String). done (some z)) e, rw e at full)
          | inr l ↦ inr (x, refreshed refresh_access cs c t after (ground (arith, x, l, h)))
        ]
        | inr x ↦ elim (Bool-cases (truthy s)) [
          | inl l ↦
              let (e, d) = served_inj s t cs after (ground (arith, x, l, h)) in
              inl (sym d, k ∙ ap (λ (z : String). done (some z)) e, rw e at l)
          | inr l ↦ absurd (ground (arith, x, l, h))
        ]
      ]

  get_token-Origin :
      (refresh_access : String → Refreshed) (cs : List Connection) (id : ℕ) (kind : TokenKind)
      (t : String) (after : List Connection)
      → get_token cipher ring nonces now refresh_access cs id kind ≡ (served t, after)
      → (c : Connection) × (field : Field) × (by_id cs id ≡ some c)
        × (column_for c.provider kind ≡ some field)
        × Origin cs c kind field t after
  unfolding get_token
  get_token-Origin refresh_access cs id kind t after h = elim (Option-cases (by_id cs id)) [
    | inl e ↦ absurd (ground (arith, e, h))
    | inr (c, e) ↦ elim (Option-cases (column_for c.provider kind)) [
      | inl f ↦ absurd (ground (arith, e, f, h))
      | inr (field, f) ↦ (c, field, e, f, by_token c field e f (token cipher ring c field) refl)
    ]
  ]
    where
      by_token :
          (c : Connection) (field : Field)
          → by_id cs id ≡ some c
          → column_for c.provider kind ≡ some field
          → (o : CryptoResult (Option String)) → token cipher ring c field ≡ o
          → Origin cs c kind field t after
      by_token c field e f (done stored) k =
          from_stored-Origin refresh_access cs c kind field stored t after k
            (ground (arith, e, f, k, h))
      by_token c field e f key_not_found k = absurd (ground (arith, e, f, k, h))
      by_token c field e f envelope_error k = absurd (ground (arith, e, f, k, h))
      by_token c field e f overflow_error k = absurd (ground (arith, e, f, k, h))

  -- the row after a refresh is of the same provider, and its token is the served one
  kept_row :
      (cs after : List Connection) (id : ℕ) (c row : Connection) (t key : String)
      → Opens cipher
      → key_for ring ring.current ≡ done key
      → ring.current < 65536
      → length (nonces access) ≡ nonce_bytes
      → by_id cs id ≡ some c
      → by_id after id ≡ some row
      → Renewed cs c t after
      → (row.provider ≡ c.provider) × (token cipher ring row access ≡ done (some t))
  kept_row cs after id c row t key o k v n e d r =
      let own : c.id ≡ id = by_id-id cipher ring nonces now cs id c e in
      let persisted : persist_tokens cipher ring nonces now id c.provider r.grant cs ≡ done after =
        rw own at r.persisted in
      let (sealed, _, left) =
        persisted_row cipher ring nonces now id c.provider r.grant cs after c persisted e in
      let (row', found, opens) =
        token-persist_tokens cipher ring nonces now id r.grant cs after c access key t o k v n e
          persisted r.fresh in
      let p : some row ≡ some row' = sym d ∙ found in
      let q : row ≡ row' = cc in let u = sym d ∙ left in (provider_of u, rw q opens)
    where
      provider_of : {x y : Connection} → some x ≡ some y → x.provider ≡ y.provider
      provider_of {x} {y} u = let q : x ≡ y = cc in ap (λ (z : Connection). z.provider) q

module _ (cipher : Cipher) (ring : Keyring) (nonces : Field → Bytes) where
  -- With a cipher whose sealed texts open, 12-byte nonces and a keyring that holds its current key
  -- under a version of two bytes: once a caller was served a token, from the table or by a refresh,
  -- the next caller for the same kind of token, at any time when the row that was left is not about
  -- to expire, is served the same token and changes nothing, whatever the provider would answer to
  -- another refresh.
  pub next_caller_served :
      (refresh_access refresh_again : String → Refreshed) (now later : ℕ)
      (cs after : List Connection) (id : ℕ) (kind : TokenKind) (t key : String) (row : Connection)
      → Opens cipher
      → key_for ring ring.current ≡ done key
      → ring.current < 65536
      → length (nonces access) ≡ nonce_bytes
      → get_token cipher ring nonces now refresh_access cs id kind ≡ (served t, after)
      → by_id after id ≡ some row
      → expiring later row.access_expires_at ≡ false
      → get_token cipher ring nonces later refresh_again after id kind ≡ (served t, after)
  unfolding Origin
  next_caller_served refresh_access refresh_again now later cs after id kind t key row o k v n h e
        x =
      let (c, field, found, f, origin) =
        get_token-Origin cipher ring nonces now refresh_access cs id kind t after h in
      elim origin [
        | inl (same, stored, full) ↦
            let p : some row ≡ some c = sym e ∙ rw same found in
            let q : row ≡ c = cc in
            stored_served cipher ring nonces later refresh_again after id kind row field t e
              (rw q f) (rw q stored) full x
        | inr (cached, renewed) ↦
            let (provider, opens) =
              kept_row cipher ring nonces now cs after id c row t key o k v n found e renewed in
            let at : field ≡ access = cached-access c.provider field cached in
            stored_served cipher ring nonces later refresh_again after id kind row access t e
              (rw provider (f ∙ ap some at)) opens renewed.full x
      ]
