-- ===== src/Connections/Store/Tokens.antt =====
-- What `persist_tokens` does to the credentials of a connection.
use unified_search_safe_send.Prelude.{
  ℕ, ◌<◌, ◌≡◌, refl, sym, ap, ◌∙◌, Bool, true, Option, none, some, List, String, arith, ==_iff,
  coalesce, is_some, if◌then◌else◌, length, first_where, first_where-update, first_where-In,
  update_where,
}
use unified_search_safe_send.Enums.{ProviderKind}
use unified_search_safe_send.Security.Crypto.{
  Bytes, CryptoResult, done, key_not_found, envelope_error, overflow_error, Cipher, Keyring, Field,
  access, refresh, bot, aad_for, key_for, nonce_bytes, encrypt, decrypt,
}
use unified_search_safe_send.Security.Crypto.Envelope.{Opens, decrypt-encrypt}
use unified_search_safe_send.Connections.Row.{Connection}
use unified_search_safe_send.Connections.Store.{
  Grant, column, opened, has_id, by_id, token, seal_token, set_tokens, persist_tokens,
}

abbrev pub grant_token : Grant → Field → Option String
grant_token grant access = grant.access_token
grant_token grant refresh = grant.refresh_token
grant_token grant bot = grant.bot_token

abbrev pick : Option Bytes → Option Bytes → Option Bytes → Field → Option Bytes
pick a r b access = a
pick a r b refresh = r
pick a r b bot = b

module _ (cipher : Cipher) (ring : Keyring) (nonces : Field → Bytes) (now : ℕ) where
  -- the sealed columns of an answer, each where it has a token
  pub record Sealed (id : ℕ) (provider : ProviderKind) (grant : Grant) (cs after : List Connection)
      : Type 0 where
    pub sealed : Field → Option Bytes
    pub seals :
        (f : Field)
        → seal_token cipher ring nonces now id provider f (grant_token grant f) ≡ done (sealed f)
    pub result :
        after
        ≡ update_where
            (has_id id)
            (set_tokens cipher ring nonces now (sealed access) (sealed refresh) (sealed bot) grant)
            cs

  pub persist-Sealed :
      (id : ℕ) (provider : ProviderKind) (grant : Grant) (cs after : List Connection)
      → persist_tokens cipher ring nonces now id provider grant cs ≡ done after
      → Sealed id provider grant cs after
  unfolding persist_tokens
  persist-Sealed id provider grant cs after h =
      from (seal access) (seal refresh) (seal bot) refl refl refl
    where
      seal : Field → CryptoResult (Option Bytes)
      seal f = seal_token cipher ring nonces now id provider f (grant_token grant f)

      each :
          {a r b : Option Bytes}
          → seal_token cipher ring nonces now id provider access grant.access_token ≡ done a
          → seal_token cipher ring nonces now id provider refresh grant.refresh_token ≡ done r
          → seal_token cipher ring nonces now id provider bot grant.bot_token ≡ done b
          → (f : Field)
          → seal_token cipher ring nonces now id provider f (grant_token grant f)
            ≡ done (pick a r b f)
      each ea er eb access = ea
      each ea er eb refresh = er
      each ea er eb bot = eb

      from :
          (a r b : CryptoResult (Option Bytes))
          → seal_token cipher ring nonces now id provider access grant.access_token ≡ a
          → seal_token cipher ring nonces now id provider refresh grant.refresh_token ≡ r
          → seal_token cipher ring nonces now id provider bot grant.bot_token ≡ b
          → Sealed id provider grant cs after
      from (done a) (done r) (done b) ea er eb = record {
        sealed = pick a r b;
        seals = each ea er eb;
        result =
            let q : CryptoResult.done after
                ≡ done
                    (update_where (has_id id) (set_tokens cipher ring nonces now a r b grant) cs) =
              ground (arith, h, ea, er, eb) in
            cc;
      }
      from key_not_found r b ea er eb = absurd (ground (arith, h, ea))
      from envelope_error r b ea er eb = absurd (ground (arith, h, ea))
      from overflow_error r b ea er eb = absurd (ground (arith, h, ea))
      from (done a) key_not_found b ea er eb = absurd (ground (arith, h, ea, er))
      from (done a) envelope_error b ea er eb = absurd (ground (arith, h, ea, er))
      from (done a) overflow_error b ea er eb = absurd (ground (arith, h, ea, er))
      from (done a) (done r) key_not_found ea er eb = absurd (ground (arith, h, ea, er, eb))
      from (done a) (done r) envelope_error ea er eb = absurd (ground (arith, h, ea, er, eb))
      from (done a) (done r) overflow_error ea er eb = absurd (ground (arith, h, ea, er, eb))

  column-set_tokens :
      (sealed : Field → Option Bytes) (grant : Grant) (c : Connection) (f : Field)
      → column
          (set_tokens cipher ring nonces now (sealed access) (sealed refresh) (sealed bot) grant c)
          f
        ≡ coalesce (sealed f) (column c f)
  column-set_tokens sealed grant c access = refl
  column-set_tokens sealed grant c refresh = refl
  column-set_tokens sealed grant c bot = refl

  -- the stored row after the tokens of an answer, column by column
  pub persisted_row :
      (id : ℕ) (provider : ProviderKind) (grant : Grant) (cs after : List Connection)
      (c : Connection)
      → persist_tokens cipher ring nonces now id provider grant cs ≡ done after
      → by_id cs id ≡ some c
      → (sealed : Field → Option Bytes) × ((f : Field)
          → seal_token cipher ring nonces now id provider f (grant_token grant f) ≡ done (sealed f))
        × (by_id after id
            ≡ some (
                set_tokens cipher ring nonces now
                  (sealed access)
                  (sealed refresh)
                  (sealed bot)
                  grant
                  c))
  unfolding by_id
  persisted_row id provider grant cs after c h e =
      let s = persist-Sealed id provider grant cs after h in
      let change =
        set_tokens cipher ring nonces now (s.sealed access) (s.sealed refresh) (s.sealed bot)
          grant in
      let found : first_where (has_id id) (update_where (has_id id) change cs)
          ≡ some (if has_id id c then change c else c) =
        first_where-update (has_id id) (has_id id) change cs c (λ y. ground arith) e in
      (
        s.sealed,
        s.seals,
        ap (first_where (has_id id)) s.result
            ∙ found
            ∙ ap (λ (b : Bool). some (if b then change c else c))
                (first_where-In (has_id id) cs c e).1,
      )

  -- An answer of a provider that is persisted keeps each stored credential that the answer has no
  -- token for, and leaves no column empty that was filled before.
  pub persist_keeps_credentials :
      (id : ℕ) (provider : ProviderKind) (grant : Grant) (cs after : List Connection)
      (c : Connection) (field : Field)
      → persist_tokens cipher ring nonces now id provider grant cs ≡ done after
      → by_id cs id ≡ some c
      → (row : Connection) × (by_id after id ≡ some row)
        × (grant_token grant field ≡ none → column row field ≡ column c field)
        × (is_some (column c field) ≡ true → is_some (column row field) ≡ true)
  unfolding seal_token
  persist_keeps_credentials id provider grant cs after c field h e =
      let (sealed, seals, found) = persisted_row id provider grant cs after c h e in
      let here = column-set_tokens sealed grant c field in
      (
        set_tokens cipher ring nonces now (sealed access) (sealed refresh) (sealed bot) grant c,
        found,
        λ n. here ∙ ap (λ (o : Option Bytes). coalesce o (column c field)) (nothing sealed seals n),
        λ full. rw here (filled (sealed field) (column c field) full),
      )
    where
      nothing :
          (sealed : Field → Option Bytes)
          → ((f : Field)
              → seal_token cipher ring nonces now id provider f (grant_token grant f)
                ≡ done (sealed f))
          → grant_token grant field ≡ none
          → sealed field ≡ none
      nothing sealed seals n =
          let q : CryptoResult.done (sealed field) ≡ done none = sym (seals field) ∙ rw n refl in cc

      filled : (o p : Option Bytes) → is_some p ≡ true → is_some (coalesce o p) ≡ true
      filled none p k = k
      filled (some x) p k = refl

  sealed_as :
      (id : ℕ) (provider : ProviderKind) (field : Field) (given : Option String) (value : String)
      (ct : Option Bytes) (blob : Bytes)
      → given ≡ some value
      → seal_token cipher ring nonces now id provider field given ≡ done ct
      → encrypt cipher ring (nonces field) value (aad_for id provider field) ≡ done blob
      → ct ≡ some blob
  unfolding seal_token
  sealed_as id provider field given value ct blob t h made =
      let q : CryptoResult.done ct ≡ done (some blob) = ground (arith, rw t at h, made) in cc

  pub by_id-id : (cs : List Connection) (id : ℕ) (c : Connection) → by_id cs id ≡ some c → c.id ≡ id
  unfolding by_id
  by_id-id cs id c e = (==_iff c.id id).0 (first_where-In (has_id id) cs c e).1

  opened-done : (f : Field) (value : String) → opened f (done value) ≡ done (some value)
  opened-done access value = refl
  opened-done refresh value = refl
  opened-done bot value = refl

  token-opens :
      (row : Connection) (field : Field) (blob : Bytes) (value : String)
      → column row field ≡ some blob
      → decrypt cipher ring blob (aad_for row.id row.provider field) ≡ done value
      → token cipher ring row field ≡ done (some value)
  unfolding token
  token-opens row field blob value at back = rw (at, back, token) (opened-done field value)

  -- With a cipher whose sealed texts open, 12-byte nonces, and a keyring that holds its current key
  -- under a version of two bytes: a token that was persisted for a connection under its provider is
  -- the token that the row then yields.
  pub token-persist_tokens :
      (id : ℕ) (grant : Grant) (cs after : List Connection) (c : Connection) (field : Field)
      (key value : String)
      → Opens cipher
      → key_for ring ring.current ≡ done key
      → ring.current < 65536
      → length (nonces field) ≡ nonce_bytes
      → by_id cs id ≡ some c
      → persist_tokens cipher ring nonces now id c.provider grant cs ≡ done after
      → grant_token grant field ≡ some value
      → (row : Connection) × (by_id after id ≡ some row)
        × (token cipher ring row field ≡ done (some value))
  token-persist_tokens id grant cs after c field key value o k v n e h t =
      let (sealed, seals, found) = persisted_row id c.provider grant cs after c h e in
      let (blob, made, back) =
        decrypt-encrypt cipher ring ring (nonces field) value (aad_for id c.provider field) key o k
          k v n in
      let full : sealed field ≡ some blob =
        sealed_as id c.provider field (grant_token grant field) value (sealed field) blob t
          (seals field) made in
      let own : c.id ≡ id = by_id-id cs id c e in
      let row =
        set_tokens cipher ring nonces now (sealed access) (sealed refresh) (sealed bot) grant c in
      (
        row,
        found,
        token-opens row field blob value (column-set_tokens sealed grant c field ∙ rw full refl)
            (rw own back),
      )
