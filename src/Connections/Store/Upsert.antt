-- ===== src/Connections/Store/Upsert.antt =====
-- What an authorization that lands leaves: the tables' keys hold, and the row is the caller's.
use unified_search_safe_send.Prelude.{ℕ, suc, ◌≡◌, refl, Option, none, some, List, arith}
use unified_search_safe_send.Enums.{ProviderKind}
use unified_search_safe_send.Security.Crypto.{
  Bytes, CryptoResult, done, key_not_found, envelope_error, overflow_error, Cipher, Keyring, Field,
  access, refresh, bot,
}
use unified_search_safe_send.Connections.Row.{Connection}
use unified_search_safe_send.Connections.Store.{
  Grant, Before, proceed, refuse, before_upsert, land, has_id, by_id, persist_tokens, set_tokens,
  store_tokens, upsert, stored, Upserted,
}
use unified_search_safe_send.Connections.Store.Keyed.{
  IsKeyed, KeepsKey, update-IsKeyed, before_upsert-IsKeyed, land-IsKeyed,
}
use unified_search_safe_send.Connections.Store.Tokens.{persist-Sealed}

module _ (cipher : Cipher) (ring : Keyring) (nonces : Field → Bytes) (now : ℕ) where
  persisted-IsKeyed :
      (next_id id : ℕ) (provider : ProviderKind) (grant : Grant) (cs after : List Connection)
      → IsKeyed next_id cs
      → persist_tokens cipher ring nonces now id provider grant cs ≡ done after
      → IsKeyed next_id after
  persisted-IsKeyed next_id id provider grant cs after h e =
      let s = persist-Sealed cipher ring nonces now id provider grant cs after e in
      let change =
        set_tokens cipher ring nonces now (s.sealed access) (s.sealed refresh) (s.sealed bot)
          grant in
      let kept : KeepsKey change = record {
        id = λ c. refl;
        key = λ c. record { user_id = refl; provider = refl; account = refl };
      } in
      rw s.result (update-IsKeyed next_id (has_id id) change cs kept h)

  -- the stages of an authorization that landed
  pub record Landed (fresh_id : ℕ) (cs : List Connection) (user_id : ℕ) (provider : ProviderKind)
      (grant : Grant) (reconnecting_id : Option ℕ) (row : Connection) (after : List Connection)
      : Type 0 where
    pub checked : List Connection
    pub before : before_upsert now cs reconnecting_id grant.external_account_id ≡ proceed checked
    pub persisted :
        persist_tokens cipher ring nonces now
          (land now fresh_id checked user_id provider grant).0
          provider
          grant
          (land now fresh_id checked user_id provider grant).1
        ≡ done after
    pub read : by_id after (land now fresh_id checked user_id provider grant).0 ≡ some row

  pub upsert-Landed :
      (fresh_id : ℕ) (cs : List Connection) (user_id : ℕ) (provider : ProviderKind) (grant : Grant)
      (reconnecting_id : Option ℕ) (row : Connection) (after : List Connection)
      → upsert cipher ring nonces now fresh_id cs user_id provider grant reconnecting_id
        ≡ stored row after
      → Landed fresh_id cs user_id provider grant reconnecting_id row after
  unfolding upsert store_tokens
  upsert-Landed fresh_id cs user_id provider grant reconnecting_id row after h =
      checked_first (before_upsert now cs reconnecting_id grant.external_account_id) refl
    where
      placed : List Connection → ℕ × List Connection
      placed checked = land now fresh_id checked user_id provider grant

      read_back :
          (checked table : List Connection) (o : Option Connection)
          → before_upsert now cs reconnecting_id grant.external_account_id ≡ proceed checked
          → persist_tokens cipher ring nonces now
              (land now fresh_id checked user_id provider grant).0
              provider
              grant
              (land now fresh_id checked user_id provider grant).1
            ≡ done table
          → by_id table (land now fresh_id checked user_id provider grant).0 ≡ o
          → Landed fresh_id cs user_id provider grant reconnecting_id row after
      read_back checked table none b p r = absurd (ground (arith, b, p, r, h))
      read_back checked table (some c) b p r =
          let q : Upserted.stored c table ≡ stored row after = ground (arith, b, p, r, h) in
          let t : table ≡ after = cc in
          let u : c ≡ row = cc in
          record { checked = checked; before = b; persisted = rw t at p; read = rw (t, u) at r }

      persisted_next :
          (checked : List Connection) (o : CryptoResult (List Connection))
          → before_upsert now cs reconnecting_id grant.external_account_id ≡ proceed checked
          → persist_tokens cipher ring nonces now
              (land now fresh_id checked user_id provider grant).0
              provider
              grant
              (land now fresh_id checked user_id provider grant).1
            ≡ o
          → Landed fresh_id cs user_id provider grant reconnecting_id row after
      persisted_next checked (done table) b p =
          read_back checked table (by_id table (placed checked).0) b p refl
      persisted_next checked key_not_found b p = absurd (ground (arith, b, p, h))
      persisted_next checked envelope_error b p = absurd (ground (arith, b, p, h))
      persisted_next checked overflow_error b p = absurd (ground (arith, b, p, h))

      checked_first :
          (o : Before)
          → before_upsert now cs reconnecting_id grant.external_account_id ≡ o
          → Landed fresh_id cs user_id provider grant reconnecting_id row after
      checked_first (proceed checked) b =
          persisted_next checked
            (persist_tokens cipher ring nonces now (placed checked).0 provider grant
              (placed checked).1)
            b refl
      checked_first (refuse expected actual) b = absurd (ground (arith, b, h))

  -- From a table with distinct ids and natural keys, an authorization that lands leaves such a table,
  -- whatever connection it was to repair: on an insert, on a reconnect, and on the adoption of a
  -- placeholder.
  pub upsert-IsKeyed :
      (fresh_id : ℕ) (cs : List Connection) (user_id : ℕ) (provider : ProviderKind) (grant : Grant)
      (reconnecting_id : Option ℕ) (row : Connection) (after : List Connection)
      → IsKeyed fresh_id cs
      → upsert cipher ring nonces now fresh_id cs user_id provider grant reconnecting_id
        ≡ stored row after
      → IsKeyed (suc fresh_id) after
  upsert-IsKeyed fresh_id cs user_id provider grant reconnecting_id row after h e =
      let l = upsert-Landed fresh_id cs user_id provider grant reconnecting_id row after e in
      let landed = land now fresh_id l.checked user_id provider grant in
      persisted-IsKeyed (suc fresh_id) landed.0 provider grant landed.1 after
        (land-IsKeyed now fresh_id user_id provider grant l.checked (
          before_upsert-IsKeyed fresh_id now cs reconnecting_id grant.external_account_id l.checked
            h l.before))
        l.persisted
