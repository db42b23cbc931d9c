-- ===== src/Connections/Rotation/Hidden.antt =====
-- The version on a row against the versions of its envelopes.
use unified_search_safe_send.Prelude.{ℕ, ◌≡◌, sym, ap, ◌∙◌, false, Option, none, some, List, arith}
use unified_search_safe_send.Enums.{ProviderKind}
use unified_search_safe_send.Security.Crypto.{
  Bytes, done, key_not_found, Cipher, Keyring, Field, access, refresh, bot, key_for, key_version_of,
  decrypt,
}
use unified_search_safe_send.Connections.Row.{Connection}
use unified_search_safe_send.Connections.Store.{
  Grant, column, by_id, token, set_tokens, persist_tokens,
}
use unified_search_safe_send.Connections.Store.Tokens.{persisted_row, persist_keeps_credentials}
use unified_search_safe_send.Connections.Rotation.{is_stale}

module _ (cipher : Cipher) where
  retired-token :
      (ring : Keyring) (row : Connection) (blob : Bytes) (old : ℕ)
      → column row refresh ≡ some blob
      → key_version_of blob ≡ done old
      → key_for ring old ≡ key_not_found
      → token cipher ring row refresh ≡ key_not_found
  unfolding token decrypt
  retired-token ring row blob old e v k = ground (arith, e, v, k)

  -- A connection has a refresh token under an older key, and the answer of a refresh, which brings no
  -- refresh token, is persisted: the row then carries the current version, so that the rotation no
  -- longer selects it, and with a keyring without the older key its refresh token is KeyNotFound.
  pub refreshed_row_is_skipped :
      (ring retired : Keyring) (nonces : Field → Bytes) (now id : ℕ) (provider : ProviderKind)
      (grant : Grant) (cs after : List Connection) (c : Connection) (blob : Bytes) (old : ℕ)
      → by_id cs id ≡ some c
      → c.refresh_token_ct ≡ some blob
      → key_version_of blob ≡ done old
      → grant.refresh_token ≡ none
      → key_for retired old ≡ key_not_found
      → persist_tokens cipher ring nonces now id provider grant cs ≡ done after
      → (row : Connection) × (by_id after id ≡ some row)
        × (is_stale ring.current row ≡ false)
        × (token cipher retired row refresh ≡ key_not_found)
  refreshed_row_is_skipped ring retired nonces now id provider grant cs after c blob old e b v n k
        h =
      let (sealed, _, found) =
        persisted_row cipher ring nonces now id provider grant cs after c h e in
      let (row, at, same, _) =
        persist_keeps_credentials cipher ring nonces now id provider grant cs after c refresh h e in
      (
        row,
        at,
        current (sealed access) (sealed refresh) (sealed bot) row (sym found ∙ at),
        retired-token retired row blob old (same n ∙ b) v k,
      )
    where
      current :
          (a r s : Option Bytes) (row : Connection)
          → some (set_tokens cipher ring nonces now a r s grant c) ≡ some row
          → is_stale ring.current row ≡ false
      current a r s row q =
          let p : set_tokens cipher ring nonces now a r s grant c ≡ row = cc in
          let version : row.key_version ≡ ring.current =
            sym (ap (λ (x : Connection). x.key_version) p) in
          ground (arith, version)
