-- ===== src/Connections/Service/Reconnect.antt =====
-- The identity of a connection across authorizations.
use unified_search_safe_send.Prelude.{
  ℕ, ◌≡◌, ◌≢◌, refl, sym, ap, ◌∙◌, inl, inr, Option, none, some, List, String, arith, eq_iff,
  ==_iff, Bool-cases, Option-cases, first_where-In, first_where-some, Distinct-eq, length,
  length-update, update_where,
}
use unified_search_safe_send.Enums.{ProviderKind}
use unified_search_safe_send.Security.Crypto.{
  Bytes, done, Cipher, Keyring, Field, access, refresh, bot,
}
use unified_search_safe_send.Connections.Row.{Connection}
use unified_search_safe_send.Connections.Store.{
  Grant, Upserted, stored, mismatch, Before, proceed, has_id, has_key, by_id, by_natural_key,
  before_upsert, land, set_landed, set_tokens, persist_tokens, store_tokens, upsert,
}
use unified_search_safe_send.Connections.Store.Keyed.{IsKeyed, has_key-key}
use unified_search_safe_send.Connections.Store.Tokens.{persist-Sealed, by_id-id}
use unified_search_safe_send.Connections.Store.Upsert.{upsert-Landed}
use unified_search_safe_send.Connections.Service.{landed, bind_grant, only_colons}

-- the guard of `upsert` lets the connection pass that was found by the grant's own key
own_key_passes :
    (now next_id : ℕ) (cs : List Connection) (user_id : ℕ) (provider : ProviderKind)
    (account : String) (c : Connection)
    → IsKeyed next_id cs
    → by_natural_key cs user_id provider account ≡ some c
    → before_upsert now cs (some c.id) account ≡ proceed cs
unfolding by_natural_key before_upsert by_id
own_key_passes now next_id cs user_id provider account c h e =
    let (m, t) = first_where-In (has_key user_id provider account) cs c e in
    let (_, _, a) = has_key-key user_id provider account c t in
    let (d, f) = first_where-some (has_id c.id) cs c m ((==_iff c.id c.id).1 refl) in
    let (md, td) = first_where-In (has_id c.id) cs d f in
    let same : d ≡ c =
      Distinct-eq (λ (x : Connection). x.id) cs d c h.distinct md m ((==_iff d.id c.id).0 td) in
    ground (
      arith,
      f,
      (eq_iff d.external_account_id account).1
          (ap (λ (x : Connection). x.external_account_id) same ∙ a),
    )

module _ (cipher : Cipher) (ring : Keyring) (nonces : Field → Bytes) (now : ℕ) where
  store_tokens-landed :
      (id : ℕ) (provider : ProviderKind) (grant : Grant) (cs : List Connection)
      (expected actual : String)
      → store_tokens cipher ring nonces now id provider grant cs ≢ mismatch expected actual
  unfolding store_tokens
  store_tokens-landed id provider grant cs expected actual h = ground (arith, h)

  passed :
      (fresh_id : ℕ) (cs : List Connection) (user_id : ℕ) (provider : ProviderKind) (grant : Grant)
      (reconnecting_id : Option ℕ) (expected actual : String)
      → before_upsert now cs reconnecting_id grant.external_account_id ≡ proceed cs
      → upsert cipher ring nonces now fresh_id cs user_id provider grant reconnecting_id
        ≢ mismatch expected actual
  unfolding upsert
  passed fresh_id cs user_id provider grant reconnecting_id expected actual b h =
      store_tokens-landed (land now fresh_id cs user_id provider grant).0 provider grant
        (land now fresh_id cs user_id provider grant).1 expected actual (ground (arith, b, h))

  -- On a table with distinct ids and natural keys, an authorization that completes is never refused as
  -- that of another account: the connection that it repairs is the one with the grant's own key.
  pub bind_grant_never_mismatched :
      (fresh_id : ℕ) (cs : List Connection) (user_id : ℕ) (provider : ProviderKind) (grant : Grant)
      (expected actual : String)
      → IsKeyed fresh_id cs
      → bind_grant cipher ring nonces now fresh_id cs user_id provider grant
        ≢ landed (mismatch expected actual)
  unfolding bind_grant before_upsert
  bind_grant_never_mismatched fresh_id cs user_id provider grant expected actual h e =
      elim (Bool-cases (only_colons grant.external_account_id)) [
        | inl t ↦ ground (arith, t, e)
        | inr t ↦
            elim (Option-cases (by_natural_key cs user_id provider grant.external_account_id)) [
              | inl n ↦
                  passed fresh_id cs user_id provider grant none expected actual refl
                    (unlanded (ground (arith, t, n, e)))
              | inr (c, n) ↦
                  passed fresh_id cs user_id provider grant (some c.id) expected actual
                    (own_key_passes now fresh_id cs user_id provider grant.external_account_id c h
                      n)
                    (unlanded (ground (arith, t, n, e)))
            ]
      ]
    where
      unlanded : {x y : Upserted} → landed x ≡ landed y → x ≡ y
      unlanded q = cc

  land-own :
      (fresh_id : ℕ) (cs : List Connection) (user_id : ℕ) (provider : ProviderKind) (grant : Grant)
      (c : Connection)
      → by_natural_key cs user_id provider grant.external_account_id ≡ some c
      → land now fresh_id cs user_id provider grant ≡ (
        c.id,
        update_where (has_key user_id provider grant.external_account_id) (set_landed now grant) cs,
      )
  unfolding land
  land-own fresh_id cs user_id provider grant c n = rw (n, land) refl

  kept_row :
      (fresh_id : ℕ) (cs : List Connection) (user_id : ℕ) (provider : ProviderKind) (grant : Grant)
      (c row : Connection) (after checked : List Connection)
      → by_natural_key cs user_id provider grant.external_account_id ≡ some c
      → checked ≡ cs
      → persist_tokens cipher ring nonces now
          (land now fresh_id checked user_id provider grant).0
          provider
          grant
          (land now fresh_id checked user_id provider grant).1
        ≡ done after
      → by_id after (land now fresh_id checked user_id provider grant).0 ≡ some row
      → (row.id ≡ c.id) × (length after ≡ length cs)
  kept_row fresh_id cs user_id provider grant c row after checked n q persisted read =
      let own = land-own fresh_id cs user_id provider grant c n in
      let mine = has_key user_id provider grant.external_account_id in
      let s =
        persist-Sealed cipher ring nonces now c.id provider grant
          (update_where mine (set_landed now grant) cs) after (rw (q, own) at persisted) in
      (
        by_id-id cipher ring nonces now after c.id row (rw (q, own) at read),
        ap length s.result
            ∙ length-update (has_id c.id)
                (set_tokens cipher ring nonces now (s.sealed access) (s.sealed refresh)
                  (s.sealed bot) grant)
                (update_where mine (set_landed now grant) cs)
            ∙ length-update mine (set_landed now grant) cs,
      )

  -- On a table with distinct ids and natural keys, an account that is authorized again keeps the id of
  -- its connection, and no row is added.
  pub reconnect_keeps_id :
      (fresh_id : ℕ) (cs : List Connection) (user_id : ℕ) (provider : ProviderKind) (grant : Grant)
      (c row : Connection) (after : List Connection)
      → IsKeyed fresh_id cs
      → by_natural_key cs user_id provider grant.external_account_id ≡ some c
      → bind_grant cipher ring nonces now fresh_id cs user_id provider grant
        ≡ landed (stored row after)
      → (row.id ≡ c.id) × (length after ≡ length cs)
  unfolding bind_grant
  reconnect_keeps_id fresh_id cs user_id provider grant c row after h n e =
      elim (Bool-cases (only_colons grant.external_account_id)) [
        | inl t ↦ absurd (ground (arith, t, e))
        | inr t ↦
            let l =
              upsert-Landed cipher ring nonces now fresh_id cs user_id provider grant (some c.id)
                row after (unlanded (ground (arith, t, n, e))) in
            let p : Before.proceed l.checked ≡ proceed cs =
              sym l.before
              ∙ own_key_passes now fresh_id cs user_id provider grant.external_account_id c h n in
            kept_row fresh_id cs user_id provider grant c row after l.checked n (proceeded p)
              l.persisted l.read
      ]
    where
      unlanded : {x y : Upserted} → landed x ≡ landed y → x ≡ y
      unlanded q = cc

      proceeded : {x y : List Connection} → Before.proceed x ≡ proceed y → x ≡ y
      proceeded q = cc
