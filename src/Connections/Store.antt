-- ===== src/Connections/Store.antt =====
-- packages/core/connections/store.py: a completed authorization lands on the natural key, tokens are
-- sealed under the row's identity, and an answer without a token keeps the stored one. The cipher,
-- the keyring, the nonce of each column, the clock and the next id are arguments.
pub mod Keyed
pub mod Tokens
pub mod Upsert
use text.Mathlib.Text.{starts_with}
use unified_search_safe_send.Prelude.{
  ℕ, Bool, true, false, not, ◌&&◌, Option, none, some, List, [], ◌∷◌, ◌++◌, String, ◌==◌, str_eq,
  if◌then◌else◌, coalesce, first_where, update_where, exists_where, rowcount,
}
use unified_search_safe_send.Prelude.Text.{text_or, take_chars}
use unified_search_safe_send.Enums.{ProviderKind, ConnStatus, active, ErrorClass}
use unified_search_safe_send.Security.Crypto.{
  Bytes, CryptoResult, done, key_not_found, envelope_error, overflow_error, Cipher, Keyring, Field,
  access, refresh, bot, aad_for, encrypt, decrypt,
}
use unified_search_safe_send.Connections.Row.{Connection, same_kind, lowest_id, own_active}

-- connections/oauth.py
pub record Grant : Type 0 where
  pub external_account_id : String
  pub display_name : String
  pub granted_scopes : List String
  pub access_token : Option String
  pub refresh_token : Option String
  pub bot_token : Option String
  pub access_expires_at : Option ℕ

abbrev pub is_placeholder : String → Bool
is_placeholder external_account_id = starts_with external_account_id "fake:"

-- TOKEN_FIELDS
abbrev pub column : Connection → Field → Option Bytes
column c access = c.access_token_ct
column c refresh = c.refresh_token_ct
column c bot = c.bot_token_ct

-- an access token that does not open is a cache miss
abbrev pub opened : Field → CryptoResult String → CryptoResult (Option String)
opened field (done plaintext) = done (some plaintext)
opened access overflow_error = overflow_error
opened access _ = done none
opened _ key_not_found = key_not_found
opened _ envelope_error = envelope_error
opened _ overflow_error = overflow_error

abbrev pub has_id : ℕ → Connection → Bool
has_id id c = c.id == id

-- `connections_natural_key`
abbrev pub has_key : ℕ → ProviderKind → String → Connection → Bool
has_key user_id provider account c =
    c.user_id == user_id && (same_kind c.provider provider && str_eq c.external_account_id account)

unfoldable pub by_id : List Connection → ℕ → Option Connection
by_id connections id = first_where (has_id id) connections

unfoldable pub by_natural_key : List Connection → ℕ → ProviderKind → String → Option Connection
by_natural_key connections user_id provider account =
    first_where (has_key user_id provider account) connections

unfoldable pub active_for : List Connection → ℕ → ProviderKind → Option Connection
active_for connections user_id provider = lowest_id (own_active user_id provider) connections

-- what `upsert` answers: the row, ReconnectMismatch, or the failure of the keyring
pub data Upserted : Type 0 where
  stored : Connection → List Connection → Upserted
  mismatch : String → String → Upserted
  not_sealed : Upserted
  row_lost : Upserted

pub data Before : Type 0 where
  proceed : List Connection → Before
  refuse : String → String → Before

module _ (now : ℕ) where
  abbrev pub set_account : String → Connection → Connection
  set_account account c = record c { external_account_id = account; updated_at = now }

  unfoldable pub adopt_placeholder : List Connection → Connection → String → List Connection
  adopt_placeholder connections existing account =
      if exists_where (has_key existing.user_id existing.provider account) connections
      then connections
      else update_where (has_id existing.id) (set_account account) connections

  -- the guard of `upsert` on the connection that is being repaired
  unfoldable pub before_upsert : List Connection → Option ℕ → String → Before
  before_upsert connections none account = proceed connections
  before_upsert connections (some reconnecting_id) account =
      elim (by_id connections reconnecting_id) [
        | none ↦ proceed connections
        | some existing ↦
            if str_eq existing.external_account_id account
            then proceed connections
            else if is_placeholder existing.external_account_id
            then proceed (adopt_placeholder connections existing account)
            else refuse existing.external_account_id account
      ]

  abbrev pub set_landed : Grant → Connection → Connection
  set_landed grant c = record c {
    display_name = text_or grant.display_name grant.external_account_id;
    status = active;
    granted_scopes = grant.granted_scopes;
    last_error_class = none;
    last_error_detail = none;
    updated_at = now;
  }

  unfoldable pub new_connection : ℕ → ℕ → ProviderKind → Grant → Connection
  new_connection id user_id provider grant = record {
    id = id;
    user_id = user_id;
    provider = provider;
    external_account_id = grant.external_account_id;
    display_name = text_or grant.display_name grant.external_account_id;
    status = active;
    granted_scopes = grant.granted_scopes;
    access_token_ct = none;
    refresh_token_ct = none;
    bot_token_ct = none;
    key_version = 1;
    access_expires_at = none;
    refresh_expires_at = none;
    last_success_at = none;
    last_error_class = none;
    last_error_detail = none;
    created_at = now;
    updated_at = now;
  }

  -- INSERT … ON CONFLICT ON CONSTRAINT connections_natural_key DO UPDATE … RETURNING id
  unfoldable pub land : ℕ → List Connection → ℕ → ProviderKind → Grant → ℕ × List Connection
  land fresh_id connections user_id provider grant =
      elim (by_natural_key connections user_id provider grant.external_account_id) [
        | some c ↦ (
          c.id,
          update_where (has_key user_id provider grant.external_account_id) (set_landed grant)
              connections,
        )
        | none ↦ (fresh_id, connections ++ new_connection fresh_id user_id provider grant ∷ [])
      ]

  abbrev pub set_needs_reconnect : String → Connection → Connection
  set_needs_reconnect detail c = record c {
    status = ConnStatus.needs_reconnect;
    last_error_class = some ErrorClass.needs_reconnect;
    last_error_detail = some (take_chars 16384 detail);
    updated_at = now;
  }

  unfoldable pub mark_needs_reconnect : List Connection → ℕ → String → List Connection
  mark_needs_reconnect connections id detail =
      update_where (has_id id) (set_needs_reconnect detail) connections

  abbrev pub set_disconnected : Connection → Connection
  set_disconnected c = record c {
    access_token_ct = none;
    refresh_token_ct = none;
    bot_token_ct = none;
    access_expires_at = none;
    status = ConnStatus.needs_reconnect;
    last_error_class = none;
    last_error_detail = some "disconnected at the account owner's request";
    updated_at = now;
  }

  abbrev pub own_id : ℕ → ℕ → Connection → Bool
  own_id id user_id c = c.id == id && c.user_id == user_id

  unfoldable pub disconnect : List Connection → ℕ → ℕ → Bool × List Connection
  disconnect connections id user_id = (
    rowcount (own_id id user_id) connections == 1,
    update_where (own_id id user_id) set_disconnected connections,
  )

module _ (cipher : Cipher) (ring : Keyring) where
  -- ConnectionRow.token
  unfoldable pub token : Connection → Field → CryptoResult (Option String)
  token c field = elim (column c field) [
    | none ↦ done none
    | some blob ↦ opened field (decrypt cipher ring blob (aad_for c.id c.provider field))
  ]

  module _ (nonces : Field → Bytes) (now : ℕ) where
    unfoldable pub seal_token :
        ℕ → ProviderKind → Field → Option String → CryptoResult (Option Bytes)
    seal_token id provider field none = done none
    seal_token id provider field (some value) =
        elim (encrypt cipher ring (nonces field) value (aad_for id provider field)) [
          | done blob ↦ done (some blob)
          | key_not_found ↦ key_not_found
          | envelope_error ↦ envelope_error
          | overflow_error ↦ overflow_error
        ]

    abbrev pub set_tokens :
        Option Bytes → Option Bytes → Option Bytes → Grant → Connection → Connection
    set_tokens access_ct refresh_ct bot_ct grant c = record c {
      access_token_ct = coalesce access_ct c.access_token_ct;
      refresh_token_ct = coalesce refresh_ct c.refresh_token_ct;
      bot_token_ct = coalesce bot_ct c.bot_token_ct;
      access_expires_at = coalesce grant.access_expires_at c.access_expires_at;
      key_version = ring.current;
      updated_at = now;
    }

    unfoldable pub persist_tokens :
        ℕ → ProviderKind → Grant → List Connection → CryptoResult (List Connection)
    persist_tokens id provider grant connections =
        elim (seal_token id provider access grant.access_token) [
          | done access_ct ↦ elim (seal_token id provider refresh grant.refresh_token) [
            | done refresh_ct ↦ elim (seal_token id provider bot grant.bot_token) [
              | done bot_ct ↦ done (
                  update_where (has_id id) (set_tokens access_ct refresh_ct bot_ct grant)
                    connections)
              | key_not_found ↦ key_not_found
              | envelope_error ↦ envelope_error
              | overflow_error ↦ overflow_error
            ]
            | key_not_found ↦ key_not_found
            | envelope_error ↦ envelope_error
            | overflow_error ↦ overflow_error
          ]
          | key_not_found ↦ key_not_found
          | envelope_error ↦ envelope_error
          | overflow_error ↦ overflow_error
        ]

    -- the tokens of the row that was landed, and the row as it is read back
    unfoldable pub store_tokens : ℕ → ProviderKind → Grant → List Connection → Upserted
    store_tokens id provider grant connections =
        elim (persist_tokens id provider grant connections) [
          | done after ↦ elim (by_id after id) [
            | some refreshed ↦ stored refreshed after
            | none ↦ row_lost
          ]
          | _ ↦ not_sealed
        ]

    unfoldable pub upsert : ℕ → List Connection → ℕ → ProviderKind → Grant → Option ℕ → Upserted
    upsert fresh_id connections user_id provider grant reconnecting_id =
        elim (before_upsert now connections reconnecting_id grant.external_account_id) [
          | refuse expected actual ↦ mismatch expected actual
          | proceed checked ↦
              let (id, landed) = land now fresh_id checked user_id provider grant in
              store_tokens id provider grant landed
        ]
