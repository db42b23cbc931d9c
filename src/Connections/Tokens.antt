-- ===== src/Connections/Tokens.antt =====
-- packages/core/connections/tokens.py: the one path to a live credential. The body of `get_token`
-- runs under the connection's advisory lock, so it is one step on the table. `refresh_access` is
-- oauth.refresh_access_token against the provider; times are in microseconds.
pub mod Served
use unified_search_safe_send.Prelude.{
  ℕ, ◌+◌, ◌-◌, ◌*◌, Bool, true, false, not, ◌&&◌, Option, none, some, List, String, leb,
  if◌then◌else◌, update_where,
}
use unified_search_safe_send.Prelude.Text.{◌<>◌, show, truthy}
use unified_search_safe_send.Enums.{ProviderKind, gmail, slack, ErrorClass}
use unified_search_safe_send.Errors.{Exn, provider_error, classify, str}
use unified_search_safe_send.Send.Digest.{channel_value}
use unified_search_safe_send.Security.Crypto.{
  Bytes, CryptoResult, done, Cipher, Keyring, Field, access, refresh, bot,
}
use unified_search_safe_send.Connections.Row.{Connection}
use unified_search_safe_send.Connections.Store.{
  Grant, has_id, by_id, token, persist_tokens, mark_needs_reconnect,
}

-- adapters/types.py
pub data TokenKind : Type 0 where
  user bot_token oauth : TokenKind

abbrev pub kind_value : TokenKind → String
kind_value TokenKind.user = "user"
kind_value TokenKind.bot_token = "bot"
kind_value TokenKind.oauth = "oauth"

-- _COLUMN_FOR
abbrev pub column_for : ProviderKind → TokenKind → Option Field
column_for gmail oauth = some access
column_for gmail user = some access
column_for gmail bot_token = none
column_for slack user = some access
column_for slack bot_token = some bot
column_for slack oauth = some bot

-- a token, an exception, or the failure of the keyring
pub data TokenAnswer : Type 0 where
  served : String → TokenAnswer
  raised : Exn → TokenAnswer
  unreadable : TokenAnswer

-- the answer of `refresh_access_token`
pub data Refreshed : Type 0 where
  granted : Grant → Refreshed
  failed : Exn → Refreshed

abbrev pub refresh_margin : ℕ
refresh_margin = 120 * 1000000

unfoldable pub expiring : ℕ → Option ℕ → Bool
expiring now none = true
expiring now (some expires_at) = leb expires_at (now + refresh_margin)

abbrev pub is_cached : ProviderKind → Field → Bool
is_cached gmail access = true
is_cached _ _ = false

abbrev pub is_revocation : Exn → Bool
is_revocation (provider_error e) = elim (classify (provider_error e)) [
  | ErrorClass.needs_reconnect ↦ true
  | _ ↦ false
]
is_revocation _ = false

module _ (cipher : Cipher) (ring : Keyring) (nonces : Field → Bytes) (now : ℕ)
    (refresh_access : String → Refreshed) where
  -- after Google's answer: the credential is persisted before anything else is decided
  unfoldable pub accept_grant : List Connection → Connection → Grant → TokenAnswer × List Connection
  accept_grant connections c grant =
      elim (persist_tokens cipher ring nonces now c.id c.provider grant connections) [
        | done after ↦ (
          elim grant.access_token [
            | some fresh ↦
                if truthy fresh
                then served fresh
                else raised
                    (Exn.needs_reconnect c.id "the refresh response carried no access token")
            | none ↦
                raised (Exn.needs_reconnect c.id "the refresh response carried no access token")
          ],
          after,
        )
        | _ ↦ (unreadable, connections)
      ]

  unfoldable pub use_refresh_token :
      List Connection → Connection → String → TokenAnswer × List Connection
  use_refresh_token connections c refresh_token = elim (refresh_access refresh_token) [
    | granted grant ↦ accept_grant connections c grant
    | failed e ↦
        if is_revocation e
        then (
          raised (Exn.needs_reconnect c.id (str e)),
          mark_needs_reconnect now connections c.id (str e),
        )
        else (raised e, connections)
  ]

  abbrev pub no_refresh_token : Connection → TokenAnswer
  no_refresh_token c = raised (
      Exn.needs_reconnect c.id (
        "no refresh token is stored for this connection, so the access "
        <> "token cannot be renewed without the account owner"))

  unfoldable pub refresh_google : List Connection → Connection → TokenAnswer × List Connection
  refresh_google connections c = elim (token cipher ring c refresh) [
    | done (some refresh_token) ↦
        if truthy refresh_token
        then use_refresh_token connections c refresh_token
        else (no_refresh_token c, connections)
    | done none ↦ (no_refresh_token c, connections)
    | _ ↦ (unreadable, connections)
  ]

  -- the decision on the stored token
  unfoldable pub from_stored :
      List Connection
      → Connection
      → TokenKind
      → Field
      → Option String
      → TokenAnswer × List Connection
  from_stored connections c kind field none =
      if is_cached c.provider field then refresh_google connections c else (
        raised (
            Exn.needs_reconnect c.id
              ("no " <> kind_value kind <> " token stored for connection " <> show c.id)),
        connections,
      )
  from_stored connections c kind field (some stored) =
      if is_cached c.provider field
      then if truthy stored && not (expiring now c.access_expires_at)
        then (served stored, connections)
        else refresh_google connections c
      else if truthy stored
      then (served stored, connections)
      else (
        raised (
            Exn.needs_reconnect c.id
              ("no " <> kind_value kind <> " token stored for connection " <> show c.id)),
        connections,
      )

  unfoldable pub get_token : List Connection → ℕ → TokenKind → TokenAnswer × List Connection
  get_token connections connection_id kind = elim (by_id connections connection_id) [
    | none ↦ (
      raised (Exn.token_unavailable ("connection " <> show connection_id <> " no longer exists")),
      connections,
    )
    | some c ↦ elim (column_for c.provider kind) [
      | none ↦ (
        raised (
            Exn.token_unavailable (
              channel_value c.provider
              <> " has no "
              <> kind_value kind
              <> " token; this is a routing bug rather than a missing grant")),
        connections,
      )
      | some field ↦ elim (token cipher ring c field) [
        | done stored ↦ from_stored connections c kind field stored
        | _ ↦ (unreadable, connections)
      ]
    ]
  ]

-- `now() - interval '1 second'`
abbrev pub set_stale : ℕ → Connection → Connection
set_stale now c = record c { access_expires_at = some (now - 1000000); updated_at = now }

unfoldable pub expire_access_token : ℕ → List Connection → ℕ → List Connection
expire_access_token now connections connection_id =
    update_where (has_id connection_id) (set_stale now) connections
