-- ===== src/Connections/State.antt =====
-- packages/core/connections/state.py: the signed state of an authorization. HMAC-SHA256, base64 and
-- JSON are the standard library's, parameters; a key is the bytes of a text, as in the keyring, and
-- times are in seconds.
pub mod Signed
use unified_search_safe_send.Prelude.{
  ℕ, ◌+◌, ◌-◌, ◌*◌, Bool, true, false, not, ◌||◌, Option, none, some, List, [], ◌∷◌, String, ◌==◌,
  ltb, str_eq, if◌then◌else◌,
}
use Prim.Native.Char.{code}
use unified_search_safe_send.Prelude.Text.{◌<>◌}
use unified_search_safe_send.Security.Crypto.{CryptoResult, done, Keyring, key_for}

pub record OAuthState : Type 0 where
  pub user_id : ℕ
  pub provider : String
  pub nonce : String
  pub issued_at : ℕ
  pub return_to : String
  pub reconnect : Bool

pub record Codec : Type 0 where
  -- HMAC-SHA256 of a message under a key
  pub hmac : String → String → String
  -- urlsafe base64 without its padding
  pub b64 : String → String
  pub unb64 : String → Option String
  -- json.dumps of the fields, and json.loads with the defaults of `verify`
  pub dumps : OAuthState → String
  pub loads : String → Option OAuthState

abbrev pub state_ttl_seconds : ℕ
state_ttl_seconds = 900

abbrev pub domain : String
domain = "unified-search/oauth-state/v1"

-- `raw.partition(".")`: before the first dot, and after it
abbrev pub before_dot : String → String
before_dot String.[] = String.[]
before_dot (String.◌∷◌ c s) =
    let rest = before_dot s in if code c == 46 then String.[] else String.◌∷◌ c rest

abbrev pub after_dot : String → String
after_dot String.[] = String.[]
after_dot (String.◌∷◌ c s) = let rest = after_dot s in if code c == 46 then s else rest

pub data Verified : Type 0 where
  verified : OAuthState → Verified
  state_invalid : Verified
  no_key : Verified

module _ (codec : Codec) (ring : Keyring) where
  unfoldable pub mac : String → CryptoResult String
  mac body = elim (key_for ring ring.current) [
    | done key ↦ done (codec.hmac (codec.hmac key domain) body)
    | _ ↦ CryptoResult.key_not_found
  ]

  unfoldable pub sign : OAuthState → CryptoResult String
  sign state =
      let body = codec.b64 (codec.dumps state) in
      elim (mac body) [
        | done tag ↦ done (body <> "." <> codec.b64 tag)
        | _ ↦ CryptoResult.key_not_found
      ]

  -- the age of the state, in whole seconds; a state from the future has none
  unfoldable pub read_state : ℕ → String → Verified
  read_state now body = elim (codec.unb64 body) [
    | none ↦ state_invalid
    | some text ↦ elim (codec.loads text) [
      | none ↦ state_invalid
      | some state ↦
          if ltb (state.issued_at + state_ttl_seconds) now then state_invalid else verified state
    ]
  ]

  unfoldable pub verify : ℕ → String → Verified
  verify now raw =
      let body = before_dot raw in
      let signature = after_dot raw in
      if str_eq body "" || str_eq signature "" then state_invalid else elim (mac body) [
        | done tag ↦ if str_eq signature (codec.b64 tag) then read_state now body else state_invalid
        | _ ↦ no_key
      ]
