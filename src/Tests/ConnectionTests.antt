-- ===== src/Tests/ConnectionTests.antt =====
-- Connections, their credentials and the rotation of keys at one Google account.
use unified_search_safe_send.Prelude.{
  ℕ, ◌≡◌, ◌≢◌, refl, ap, true, false, none, some, [], ◌∷◌, String, arith, is_some,
}
use unified_search_safe_send.Prelude.Text.{show}
use unified_search_safe_send.Enums.{ProviderKind, gmail, active}
use unified_search_safe_send.Security.Crypto.{
  Bytes, done, envelope_error, Keyring, Field, access, refresh, aad_for, key_for, key_version_of,
  encrypt, decrypt, decrypt_with,
}
use unified_search_safe_send.Security.Crypto.Envelope.{envelope, decrypt-encrypt}
use unified_search_safe_send.Security.Crypto.Bound.{moved_token_refused}
use unified_search_safe_send.Connections.Row.{Connection}
use unified_search_safe_send.Connections.Store.{
  Grant, column, by_id, token, seal_token, persist_tokens,
}
use unified_search_safe_send.Connections.Store.Tokens.{
  grant_token, persist_keeps_credentials, token-persist_tokens,
}
use unified_search_safe_send.Connections.Tokens.{
  oauth, served, granted, failed, expiring, get_token, from_stored, refresh_google,
  use_refresh_token, accept_grant,
}
use unified_search_safe_send.Connections.Tokens.Served.{next_caller_served}
use unified_search_safe_send.Errors.{transport}
use unified_search_safe_send.Tests.ToyCipher.{toy, toy-Opens, toy-Authenticates}

abbrev pub ring : Keyring
ring = record { keys = (1, "k1") ∷ []; current = 1 }

abbrev pub nonce : Bytes
nonce = 1 ∷ 2 ∷ 3 ∷ 4 ∷ 5 ∷ 6 ∷ 7 ∷ 8 ∷ 9 ∷ 10 ∷ 11 ∷ 12 ∷ []

abbrev pub nonces : Field → Bytes
nonces f = nonce

pub has_key : key_for ring ring.current ≡ done "k1"
unfolding key_for
has_key = refl

decrypt-encrypt_example :
    (blob : Bytes) × (encrypt toy ring nonce "r1" "conn:7:gmail:refresh" ≡ done blob)
    × (decrypt toy ring blob "conn:7:gmail:refresh" ≡ done "r1")
decrypt-encrypt_example =
    decrypt-encrypt toy ring ring nonce "r1" "conn:7:gmail:refresh" "k1" toy-Opens has_key has_key
      (omega arith) refl

apart : ◌≢◌ {A = ℕ × ProviderKind × Field} (7, gmail, refresh) (8, gmail, refresh)
apart e = omega (arith, ap (λ (x : ℕ × ProviderKind × Field). x.0) e)

moved_token_refused_example :
    (blob : Bytes) × (encrypt toy ring nonce "r1" (aad_for 7 gmail refresh) ≡ done blob)
    × (decrypt toy ring blob (aad_for 8 gmail refresh) ≡ envelope_error)
moved_token_refused_example =
    moved_token_refused toy ring nonce "r1" "k1" 7 8 gmail gmail refresh refresh toy-Authenticates
      has_key (omega arith) refl apart

-- what is stored for a value of a column of connection 7
abbrev pub sealed : ℕ → String → String → Bytes
sealed version value aad = envelope version nonce (toy.seal "k1" nonce value aad)

abbrev pub google : Connection
google = record {
  id = 7;
  user_id = 1;
  provider = gmail;
  external_account_id = "sub-1";
  display_name = "ann@example.com";
  status = active;
  granted_scopes = "openid" ∷ [];
  access_token_ct = none;
  refresh_token_ct = some (sealed 1 "r1" "conn:7:gmail:refresh");
  bot_token_ct = none;
  key_version = 1;
  access_expires_at = none;
  refresh_expires_at = none;
  last_success_at = none;
  last_error_class = none;
  last_error_detail = none;
  created_at = 10;
  updated_at = 10;
}

-- the answer of an ordinary refresh
abbrev pub grant : Grant
grant = record {
  external_account_id = "";
  display_name = "";
  granted_scopes = [];
  access_token = some "a1";
  refresh_token = none;
  bot_token = none;
  access_expires_at = some 3600000000;
}

abbrev pub renewed : Connection
renewed = record google {
  access_token_ct = some (sealed 1 "a1" "conn:7:gmail:access");
  access_expires_at = some 3600000000;
  updated_at = 100;
}

pub persisted : persist_tokens toy ring nonces 100 7 gmail grant (google ∷ []) ≡ done (renewed ∷ [])
unfolding persist_tokens seal_token encrypt key_for aad_for show
persisted = refl

pub found : by_id (google ∷ []) 7 ≡ some google
unfolding by_id
found = refl

persist_keeps_credentials_example :
    (row : Connection) × (by_id (renewed ∷ []) 7 ≡ some row)
    × (grant_token grant refresh ≡ none → column row refresh ≡ column google refresh)
    × (is_some (column google refresh) ≡ true → is_some (column row refresh) ≡ true)
persist_keeps_credentials_example =
    persist_keeps_credentials toy ring nonces 100 7 gmail grant (google ∷ []) (renewed ∷ []) google
      refresh persisted found

token-persist_tokens_example :
    (row : Connection) × (by_id (renewed ∷ []) 7 ≡ some row)
    × (token toy ring row access ≡ done (some "a1"))
token-persist_tokens_example =
    token-persist_tokens toy ring nonces 100 7 grant (google ∷ []) (renewed ∷ []) google access "k1"
      "a1" toy-Opens has_key (omega arith) refl found persisted refl

first_caller :
    get_token toy ring nonces 100 (λ s. granted grant) (google ∷ []) 7 oauth
    ≡ (served "a1", renewed ∷ [])
unfolding get_token from_stored refresh_google use_refresh_token accept_grant token decrypt
    decrypt_with key_version_of aad_for show persist_tokens seal_token encrypt key_for by_id
first_caller = refl

found_renewed : by_id (renewed ∷ []) 7 ≡ some renewed
unfolding by_id
found_renewed = refl

still_live : expiring 200 renewed.access_expires_at ≡ false
unfolding expiring
still_live = refl

next_caller_served_example :
    get_token toy ring nonces 200 (λ s. failed (transport "down")) (renewed ∷ []) 7 oauth
    ≡ (served "a1", renewed ∷ [])
next_caller_served_example =
    next_caller_served toy ring nonces (λ s. granted grant) (λ s. failed (transport "down")) 100 200
      (google ∷ []) (renewed ∷ []) 7 oauth "a1" "k1" renewed toy-Opens has_key (omega arith) refl
      first_caller found_renewed still_live
