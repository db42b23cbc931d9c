-- ===== src/Tests/ReconnectTests.antt =====
-- Authorizing the Google account of ConnectionTests again, signing its state, and rotating its keys.
use text.Mathlib.TextLemmas.{cons-append}
use unified_search_safe_send.Prelude.{
  ◌≡◌, ◌≢◌, refl, sym, ap, ◌∙◌, inl, inr, Bool, true, false, Option, none, some, [], ◌∷◌, String,
  arith, length, str_eq, eq_iff, Bool-cases,
}
use unified_search_safe_send.Prelude.Text.{◌<>◌, show}
use unified_search_safe_send.Enums.{gmail}
use unified_search_safe_send.Security.Crypto.{
  done, key_not_found, Keyring, refresh, aad_for, key_for, key_version_of, encrypt, decrypt,
  decrypt_with,
}
use unified_search_safe_send.Connections.Row.{Connection}
use unified_search_safe_send.Connections.Store.{
  Grant, by_id, by_natural_key, before_upsert, land, token, seal_token, persist_tokens,
  store_tokens, upsert, stored, mismatch,
}
use unified_search_safe_send.Connections.Store.Keyed.{IsKeyed}
use unified_search_safe_send.Connections.Store.Upsert.{upsert-IsKeyed}
use unified_search_safe_send.Connections.Service.{landed, bind_grant}
use unified_search_safe_send.Connections.Service.Reconnect.{
  bind_grant_never_mismatched, reconnect_keeps_id,
}
use unified_search_safe_send.Connections.State.{OAuthState, Codec, verified, sign, verify, mac}
use unified_search_safe_send.Connections.State.Signed.{NoDot, IsCodec, verify-sign}
use unified_search_safe_send.Connections.Rotation.{
  Progress, running_on, is_stale, row_is_broken, reseal, rotate,
}
use unified_search_safe_send.Connections.Rotation.Stuck.{rotate_runs_on}
use unified_search_safe_send.Connections.Rotation.Hidden.{refreshed_row_is_skipped}
use unified_search_safe_send.Tests.ToyCipher.{toy}
use unified_search_safe_send.Tests.ConnectionTests.{
  ring, nonce, nonces, sealed, google, grant, renewed, found,
}

one_row-IsKeyed : IsKeyed 8 (google ∷ [])
one_row-IsKeyed = record {
  fresh = λ x m. elim m [ inl e ↦ rw e (omega arith) | inr z ↦ absurd z ];
  distinct = (λ y m. absurd m, tt);
  natural = λ x y mx my same. elim mx [
    | inl e ↦ elim my [ inl d ↦ rw (e, d) refl | inr z ↦ absurd z ]
    | inr z ↦ absurd z
  ];
}

-- the same account again, under another name
abbrev again : Grant
again = record {
  external_account_id = "sub-1";
  display_name = "Ann";
  granted_scopes = "openid" ∷ "email" ∷ [];
  access_token = some "a2";
  refresh_token = none;
  bot_token = none;
  access_expires_at = none;
}

abbrev reconnected : Connection
reconnected = record google {
  display_name = "Ann";
  granted_scopes = "openid" ∷ "email" ∷ [];
  access_token_ct = some (sealed 1 "a2" "conn:7:gmail:access");
  updated_at = 300;
}

lands :
    upsert toy ring nonces 300 8 (google ∷ []) 1 gmail again (some 7)
    ≡ stored reconnected (reconnected ∷ [])
unfolding upsert before_upsert land store_tokens persist_tokens seal_token encrypt key_for aad_for
    show by_id by_natural_key
lands = refl

upsert-IsKeyed_example : IsKeyed 9 (reconnected ∷ [])
upsert-IsKeyed_example =
    upsert-IsKeyed toy ring nonces 300 8 (google ∷ []) 1 gmail again (some 7) reconnected
      (reconnected ∷ []) one_row-IsKeyed lands

completes :
    bind_grant toy ring nonces 300 8 (google ∷ []) 1 gmail again
    ≡ landed (stored reconnected (reconnected ∷ []))
unfolding bind_grant upsert before_upsert land store_tokens persist_tokens seal_token encrypt
    key_for aad_for show by_id by_natural_key
completes = refl

own : by_natural_key (google ∷ []) 1 gmail "sub-1" ≡ some google
unfolding by_natural_key
own = refl

reconnect_keeps_id_example :
    (reconnected.id ≡ google.id) × (length (reconnected ∷ []) ≡ length (google ∷ []))
reconnect_keeps_id_example =
    reconnect_keeps_id toy ring nonces 300 8 (google ∷ []) 1 gmail again google reconnected
      (reconnected ∷ []) one_row-IsKeyed own completes

bind_grant_never_mismatched_example :
    bind_grant toy ring nonces 300 8 (google ∷ []) 1 gmail again ≢ landed (mismatch "sub-1" "sub-2")
bind_grant_never_mismatched_example =
    bind_grant_never_mismatched toy ring nonces 300 8 (google ∷ []) 1 gmail again "sub-1" "sub-2"
      one_row-IsKeyed

-- the keyring after a second key was added, and after the first was dropped
abbrev two_keys : Keyring
two_keys = record { keys = (1, "k1") ∷ (2, "k2") ∷ []; current = 2 }

abbrev new_only : Keyring
new_only = record { keys = (2, "k2") ∷ []; current = 2 }

old_key_dropped : key_for new_only 1 ≡ key_not_found
unfolding key_for
old_key_dropped = refl

sealed_by_first : key_version_of (sealed 1 "r1" "conn:7:gmail:refresh") ≡ done 1
unfolding key_version_of
sealed_by_first = refl

abbrev marked : Connection
marked = record renewed {
  access_token_ct = some (sealed 2 "a1" "conn:7:gmail:access");
  key_version = 2;
}

persisted_later :
    persist_tokens toy two_keys nonces 100 7 gmail grant (google ∷ []) ≡ done (marked ∷ [])
unfolding persist_tokens seal_token encrypt key_for aad_for show
persisted_later = refl

refreshed_row_is_skipped_example :
    (row : Connection) × (by_id (marked ∷ []) 7 ≡ some row)
    × (is_stale 2 row ≡ false)
    × (token toy new_only row refresh ≡ key_not_found)
refreshed_row_is_skipped_example =
    refreshed_row_is_skipped toy two_keys new_only nonces 100 7 gmail grant (google ∷ [])
      (marked ∷ []) google (sealed 1 "r1" "conn:7:gmail:refresh") 1 found refl sealed_by_first refl
      old_key_dropped persisted_later

-- the token of another connection in the row's column
abbrev misplaced : Connection
misplaced = record google { refresh_token_ct = some (sealed 1 "r1" "conn:8:gmail:refresh") }

abbrev start : Progress
start = record { table = misplaced ∷ []; rotated = 0; failed = 0 }

second_key : key_for two_keys 2 ≡ done "k2"
unfolding key_for
second_key = refl

unreadable_row : row_is_broken toy two_keys (λ id f. nonce) misplaced ≡ true
unfolding reseal decrypt decrypt_with key_version_of key_for aad_for show
unreadable_row = refl

rotate_runs_on_example :
    rotate toy two_keys (λ id f. nonce) 1000 (λ n c. false) true 50 start ≡ running_on
rotate_runs_on_example =
    rotate_runs_on toy two_keys (λ id f. nonce) "k2" misplaced (λ n c. false) 49 1000 start
      second_key (omega arith) unreadable_row refl (λ n. refl) (inl refl) (λ y m. absurd m, tt)

abbrev begun : OAuthState
begun = record {
  user_id = 1;
  provider = "gmail";
  nonce = "00";
  issued_at = 50;
  return_to = "/connections";
  reconnect = false;
}

abbrev rest : String → Option String
rest String.[] = none
rest (String.◌∷◌ c s) = some s

-- a code that marks its texts, and forms that know one state
abbrev marking : Codec
marking = record {
  hmac = λ key message. key <> message;
  b64 = λ text. "b" <> text;
  unb64 = rest;
  dumps = λ state. state.provider;
  loads = λ text. some begun;
}

abbrev is_empty : String → Bool
is_empty String.[] = true
is_empty (String.◌∷◌ c s) = false

marked_filled : (text : String) → str_eq ("b" <> text) "" ≡ false
marked_filled text = elim (Bool-cases (str_eq ("b" <> text) "")) [
  | inr e ↦ e
  | inl e ↦
      let q : ◌≡◌ {A = Bool} false true =
        ap is_empty (sym (cons-append "b" "" text) ∙ (eq_iff ("b" <> text) "").0 e) in
      cc
]

marking-IsCodec : IsCodec marking begun
marking-IsCodec = record {
  unb64-b64 = refl;
  loads-dumps = refl;
  no_dot = apart_from_dot;
  body_filled = refl;
  tag_filled = λ key message. marked_filled (key <> message);
}
  where
    apart_from_dot : NoDot "bgmail"
    apart_from_dot = (
      λ e. omega (arith, e),
      (
        λ e. omega (arith, e),
        (
          λ e. omega (arith, e),
          (λ e. omega (arith, e), (λ e. omega (arith, e), (λ e. omega (arith, e), tt))),
        ),
      ),
    )

is_signed : sign marking ring begun ≡ done "bgmail.bk1unified-search/oauth-state/v1bgmail"
unfolding sign mac key_for
is_signed = refl

verify-sign_example :
    verify marking ring 900 "bgmail.bk1unified-search/oauth-state/v1bgmail" ≡ verified begun
verify-sign_example =
    verify-sign marking ring begun "bgmail.bk1unified-search/oauth-state/v1bgmail" 900
      marking-IsCodec (omega arith) is_signed
