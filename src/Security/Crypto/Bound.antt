-- ===== src/Security/Crypto/Bound.antt =====
-- The associated data names one connection, provider and column, so that a token that was copied
-- into another place does not open there.
use text.Mathlib.TextLemmas.{append_cancel_left}
use unified_search_safe_send.Prelude.{
  ℕ, ◌<◌, ◌≡◌, ◌≢◌, refl, ap, ◌∙◌, true, false, inl, inr, none, some, Option-cases, String, str_eq,
  arith, length,
}
use unified_search_safe_send.Prelude.Text.{◌<>◌, show}
use unified_search_safe_send.Prelude.Text.Decimal.{NoColon, show_inj, show-NoColon, split_at_colon}
use unified_search_safe_send.Enums.{ProviderKind, gmail, slack}
use unified_search_safe_send.Send.Digest.{channel_value}
use unified_search_safe_send.Send.Digest.Injective.{channel_value_inj}
use unified_search_safe_send.Security.Crypto.{
  Bytes, done, envelope_error, Cipher, Keyring, Field, access, refresh, bot, field_value, aad_for,
  key_for, nonce_bytes, encrypt, decrypt,
}
use unified_search_safe_send.Security.Crypto.Envelope.{envelope, encrypt-envelope, decrypt-envelope}

-- what AES-GCM promises its user next: a sealed text opens under its own associated data alone
pub record Authenticates (cipher : Cipher) : Type 0 where
  pub authenticates :
      (key : String) (nonce : Bytes) (plaintext aad aad' opened : String)
      → cipher.unseal key nonce (cipher.seal key nonce plaintext aad) aad' ≡ some opened
      → aad ≡ aad'

channel_value-NoColon : (p : ProviderKind) → NoColon (channel_value p)
channel_value-NoColon gmail = (
  λ e. omega (arith, e),
  (
    λ e. omega (arith, e),
    (λ e. omega (arith, e), (λ e. omega (arith, e), (λ e. omega (arith, e), tt))),
  ),
)
channel_value-NoColon slack = (
  λ e. omega (arith, e),
  (
    λ e. omega (arith, e),
    (λ e. omega (arith, e), (λ e. omega (arith, e), (λ e. omega (arith, e), tt))),
  ),
)

apart : (s : String) {t : String} → str_eq t s ≡ true → (u : String) → str_eq u s ≡ false → t ≢ u
apart s same u other e = cc (same, other, ap (λ (x : String). str_eq x s) e)

field_value_inj : (f g : Field) → field_value f ≡ field_value g → f ≡ g
field_value_inj access access h = refl
field_value_inj access refresh h = absurd (apart "access" refl "refresh" refl h)
field_value_inj access bot h = absurd (apart "access" refl "bot" refl h)
field_value_inj refresh access h = absurd (apart "refresh" refl "access" refl h)
field_value_inj refresh refresh h = refl
field_value_inj refresh bot h = absurd (apart "refresh" refl "bot" refl h)
field_value_inj bot access h = absurd (apart "bot" refl "access" refl h)
field_value_inj bot refresh h = absurd (apart "bot" refl "refresh" refl h)
field_value_inj bot bot h = refl

-- Two columns with the same associated data are the same column of the same connection.
pub aad_for_inj :
    (id id' : ℕ) (provider provider' : ProviderKind) (field field' : Field)
    → aad_for id provider field ≡ aad_for id' provider' field'
    → (id ≡ id') × (provider ≡ provider') × (field ≡ field')
unfolding aad_for
aad_for_inj id id' p p' f f' h =
    let (ids, rest) =
      split_at_colon (show id) (show id') (channel_value p <> (":" <> field_value f))
        (channel_value p' <> (":" <> field_value f')) (show-NoColon id) (show-NoColon id')
        (append_cancel_left "conn:"
          (show id <> (":" <> (channel_value p <> (":" <> field_value f))))
          (show id' <> (":" <> (channel_value p' <> (":" <> field_value f')))) h) in
    let (providers, fields) =
      split_at_colon (channel_value p) (channel_value p') (field_value f) (field_value f')
        (channel_value-NoColon p) (channel_value-NoColon p') rest in
    (show_inj id id' ids, channel_value_inj p p' providers, field_value_inj f f' fields)

-- With a cipher that authenticates its associated data, a 12-byte nonce and a keyring that holds its
-- current key under a version of two bytes: what was encrypted for one column of one connection is
-- an EnvelopeError in any other column or connection.
pub moved_token_refused :
    (cipher : Cipher) (ring : Keyring) (nonce : Bytes) (plaintext key : String) (id id' : ℕ)
    (provider provider' : ProviderKind) (field field' : Field)
    → Authenticates cipher
    → key_for ring ring.current ≡ done key
    → ring.current < 65536
    → length nonce ≡ nonce_bytes
    → ◌≢◌ {A = ℕ × ProviderKind × Field} (id, provider, field) (id', provider', field')
    → (blob : Bytes) × (encrypt cipher ring nonce plaintext (aad_for id provider field) ≡ done blob)
      × (decrypt cipher ring blob (aad_for id' provider' field') ≡ envelope_error)
moved_token_refused cipher ring nonce plaintext key id id' p p' f f' a k v n moved =
    let sealed = cipher.seal key nonce plaintext (aad_for id p f) in
    (
      envelope ring.current nonce sealed,
      encrypt-envelope cipher ring nonce plaintext (aad_for id p f) key k v,
      decrypt-envelope cipher ring ring.current nonce sealed (aad_for id' p' f') key k n
          ∙ rw shut refl,
    )
  where
    shut :
        cipher.unseal key nonce
          (cipher.seal key nonce plaintext (aad_for id p f))
          (aad_for id' p' f')
        ≡ none
    shut =
        elim (Option-cases (
          cipher.unseal key nonce (cipher.seal key nonce plaintext (aad_for id p f))
            (aad_for id' p' f'))) [
              | inl e ↦ e
              | inr (opened, e) ↦
                  let (ids, ps, fs) = aad_for_inj id id' p p' f f' (
                    a.authenticates key nonce plaintext (aad_for id p f) (aad_for id' p' f') opened
                      e) in
                  absurd (moved (rw (ids, ps, fs) refl))
            ]
