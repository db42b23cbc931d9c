-- ===== src/Security/Crypto/Envelope.antt =====
-- A sealed token opens again under the same keyring and associated data.
use unified_search_safe_send.Prelude.{
  ℕ, ◌<◌, ◌≡◌, refl, ◌∙◌, none, some, ◌∷◌, [], ◌++◌, String, arith, length, take-append,
  drop-append, length-append, ◌/◌, ◌%◌,
}
use unified_search_safe_send.Security.Crypto.{
  Bytes, done, envelope_error, Cipher, Keyring, key_for, magic, nonce_bytes, encrypt, decrypt_with,
  decrypt, key_version_of,
}

-- what AES-GCM promises its user first: the sealed text opens
pub record Opens (cipher : Cipher) : Type 0 where
  pub opens :
      (key : String) (nonce : Bytes) (plaintext aad : String)
      → cipher.unseal key nonce (cipher.seal key nonce plaintext aad) aad ≡ some plaintext

abbrev pub envelope : ℕ → Bytes → Bytes → Bytes
envelope version nonce sealed = magic ++ (version / 256 ∷ version % 256 ∷ []) ++ nonce ++ sealed

pub encrypt-envelope :
    (cipher : Cipher) (ring : Keyring) (nonce : Bytes) (plaintext aad key : String)
    → key_for ring ring.current ≡ done key
    → ring.current < 65536
    → encrypt cipher ring nonce plaintext aad
      ≡ done (envelope ring.current nonce (cipher.seal key nonce plaintext aad))
unfolding encrypt
encrypt-envelope cipher ring nonce plaintext aad key k v = ground (arith, k, v)

version_known :
    (version : ℕ) (nonce sealed : Bytes)
    → length nonce ≡ nonce_bytes
    → key_version_of (envelope version nonce sealed) ≡ done version
unfolding key_version_of
version_known version nonce sealed n = ground (arith, length-append nonce sealed, n)

-- opening an envelope is opening its sealed text under its nonce
pub decrypt-envelope :
    (cipher : Cipher) (ring : Keyring) (version : ℕ) (nonce sealed : Bytes) (aad key : String)
    → key_for ring version ≡ done key
    → length nonce ≡ nonce_bytes
    → decrypt cipher ring (envelope version nonce sealed) aad
      ≡ elim (cipher.unseal key nonce sealed aad) [
        | none ↦ envelope_error
        | some plaintext ↦ done plaintext
      ]
unfolding decrypt decrypt_with
decrypt-envelope cipher ring version nonce sealed aad key k n =
    rw
      (
        version_known version nonce sealed n,
        k,
        take-append nonce_bytes nonce sealed n,
        drop-append nonce_bytes nonce sealed n,
        decrypt,
        decrypt_with,
      )
      refl

-- With a cipher whose sealed texts open, a 12-byte nonce, and a keyring that holds its current key
-- under a version of two bytes: what is encrypted decrypts to the plaintext, also with a later
-- keyring that still holds the key of that version.
pub decrypt-encrypt :
    (cipher : Cipher) (ring later : Keyring) (nonce : Bytes) (plaintext aad key : String)
    → Opens cipher
    → key_for ring ring.current ≡ done key
    → key_for later ring.current ≡ done key
    → ring.current < 65536
    → length nonce ≡ nonce_bytes
    → (blob : Bytes) × (encrypt cipher ring nonce plaintext aad ≡ done blob)
      × (decrypt cipher later blob aad ≡ done plaintext)
decrypt-encrypt cipher ring later nonce plaintext aad key o k l v n = (
  envelope ring.current nonce (cipher.seal key nonce plaintext aad),
  encrypt-envelope cipher ring nonce plaintext aad key k v,
  decrypt-envelope cipher later ring.current nonce (cipher.seal key nonce plaintext aad) aad key l n
      ∙ rw (o.opens key nonce plaintext aad) refl,
)
