-- ===== src/Security/Crypto.antt =====
-- packages/core/security/crypto.py: the envelope of a token. `AESGCM` is the cryptography library's,
-- a parameter; bytes are numbers below 256, the texts that it reads stand for their UTF-8, and
-- the random nonce is an argument.
pub mod Envelope
pub mod Bound
use unified_search_safe_send.Prelude.{
  ℕ, ◌+◌, ◌*◌, ◌/◌, ◌%◌, Bool, true, false, not, ◌&&◌, ◌||◌, Option, none, some, List, [], ◌∷◌,
  ◌++◌, String, ◌==◌, ltb, leb, if◌then◌else◌, length, take, drop,
}
use unified_search_safe_send.Prelude.Text.{◌<>◌, show}
use unified_search_safe_send.Enums.{ProviderKind}
use unified_search_safe_send.Send.Digest.{channel_value}

abbrev pub Bytes : Type 0
Bytes = List ℕ

-- the exceptions KeyNotFound, EnvelopeError, and OverflowError of `int.to_bytes`
pub data CryptoResult {ℓ} (A : Type ℓ) : Type ℓ where
  done : A → CryptoResult A
  key_not_found : CryptoResult A
  envelope_error : CryptoResult A
  overflow_error : CryptoResult A

pub record Cipher : Type 0 where
  -- key, nonce, plaintext, associated data
  pub seal : String → Bytes → String → String → Bytes
  -- key, nonce, ciphertext, associated data; `none` is InvalidTag
  pub unseal : String → Bytes → Bytes → String → Option String

pub record Keyring : Type 0 where
  pub keys : List (ℕ × String)
  pub current : ℕ

abbrev pub find_key : List (ℕ × String) → ℕ → Option String
find_key [] version = none
find_key ((v, key) ∷ rest) version =
    let found = find_key rest version in if v == version then some key else found

unfoldable pub key_for : Keyring → ℕ → CryptoResult String
key_for ring version = elim (find_key ring.keys version) [
  | none ↦ key_not_found
  | some key ↦ done key
]

-- b"USK1"
abbrev pub magic : Bytes
magic = 85 ∷ 83 ∷ 75 ∷ 49 ∷ []

abbrev pub key_version_bytes : ℕ
key_version_bytes = 2

abbrev pub nonce_bytes : ℕ
nonce_bytes = 12

abbrev pub header_bytes : ℕ
header_bytes = length magic + key_version_bytes + nonce_bytes

abbrev pub starts_with_bytes : Bytes → Bytes → Bool
starts_with_bytes [] blob = true
starts_with_bytes (b ∷ bs) [] = false
starts_with_bytes (b ∷ bs) (c ∷ cs) = b == c && starts_with_bytes bs cs

-- `from_bytes(…, "big")` and `to_bytes(2, "big")`
abbrev pub from_big : ℕ → Bytes → ℕ
from_big high [] = high
from_big high (b ∷ bs) = from_big (high * 256 + b) bs

abbrev pub to_big : ℕ → CryptoResult Bytes
to_big n = if ltb n 65536 then done (n / 256 ∷ n % 256 ∷ []) else overflow_error

pub data Field : Type 0 where
  access : Field
  refresh : Field
  bot : Field

abbrev pub field_value : Field → String
field_value Field.access = "access"
field_value Field.refresh = "refresh"
field_value Field.bot = "bot"

unfoldable pub aad_for : ℕ → ProviderKind → Field → String
aad_for connection_id provider field =
    "conn:" <> show connection_id <> ":" <> channel_value provider <> ":" <> field_value field

unfoldable pub key_version_of : Bytes → CryptoResult ℕ
key_version_of blob =
    if ltb (length blob) header_bytes || not (starts_with_bytes magic blob)
    then envelope_error
    else done (from_big 0 (take key_version_bytes (drop (length magic) blob)))

unfoldable pub encrypt : Cipher → Keyring → Bytes → String → String → CryptoResult Bytes
encrypt cipher ring nonce plaintext aad = elim (key_for ring ring.current) [
  | done key ↦ elim (to_big ring.current) [
    | done version ↦ done (magic ++ version ++ nonce ++ cipher.seal key nonce plaintext aad)
    | _ ↦ overflow_error
  ]
  | _ ↦ key_not_found
]

-- the part of `decrypt` after the header's version is read
unfoldable pub decrypt_with : Cipher → String → Bytes → String → CryptoResult String
decrypt_with cipher key blob aad =
    let nonce = take nonce_bytes (drop (length magic + key_version_bytes) blob) in
    elim (cipher.unseal key nonce (drop header_bytes blob) aad) [
      | none ↦ envelope_error
      | some plaintext ↦ done plaintext
    ]

unfoldable pub decrypt : Cipher → Keyring → Bytes → String → CryptoResult String
decrypt cipher ring blob aad = elim (key_version_of blob) [
  | done version ↦ elim (key_for ring version) [
    | done key ↦ decrypt_with cipher key blob aad
    | _ ↦ key_not_found
  ]
  | _ ↦ envelope_error
]
