-- ===== src/Errors/Known.antt =====
-- A recognised provider code decides the class, and the HTTP status is a last resort.
use unified_search_safe_send.Prelude.{
  ℕ, ◌≡◌, ◌⊎◌, Bool, true, ◌||◌, Option, String, Bool-cases, inl, inr,
}
use unified_search_safe_send.Errors.{
  ProviderError, provider_error, member, google_needs_reconnect, google_config, google_transient,
  google_permanent, slack_transient, slack_needs_reconnect, slack_permanent, classify_slack,
  classify_google, classify_provider_error, classify,
}

-- a code that the tables of its provider hold
abbrev pub known_slack : String → Bool
known_slack code =
    member code slack_transient
    || (member code slack_needs_reconnect || member code slack_permanent)

abbrev pub known_google : String → Bool
known_google code =
    member code google_needs_reconnect
    || (member code google_config || (member code google_transient || member code google_permanent))

classify_slack-known :
    (code : String) (s t : Option ℕ)
    → known_slack code ≡ true
    → classify_slack code s ≡ classify_slack code t
unfolding classify_slack
classify_slack-known code s t h = elim (Bool-cases (member code slack_transient)) [
  | inl a ↦ rw a
  | inr a ↦ elim (Bool-cases (member code slack_needs_reconnect)) [
    | inl b ↦ rw (a, b)
    | inr b ↦ elim (Bool-cases (member code slack_permanent)) [
      | inl c ↦ rw (a, b, c)
      | inr c ↦ cc (h, a, b, c)
    ]
  ]
]

classify_google-known :
    (code : String) (s t : Option ℕ)
    → known_google code ≡ true
    → classify_google code s ≡ classify_google code t
unfolding classify_google
classify_google-known code s t h = elim (Bool-cases (member code google_needs_reconnect)) [
  | inl a ↦ rw a
  | inr a ↦ elim (Bool-cases (member code google_config)) [
    | inl b ↦ rw (a, b)
    | inr b ↦ elim (Bool-cases (member code google_transient)) [
      | inl c ↦ rw (a, b, c)
      | inr c ↦ elim (Bool-cases (member code google_permanent)) [
        | inl d ↦ rw (a, b, c, d)
        | inr d ↦ cc (h, a, b, c, d)
      ]
    ]
  ]
]

-- A code that the tables of its own provider know is classified the same whatever the HTTP status.
pub classify-known :
    (e : ProviderError) (status : Option ℕ)
    → ((e.provider ≡ "slack") × (known_slack e.code ≡ true))
      ⊎ ((e.provider ≡ "google") × (known_google e.code ≡ true))
    → classify (provider_error e) ≡ classify (provider_error (record e { status = status }))
unfolding classify classify_provider_error
classify-known e status (inl h) = rw h.0 (classify_slack-known e.code e.status status h.1)
classify-known e status (inr h) = rw h.0 (classify_google-known e.code e.status status h.1)
