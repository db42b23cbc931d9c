-- ===== src/Connections/State/Signed.antt =====
-- A state that was signed is read back from the callback while it is fresh.
use text.Mathlib.TextLemmas.{cons-append, nil-append}
use text.Mathlib.TextPositions.{eq_refl}
use Prim.Native.Char.{code}
use unified_search_safe_send.Prelude.{
  ℕ, ◌+◌, ◌≤◌, ◌≡◌, ◌≢◌, refl, ap, false, some, String, arith, ◌==◌, str_eq, ltb,
}
use unified_search_safe_send.Prelude.Text.{◌<>◌}
use unified_search_safe_send.Security.Crypto.{
  CryptoResult, done, key_not_found, envelope_error, overflow_error, Keyring, key_for,
}
use unified_search_safe_send.Connections.State.{
  OAuthState, Codec, state_ttl_seconds, before_dot, after_dot, verified, domain, mac, sign,
  read_state, verify,
}

abbrev pub NoDot : String → Type 0
NoDot String.[] = Unit
NoDot (String.◌∷◌ c s) = (code c ≢ 46) × NoDot s

-- what the standard library promises of a state: base64 without a dot and not empty, and both
-- decoders undo their encoders
pub record IsCodec (codec : Codec) (state : OAuthState) : Type 0 where
  pub unb64-b64 : codec.unb64 (codec.b64 (codec.dumps state)) ≡ some (codec.dumps state)
  pub loads-dumps : codec.loads (codec.dumps state) ≡ some state
  pub no_dot : NoDot (codec.b64 (codec.dumps state))
  pub body_filled : str_eq (codec.b64 (codec.dumps state)) "" ≡ false
  pub tag_filled : (key message : String) → str_eq (codec.b64 (codec.hmac key message)) "" ≡ false

before_dot-append : (s t : String) → NoDot s → before_dot (s <> ("." <> t)) ≡ s
before_dot-append String.[] t h = rw (nil-append ("." <> t), cons-append "." "" t) refl
before_dot-append (String.◌∷◌ c s) t h =
    let n : (code c == 46) ≡ false = ground (arith, h.0) in
    rw (cons-append c s ("." <> t), n)
      (ap (λ (u : String). String.◌∷◌ c u) (before_dot-append s t h.1))

after_dot-append : (s t : String) → NoDot s → after_dot (s <> ("." <> t)) ≡ t
after_dot-append String.[] t h = rw (nil-append ("." <> t), cons-append "." "" t) (nil-append t)
after_dot-append (String.◌∷◌ c s) t h =
    let n : (code c == 46) ≡ false = ground (arith, h.0) in
    rw (cons-append c s ("." <> t), n) (after_dot-append s t h.1)

module _ (codec : Codec) (ring : Keyring) where
  signed_text :
      (state : OAuthState) (raw : String)
      → sign codec ring state ≡ done raw
      → (key : String) × (mac codec ring (codec.b64 (codec.dumps state))
          ≡ done (codec.hmac key (codec.b64 (codec.dumps state))))
        × (raw
            ≡ codec.b64 (codec.dumps state)
              <> ("." <> codec.b64 (codec.hmac key (codec.b64 (codec.dumps state)))))
  unfolding sign mac
  signed_text state raw h = by_key (key_for ring ring.current) refl
    where
      by_key :
          (o : CryptoResult String)
          → key_for ring ring.current ≡ o
          → (key : String) × (mac codec ring (codec.b64 (codec.dumps state))
              ≡ done (codec.hmac key (codec.b64 (codec.dumps state))))
            × (raw
                ≡ codec.b64 (codec.dumps state)
                  <> ("." <> codec.b64 (codec.hmac key (codec.b64 (codec.dumps state)))))
      by_key (done key) k =
          let body = codec.b64 (codec.dumps state) in
          let q : CryptoResult.done raw
              ≡ done (body <> ("." <> codec.b64 (codec.hmac (codec.hmac key domain) body))) =
            ground (arith, k, h) in
          (codec.hmac key domain, ground (arith, k), cc)
      by_key key_not_found k = absurd (ground (arith, k, h))
      by_key envelope_error k = absurd (ground (arith, k, h))
      by_key overflow_error k = absurd (ground (arith, k, h))

  -- With base64 and JSON that undo themselves, a state that was signed is read back by the callback
  -- under the same keyring, as it was, for at least 900 seconds from its issue.
  pub verify-sign :
      (state : OAuthState) (raw : String) (now : ℕ)
      → IsCodec codec state
      → now ≤ state.issued_at + state_ttl_seconds
      → sign codec ring state ≡ done raw
      → verify codec ring now raw ≡ verified state
  unfolding verify read_state
  verify-sign state raw now c fresh h =
      let (key, tag, text) = signed_text state raw h in
      let body = codec.b64 (codec.dumps state) in
      let signature = codec.b64 (codec.hmac key body) in
      let before : before_dot raw ≡ body = rw text (before_dot-append body signature c.no_dot) in
      let after : after_dot raw ≡ signature = rw text (after_dot-append body signature c.no_dot) in
      let young : ltb (state.issued_at + state_ttl_seconds) now ≡ false = ground (arith, fresh) in
      ground (
        arith,
        before,
        after,
        c.body_filled,
        c.tag_filled key body,
        tag,
        eq_refl signature,
        c.unb64-b64,
        c.loads-dumps,
        young,
      )
