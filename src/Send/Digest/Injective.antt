-- ===== src/Send/Digest/Injective.antt =====
-- The length prefixes make the payload of the digest unambiguous.
use Prim.Native.String.{len, slice}
use text.Mathlib.TextLemmas.{append_cancel_left}
use text.Mathlib.TextPositions.{slice-append_left}
use unified_search_safe_send.Prelude.{
  ℕ, ◌≡◌, refl, sym, ap, ◌∙◌, List, [], ◌∷◌, String, Option, or_default, str_eq, true, false,
}
use unified_search_safe_send.Prelude.Text.{◌<>◌, show}
use unified_search_safe_send.Prelude.Text.Decimal.{show_inj, show-NoColon, split_at_colon}
use unified_search_safe_send.Enums.{ProviderKind, gmail, slack}
use unified_search_safe_send.Send.Digest.{channel_value, payload, digest_parts, confirmation_digest}

-- texts of one length that begin one text are the same
same_start : (s t x y : String) → len s ≡ len t → s <> x ≡ t <> y → s ≡ t
same_start s t x y n h =
    sym (slice-append_left s x)
    ∙ ap (λ (k : ℕ). slice (s <> x) 0 k) n
    ∙ ap (λ (u : String). slice u 0 (len t)) h
    ∙ slice-append_left t y

-- the first part of a payload and the rest can be read off it
payload-cons :
    (p q : String) (ps qs : List String)
    → payload (p ∷ ps) ≡ payload (q ∷ qs)
    → (p ≡ q) × (payload ps ≡ payload qs)
unfolding payload
payload-cons p q ps qs h =
    let (lens, rest) =
      split_at_colon (show (len p)) (show (len q)) (p <> payload ps) (q <> payload qs)
        (show-NoColon (len p)) (show-NoColon (len q)) h in
    let same = same_start p q (payload ps) (payload qs) (show_inj (len p) (len q) lens) rest in
    (
      same,
      append_cancel_left p (payload ps) (payload qs)
          (rest ∙ ap (λ (u : String). u <> payload qs) (sym same)),
    )

channel_apart : ◌≡◌ {A = String} "gmail" "slack" → false ≡ true
channel_apart h = ap (λ (u : String). str_eq u "slack") h

pub channel_value_inj : (a b : ProviderKind) → channel_value a ≡ channel_value b → a ≡ b
channel_value_inj gmail gmail h = refl
channel_value_inj slack slack h = refl
channel_value_inj gmail slack h = cc (channel_apart h)
channel_value_inj slack gmail h = cc (channel_apart (sym h))

-- With a hash that tells their payloads apart, two contents with one digest agree in the channel,
-- the recipient, its display, the body, and the subject, where no subject counts as the empty one.
pub confirmation_digest_inj :
    (sha256 : String → String) (a b : ProviderKind) (recipient recipient' display display' : String)
    (subject subject' : Option String) (body body' : String)
    → (sha256 (payload (digest_parts a recipient display subject body))
          ≡ sha256 (payload (digest_parts b recipient' display' subject' body'))
        → payload (digest_parts a recipient display subject body)
          ≡ payload (digest_parts b recipient' display' subject' body'))
    → confirmation_digest sha256 a recipient display subject body
      ≡ confirmation_digest sha256 b recipient' display' subject' body'
    → (a ≡ b)
      × (recipient ≡ recipient')
      × (display ≡ display')
      × (or_default subject "" ≡ or_default subject' "")
      × (body ≡ body')
unfolding confirmation_digest
confirmation_digest_inj sha256 a b r r' d d' s s' t t' free h =
    let five = t ∷ [] in
    let five' = t' ∷ [] in
    let four = or_default s "" ∷ five in
    let four' = or_default s' "" ∷ five' in
    let (p1, h1) =
      payload-cons (channel_value a) (channel_value b) (r ∷ d ∷ four) (r' ∷ d' ∷ four') (free h) in
    let (p2, h2) = payload-cons r r' (d ∷ four) (d' ∷ four') h1 in
    let (p3, h3) = payload-cons d d' four four' h2 in
    let (p4, h4) = payload-cons (or_default s "") (or_default s' "") five five' h3 in
    let (p5, h5) = payload-cons t t' [] [] h4 in (channel_value_inj a b p1, p2, p3, p4, p5)
