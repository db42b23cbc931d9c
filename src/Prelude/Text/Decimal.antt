-- ===== src/Prelude/Text/Decimal.antt =====
-- What reads a printed number back, and why no digit is a colon.
use Prim.Native.Char.{Char, code}
use Prim.Native.Nat.{ℕ, zero, suc, ◌+◌, ◌-◌, ◌*◌, ◌/◌, ◌%◌, ◌<◌}
use Prim.Native.String.{String}
use mathlib.Core.Path.{◌≡◌, refl, sym, ap, ◌∙◌}
use mathlib.Core.Logic.{◌≢◌, inl, inr}
use native.Mathlib.Omega.{arith}
use text.Mathlib.TextLemmas.{
  nil-append, cons-append, append_cancel_left, head-eq_of_cons-eq, tail-eq_of_cons-eq,
}
use unified_search_safe_send.Prelude.Tests.{ltb, Bool-cases}
use unified_search_safe_send.Prelude.Text.{◌<>◌, show, digit, digits}

-- the number that a text of digits writes, after the digits that `acc` holds
read_on : ℕ → String → ℕ
read_on acc String.[] = acc
read_on acc (String.◌∷◌ c s) = read_on (acc * 10 + (code c - 48)) s

read_on-append : (acc : ℕ) (s t : String) → read_on acc (s <> t) ≡ read_on (read_on acc s) t
unfolding read_on
read_on-append acc String.[] t = rw nil-append
read_on-append acc (String.◌∷◌ c s) t =
    rw cons-append (read_on-append (acc * 10 + (code c - 48)) s t)

read_on-digit : (acc d : ℕ) → d < 10 → read_on acc (digit d) ≡ acc * 10 + d
unfolding read_on digit
read_on-digit acc zero h = omega arith
read_on-digit acc (suc zero) h = omega arith
read_on-digit acc (suc (suc zero)) h = omega arith
read_on-digit acc (suc (suc (suc zero))) h = omega arith
read_on-digit acc (suc (suc (suc (suc zero)))) h = omega arith
read_on-digit acc (suc (suc (suc (suc (suc zero))))) h = omega arith
read_on-digit acc (suc (suc (suc (suc (suc (suc zero)))))) h = omega arith
read_on-digit acc (suc (suc (suc (suc (suc (suc (suc zero))))))) h = omega arith
read_on-digit acc (suc (suc (suc (suc (suc (suc (suc (suc zero)))))))) h = omega arith
read_on-digit acc (suc (suc (suc (suc (suc (suc (suc (suc (suc zero))))))))) h = omega arith
read_on-digit acc (suc (suc (suc (suc (suc (suc (suc (suc (suc (suc d)))))))))) h =
    absurd (omega arith)

read_on-digits : (fuel n : ℕ) → n < fuel → read_on 0 (digits fuel n) ≡ n
unfolding digits
read_on-digits zero n h = absurd (omega arith)
read_on-digits (suc fuel) n h = elim (Bool-cases (ltb n 10)) [
  | inl e ↦ rw e (read_on-digit 0 n (ground arith) ∙ omega arith)
  | inr e ↦ rw e (
      read_on-append 0 (digits fuel (n / 10)) (digit (n % 10))
      ∙ read_on-digit (read_on 0 (digits fuel (n / 10))) (n % 10) (omega arith)
      ∙ omega (arith, read_on-digits fuel (n / 10) (ground arith)))
]

-- a printed number is the text of one number only
pub show_inj : (n m : ℕ) → show n ≡ show m → n ≡ m
unfolding show
show_inj n m h =
    sym (read_on-digits (suc n) n (omega arith))
    ∙ ap (read_on 0) h
    ∙ read_on-digits (suc m) m (omega arith)

-- no character of the text is a colon
abbrev pub NoColon : String → Type 0
NoColon String.[] = Unit
NoColon (String.◌∷◌ c s) = (code c ≢ 58) × NoColon s

NoColon-append : (s t : String) → NoColon s → NoColon t → NoColon (s <> t)
NoColon-append String.[] t a b = rw nil-append b
NoColon-append (String.◌∷◌ c s) t a b = rw cons-append (a.0, NoColon-append s t a.1 b)

digit-NoColon : (d : ℕ) → d < 10 → NoColon (digit d)
unfolding digit
digit-NoColon zero h = (λ e. omega (arith, e), tt)
digit-NoColon (suc zero) h = (λ e. omega (arith, e), tt)
digit-NoColon (suc (suc zero)) h = (λ e. omega (arith, e), tt)
digit-NoColon (suc (suc (suc zero))) h = (λ e. omega (arith, e), tt)
digit-NoColon (suc (suc (suc (suc zero)))) h = (λ e. omega (arith, e), tt)
digit-NoColon (suc (suc (suc (suc (suc zero))))) h = (λ e. omega (arith, e), tt)
digit-NoColon (suc (suc (suc (suc (suc (suc zero)))))) h = (λ e. omega (arith, e), tt)
digit-NoColon (suc (suc (suc (suc (suc (suc (suc zero))))))) h = (λ e. omega (arith, e), tt)
digit-NoColon (suc (suc (suc (suc (suc (suc (suc (suc zero)))))))) h = (λ e. omega (arith, e), tt)
digit-NoColon (suc (suc (suc (suc (suc (suc (suc (suc (suc zero))))))))) h =
    (λ e. omega (arith, e), tt)
digit-NoColon (suc (suc (suc (suc (suc (suc (suc (suc (suc (suc d)))))))))) h = absurd (omega arith)

digits-NoColon : (fuel n : ℕ) → NoColon (digits fuel n)
unfolding digits
digits-NoColon zero n = tt
digits-NoColon (suc fuel) n = elim (Bool-cases (ltb n 10)) [
  | inl e ↦ rw e (digit-NoColon n (ground arith))
  | inr e ↦ rw e (
      NoColon-append (digits fuel (n / 10)) (digit (n % 10)) (digits-NoColon fuel (n / 10))
        (digit-NoColon (n % 10) (omega arith)))
]

pub show-NoColon : (n : ℕ) → NoColon (show n)
unfolding show
show-NoColon n = digits-NoColon (suc n) n

heads_none :
    (c : Char) (t x y : String)
    → "" <> (":" <> x) ≡ String.◌∷◌ c t <> (":" <> y)
    → String.◌∷◌ ":" ("" <> x) ≡ String.◌∷◌ c (t <> (":" <> y))
heads_none c t x y h =
    sym (cons-append ":" "" x) ∙ sym (nil-append (":" <> x)) ∙ h ∙ cons-append c t (":" <> y)

-- two texts that agree up to their first colon and after it
pub split_at_colon :
    (s t x y : String)
    → NoColon s
    → NoColon t
    → s <> (":" <> x) ≡ t <> (":" <> y)
    → (s ≡ t) × (x ≡ y)
split_at_colon String.[] String.[] x y a b h =
    (refl, append_cancel_left ":" x y (rw (nil-append (":" <> x), nil-append (":" <> y)) at h))
split_at_colon String.[] (String.◌∷◌ c t) x y a b h =
    absurd (b.0 (ap code (sym (head-eq_of_cons-eq (heads_none c t x y h)))))
split_at_colon (String.◌∷◌ c s) String.[] x y a b h =
    absurd (a.0 (ap code (sym (head-eq_of_cons-eq (heads_none c s y x (sym h))))))
split_at_colon (String.◌∷◌ c s) (String.◌∷◌ d t) x y a b h =
    let both : String.◌∷◌ c (s <> (":" <> x)) ≡ String.◌∷◌ d (t <> (":" <> y)) =
      sym (cons-append c s (":" <> x)) ∙ h ∙ cons-append d t (":" <> y) in
    let (p, q) = split_at_colon s t x y a.1 b.1 (tail-eq_of_cons-eq both) in
    let e : c ≡ d = head-eq_of_cons-eq both in (cc (e, p), q)
