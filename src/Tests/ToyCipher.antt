-- ===== src/Tests/ToyCipher.antt =====
-- A cipher that hides nothing and keeps both laws, for the tests: the associated data and the
-- plaintext as numbers, one behind the other.
use Prim.Native.Char.{Char, char, code, nul, IsLt}
use Prim.Native.Nat.{Ordering, compare, lt, eq, gt}
use unified_search_safe_send.Prelude.{
  ℕ, ◌≡◌, refl, ◌∙◌, Option, none, some, [], ◌∷◌, ◌++◌, String, arith, str_eq, eq_iff, Bool-cases,
  inl, inr, if◌then◌else◌, length, take, drop, take-append, drop-append,
}
use text.Mathlib.TextPositions.{eq_refl}
use unified_search_safe_send.Security.Crypto.{Bytes, Cipher}
use unified_search_safe_send.Security.Crypto.Envelope.{Opens}
use unified_search_safe_send.Security.Crypto.Bound.{Authenticates}

-- the clauses of the library's `IsScalar`
abbrev Below : Ordering → Ordering → Type 0
Below lt o = IsLt o
Below eq _ = ⊥
Below gt _ = ⊥

abbrev Scalar : Ordering → Ordering → Ordering → Type 0
Scalar lt _ _ = Unit
Scalar eq o p = Below o p
Scalar gt o p = Below o p

abbrev pick_below : (o p : Ordering) → (Below o p → Char) → Char
pick_below lt lt k = k tt
pick_below lt eq k = nul
pick_below lt gt k = nul
pick_below eq p k = nul
pick_below gt p k = nul

abbrev pick : (o p q : Ordering) → (Scalar o p q → Char) → Char
pick lt p q k = k tt
pick eq p q k = pick_below p q k
pick gt p q k = pick_below p q k

pick_below_lem : (o p : Ordering) (k : Below o p → Char) (x : Below o p) → pick_below o p k ≡ k x
pick_below_lem lt lt k x = refl
pick_below_lem lt eq k x = absurd x
pick_below_lem lt gt k x = absurd x
pick_below_lem eq p k x = absurd x
pick_below_lem gt p k x = absurd x

pick_lem : (o p q : Ordering) (k : Scalar o p q → Char) (x : Scalar o p q) → pick o p q k ≡ k x
pick_lem lt p q k x = refl
pick_lem eq p q k x = pick_below_lem p q k x
pick_lem gt p q k x = pick_below_lem p q k x

abbrev to_char : ℕ → Char
to_char n = pick (compare n 55296) (compare 57343 n) (compare n 1114112) (char n)

to_char-code : (c : Char) → to_char (code c) ≡ c
to_char-code (char n p) =
    pick_lem (compare n 55296) (compare 57343 n) (compare n 1114112) (char n) p

abbrev codes : String → Bytes
codes String.[] = []
codes (String.◌∷◌ c s) = code c ∷ codes s

abbrev text_of : Bytes → String
text_of [] = String.[]
text_of (n ∷ ns) = String.◌∷◌ (to_char n) (text_of ns)

text_of-codes : (s : String) → text_of (codes s) ≡ s
text_of-codes String.[] = refl
text_of-codes (String.◌∷◌ c s) = rw (to_char-code c, text_of-codes s) refl

abbrev toy_open : Bytes → String → Option String
toy_open [] aad = none
toy_open (n ∷ rest) aad =
    if str_eq (text_of (take n rest)) aad then some (text_of (drop n rest)) else none

abbrev pub toy : Cipher
toy = record {
  seal = λ key nonce plaintext aad. length (codes aad) ∷ (codes aad ++ codes plaintext);
  unseal = λ key nonce blob aad. toy_open blob aad;
}

opened :
    (plaintext aad aad' : String)
    → toy_open (length (codes aad) ∷ (codes aad ++ codes plaintext)) aad'
      ≡ (if str_eq aad aad' then some plaintext else none)
opened plaintext aad aad' =
    rw
      (
        take-append (length (codes aad)) (codes aad) (codes plaintext) refl,
        drop-append (length (codes aad)) (codes aad) (codes plaintext) refl,
        text_of-codes aad,
        text_of-codes plaintext,
      )
      refl

pub toy-Opens : Opens toy
toy-Opens = record {
  opens = λ key nonce plaintext aad. opened plaintext aad aad ∙ rw (eq_refl aad) refl;
}

pub toy-Authenticates : Authenticates toy
toy-Authenticates = record {
  authenticates = λ key nonce plaintext aad aad' result h. elim (Bool-cases (str_eq aad aad')) [
    | inl e ↦ (eq_iff aad aad').0 e
    | inr e ↦ absurd (ground (arith, opened plaintext aad aad', e, h))
  ];
}
