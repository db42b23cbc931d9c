-- ===== src/Prelude/Text.antt =====
-- Text as the program writes it: decimal numbers in f-strings, and a text's truth value. A `String`
-- stands for its UTF-8, so `len` is the number of bytes that `encode("utf-8")` gives.
pub mod Decimal
use Prim.Native.Nat.{ℕ, zero, suc, ◌/◌, ◌%◌}
use Prim.Native.String.{String, ◌++◌ as append}
use mathlib.Core.Path.{◌≡◌, refl}
use mathlib.Core.Bool.{Bool, not, ◌&&◌, ◌||◌}
use Prim.Native.Char.{code}
use unified_search_safe_send.Prelude.Tests.{ltb, leb, ◌==◌, str_eq, if◌then◌else◌}

infixr 65 ◌<>◌
-- concatenation of texts
abbrev pub ◌<>◌ : String → String → String
a <> b = append a b

unfoldable pub digit : ℕ → String
digit d =
    if d == 0
    then "0"
    else if d == 1
    then "1"
    else if d == 2
    then "2"
    else if d == 3
    then "3"
    else if d == 4
    then "4"
    else if d == 5
    then "5"
    else if d == 6
    then "6"
    else if d == 7
    then "7"
    else if d == 8
    then "8"
    else "9"

-- Digits from the front; each round takes one digit off the end, so `n + 1` rounds are enough.
unfoldable pub digits : ℕ → ℕ → String
digits zero n = ""
digits (suc fuel) n =
    let rest = digits fuel (n / 10) in if ltb n 10 then digit n else rest <> digit (n % 10)

-- `str(n)`
unfoldable pub show : ℕ → String
unfolding digit digits
show n = digits (suc n) n

-- `bool(text)`
abbrev pub truthy : String → Bool
truthy s = not (str_eq s "")

-- `a or b` on texts
abbrev pub text_or : String → String → String
text_or a b = if str_eq a "" then b else a

show_example : show 16384 ≡ "16384"
unfolding show
show_example = refl

-- `str.isspace` of one character
is_space : ℕ → Bool
is_space c =
    (leb 9 c && leb c 13)
    || ((leb 28 c && leb c 32)
        || (c == 0x85
            || (c == 0xa0
                || (c == 0x1680
                    || ((leb 0x2000 c && leb c 0x200a)
                        || (c == 0x2028
                            || (c == 0x2029 || (c == 0x202f || (c == 0x205f || c == 0x3000)))))))))

-- `text[:n]`
abbrev pub take_chars : ℕ → String → String
take_chars zero s = String.[]
take_chars (suc n) String.[] = String.[]
take_chars (suc n) (String.◌∷◌ c s) = String.◌∷◌ c (take_chars n s)

lstrip : String → String
lstrip String.[] = String.[]
lstrip (String.◌∷◌ c s) = let rest = lstrip s in if is_space (code c) then rest else String.◌∷◌ c s

rstrip : String → String
rstrip String.[] = String.[]
rstrip (String.◌∷◌ c s) =
    let rest = rstrip s in
    if is_space (code c) && str_eq rest "" then String.[] else String.◌∷◌ c rest

-- `text.strip()`
unfoldable pub strip : String → String
unfolding is_space lstrip rstrip
strip s = lstrip (rstrip s)

strip_example : strip " slack:ratelimited  " ≡ "slack:ratelimited"
unfolding strip
strip_example = refl
