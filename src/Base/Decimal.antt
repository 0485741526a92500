-- ===== src/Base/Decimal.antt =====
-- `str(n)` and `int(s)`: decimal text of integers.
pub mod RoundTrip
use Prim.Native.Nat.{ℕ, zero, suc, ◌+◌, ◌-◌, ◌*◌, ◌/◌, ◌%◌}
use Prim.Native.Char.{code}
use Prim.Native.String.{String, ◌++◌ as ◌<>◌, [] as empty_text, ◌∷◌ as ◌::◌}
use mathlib.Core.Path.{◌≡◌, refl}
use mathlib.Core.Bool.{Bool, true, false, ◌&&◌, ◌||◌}
use mathlib.Core.Option.{Option, none, some}
use mathlib.Core.List.{List, [], ◌∷◌}
use couchbase_python_client.Base.Equality.{if◌then◌else◌, leb, beq}

-- `negsuc n` is -(n + 1).
pub data ℤ : Type 0 where
  pos : ℕ → ℤ
  negsuc : ℕ → ℤ

abbrev pub codes : String → List ℕ
codes empty_text = []
codes (c :: s) = code c ∷ codes s

-- The digits of a number above 0, in front of `rest`. The fuel exceeds the number.
digits_onto : ℕ → ℕ → List ℕ → List ℕ
digits_onto zero n rest = rest
digits_onto (suc f) n rest =
    let more = digits_onto f (n / 10) ((48 + n % 10) ∷ rest) in if beq n 0 then rest else more

unfoldable pub digits : ℕ → List ℕ
unfolding digits_onto
digits n = if beq n 0 then 48 ∷ [] else digits_onto (suc n) n []

abbrev pub digit_text : ℕ → String
digit_text zero = "0"
digit_text (suc zero) = "1"
digit_text (suc (suc zero)) = "2"
digit_text (suc (suc (suc zero))) = "3"
digit_text (suc (suc (suc (suc zero)))) = "4"
digit_text (suc (suc (suc (suc (suc zero))))) = "5"
digit_text (suc (suc (suc (suc (suc (suc zero)))))) = "6"
digit_text (suc (suc (suc (suc (suc (suc (suc zero))))))) = "7"
digit_text (suc (suc (suc (suc (suc (suc (suc (suc zero)))))))) = "8"
digit_text _ = "9"

-- The text of a digit given by its code.
abbrev pub digit : ℕ → String
digit c = digit_text (c - 48)

spell : List ℕ → String
spell [] = ""
spell (c ∷ cs) = digit c <> spell cs

-- `str(n)`
unfoldable pub decimal : ℕ → String
unfolding digits spell
decimal n = spell (digits n)

unfoldable pub decimal_ℤ : ℤ → String
unfolding decimal
decimal_ℤ (pos n) = decimal n
decimal_ℤ (negsuc n) = "-" <> decimal (suc n)

-- Reading decimal digits; `int` also takes single underscores between digits. `fresh` says that
-- a digit has to come next.
read_digits : List ℕ → Bool → ℕ → Option ℕ
read_digits [] true n = none
read_digits [] false n = some n
read_digits (c ∷ s) fresh n =
    let by_digit = read_digits s false (n * 10 + (c - 48)) in
    let by_underscore = (if fresh then none else read_digits s true n) in
    if leb 48 c && leb c 57 then by_digit else if beq c 95 then by_underscore else none

abbrev pub is_space : ℕ → Bool
is_space c = beq c 32 || (leb 9 c && leb c 13)

skip_spaces : List ℕ → List ℕ
skip_spaces [] = []
skip_spaces (c ∷ s) = let rest = skip_spaces s in if is_space c then rest else c ∷ s

abbrev trim_cons : ℕ → List ℕ → List ℕ
trim_cons c [] = if is_space c then [] else c ∷ []
trim_cons c (d ∷ s) = c ∷ d ∷ s

-- The text without the blanks at its end.
trim_end : List ℕ → List ℕ
trim_end [] = []
trim_end (c ∷ s) = elim (trim_end s) [ [] ↦ if is_space c then [] else c ∷ [] | d ∷ r ↦ c ∷ d ∷ r ]

signed : ℕ → ℤ
signed zero = pos zero
signed (suc n) = negsuc n

number : List ℕ → Option ℤ
unfolding read_digits signed
number [] = none
number (c ∷ s) =
    if beq c 45
    then elim (read_digits s true 0) [ none ↦ none | some n ↦ some (signed n) ]
    else elim (if beq c 43 then read_digits s true 0 else read_digits (c ∷ s) true 0) [
      | none ↦ none
      | some n ↦ some (pos n)
    ]

-- `int(s)` of a text of ASCII characters; `none` is a `ValueError`.
unfoldable pub parse_int : List ℕ → Option ℤ
unfolding number skip_spaces trim_end
parse_int s = number (trim_end (skip_spaces s))

parse_int_tests :
    (parse_int (codes " -1_20 ") ≡ some (negsuc 119))
    × (parse_int (codes "1__2") ≡ none)
    × (parse_int (codes "") ≡ none)
    × (decimal 11210 ≡ "11210")
unfolding parse_int decimal
parse_int_tests = (refl, refl, refl, refl)
