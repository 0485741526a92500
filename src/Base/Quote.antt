-- ===== src/Base/Quote.antt =====
-- `urllib.parse.quote(s)`, with its default `safe='/'`, and `sep.join(parts)`.
use Prim.Native.Nat.{ℕ, ◌+◌, ◌/◌, ◌%◌}
use Prim.Native.Char.{Char, code}
use Prim.Native.String.{String, ◌++◌ as ◌<>◌, [] as empty_text, ◌∷◌ as ◌::◌}
use mathlib.Core.Path.{◌≡◌, refl}
use mathlib.Core.Bool.{Bool, ◌&&◌, ◌||◌}
use mathlib.Core.List.{List, [], ◌∷◌, foldr}
use couchbase_python_client.Base.Equality.{if◌then◌else◌, ltb, leb, beq}
use couchbase_python_client.Base.Decimal.{digit_text}

abbrev pub lower_hex : ℕ → String
lower_hex n =
    if ltb n 10
    then digit_text n
    else if beq n 10
    then "a"
    else if beq n 11
    then "b"
    else if beq n 12
    then "c"
    else if beq n 13
    then "d"
    else if beq n 14
    then "e"
    else "f"

abbrev pub upper_hex : ℕ → String
upper_hex n =
    if ltb n 10
    then digit_text n
    else if beq n 10
    then "A"
    else if beq n 11
    then "B"
    else if beq n 12
    then "C"
    else if beq n 13
    then "D"
    else if beq n 14
    then "E"
    else "F"

-- The bytes of a character's UTF-8 form.
abbrev pub utf8 : ℕ → List ℕ
utf8 c =
    if ltb c 128
    then c ∷ []
    else if ltb c 2048
    then (192 + c / 64) ∷ (128 + c % 64) ∷ []
    else if ltb c 65536
    then (224 + c / 4096) ∷ (128 + c / 64 % 64) ∷ (128 + c % 64) ∷ []
    else (240 + c / 262144) ∷ (128 + c / 4096 % 64) ∷ (128 + c / 64 % 64) ∷ (128 + c % 64) ∷ []

-- Letters, digits and `_.-~/`.
pub is_safe : ℕ → Bool
is_safe c =
    (leb 97 c && leb c 122)
    || (leb 65 c && leb c 90)
    || (leb 45 c && leb c 57)
    || beq c 95
    || beq c 126

abbrev pub percent : ℕ → String
percent b = "%" <> (upper_hex (b / 16) <> upper_hex (b % 16))

pub percents : List ℕ → String
percents = foldr (λ b s. percent b <> s) ""

pub quote_char : Char → String
unfolding is_safe percents
quote_char c = if is_safe (code c) then c :: "" else percents (utf8 (code c))

unfoldable pub quote : String → String
unfolding quote_char
quote empty_text = ""
quote (c :: s) = quote_char c <> quote s

unfoldable pub join : String → List String → String
join sep [] = ""
join sep (s ∷ []) = s
join sep (s ∷ t ∷ rest) = s <> (sep <> join sep (t ∷ rest))

quote_tests : (quote "a&b=/é~" ≡ "a%26b%3D/%C3%A9~") × (join "," ("a" ∷ "b" ∷ []) ≡ "a,b")
unfolding quote join
quote_tests = (refl, refl)
