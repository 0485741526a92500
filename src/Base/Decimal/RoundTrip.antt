-- ===== src/Base/Decimal/RoundTrip.antt =====
-- `int(str(n))` is `n`.
use Prim.Native.Nat.{ℕ, zero, suc, ◌+◌, ◌-◌, ◌/◌, ◌%◌, ◌<◌, ◌≤◌}
use Prim.Native.String.{String, ◌++◌ as ◌<>◌, [] as empty_text, ◌∷◌ as ◌::◌}
use mathlib.Core.Path.{◌≡◌, refl, ◌∙◌, ap}
use mathlib.Core.Bool.{Bool, true, false}
use mathlib.Core.Logic.{inl, inr}
use mathlib.Core.Option.{some}
use mathlib.Core.List.{List, [], ◌∷◌, ◌++◌}
use native.Mathlib.Omega.{arith}
use text.Mathlib.TextLemmas.{nil-append, cons-append}
use couchbase_python_client.Base.Equality.{beq}
use couchbase_python_client.Base.Logic.{All, Bool-cases}
use couchbase_python_client.Base.Decimal.{
  is_space, skip_spaces, trim_cons, trim_end, signed, number, parse_int, decimal, decimal_ℤ, ℤ, pos,
  negsuc, codes, digits_onto, digits, digit, digit_text, spell, read_digits,
}

pub codes-append : (s t : String) → codes (s <> t) ≡ codes s ++ codes t
codes-append empty_text t = rw nil-append
codes-append (c :: s) t = rw (cons-append, codes-append s t)

abbrev IsDigit : ℕ → Type 0
IsDigit c = (48 ≤ c) × (c ≤ 57)

codes-digit_text : (d : ℕ) → d ≤ 9 → codes (digit_text d) ≡ (48 + d) ∷ []
codes-digit_text zero h = refl
codes-digit_text (suc zero) h = refl
codes-digit_text (suc (suc zero)) h = refl
codes-digit_text (suc (suc (suc zero))) h = refl
codes-digit_text (suc (suc (suc (suc zero)))) h = refl
codes-digit_text (suc (suc (suc (suc (suc zero))))) h = refl
codes-digit_text (suc (suc (suc (suc (suc (suc zero)))))) h = refl
codes-digit_text (suc (suc (suc (suc (suc (suc (suc zero))))))) h = refl
codes-digit_text (suc (suc (suc (suc (suc (suc (suc (suc zero)))))))) h = refl
codes-digit_text (suc (suc (suc (suc (suc (suc (suc (suc (suc zero))))))))) h = refl
codes-digit_text (suc (suc (suc (suc (suc (suc (suc (suc (suc (suc d)))))))))) h =
    absurd (omega arith)

codes-digit : (c : ℕ) → IsDigit c → codes (digit c) ≡ c ∷ []
codes-digit c h = codes-digit_text (c - 48) (omega arith) ∙ ap (λ d. d ∷ []) (omega arith)

codes-spell : (cs : List ℕ) → All IsDigit cs → codes (spell cs) ≡ cs
unfolding spell
codes-spell [] h = refl
codes-spell (c ∷ cs) h = rw (codes-append, codes-digit c h.0, codes-spell cs h.1)

digits_onto-IsDigit :
    (f n : ℕ) (rest : List ℕ) → All IsDigit rest → All IsDigit (digits_onto f n rest)
unfolding digits_onto
digits_onto-IsDigit zero n rest h = h
digits_onto-IsDigit (suc f) n rest h =
    ground (arith, digits_onto-IsDigit f (n / 10) ((48 + n % 10) ∷ rest) (omega arith, h))

digits-IsDigit : (n : ℕ) → All IsDigit (digits n)
unfolding digits
digits-IsDigit n = ground (arith, digits_onto-IsDigit (suc n) n [] tt)

digits_onto-zero : (f n : ℕ) (rest : List ℕ) → n ≡ 0 → digits_onto f n rest ≡ rest
unfolding digits_onto
digits_onto-zero zero n rest h = refl
digits_onto-zero (suc f) n rest h = ground arith

read-digits_onto :
    (f n : ℕ) (rest : List ℕ) (fresh : Bool)
    → 0 < n
    → n < f
    → read_digits (digits_onto f n rest) fresh 0 ≡ read_digits rest false n
unfolding digits_onto read_digits
read-digits_onto zero n rest fresh p h = absurd (omega arith)
read-digits_onto (suc f) n rest fresh p h = elim (Bool-cases (beq (n / 10) 0)) [
  | inl small ↦ ground (arith, digits_onto-zero f (n / 10) ((48 + n % 10) ∷ rest))
  | inr large ↦ ground (arith, read-digits_onto f (n / 10) ((48 + n % 10) ∷ rest) fresh)
]

read-digits : (n : ℕ) → read_digits (digits n) true 0 ≡ some n
unfolding digits read_digits
read-digits n = ground (arith, read-digits_onto (suc n) n [] true)

abbrev IsSolid : ℕ → Type 0
IsSolid c = is_space c ≡ false

digit-IsSolid : (c : ℕ) → IsDigit c → IsSolid c
digit-IsSolid c h = ground arith

digits-IsSolid : (cs : List ℕ) → All IsDigit cs → All IsSolid cs
digits-IsSolid [] h = tt
digits-IsSolid (c ∷ cs) h = (digit-IsSolid c h.0, digits-IsSolid cs h.1)

trim_end-solid : (cs : List ℕ) → All IsSolid cs → trim_end cs ≡ cs
unfolding trim_end
trim_end-solid [] h = refl
trim_end-solid (c ∷ cs) h = rw (trim_end-solid cs h.1, trim_end) (last cs)
  where
    last : (ds : List ℕ) → trim_cons c ds ≡ c ∷ ds
    last [] = rw h.0
    last (d ∷ ds) = refl

skip_spaces-solid : (cs : List ℕ) → All IsSolid cs → skip_spaces cs ≡ cs
unfolding skip_spaces
skip_spaces-solid [] h = refl
skip_spaces-solid (c ∷ cs) h = rw h.0

parse_int-solid : (cs : List ℕ) → All IsSolid cs → parse_int cs ≡ number cs
unfolding parse_int
parse_int-solid cs h = rw (skip_spaces-solid cs h, trim_end-solid cs h)

read_nil : {n : ℕ} → read_digits [] true 0 ≡ some n → ⊥
unfolding read_digits
read_nil h = cc

number-digits :
    (cs : List ℕ) (n : ℕ)
    → All IsDigit cs
    → read_digits cs true 0 ≡ some n
    → number cs ≡ some (pos n)
unfolding number
number-digits [] n d h = absurd (read_nil h)
number-digits (c ∷ cs) n d h = ground arith

pub codes-decimal : (n : ℕ) → codes (decimal n) ≡ digits n
unfolding decimal
codes-decimal n = codes-spell (digits n) (digits-IsDigit n)

-- Reading the decimal text of an integer gives the integer.
pub parse_int-decimal_ℤ : (z : ℤ) → parse_int (codes (decimal_ℤ z)) ≡ some z
unfolding decimal_ℤ number signed
parse_int-decimal_ℤ (pos n) =
    rw (codes-decimal n, parse_int-solid (digits n) (digits-IsSolid (digits n) (digits-IsDigit n)))
      (number-digits (digits n) n (digits-IsDigit n) (read-digits n))
parse_int-decimal_ℤ (negsuc n) =
    rw
      (
        codes-append,
        codes-decimal (suc n),
        parse_int-solid (45 ∷ digits (suc n))
            (refl, digits-IsSolid (digits (suc n)) (digits-IsDigit (suc n))),
      )
      rw (read-digits (suc n))
