-- ===== src/Options/Bounded.antt =====
-- couchbase/options.py: `ConstrainedInt` and its subclasses, with the `DeltaValue` of couchbase/collection.py.
use couchbase_python_client.Base.{
  ℕ, ◌+◌, ◌-◌, ◌^◌, ◌≤◌, ◌<◌, Bool, true, false, ◌&&◌, Option, none, some, if◌then◌else◌, leb, ltb,
  Result, ok, err, invalid_argument, attribute_error, outside_model, bind, ◌≡◌, refl, ◌⊎◌, inl, inr,
  arith, Bool-cases, Option-cases, sym, ◌∙◌,
}
use couchbase_python_client.Base.Decimal.{ℤ, pos, negsuc}
use couchbase_python_client.Base.Value.{Value, null, bool, int}

-- Python's `a <= b` and `a + b` on integers.
abbrev pub leb_ℤ : ℤ → ℤ → Bool
leb_ℤ (pos a) (pos b) = leb a b
leb_ℤ (negsuc a) (pos b) = true
leb_ℤ (pos a) (negsuc b) = false
leb_ℤ (negsuc a) (negsuc b) = leb b a

-- a - (b + 1)
abbrev pub below : ℕ → ℕ → ℤ
below a b = if ltb b a then pos (a - b - 1) else negsuc (b - a)

infixl 60 ◌+ℤ◌
abbrev pub ◌+ℤ◌ : ℤ → ℤ → ℤ
pos a +ℤ pos b = pos (a + b)
pos a +ℤ negsuc b = below a b
negsuc a +ℤ pos b = below b a
negsuc a +ℤ negsuc b = negsuc (a + b + 1)

pub data Kind : Type 0 where
  signed_int64 unsigned_int32 unsigned_int64 delta_value : Kind

-- `min()` and `max()` of the subclasses.
abbrev pub minimum : Kind → ℤ
minimum signed_int64 = negsuc (2 ^ 63 - 1)
minimum unsigned_int32 = pos (2 ^ 31)
minimum unsigned_int64 = pos 0
minimum delta_value = pos 0

abbrev pub maximum : Kind → ℤ
maximum signed_int64 = pos (2 ^ 63 - 1)
maximum unsigned_int32 = pos 0
maximum unsigned_int64 = pos (2 ^ 63)
maximum delta_value = pos (2 ^ 63 - 1)

-- What is given for an integer: a value, or an object with an attribute `value`.
pub data Item : Type 0 where
  plain : Value → Item
  with_value : Value → Item

-- `getattr(item, 'value', item)`
abbrev pub value_of : Item → Value
value_of (plain v) = v
value_of (with_value v) = v

-- The number that an `int` is; a `bool` is one.
abbrev pub number_of : Value → Option ℤ
number_of (int z) = some z
number_of (bool true) = some (pos 1)
number_of (bool false) = some (pos 0)
number_of _ = none

abbrev pub in_range : Kind → ℤ → Bool
in_range k z = leb_ℤ (minimum k) z && leb_ℤ z (maximum k)

abbrev pub checked : Kind → Value → Option ℤ → Result Value
checked k v none = err invalid_argument
checked k v (some z) = if in_range k z then ok v else err invalid_argument

-- `verified_value`
unfoldable pub verified_value : Kind → Item → Result Value
verified_value k item = checked k (value_of item) (number_of (value_of item))

-- A `ConstrainedInt`.
pub record ConstrainedInt : Type 0 where
  pub kind : Kind
  pub value : Value

abbrev pub same_kind : Kind → Kind → Bool
same_kind signed_int64 signed_int64 = true
same_kind unsigned_int32 unsigned_int32 = true
same_kind unsigned_int64 unsigned_int64 = true
same_kind delta_value delta_value = true
same_kind _ _ = false

-- `int(c)`; a value that passed `verified_value` is a number.
unfoldable pub int_of : ConstrainedInt → Option ℤ
int_of c = number_of c.value

-- `__init__`
unfoldable pub new : Kind → Item → Result ConstrainedInt
unfolding verified_value
new k item = bind (verified_value k item) λ v. ok record { kind = k; value = v }

abbrev pub add_checked : Kind → Option ℤ → Option ℤ → Result Value
add_checked k (some a) (some b) = if in_range k (a +ℤ b) then ok null else err attribute_error
add_checked k _ _ = err outside_model

-- `__add__`, for a number. It returns nothing, and `couchbase.exceptions` has no `ArgumentError`.
unfoldable pub add : ConstrainedInt → Value → Result Value
add c other = add_checked c.kind (number_of c.value) (number_of other)

-- The numbers that a class accepts.
abbrev pub Accepts : Kind → ℤ → Type 0
Accepts signed_int64 (pos n) = n < 2 ^ 63
Accepts signed_int64 (negsuc n) = n + 1 ≤ 2 ^ 63
Accepts unsigned_int32 z = ⊥
Accepts unsigned_int64 (pos n) = n ≤ 2 ^ 63
Accepts unsigned_int64 (negsuc n) = ⊥
Accepts delta_value (pos n) = n < 2 ^ 63
Accepts delta_value (negsuc n) = ⊥

in_range-Accepts : (k : Kind) (z : ℤ) → in_range k z ≡ true → Accepts k z
in_range-Accepts signed_int64 (pos n) h = ground arith
in_range-Accepts signed_int64 (negsuc n) h = ground arith
in_range-Accepts unsigned_int32 (pos n) h = ground arith
in_range-Accepts unsigned_int32 (negsuc n) h = ground arith
in_range-Accepts unsigned_int64 (pos n) h = ground arith
in_range-Accepts unsigned_int64 (negsuc n) h = ground arith
in_range-Accepts delta_value (pos n) h = ground arith
in_range-Accepts delta_value (negsuc n) h = ground arith

out_of_range : (k : Kind) (z : ℤ) → in_range k z ≡ false → ¬ Accepts k z
out_of_range signed_int64 (pos n) h = λ p. ground arith
out_of_range signed_int64 (negsuc n) h = λ p. ground arith
out_of_range unsigned_int32 (pos n) h = λ p. p
out_of_range unsigned_int32 (negsuc n) h = λ p. p
out_of_range unsigned_int64 (pos n) h = λ p. ground arith
out_of_range unsigned_int64 (negsuc n) h = λ p. p
out_of_range delta_value (pos n) h = λ p. ground arith
out_of_range delta_value (negsuc n) h = λ p. p

abbrev pub Cases : Kind → Item → Result Value → Type 0
Cases k item r =
    ((z : ℤ) × (number_of (value_of item) ≡ some z) × Accepts k z × (r ≡ ok (value_of item)))
    ⊎ (((z : ℤ) → number_of (value_of item) ≡ some z → ¬ Accepts k z) × (r ≡ err invalid_argument))

same_number : {y z : ℤ} → some z ≡ some y → z ≡ y
same_number e = cc

some_number :
    (k : Kind) (item : Item) (z : ℤ)
    → number_of (value_of item) ≡ some z
    → Cases k item (checked k (value_of item) (number_of (value_of item)))
some_number k item z h = elim (Bool-cases (in_range k z)) [
  | inl b ↦ inl (z, h, in_range-Accepts k z b, rw (h, b) refl)
  | inr b ↦ inr ((λ y e. rw⁻¹ (same_number (sym h ∙ e)) (out_of_range k z b)), rw (h, b) refl)
]

-- A bounded integer is made of exactly the integers that its class accepts, and any other argument is
-- an `InvalidArgumentException`: `SignedInt64` accepts -2^63 to 2^63 - 1, `DeltaValue` 0 to 2^63 - 1 and
-- `UnsignedInt64` 0 to 2^63, but
-- `UnsignedInt32`, whose bounds are exchanged, accepts no integer at all.
pub verified_value-Cases : (k : Kind) (item : Item) → Cases k item (verified_value k item)
unfolding verified_value
verified_value-Cases k item = elim (Option-cases (number_of (value_of item))) [
  | inl h ↦ inr ((λ z e. absurd (let g = h in cc)), rw h refl)
  | inr (z, h) ↦ some_number k item z h
]
