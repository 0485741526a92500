-- ===== src/Exceptions/Split/Parts.antt =====
-- `split_results` of couchbase/exceptions.py loses no result.
use couchbase_python_client.Base.{
  ℕ, String, ◌<>◌, true, false, Option, some, List, [], ◌∷◌, ◌++◌, All, string_eq, ◌≡◌, ◌≢◌, refl,
  sym, ◌∙◌, ap, arith, Bool-cases, inl, inr,
}
use couchbase_python_client.Base.Decimal.{pos, codes, decimal, decimal_ℤ, parse_int}
use couchbase_python_client.Base.Decimal.RoundTrip.{codes-append, parse_int-decimal_ℤ}
use couchbase_python_client.Exceptions.Split.{le, later, key_text, last_sorted, nokey}

le_refl : (xs : List ℕ) → le xs xs ≡ true
le_refl [] = refl
le_refl (x ∷ xs) = let ih = le_refl xs in ground arith

le_total : (xs ys : List ℕ) → le xs ys ≡ false → le ys xs ≡ true
le_total [] ys h = absurd cc
le_total (x ∷ xs) [] h = refl
le_total (x ∷ xs) (y ∷ ys) h = let ih = le_total xs ys in ground arith

le_trans : (xs ys zs : List ℕ) → le xs ys ≡ true → le ys zs ≡ true → le xs zs ≡ true
le_trans [] ys zs h k = refl
le_trans (x ∷ xs) [] zs h k = absurd cc
le_trans (x ∷ xs) (y ∷ ys) [] h k = absurd cc
le_trans (x ∷ xs) (y ∷ ys) (z ∷ zs) h k = let ih = le_trans xs ys zs in ground arith

-- A text is not below its own beginning.
le-longer : (xs : List ℕ) (y : ℕ) (ys : List ℕ) → le (xs ++ (y ∷ ys)) xs ≡ false
le-longer [] y ys = refl
le-longer (x ∷ xs) y ys = let ih = le-longer xs y ys in ground arith

append-cancel : (xs ys zs : List ℕ) → xs ++ ys ≡ xs ++ zs → ys ≡ zs
append-cancel [] ys zs h = h
append-cancel (x ∷ xs) ys zs h = append-cancel xs ys zs (tail_inj h)
  where
    tail_inj : {y z : ℕ} {p q : List ℕ} → y ∷ p ≡ z ∷ q → p ≡ q
    tail_inj e = cc

later-left : (s t : String) → le (codes s) (codes (later s t)) ≡ true
later-left s t = elim (Bool-cases (le (codes s) (codes t))) [
  | inl h ↦ rw (h, h) refl
  | inr h ↦ rw h (le_refl (codes s))
]

later-right : (s t : String) → le (codes t) (codes (later s t)) ≡ true
later-right s t = elim (Bool-cases (le (codes s) (codes t))) [
  | inl h ↦ rw h (le_refl (codes t))
  | inr h ↦ rw h (le_total (codes s) (codes t) h)
]

module _ {V : Type 0} where
  abbrev pub Below : String → List (Option String × V) → Type 0
  Below p rs = All (λ r. le (codes (key_text r.0)) (codes p) ≡ true) rs

  Below-trans :
      (p q : String) (rs : List (Option String × V))
      → le (codes p) (codes q) ≡ true
      → Below p rs
      → Below q rs
  Below-trans p q [] h b = tt
  Below-trans p q ((k, v) ∷ rs) h b =
      (le_trans (codes (key_text k)) (codes p) (codes q) b.0 h, Below-trans p q rs h b.1)

  pub last_sorted-Below : (rs : List (Option String × V)) → Below (last_sorted rs) rs
  unfolding last_sorted
  last_sorted-Below [] = tt
  last_sorted-Below ((k, v) ∷ rs) = (
    later-left (key_text k) (last_sorted rs),
    Below-trans (last_sorted rs) (later (key_text k) (last_sorted rs)) rs
        (later-right (key_text k) (last_sorted rs)) (last_sorted-Below rs),
  )

codes-nokey :
    (p : String) (c : ℕ) → codes (nokey p c) ≡ codes p ++ (codes ":nokey:" ++ codes (decimal c))
unfolding nokey
codes-nokey p c =
    codes-append p (":nokey:" <> decimal c)
    ∙ ap (λ t. codes p ++ t) (codes-append ":nokey:" (decimal c))

pub nokey_high : (p k : String) (c : ℕ) → le (codes k) (codes p) ≡ true → k ≢ nokey p c
nokey_high p k c h e =
    let e1 = ap codes e ∙ codes-nokey p c in
    let low = le-longer (codes p) 58 (110 ∷ 111 ∷ 107 ∷ 101 ∷ 121 ∷ 58 ∷ codes (decimal c)) in
    let high = rw e1 at h in cc

parsed : (n : ℕ) → parse_int (codes (decimal n)) ≡ some (pos n)
unfolding decimal_ℤ
parsed n = parse_int-decimal_ℤ (pos n)

pub nokey_inj : (p : String) (c d : ℕ) → nokey p c ≡ nokey p d → c ≡ d
nokey_inj p c d e =
    let e1 = sym (codes-nokey p c) ∙ ap codes e ∙ codes-nokey p d in
    let e2 = append-cancel (codes p) _ _ e1 in
    let e3 = append-cancel (codes ":nokey:") _ _ e2 in
    let e4 = sym (parsed c) ∙ ap parse_int e3 ∙ parsed d in cc
