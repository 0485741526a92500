-- ===== src/Exceptions/Split/Kept.antt =====
-- The keys that `split_results` of couchbase/exceptions.py gives are distinct, so that no result replaces another.
use couchbase_python_client.Base.{
  ℕ, ◌+◌, ◌<◌, String, Bool, true, false, Option, none, some, List, [], ◌∷◌, length, All,
  if◌then◌else◌, string_eq, ◌==◌, ◌≡◌, ◌≢◌, refl, sym, ◌∙◌, ap, arith, Bool-cases, inl, inr,
}
use couchbase_python_client.Base.Decimal.{codes}
use couchbase_python_client.Base.Dict.{
  Dict, insert, lookup, lookup-insert_ne, lookup-insert_self, lookup-nil,
}
use couchbase_python_client.Exceptions.Split.{le, key_text, nokey, result_key, next_count, split}
use couchbase_python_client.Exceptions.Split.Parts.{Below, nokey_high, nokey_inj}

-- The keys of a dict.
abbrev pub Distinct : {V : Type 0} → List (Option String × V) → Type 0
Distinct [] = Unit
Distinct ((k, v) ∷ rs) = All (λ r. k ≢ r.0) rs × Distinct rs

abbrev pub Differ : {V : Type 0} → String → String → List (Option String × V) → ℕ → Type 0
Differ p s [] c = Unit
Differ p s ((k, v) ∷ rs) c =
    (s ≢ result_key p c (key_text k)) × Differ p s rs (next_count c (key_text k))

text_differs : (j k : Option String) → j ≢ k → key_text j ≢ "" → key_text j ≢ key_text k
text_differs none k h n e = n refl
text_differs (some s) none h n e = n e
text_differs (some s) (some t) h n e = h (ap some e)

module _ {V : Type 0} where
  texts-Differ :
      (p : String) (j : Option String) (rs : List (Option String × V)) (c : ℕ)
      → le (codes (key_text j)) (codes p) ≡ true
      → key_text j ≢ ""
      → All (λ r. j ≢ r.0) rs
      → Differ p (key_text j) rs c
  texts-Differ p j [] c low n h = tt
  texts-Differ p j ((k, v) ∷ rs) c low n h = (
    elim (Bool-cases (key_text k == "")) [
      | inl b ↦ rw b (nokey_high p (key_text j) c low)
      | inr b ↦ rw b (text_differs j k h.0 n)
    ],
    texts-Differ p j rs (next_count c (key_text k)) low n h.1,
  )

  nokeys-Differ :
      (p : String) (b c : ℕ) (rs : List (Option String × V))
      → b < c
      → Below p rs
      → Differ p (nokey p b) rs c
  nokeys-Differ p b c [] h below = tt
  nokeys-Differ p b c ((k, v) ∷ rs) h below = (
    elim (Bool-cases (key_text k == "")) [
      | inl e ↦ rw e (λ q. let same = nokey_inj p b c q in ground arith)
      | inr e ↦ rw e (λ q. nokey_high p (key_text k) b below.0 (sym q))
    ],
    nokeys-Differ p b (next_count c (key_text k)) rs (ground arith) below.1,
  )

  abbrev pub Spread : String → List (Option String × V) → ℕ → Type 0
  Spread p [] c = Unit
  Spread p ((k, v) ∷ rs) c =
      Differ p (result_key p c (key_text k)) rs (next_count c (key_text k))
      × Spread p rs (next_count c (key_text k))

  pub spread :
      (p : String) (rs : List (Option String × V)) (c : ℕ)
      → Distinct rs
      → Below p rs
      → Spread p rs c
  spread p [] c d b = tt
  spread p ((k, v) ∷ rs) c d b = (
    elim (Bool-cases (key_text k == "")) [
      | inl e ↦ rw e (nokeys-Differ p c (c + 1) rs (ground arith) b.1)
      | inr e ↦ rw e (texts-Differ p k rs c b.0 (λ q. ground arith) d.0)
    ],
    spread p rs (next_count c (key_text k)) d.1 b.1,
  )

  -- No entry of the rest has a key of the dict.
  abbrev pub Free : String → List (Option String × V) → ℕ → Dict String V → Type 0
  Free p [] c d = Unit
  Free p ((k, v) ∷ rs) c d =
      (lookup (result_key p c (key_text k)) d ≡ none) × Free p rs (next_count c (key_text k)) d

  pub Free-nil : (p : String) (rs : List (Option String × V)) (c : ℕ) → Free p rs c []
  Free-nil p [] c = tt
  Free-nil p ((k, v) ∷ rs) c =
      (lookup-nil (result_key p c (key_text k)), Free-nil p rs (next_count c (key_text k)))

  Free-insert :
      (p n : String) (w : V) (rs : List (Option String × V)) (c : ℕ) (d : Dict String V)
      → Differ p n rs c
      → Free p rs c d
      → Free p rs c (insert n w d)
  Free-insert p n w [] c d h f = tt
  Free-insert p n w ((k, v) ∷ rs) c d h f = (
    lookup-insert_ne (result_key p c (key_text k)) n w d (λ e. h.0 (sym e)) ∙ f.0,
    Free-insert p n w rs (next_count c (key_text k)) d h.1 f.1,
  )

  length-insert :
      (n : String) (v : V) (d : Dict String V)
      → lookup n d ≡ none
      → length (insert n v d) ≡ length d + 1
  unfolding insert lookup
  length-insert n v [] h = refl
  length-insert n v ((j, w) ∷ d) h = let ih = length-insert n v d in ground arith

  module _ (success : V → Bool) where
    pub split-nil :
        (p : String) (c : ℕ) (good bad : Dict String V)
        → split success p [] c good bad ≡ (good, bad)
    unfolding split
    split-nil p c good bad = refl

    pub split-true :
        (p : String) (k : Option String) (v : V) (rs : List (Option String × V)) (c : ℕ)
        (good bad : Dict String V)
        → success v ≡ true
        → split success p ((k, v) ∷ rs) c good bad
          ≡ split success p rs
              (next_count c (key_text k))
              (insert (result_key p c (key_text k)) v good)
              bad
    unfolding split
    split-true p k v rs c good bad h = rw h refl

    pub split-false :
        (p : String) (k : Option String) (v : V) (rs : List (Option String × V)) (c : ℕ)
        (good bad : Dict String V)
        → success v ≡ false
        → split success p ((k, v) ∷ rs) c good bad
          ≡ split success p rs
              (next_count c (key_text k))
              good
              (insert (result_key p c (key_text k)) v bad)
    unfolding split
    split-false p k v rs c good bad h = rw h refl

    pub length-split :
        (p : String) (rs : List (Option String × V)) (c : ℕ) (good bad : Dict String V)
        → Spread p rs c
        → Free p rs c good
        → Free p rs c bad
        → length (split success p rs c good bad).0 + length (split success p rs c good bad).1
          ≡ length good + length bad + length rs
    length-split p [] c good bad s f g = rw (split-nil p c good bad) (ground arith)
    length-split p ((k, v) ∷ rs) c good bad s f g =
        let n = result_key p c (key_text k) in
        let c2 = next_count c (key_text k) in
        elim (Bool-cases (success v)) [
          | inl b ↦
              let l = length-insert n v good f.0 in
              rw (split-true p k v rs c good bad b) (
                length-split p rs c2 (insert n v good) bad s.1
                  (Free-insert p n v rs c2 good s.0 f.1) g.1
                ∙ (ground arith))
          | inr b ↦
              let l = length-insert n v bad g.0 in
              rw (split-false p k v rs c good bad b) (
                length-split p rs c2 good (insert n v bad) s.1 f.1
                  (Free-insert p n v rs c2 bad s.0 g.1)
                ∙ (ground arith))
        ]

    -- What the rest does not name stays.
    split_other :
        (p n : String) (rs : List (Option String × V)) (c : ℕ) (good bad : Dict String V)
        → Differ p n rs c
        → (lookup n (split success p rs c good bad).0 ≡ lookup n good)
          × (lookup n (split success p rs c good bad).1 ≡ lookup n bad)
    split_other p n [] c good bad h = rw (split-nil p c good bad) (refl, refl)
    split_other p n ((k, v) ∷ rs) c good bad h =
        let m = result_key p c (key_text k) in
        let c2 = next_count c (key_text k) in
        elim (Bool-cases (success v)) [
          | inl b ↦
              let rest = split_other p n rs c2 (insert m v good) bad h.1 in
              rw (split-true p k v rs c good bad b)
                (rest.0 ∙ lookup-insert_ne n m v good h.0, rest.1)
          | inr b ↦
              let rest = split_other p n rs c2 good (insert m v bad) h.1 in
              rw (split-false p k v rs c good bad b)
                (rest.0, rest.1 ∙ lookup-insert_ne n m v bad h.0)
        ]

    abbrev pub Under : Dict String V × Dict String V → String → V → Type 0
    Under r n v = lookup n (if success v then r.0 else r.1) ≡ some v

    pub split_entry :
        (p n : String) (v : V) (rs : List (Option String × V)) (c : ℕ) (good bad : Dict String V)
        (b : Bool)
        → success v ≡ b
        → Differ p n rs c
        → Under
            (split success p rs c
              (if b then insert n v good else good)
              (if b then bad else insert n v bad))
            n
            v
    split_entry p n v rs c good bad true h d =
        let other = split_other p n rs c (insert n v good) bad d in
        rw h (other.0 ∙ lookup-insert_self n v good)
    split_entry p n v rs c good bad false h d =
        let other = split_other p n rs c good (insert n v bad) d in
        rw h (other.1 ∙ lookup-insert_self n v bad)
