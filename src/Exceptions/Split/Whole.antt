-- ===== src/Exceptions/Split/Whole.antt =====
-- The whole of `split_results` of couchbase/exceptions.py.
use couchbase_python_client.Base.{
  ℕ, ◌+◌, String, Bool, true, false, Option, List, [], ◌∷◌, length, All, if◌then◌else◌, string_eq,
  ◌≡◌, ◌≢◌, refl, subst, arith, Bool-cases, inl, inr, ◌∙◌,
}
use couchbase_python_client.Base.Dict.{Dict, insert, All-insert}
use couchbase_python_client.Exceptions.Split.{
  key_text, last_sorted, result_key, next_count, split, split_results,
}
use couchbase_python_client.Exceptions.Split.Parts.{last_sorted-Below}
use couchbase_python_client.Exceptions.Split.Kept.{
  Distinct, Spread, spread, Free-nil, split-nil, split-true, split-false, length-split, Under,
  split_entry,
}

named : (p : String) (c : ℕ) (s : String) → s ≢ "" → result_key p c s ≡ s
named p c s h = ground arith

module _ {V : Type 0} (success : V → Bool) where
  abbrev pub Passed : Dict String V × Dict String V → Option String × V → Type 0
  Passed r e = key_text e.0 ≢ "" → Under success r (key_text e.0) e.1

  split-Passed :
      (p : String) (rs : List (Option String × V)) (c : ℕ) (good bad : Dict String V)
      → Spread p rs c
      → All (Passed (split success p rs c good bad)) rs
  unfolding split
  split-Passed p [] c good bad s = tt
  split-Passed p ((k, v) ∷ rs) c good bad s =
      let n = result_key p c (key_text k) in
      let c2 = next_count c (key_text k) in
      (
        (λ ne.
            subst
              (λ m.
                Under success
                  (split success p rs c2 (if success v then insert n v good else good)
                    (if success v then bad else insert n v bad))
                  m v)
              (named p c (key_text k) ne)
              (split_entry success p n v rs c2 good bad (success v) refl s.0)),
        split-Passed p rs c2 (if success v then insert n v good else good)
            (if success v then bad else insert n v bad) s.1,
      )

  abbrev pub Sided : Bool → Dict String V → Type 0
  Sided b d = All (λ e. success e.1 ≡ b) d

  split-Sided :
      (p : String) (rs : List (Option String × V)) (c : ℕ) (good bad : Dict String V)
      → Sided true good
      → Sided false bad
      → Sided true (split success p rs c good bad).0 × Sided false (split success p rs c good bad).1
  split-Sided p [] c good bad g h = rw (split-nil success p c good bad) (g, h)
  split-Sided p ((k, v) ∷ rs) c good bad g h =
      let n = result_key p c (key_text k) in
      let c2 = next_count c (key_text k) in
      elim (Bool-cases (success v)) [
        | inl b ↦ rw (split-true success p k v rs c good bad b) (
            split-Sided p rs c2 (insert n v good) bad
              (All-insert (λ _ w. success w ≡ true) n v good b g) h)
        | inr b ↦ rw (split-false success p k v rs c good bad b) (
            split-Sided p rs c2 good (insert n v bad) g
              (All-insert (λ _ w. success w ≡ false) n v bad b h))
      ]

  -- `split_results` loses no result of a dict of results: there are as many in its two parts as there were,
  -- those in the first succeeded and those in the second did not, and every result with a key that is not
  -- empty is in the part of its outcome under that key.
  pub split_results_parts :
      (rs : List (Option String × V))
      → Distinct rs
      → let r = split_results success rs in
        (length r.0 + length r.1 ≡ length rs) × Sided true r.0 × Sided false r.1 × All (Passed r) rs
  unfolding split_results
  split_results_parts rs d =
      let p = last_sorted rs in
      let s = spread p rs 0 d (last_sorted-Below rs) in
      (
        length-split success p rs 0 [] [] s (Free-nil p rs 0) (Free-nil p rs 0) ∙ (ground arith),
        (split-Sided p rs 0 [] [] tt tt).0,
        (split-Sided p rs 0 [] [] tt tt).1,
        split-Passed p rs 0 [] [] s,
      )
