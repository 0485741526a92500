-- ===== src/Base/Emitted.antt =====
-- Generators: the rows that one yields, and what it raises after them.
use couchbase_python_client.Base.Outcome.{Error, Result, ok, err}
use couchbase_python_client.Base.Value.{Value}
use mathlib.Core.Path.{◌≡◌, refl, ap, ◌∙◌}
use mathlib.Core.Option.{Option, none, some}
use mathlib.Core.List.{List, [], ◌∷◌, ◌++◌}

abbrev pub Emitted : Type 0 → Type 0
Emitted R = List R × Option Error

module _ {R : Type 0} where
  abbrev pub emit : Result R → Emitted R → Emitted R
  emit (ok r) (rs, e) = (r ∷ rs, e)
  emit (err e) _ = ([], some e)

  -- The loop `for row in rows: yield f(row)`.
  unfoldable pub each : (Value → Result R) → List Value → Emitted R
  each f [] = ([], none)
  each f (row ∷ rows) = emit (f row) (each f rows)

  -- Two pages one after the other; what the first raises ends both.
  abbrev pub then_page : Emitted R → Emitted R → Emitted R
  then_page (rs, none) (ss, e) = (rs ++ ss, e)
  then_page (rs, some e) _ = (rs, some e)

  emit-then_page :
      (r : Result R) (a b : Emitted R) → emit r (then_page a b) ≡ then_page (emit r a) b
  emit-then_page (ok r) (rs, none) b = refl
  emit-then_page (ok r) (rs, some e) b = refl
  emit-then_page (err e) a b = refl

  pub each-append :
      (f : Value → Result R) (xs ys : List Value)
      → each f (xs ++ ys) ≡ then_page (each f xs) (each f ys)
  unfolding each
  each-append f [] ys = refl
  each-append f (x ∷ xs) ys =
      ap (emit (f x)) (each-append f xs ys) ∙ emit-then_page (f x) (each f xs) (each f ys)
