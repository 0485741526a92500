-- ===== src/Wrapper/Again.antt =====
-- couchbase_core/__init__.py: what a second iteration over a result yields.
use couchbase_python_client.Base.{ℕ, zero, suc, List, [], ◌∷◌}
use couchbase_python_client.Wrapper.Rows.{IterableWrapper, Drawn, kept}

-- The number of rows that a consumer takes.
pub count : {R : Type 0} → List R → ℕ
count [] = zero
count (_ ∷ rs) = suc (count rs)

module _ {R : Type 0} where
  abbrev drawn_by : IterableWrapper R → Drawn R → List R × IterableWrapper R
  drawn_by w drawn = (drawn.0, kept w drawn)
