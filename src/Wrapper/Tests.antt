-- ===== src/Wrapper/Tests.antt =====
-- A result in two pages, and the theorem on it.
use couchbase_python_client.Base.{ℕ, List, [], ◌∷◌, ◌++◌}
use couchbase_python_client.Wrapper.Rows.{IterableWrapper, new}

abbrev front : List ℕ
front = 2 ∷ []

abbrev rest : List ℕ
rest = 3 ∷ 4 ∷ []

abbrev later : List (List ℕ)
later = (5 ∷ []) ∷ []

abbrev result : IterableWrapper ℕ
result = new (((1 ∷ front) ++ rest) ∷ later)
