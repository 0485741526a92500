-- ===== src/Async/Tests.antt =====
-- Runs of streams and event queues, and the theorems at concrete data.
use couchbase_python_client.Base.{ℕ, false, List, [], ◌∷◌, ok, Result, n1ql_exception}
use couchbase_python_client.Async.Order.{Action, called_back, errored, asked}

abbrev interleaved : List (Action ℕ)
interleaved =
    called_back (ok (1 ∷ 2 ∷ [])) false
    ∷ asked
    ∷ called_back (ok (3 ∷ [])) false
    ∷ asked
    ∷ errored n1ql_exception
    ∷ []

abbrev three_pages : List (List ℕ)
three_pages = (1 ∷ 2 ∷ []) ∷ [] ∷ (3 ∷ []) ∷ []

abbrev last : List ℕ
last = 4 ∷ []

abbrev rows : List ℕ
rows = 1 ∷ []

abbrev early : List ℕ
early = 1 ∷ 2 ∷ []

abbrev late : List ℕ
late = 3 ∷ []

abbrev quietly : ℕ → Result (Unit {0})
quietly e = ok tt
