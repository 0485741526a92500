-- ===== src/Async/Complete.antt =====
-- couchbase_core/asynchronous/rowsbase.py and acouchbase/iterator.py: how a stream ends.
use couchbase_python_client.Base.{true, false, none, some, List, [], ◌∷◌, ◌++◌, map, ok}
use couchbase_python_client.Async.Stream.{Future, pending, Stream}
use couchbase_python_client.Async.Order.{Action, called_back, asked}

module _ {R : Type 0} where
  pub all_rows : List (List R) → List R
  all_rows [] = []
  all_rows (p ∷ ps) = p ++ all_rows ps

  -- Pages of rows as callbacks.
  pub pages : List (List R) → List (Action R)
  pages [] = []
  pages (p ∷ ps) = called_back (ok p) false ∷ pages ps

  -- One request of the consumer for each row.
  pub asks : List R → List (Action R)
  asks [] = []
  asks (r ∷ rs) = asked ∷ asks rs

  -- A stream that was not read, with these rows, and whether it ended.
  abbrev pub holding : List R → Stream R
  holding rs = record { accum = map some rs; future = some pending; cleared = false }

  abbrev pub ended_with : Future → List R → Stream R
  ended_with f rs = record { accum = map some rs ++ (none ∷ []); future = some f; cleared = true }
