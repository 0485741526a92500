-- ===== src/Async/Order.antt =====
-- couchbase_core/asynchronous/rowsbase.py and acouchbase/iterator.py: the order of the rows, over every
-- interleaving of callbacks and consumer.
use couchbase_python_client.Base.{
  Bool, Option, none, some, List, [], ◌∷◌, ◌++◌, Error, Result, ok, err,
}
use couchbase_python_client.Async.Stream.{
  Stream, Next, row, stop, waits, fails, callback, errback, anext,
}

-- What may happen to a stream.
pub data Action (R : Type 0) : Type 0 where
  called_back : Result (List R) → Bool → Action R
  errored : Error → Action R
  asked : Action R

module _ {R : Type 0} where
  -- The rows in a queue.
  pub rows_of : List (Option R) → List R
  rows_of [] = []
  rows_of (none ∷ q) = rows_of q
  rows_of (some r ∷ q) = r ∷ rows_of q

  abbrev pub yielded : Next R → List R
  yielded (row r) = r ∷ []
  yielded stop = []
  yielded waits = []
  yielded (fails e) = []

  -- One action: the rows that it gives to the consumer, and the stream after it.
  abbrev pub act : Action R → Stream R → List R × Stream R
  act (called_back rows done) s = ([], (callback rows done s).1)
  act (errored e) s = ([], (errback e s).1)
  act asked s = (yielded (anext s).0, (anext s).1)

  abbrev pub after_rows : List R → List R × Stream R → List R × Stream R
  after_rows rs (ss, s) = (rs ++ ss, s)

  unfoldable pub run : List (Action R) → Stream R → List R × Stream R
  run [] s = ([], s)
  run (a ∷ acts) s = after_rows (act a s).0 (run acts (act a s).1)

  -- The rows that an action brings from the server.
  abbrev pub brought : Action R → List R
  brought (called_back (ok rows) done) = rows
  brought (called_back (err e) done) = []
  brought (errored e) = []
  brought asked = []

  pub all_brought : List (Action R) → List R
  all_brought [] = []
  all_brought (a ∷ acts) = brought a ++ all_brought acts

  abbrev queued : Stream R → List R
  queued s = rows_of s.accum
