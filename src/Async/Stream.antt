-- ===== src/Async/Stream.antt =====
-- couchbase_core/asynchronous/rowsbase.py, `AsyncRowsBase`, with acouchbase/iterator.py, `AioBase`:
-- callbacks put rows on a queue, and a consumer takes them from it. asyncio's queue is a list and its
-- future one of three states; every call runs to its end before another starts, as on an event loop.
use couchbase_python_client.Base.{
  Bool, true, false, Option, none, some, List, [], ◌∷◌, ◌++◌, if◌then◌else◌, Error, value_error,
  attribute_error, invalid_state, type_error, queue_empty, Result, ok, err,
}

pub data Future : Type 0 where
  pending resolved : Future
  failed : Error → Future

abbrev pub is_done : Future → Bool
is_done pending = false
is_done _ = true

pub record Stream (R : Type 0) : Type 0 where
  -- `__accum`, with `None` for its end.
  pub accum : List (Option R)
  -- `_future`, which is `None` once it was awaited.
  pub future : Option Future
  -- `_parent` and `_mres` are deleted.
  pub cleared : Bool

-- What `__anext__` does: a row, `StopAsyncIteration`, a wait, or an exception.
pub data Next (R : Type 0) : Type 0 where
  row : R → Next R
  stop waits : Next R
  fails : Error → Next R

module _ {R : Type 0} where
  -- `AioBase.__init__`
  abbrev pub new : Stream R
  new = record { accum = []; future = some pending; cleared = false }

  abbrev pub put_nowait : Option R → Stream R → Stream R
  put_nowait x s = record s { accum = s.accum ++ (x ∷ []) }

  -- `on_rows`
  unfoldable pub on_rows : List R → Stream R → Stream R
  on_rows [] s = s
  on_rows (r ∷ rs) s = on_rows rs (put_nowait (some r) s)

  -- `self._future.set_result(None)` or `set_exception(ex)`, and then the end of the queue.
  unfoldable pub settle : Future → Stream R → Result (Unit {0}) × Stream R
  settle f s = elim s.future [
    | none ↦ (err attribute_error, s)
    | some g ↦
        if is_done g
        then (err invalid_state, s)
        else (ok tt, put_nowait none (record s { future = some f }))
  ]

  -- `on_done`
  unfoldable pub on_done : Stream R → Result (Unit {0}) × Stream R
  unfolding settle
  on_done s = settle resolved s

  -- `on_error`
  unfoldable pub on_error : Error → Stream R → Result (Unit {0}) × Stream R
  unfolding settle
  on_error e s = settle (failed e) s

  -- `if self.raw.done: self._clear()`, in a `finally` block. What is deleted cannot be deleted again.
  abbrev pub clear_if : Bool → Result (Unit {0}) × Stream R → Result (Unit {0}) × Stream R
  clear_if false (r, s) = (r, s)
  clear_if true (r, s) =
      if s.cleared then (err attribute_error, s) else (r, record s { cleared = true })

  -- `_callback`, by what `_process_payload` gives for the page and by `raw.done`.
  unfoldable pub callback : Result (List R) → Bool → Stream R → Result (Unit {0}) × Stream R
  unfolding on_rows on_done
  callback (err e) done s = clear_if done (err e, s)
  callback (ok rows) done s =
      clear_if done (if done then on_done (on_rows rows s) else (ok tt, on_rows rows s))

  abbrev pub then_done : Result (Unit {0}) × Stream R → Result (Unit {0}) × Stream R
  then_done (err e, s) = (err e, s)
  then_done (ok _, s) = on_done s

  -- `_errback`
  unfoldable pub errback : Error → Stream R → Result (Unit {0}) × Stream R
  unfolding on_error on_done
  errback e s = clear_if true (then_done (on_error e s))

  abbrev pub taken : Option R → Next R
  taken none = stop
  taken (some r) = row r

  -- `__anext__`
  unfoldable pub anext : Stream R → Next R × Stream R
  anext s = elim s.future [
    | none ↦ (fails attribute_error, s)
    | some f ↦ elim s.accum [
      | x ∷ xs ↦ (taken x, record s { accum = xs })
      | [] ↦ (if is_done f then stop else waits, s)
    ]
  ]

  -- `__aiter__`
  unfoldable pub aiter : Stream R → Result (Unit {0})
  aiter s = elim s.future [ none ↦ err value_error | some _ ↦ ok tt ]

  -- `await future`, once it is done; a failed one raises and stays.
  unfoldable pub await_future : Stream R → Option (Result (Unit {0})) × Stream R
  await_future s = elim s.future [
    | none ↦ (some (err type_error), s)
    | some pending ↦ (none, s)
    | some resolved ↦ (some (ok tt), record s { future = none })
    | some (failed e) ↦ (some (err e), s)
  ]

  abbrev pub first_then :
      R
      → List R × Result (Unit {0}) × List (Option R)
      → List R × Result (Unit {0}) × List (Option R)
  first_then r (rs, e, q) = (r ∷ rs, e, q)

  -- `iter(get_nowait, None)` to its end.
  unfoldable pub take_all : List (Option R) → List R × Result (Unit {0}) × List (Option R)
  take_all [] = ([], err queue_empty, [])
  take_all (none ∷ q) = ([], ok tt, q)
  take_all (some r ∷ q) = first_then r (take_all q)

  -- `__iter__` to its end.
  unfoldable pub iterate : Stream R → List R × Result (Unit {0}) × Stream R
  unfolding take_all
  iterate s = elim s.future [
    | some _ ↦ ([], err value_error, s)
    | none ↦ let (rows, e, q) = take_all s.accum in (rows, e, record s { accum = q })
  ]
