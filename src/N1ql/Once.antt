-- ===== src/N1ql/Once.antt =====
-- couchbase_core/n1ql.py: `_start` submits a query once.
use couchbase_python_client.Base.{
  Bool, true, false, Option, none, some, List, [], ◌∷◌, ◌≡◌, refl, if◌then◌else◌, Error, arith,
}
use couchbase_python_client.Base.Value.{Value}
use couchbase_python_client.N1ql.Request.{
  Reply, page, failure, returned, raised, blocked, meta_error, Request, new, start, Iteration,
  finish, received, drain, run, iterate, meta_retrieve, buffer, execute, first_of_replies,
  get_single_result, without_row,
}

module _ {R : Type 0} (f : Value → R) where
  -- The query was submitted once if it was started, and not at all otherwise.
  abbrev pub IsOnce : Request f → Type 0
  IsOnce q = q.submissions ≡ (if q.started then 1 else 0)

  start-IsOnce : (q : Request f) → IsOnce q → IsOnce (start f q)
  unfolding start
  start-IsOnce q h = ground arith

  finish-IsOnce : (o : Option Error) (q : Request f) → IsOnce q → IsOnce (finish f o q).2
  unfolding finish
  finish-IsOnce none q h = h
  finish-IsOnce (some e) q h = h

  drain-IsOnce : (replies : List Reply) (q : Request f) → IsOnce q → IsOnce (drain f replies q).2
  unfolding drain
  drain-IsOnce [] q h = h
  drain-IsOnce (failure e ∷ rest) q h = h
  drain-IsOnce (page (r ∷ rs) done v ∷ rest) q h = drain-IsOnce rest (received f v rest q) h
  drain-IsOnce (page [] true v ∷ rest) q h = finish-IsOnce (meta_error v) (received f v rest q) h
  drain-IsOnce (page [] false v ∷ rest) q h = drain-IsOnce rest (received f v rest q) h

  run-IsOnce : (q : Request f) → IsOnce q → IsOnce (run f q).2
  run-IsOnce q h = ground (arith, drain-IsOnce q.replies q h)

  iterate-IsOnce : (q : Request f) → IsOnce q → IsOnce (iterate f q).2
  unfolding iterate
  iterate-IsOnce q h = ground (
    arith,
    run-IsOnce (start f (record q { buffered_remainder = [] })),
    start-IsOnce (record q { buffered_remainder = [] }),
    run-IsOnce (start f q),
    start-IsOnce q,
  )

  buffer-IsOnce : (it : Iteration f) → IsOnce it.2 → IsOnce (buffer f it).1
  buffer-IsOnce (rows, returned _, q) h = h
  buffer-IsOnce (rows, raised e, q) h = h
  buffer-IsOnce (rows, blocked, q) h = h

  meta_retrieve-IsOnce : (b : Bool) (q : Request f) → IsOnce q → IsOnce (meta_retrieve f b q).1
  unfolding meta_retrieve
  meta_retrieve-IsOnce b q h = ground (arith, buffer-IsOnce (iterate f q), iterate-IsOnce q h)

  without_row-IsOnce : (it : Iteration f) → IsOnce it.2 → IsOnce (without_row f it).1
  without_row-IsOnce (rows, returned _, q) h = h
  without_row-IsOnce (rows, raised e, q) h = h
  without_row-IsOnce (rows, blocked, q) h = h

  first-IsOnce :
      (replies : List Reply) (q : Request f) → IsOnce q → IsOnce (first_of_replies f replies q).1
  unfolding first_of_replies
  first-IsOnce [] q h = h
  first-IsOnce (failure e ∷ rest) q h = h
  first-IsOnce (page (r ∷ rs) done v ∷ rest) q h = h
  first-IsOnce (page [] true v ∷ rest) q h =
      without_row-IsOnce (finish f (meta_error v) (received f v rest q))
        (finish-IsOnce (meta_error v) (received f v rest q) h)
  first-IsOnce (page [] false v ∷ rest) q h = first-IsOnce rest (received f v rest q) h

  get_single_result-IsOnce : (q : Request f) → IsOnce q → IsOnce (get_single_result f q).1
  unfolding get_single_result
  get_single_result-IsOnce q h = ground (arith, first-IsOnce q.replies (start f q), start-IsOnce q)

  -- What a caller may ask of a request.
  pub data Call : Type 0 where
    iteration execution single_result : Call
    metadata : Bool → Call

  pub perform : Call → Request f → Request f
  perform iteration q = (iterate f q).2
  perform execution q = (execute f q).1
  perform single_result q = (get_single_result f q).1
  perform (metadata b) q = (meta_retrieve f b q).1

  pub perform_all : List Call → Request f → Request f
  perform_all [] q = q
  perform_all (c ∷ cs) q = perform_all cs (perform c q)

  perform-IsOnce : (c : Call) (q : Request f) → IsOnce q → IsOnce (perform c q)
  unfolding perform execute
  perform-IsOnce iteration q h = iterate-IsOnce q h
  perform-IsOnce execution q h = iterate-IsOnce q h
  perform-IsOnce single_result q h = get_single_result-IsOnce q h
  perform-IsOnce (metadata b) q h = meta_retrieve-IsOnce b q h

  perform_all-IsOnce : (cs : List Call) (q : Request f) → IsOnce q → IsOnce (perform_all cs q)
  unfolding perform_all
  perform_all-IsOnce [] q h = h
  perform_all-IsOnce (c ∷ cs) q h = perform_all-IsOnce cs (perform c q) (perform-IsOnce c q h)

  -- Whatever a caller asks of a request, in whatever order and whatever the server sends, the query is
  -- submitted once at most, and not before the request is started.
  pub submitted_once :
      (cs : List Call) (ahead : Bool) (replies : List Reply)
      → (perform_all cs (new f ahead replies)).submissions
        ≡ (if (perform_all cs (new f ahead replies)).started then 1 else 0)
  unfolding new
  submitted_once cs ahead replies = perform_all-IsOnce cs (new f ahead replies) refl
