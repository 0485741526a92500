-- ===== src/Views/Reported.antt =====
-- couchbase_core/views/iterator.py: what a view yields, keeps and raises for a result.
use couchbase_python_client.Base.{
  Bool, true, false, none, some, List, [], ◌∷◌, length, if◌then◌else◌, Error, Result, ok, err,
  view_engine, already_queried, attribute_error, ◌≡◌, refl, subst, ◌∙◌, ◌⊎◌, inl, inr, Bool-cases,
}
use mathlib.Core.List.{append-nil}
use couchbase_python_client.Base.Value.{Value, dict, Fields, get_field, truthy}
use couchbase_python_client.Base.Reply.{Reply, returned, raised, delivered}
use couchbase_python_client.Views.Query.{QueryBase, get_common}
use couchbase_python_client.Base.Emitted.{each}
use couchbase_python_client.Views.Row.{null_or}
use couchbase_python_client.Views.View.{
  View, initial, start, handle_errors, handle_meta, after_rows, finish, received, drain, iterate,
  get_errors, get_debug, total_rows, is_text,
}
use couchbase_python_client.Views.Results.{Gives, Fits, drain-Fits, zero_plus}

abbrev pub errors_of : Fields → Value
errors_of d = null_or (get_field "errors" d)

abbrev pub reported : Fields → List Value
reported d = if truthy (errors_of d) then errors_of d ∷ [] else []

abbrev pub goes_on : QueryBase → Bool
goes_on q = is_text "continue" (get_common "on_error" q)

module _ {R : Type 0} (f : Value → Result R) (q : QueryBase) (docs : Bool) (replies : List Reply)
    (vs : List Value) where
  -- The object after all rows and the metadata `d` were read.
  abbrev pub completed : Fields → List Reply → View R
  completed d rest = record {
    started = true;
    submissions = 1;
    query = q;
    include_docs = docs;
    errors = reported d;
    rows_returned = length vs;
    indexed_rows = total_rows (get_field "total_rows" d);
    meta_received = true;
    debug = some (dict d);
    do_iter = false;
    row_processor = each f;
    replies = rest;
  }

  -- The object after the metadata `d` raised.
  abbrev pub stopped : Fields → List Reply → View R
  stopped d rest = record (completed d rest) { debug = none; do_iter = true }

  abbrev pub fresh_view : View R
  fresh_view = initial q docs (each f) replies

  module _ (d : Fields) (rest : List Reply)
      (sent : delivered replies ≡ some (vs, dict d, rest)) where
    iterate-Fits : Fits f (start fresh_view) (some (vs, dict d, rest)) (iterate fresh_view)
    unfolding iterate start
    iterate-Fits =
        subst (λ o. Fits f (start fresh_view) o (drain replies (start fresh_view))) sent
          (drain-Fits f replies (start fresh_view) refl)

    module _ (rs : List R) (rows : each f vs ≡ (rs, none)) where
      all_read :
          iterate fresh_view
          ≡ after_rows rs
              (finish (handle_meta (dict d) (received (length vs) rest (start fresh_view))))
      all_read =
          subst (λ p. Gives p (length vs) (dict d) rest (start fresh_view) (iterate fresh_view))
            rows iterate-Fits

      no_errors :
          truthy (errors_of d) ≡ false
          → after_rows rs
              (finish (handle_meta (dict d) (received (length vs) rest (start fresh_view))))
            ≡ (rs, returned tt, completed d rest)
      unfolding handle_meta handle_errors start
      no_errors h = rw h (rw (append-nil, zero_plus (length vs)) refl)

      errors_kept :
          truthy (errors_of d) ≡ true
          → goes_on q ≡ true
          → after_rows rs
              (finish (handle_meta (dict d) (received (length vs) rest (start fresh_view))))
            ≡ (rs, returned tt, completed d rest)
      unfolding handle_meta handle_errors start
      errors_kept h g = rw (h, g) (rw (append-nil, zero_plus (length vs)) refl)

      errors_raised :
          truthy (errors_of d) ≡ true
          → goes_on q ≡ false
          → after_rows rs
              (finish (handle_meta (dict d) (received (length vs) rest (start fresh_view))))
            ≡ (rs, raised view_engine, stopped d rest)
      unfolding handle_meta handle_errors start
      errors_raised h g = rw (h, g) (rw (append-nil, zero_plus (length vs)) refl)

      ended :
          (truthy (errors_of d) ≡ false) ⊎ (goes_on q ≡ true)
          → after_rows rs
              (finish (handle_meta (dict d) (received (length vs) rest (start fresh_view))))
            ≡ (rs, returned tt, completed d rest)
      ended (inl h) = no_errors h
      ended (inr g) = elim (Bool-cases (truthy (errors_of d))) [
        | inl h ↦ errors_kept h g
        | inr h ↦ no_errors h
      ]

      -- For rows that the row class takes and metadata that is a dict: if that holds no errors, or the
      -- query says `on_error=continue`, iterating a new view yields every row the server sent, in order,
      -- and ends; the object then holds the errors, the number of rows and the metadata, and iterating it
      -- again raises `AlreadyQueriedException` without a request.
      pub iterate_continues :
          (truthy (errors_of d) ≡ false) ⊎ (goes_on q ≡ true)
          → (iterate fresh_view ≡ (rs, returned tt, completed d rest))
            × (iterate (completed d rest) ≡ ([], raised already_queried, completed d rest))
      iterate_continues fine = (all_read ∙ ended fine, unfold iterate in refl)

      -- For rows that the row class takes and metadata that is a dict: if that holds errors and the query
      -- does not say `on_error=continue`, every row is yielded and then `ViewEngineException` is raised;
      -- the errors can be read from the object, its `debug` metadata cannot.
      pub iterate_stops :
          truthy (errors_of d) ≡ true
          → goes_on q ≡ false
          → (iterate fresh_view ≡ (rs, raised view_engine, stopped d rest))
            × (get_errors (stopped d rest) ≡ ok (errors_of d ∷ []))
            × (get_debug (stopped d rest) ≡ err attribute_error)
      iterate_stops bad stop = (
        all_read ∙ errors_raised bad stop,
        unfold get_errors in rw bad refl,
        unfold get_debug in refl,
      )

    -- A row that the row class cannot be made of ends the iteration of a new view with the error: the rows
    -- before it are yielded, and none after it.
    pub iterate_bad_row :
        (rs : List R) (e : Error)
        → each f vs ≡ (rs, some e)
        → ((iterate fresh_view).0 ≡ rs) × ((iterate fresh_view).1 ≡ raised e)
    iterate_bad_row rs e rows =
        subst (λ p. Gives p (length vs) (dict d) rest (start fresh_view) (iterate fresh_view)) rows
          iterate-Fits
