-- ===== src/Views/View.antt =====
-- couchbase_core/views/iterator.py: `View`, the rows of a view as the server sends them.
use couchbase_python_client.Base.{
  ℕ, ◌+◌, String, Bool, true, false, not, ◌&&◌, Option, none, some, List, [], ◌∷◌, ◌++◌, ◌==◌,
  length, if◌then◌else◌, Result, ok, err, bind, not_supported, invalid_argument, attribute_error,
  view_engine, already_queried, runtime_error, string_eq,
}
use couchbase_python_client.Base.Decimal.{pos}
use couchbase_python_client.Base.Dict.{Dict}
use couchbase_python_client.Base.Value.{Value, int, str, dict, get_field, truthy}
use couchbase_python_client.Base.Reply.{Reply, page, failure, Ending, returned, raised, blocked}
use couchbase_python_client.Views.Query.{
  QueryBase, QueryClass, query_base, view_query, query, spatial_query, get_common,
}
use couchbase_python_client.Views.Update.{from_any, options, query_text}
use couchbase_python_client.Base.Emitted.{Emitted, each}
use couchbase_python_client.Views.Row.{view_row, spatial_row, null_or}

-- The argument `query`: `None`, a text or a query object.
pub data QueryArgument : Type 0 where
  no_query : QueryArgument
  text : String → QueryArgument
  object : QueryBase → QueryArgument

-- `if query`
abbrev pub given : QueryArgument → Bool
given no_query = false
given (text s) = not (s == "")
given (object q) = true

-- `from_any` returns an object for a text, and for a dict on `QueryBase`.
abbrev pub made : Option QueryBase → Result QueryBase
made none = err attribute_error
made (some q) = ok q

abbrev pub no_params : Dict String Value → Bool
no_params [] = true
no_params (_ ∷ _) = false

-- `self._query`, from a query argument that is given, or from the parameters.
unfoldable pub query_of : QueryArgument → Dict String Value → Result QueryBase
unfolding from_any
query_of no_query params = bind (from_any query_base (options params) []) made
query_of (object q) params = ok q
query_of (text s) params =
    if s == ""
    then bind (from_any query_base (options params) []) made
    else bind (from_any view_query (query_text s) []) made

-- `self._query.reduce`, a property of `ViewQuery`.
unfoldable pub reduce : QueryBase → Result Value
unfolding get_common
reduce q = elim q.cls [
  | query_base ↦ err attribute_error
  | spatial_query ↦ err attribute_error
  | view_query ↦ ok (get_common "reduce" q)
  | query ↦ ok (get_common "reduce" q)
]

abbrev pub is_spatial : QueryClass → Bool
is_spatial spatial_query = true
is_spatial _ = false

-- `if include_docs and self._query.reduce: raise`
unfoldable pub check_docs : Bool → QueryBase → Result QueryBase
unfolding reduce truthy
check_docs false q = ok q
check_docs true q = bind (reduce q) λ v. if truthy v then err invalid_argument else ok q

-- The checks of `__init__`, up to the query that the view will send.
unfoldable pub checked : Bool → QueryArgument → Dict String Value → Bool → Result QueryBase
unfolding query_of check_docs
checked ephemeral argument params include_docs =
    if ephemeral
    then err not_supported
    else if given argument && not (no_params params)
    then err invalid_argument
    else bind (query_of argument params) (check_docs include_docs)

module _ (R : Type 0) where
  pub record View : Type 0 where
    -- `_mres` is set, and how often the view was requested.
    pub started : Bool
    pub submissions : ℕ
    pub query : QueryBase
    pub include_docs : Bool
    pub errors : List Value
    pub rows_returned : ℕ
    pub indexed_rows : Value
    pub meta_received : Bool
    pub debug : Option Value
    pub do_iter : Bool
    pub row_processor : List Value → Emitted R
    -- What `fetch` will give.
    pub replies : List Reply

abbrev pub is_text : String → Value → Bool
is_text s (str t) = t == s
is_text s _ = false

abbrev pub total_rows : Option Value → Value
total_rows none = int (pos 0)
total_rows (some v) = v

abbrev pub debug_or_error : Option Value → Result Value
debug_or_error none = err attribute_error
debug_or_error (some v) = ok v

abbrev pub Iteration : Type 0 → Type 0
Iteration R = List R × Ending (Unit {0}) × View R

module _ {R : Type 0} where
  -- The fields that `__init__` leaves.
  abbrev pub initial : QueryBase → Bool → (List Value → Emitted R) → List Reply → View R
  initial q include_docs row_processor replies = record {
    started = false;
    submissions = 0;
    query = q;
    include_docs = include_docs;
    errors = [];
    rows_returned = 0;
    indexed_rows = int (pos 0);
    meta_received = false;
    debug = none;
    do_iter = true;
    row_processor = row_processor;
    replies = replies;
  }

  module _ (row_factory : Value → Value → Value → Value → R)
      (spatial_row_factory : Value → Value → Value → Value → Value → R) where
    abbrev pub processor : Option (List Value → Emitted R) → QueryBase → List Value → Emitted R
    processor (some p) q = p
    processor none q =
        if is_spatial q.cls
        then each (spatial_row spatial_row_factory)
        else each (view_row row_factory)

    -- `__init__`
    unfoldable pub new :
        Bool
        → QueryArgument
        → Dict String Value
        → Option (List Value → Emitted R)
        → Bool
        → List Reply
        → Result (View R)
    unfolding checked each spatial_row view_row
    new ephemeral argument params row_processor include_docs replies =
        bind (checked ephemeral argument params include_docs)
          λ q. ok (initial q include_docs (processor row_processor q) replies)

  -- `_start`
  unfoldable pub start : View R → View R
  start w = if w.started then w else record w { started = true; submissions = w.submissions + 1 }

  -- `_handle_errors`
  unfoldable pub handle_errors : Value → View R → Result (Unit {0}) × View R
  unfolding truthy get_common
  handle_errors errors w =
      if not (truthy errors)
      then (ok tt, w)
      else if not (is_text "continue" (get_common "on_error" w.query))
      then (err view_engine, record w { errors = w.errors ++ (errors ∷ []) })
      else (ok tt, record w { errors = w.errors ++ (errors ∷ []) })

  abbrev pub with_debug : Value → Result (Unit {0}) × View R → Result (Unit {0}) × View R
  with_debug v (ok u, w) = (ok u, record w { debug = some v })
  with_debug v (err e, w) = (err e, w)

  -- `_handle_meta`
  unfoldable pub handle_meta : Value → View R → Result (Unit {0}) × View R
  unfolding handle_errors get_field
  handle_meta (dict d) w = with_debug (dict d) (
      handle_errors (null_or (get_field "errors" d))
        (record w { meta_received = true; indexed_rows = total_rows (get_field "total_rows" d) }))
  handle_meta _ w = (ok tt, record w { meta_received = true })

  abbrev pub after_rows : List R → Iteration R → Iteration R
  after_rows rows (more, ending, w) = (rows ++ more, ending, w)

  -- The loop ends with the metadata, unless that raises.
  abbrev pub finish : Result (Unit {0}) × View R → Iteration R
  finish (ok _, w) = ([], returned tt, record w { do_iter = false })
  finish (err e, w) = ([], raised e, w)

  -- A page of rows; the rest of the loop follows if the processor raises nothing.
  abbrev pub after_page : Emitted R → View R → Iteration R → Iteration R
  after_page (rows, none) w later = after_rows rows later
  after_page (rows, some e) w later = (rows, raised e, w)

  abbrev pub received : ℕ → List Reply → View R → View R
  received n rest w = record w { rows_returned = w.rows_returned + n; replies = rest }

  -- The loop of `__iter__` with `_process_payload`: all the rows that it yields.
  unfoldable pub drain : List Reply → View R → Iteration R
  unfolding handle_meta
  drain [] w = ([], blocked, record w { replies = [] })
  drain (failure e ∷ rest) w = ([], raised e, record w { replies = rest })
  drain (page (r ∷ rs) done v ∷ rest) w =
      let w' = received (length (r ∷ rs)) rest w in
      after_page (w.row_processor (r ∷ rs)) w' (drain rest w')
  drain (page [] true v ∷ rest) w = finish (handle_meta v (received 0 rest w))
  drain (page [] false v ∷ rest) w = drain rest (received 0 rest w)

  -- `__iter__`
  unfoldable pub iterate : View R → Iteration R
  unfolding drain start
  iterate w =
      if not w.do_iter then ([], raised already_queried, w) else drain (start w).replies (start w)

  -- `__meta_or_raise`
  abbrev pub meta_or_raise : {A : Type 0} → View R → Result A → Result A
  meta_or_raise w a = if w.meta_received then a else err runtime_error

  unfoldable pub get_indexed_rows : View R → Result Value
  get_indexed_rows w = meta_or_raise w (ok w.indexed_rows)

  unfoldable pub get_errors : View R → Result (List Value)
  get_errors w = meta_or_raise w (ok w.errors)

  -- `debug`, which is not set before it is received.
  unfoldable pub get_debug : View R → Result Value
  get_debug w = meta_or_raise w (debug_or_error w.debug)
