-- ===== src/N1ql/Request.antt =====
-- couchbase_core/n1ql.py: `N1QLRequest`, the rows of a result as the server sends them. What the server
-- will send is the list of answers that `raw.fetch` will give.
use couchbase_python_client.Base.{
  ℕ, ◌+◌, Bool, true, false, Option, none, some, List, [], ◌∷◌, ◌++◌, map, if◌then◌else◌, Error,
  n1ql_exception, already_queried, runtime_error, type_error, ◌||◌,
}
use couchbase_python_client.Base.Value.{
  Value, null, unspec, bool, int, float, str, bytes, list, tuple, dict, nil, end, get_field, truthy,
}
pub use couchbase_python_client.Base.Reply.{Reply, page, failure, Ending, returned, raised, blocked}

-- `for err in value['errors']: raise N1QLException`: what has no elements raises nothing, and what is
-- no collection cannot be iterated.
abbrev pub raise_first : Value → Option Error
raise_first (list nil) = none
raise_first (tuple nil) = none
raise_first (dict end) = none
raise_first (str s) = if truthy (str s) then some n1ql_exception else none
raise_first (bytes []) = none
raise_first null = some type_error
raise_first unspec = some type_error
raise_first (bool _) = some type_error
raise_first (int _) = some type_error
raise_first (float _) = some type_error
raise_first _ = some n1ql_exception

-- The exception that `_handle_meta` raises.
unfoldable pub meta_error : Value → Option Error
unfolding truthy get_field
meta_error (dict d) = elim (get_field "errors" d) [ none ↦ none | some v ↦ raise_first v ]
meta_error _ = none

module _ {R : Type 0} (row_factory : Value → R) where
  pub record Request : Type 0 where
    -- `_mres` is set, and how often the query was submitted.
    pub started : Bool
    pub submissions : ℕ
    pub do_iter : Bool
    pub meta_received : Bool
    pub buffered_remainder : List R
    pub meta_lookahead : Bool
    -- `raw.value`
    pub value : Value
    -- What `fetch` will give.
    pub replies : List Reply

  -- `__init__`, against a server that is going to send the given answers.
  unfoldable pub new : Bool → List Reply → Request
  new meta_lookahead replies = record {
    started = false;
    submissions = 0;
    do_iter = true;
    meta_received = false;
    buffered_remainder = [];
    meta_lookahead = meta_lookahead;
    value = null;
    replies = replies;
  }

  -- `_start`
  unfoldable pub start : Request → Request
  start q = if q.started then q else record q { started = true; submissions = q.submissions + 1 }

  abbrev pub Iteration : Type 0
  Iteration = List R × Ending (Unit {0}) × Request

  abbrev pub after_rows : List R → Iteration → Iteration
  after_rows rows (more, ending, q) = (rows ++ more, ending, q)

  -- The last page: `_handle_meta`, and the end of the loop if it does not raise.
  unfoldable pub finish : Option Error → Request → Iteration
  finish none q = ([], returned tt, record q { meta_received = true; do_iter = false })
  finish (some e) q = ([], raised e, record q { meta_received = true })

  abbrev pub received : Value → List Reply → Request → Request
  received v rest q = record q { value = v; replies = rest }

  -- The loop of `__iter__` while `_do_iter` holds, with `_process_payload`: all the rows that it yields.
  unfoldable pub drain : List Reply → Request → Iteration
  unfolding finish meta_error
  drain [] q = ([], blocked, record q { replies = [] })
  drain (failure e ∷ rest) q = ([], raised e, record q { replies = rest })
  drain (page (r ∷ rs) done v ∷ rest) q =
      after_rows (map row_factory (r ∷ rs)) (drain rest (received v rest q))
  drain (page [] true v ∷ rest) q = finish (meta_error v) (received v rest q)
  drain (page [] false v ∷ rest) q = drain rest (received v rest q)

  abbrev pub run : Request → Iteration
  run q = if q.do_iter then drain q.replies q else ([], returned tt, q)

  -- `list(self)`, that is `__iter__` to its end.
  unfoldable pub iterate : Request → Iteration
  unfolding drain start
  iterate q = elim q.buffered_remainder [
    | r ∷ rs ↦ after_rows (r ∷ rs) (run (start (record q { buffered_remainder = [] })))
    | [] ↦ if q.do_iter then run (start q) else ([], raised already_queried, q)
  ]

  abbrev pub dict_or_empty : Value → Value
  dict_or_empty (dict d) = dict d
  dict_or_empty _ = dict end

  abbrev pub buffer : Iteration → Ending Value × Request
  buffer (rows, returned _, q) =
      (returned (dict_or_empty q.value), record q { buffered_remainder = rows })
  buffer (rows, raised e, q) = (raised e, q)
  buffer (rows, blocked, q) = (blocked, q)

  -- `meta_retrieve`; `meta` passes `false`.
  unfoldable pub meta_retrieve : Bool → Request → Ending Value × Request
  unfolding iterate
  meta_retrieve lookahead q =
      if q.meta_received
      then (returned (dict_or_empty q.value), q)
      else if lookahead || q.meta_lookahead
      then buffer (iterate q)
      else (raised runtime_error, q)

  -- `execute` drops the rows.
  unfoldable pub execute : Request → Ending (Unit {0}) × Request
  unfolding iterate
  execute q = let (_, ending, q') = iterate q in (ending, q')

  abbrev pub without_row : Iteration → Ending (Option R) × Request
  without_row (_, returned _, q) = (returned none, q)
  without_row (_, raised e, q) = (raised e, q)
  without_row (_, blocked, q) = (blocked, q)

  -- The loop of `__iter__` up to its first row; the rest of that page is lost.
  unfoldable pub first_of_replies : List Reply → Request → Ending (Option R) × Request
  unfolding finish meta_error
  first_of_replies [] q = (blocked, record q { replies = [] })
  first_of_replies (failure e ∷ rest) q = (raised e, record q { replies = rest })
  first_of_replies (page (r ∷ rs) done v ∷ rest) q =
      (returned (some (row_factory r)), received v rest q)
  first_of_replies (page [] true v ∷ rest) q =
      without_row (finish (meta_error v) (received v rest q))
  first_of_replies (page [] false v ∷ rest) q = first_of_replies rest (received v rest q)

  -- `get_single_result`
  unfoldable pub get_single_result : Request → Ending (Option R) × Request
  unfolding first_of_replies start
  get_single_result q = elim q.buffered_remainder [
    | r ∷ rs ↦ (returned (some r), record q { buffered_remainder = rs })
    | [] ↦ if q.do_iter then first_of_replies q.replies (start q) else (raised already_queried, q)
  ]
