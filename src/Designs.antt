-- ===== src/Designs.antt =====
-- couchbase_core/bucketmanager.py: design documents.
pub mod Poll
pub mod Operations
pub mod Ends
pub mod Tests
use couchbase_python_client.Base.{
  ℕ, zero, suc, ◌+◌, ◌-◌, String, ◌<>◌, Bool, true, false, not, ◌&&◌, ◌||◌, Option, none, some,
  List, [], ◌∷◌, Result, ok, err, bind, Error, is_couchbase, Exec, pure, raise, lift, ◌>>=◌, ◌>>◌,
  string_eq, ◌==◌, ltb, if◌then◌else◌, resume, invalid_argument, type_error, value_error,
  attribute_error, key_error, index_error, runtime_error, overflow_error, outside_model,
  unicode_error, json_error, invalid_state, queue_empty, missing_token, timed_out,
}
use couchbase_python_client.Base.Decimal.{ℤ, pos, negsuc}
use couchbase_python_client.Base.Value.{
  Value, null, str, dict, Fields, end, field, get_field, set_field, truthy,
}
use couchbase_python_client.Base.Json.{dumps}
use text.Mathlib.Text.{starts_with}

-- An `HttpResult`, by what `_doc_rev` gives for it and by its `value`.
pub record HttpResult : Type 0 where
  pub rev : Result String
  pub body : Value

pub data Method : Type 0 where
  http_get http_put http_delete : Method

-- The arguments of `_http_request` of the type for views.
pub record HttpRequest : Type 0 where
  pub path : String
  pub method : Method
  pub post_data : Option String

pub data QueryKind : Type 0 where
  mapreduce spatial : QueryKind

-- The client and the server: HTTP requests, a query of one row with `stale=ok` taken to its end, and the clock, in
-- microseconds.
pub record World (S : Type 0) : Type 0 where
  pub http : HttpRequest → Exec S HttpResult
  pub view_query : String → String → Bool → QueryKind → Exec S (Unit {0})
  pub clock : S → ℕ

-- `Client._mk_devmode`
unfoldable pub mk_devmode : String → Bool → String
mk_devmode n use_devmode = if starts_with n "dev_" || not use_devmode then n else "dev_" <> n

abbrev pub dict_of : Option Value → Value
dict_of none = dict end
dict_of (some v) = v

-- `single_dict_key`: the first key, or `None`.
abbrev pub single_dict_key : Value → Result (Option String)
single_dict_key (dict end) = ok none
single_dict_key (dict (field k v d)) = ok (some k)
single_dict_key _ = err attribute_error

abbrev pub get_dict : String → Value → Result Value
get_dict k (dict d) = ok (dict_of (get_field k d))
get_dict k _ = err attribute_error

-- The name of a view to query, unless it is empty.
abbrev pub named_view : QueryKind → Option String → Option (String × QueryKind)
named_view kind none = none
named_view kind (some k) = if k == "" then none else some (k, kind)

-- The choice of a view in `_poll_vq_single`.
unfoldable pub view_to_poll : Value → Result (Option (String × QueryKind))
unfolding truthy get_field
view_to_poll ddresp = bind (get_dict "views" ddresp) λ v_mr.
    bind (get_dict "spatial" ddresp) λ v_spatial.
      if truthy v_mr
      then bind (single_dict_key v_mr) (λ k. ok (named_view mapreduce k))
      else if truthy v_spatial
      then bind (single_dict_key v_spatial) (λ k. ok (named_view spatial k))
      else ok none

module _ {S : Type 0} (w : World S) where
  unfoldable pub design_get : String → Bool → Exec S HttpResult
  unfolding mk_devmode
  design_get name use_devmode = w.http record {
    path = "_design/" <> mk_devmode name use_devmode;
    method = http_get;
    post_data = none;
  }

  abbrev pub query_view : String → Bool → Option (String × QueryKind) → Exec S Bool
  query_view dname use_devmode none = pure false
  query_view dname use_devmode (some (vname, kind)) =
      w.view_query dname vname use_devmode kind >>= λ _. pure true

  -- `_poll_vq_single`
  unfoldable pub poll_vq_single : String → Bool → Value → Exec S Bool
  unfolding view_to_poll
  poll_vq_single dname use_devmode ddresp =
      lift (view_to_poll ddresp) >>= query_view dname use_devmode

  -- `old_rev and self._doc_rev(cur_resp) == old_rev`
  abbrev pub unchanged : Option String → HttpResult → Result Bool
  unchanged none cur = ok false
  unchanged (some old) cur = if old == "" then ok false else bind cur.rev λ r. ok (r == old)

  -- A handler of `CouchbaseException` that goes on with `b`.
  abbrev pub caught : Bool → Error → S → Result Bool × S
  caught b e s = if is_couchbase e then (ok b, s) else (err e, s)

  abbrev pub after_query : Result Bool × S → Result Bool × S
  after_query (ok b, s) = (ok b, s)
  after_query (err e, s) = caught false e s

  abbrev pub with_current : Bool → Result Bool → String → Bool → HttpResult → Exec S Bool
  with_current deleting (err e) name use_devmode cur s = caught deleting e s
  with_current deleting (ok true) name use_devmode cur s = (ok false, s)
  with_current deleting (ok false) name use_devmode cur s =
      after_query (poll_vq_single name use_devmode cur.body s)

  abbrev pub after_get :
      String → Bool → Bool → Option String → Result HttpResult × S → Result Bool × S
  after_get name use_devmode deleting old_rev (ok cur, s) =
      with_current deleting (unchanged old_rev cur) name use_devmode cur s
  after_get name use_devmode deleting old_rev (err e, s) = caught deleting e s

  -- A round of `_design_poll`: `true` where it returns, `false` where it goes on.
  unfoldable pub poll_round : String → Bool → Bool → Option String → Exec S Bool
  unfolding design_get poll_vq_single
  poll_round name use_devmode deleting old_rev s =
      after_get name use_devmode deleting old_rev (design_get name use_devmode s)

  -- What follows a round.
  abbrev pub went_on : (S → Option (Result Bool × S)) → Result Bool × S → Option (Result Bool × S)
  went_on again (ok true, s) = some (ok true, s)
  went_on again (ok false, s) = again s
  went_on again (err e, s) = some (err e, s)

  -- `while time.time() < t_end`, and the exception behind it.
  abbrev pub guarded : Bool → (S → Option (Result Bool × S)) → S → Option (Result Bool × S)
  guarded true go s = go s
  guarded false go s = some (err timed_out, s)

  -- The loop of `_design_poll`, without a result when the fuel is spent.
  unfoldable pub poll_loop :
      ℕ → String → Bool → Bool → Option String → ℕ → S → Option (Result Bool × S)
  unfolding poll_round
  poll_loop zero name use_devmode deleting old_rev t_end s = none
  poll_loop (suc f) name use_devmode deleting old_rev t_end s =
      guarded (ltb (w.clock s) t_end)
        (λ t.
          went_on (poll_loop f name use_devmode deleting old_rev t_end)
            (poll_round name use_devmode deleting old_rev t))
        s

  -- `old_rev`
  abbrev pub old_rev_of : Option HttpResult → Result (Option String)
  old_rev_of none = ok none
  old_rev_of (some r) = bind r.rev λ rev. ok (some rev)

  abbrev pub poll_from :
      ℕ → String → Bool → Bool → ℕ → Result (Option String) → S → Option (Result Bool × S)
  poll_from f name use_devmode deleting t_end (err e) s = some (err e, s)
  poll_from f name use_devmode deleting t_end (ok old_rev) s =
      poll_loop f name use_devmode deleting old_rev t_end s

  -- `_design_poll`, with the timeout in microseconds; `deleting` is the mode `del`.
  unfoldable pub design_poll :
      ℕ → String → Bool → Option HttpResult → ℤ → Bool → S → Option (Result Bool × S)
  unfolding poll_loop
  design_poll f name deleting oldres (pos zero) use_devmode s = some (ok true, s)
  design_poll f name deleting oldres (negsuc _) use_devmode s = some (err invalid_argument, s)
  design_poll f name deleting oldres (pos (suc n)) use_devmode s =
      poll_from f name use_devmode deleting (w.clock s + suc n) (old_rev_of oldres) s
