-- ===== src/Ixmgmt/Manager.antt =====
-- couchbase/management/queries.py: `QueryIndexManager`, with what it uses of couchbase_core/bucketmanager.py.
use couchbase_python_client.Base.{
  String, Bool, true, false, not, Option, none, some, List, [], ◌∷◌, ◌==◌, string_eq, ℕ,
  if◌then◌else◌, Error, is_couchbase, query_index_already_exists, query_index_not_found, Result, ok,
  err, bind, type_error, outside_model,
}
use couchbase_python_client.Base.Dict.{lookup, insert, erase}
use couchbase_python_client.Base.Value.{Value, null, bool, str, list, nil, truthy}
use couchbase_python_client.Base.Reply.{Reply, Ending, returned, raised, blocked}
use couchbase_python_client.Exceptions as E
use couchbase_python_client.Exceptions.{Extra, Outcome, mgmt_exc_wrap, query_errors}
use couchbase_python_client.Options.Forward.{Argument, plain, Block, forward_args}
use couchbase_python_client.Ixmgmt.Index.{N1qlIndex, IndexLike, named, object}
use couchbase_python_client.Ixmgmt.Request.{Options, Request, one, new, execute, flag}
use couchbase_python_client.Ixmgmt.Definition.{
  mk_index_def, argument, only_arguments, index_definition, create_options,
}

-- How an operation ends, unless it waits for ever, and the request that it made.
abbrev pub Done : Type 0 → Type 0
Done A = Option (Outcome A) × Option Request

-- The options as values; others than values are outside the model.
unfoldable pub option_values : Block → Result Options
option_values [] = ok []
option_values ((k, plain v) ∷ d) = bind (option_values d) λ rest. ok ((k, v) ∷ rest)
option_values ((k, _) ∷ d) = err outside_model

-- `{f(k): v for k, v in d.items()}`
unfoldable pub renamed : (String → String) → Options → Options → Options
unfolding insert
renamed f [] out = out
renamed f ((k, v) ∷ d) out = renamed f d (insert (f k) v out)

-- The renaming of the two methods, for keys that do not hold these words as a part.
unfoldable pub created_key : String → String
unfolding string_eq
created_key k =
    if k == "deferred"
    then "defer"
    else if k == "condition"
    then "cond"
    else if k == "ignore_if_exists"
    then "ignore_exists"
    else k

unfoldable pub dropped_key : String → String
unfolding string_eq
dropped_key k = if k == "ignore_if_not_exists" then "ignore_missing" else k

abbrev pub ended : {A B : Type 0} → Result A → (A → Done B) → Done B
ended (ok a) k = k a
ended (err e) k = (some (E.raised e none), none)

-- `except e: if not ignored: raise`
abbrev pub unless_ignored : (Error → Bool) → Bool → Done (List N1qlIndex) → Done (Unit {0})
unless_ignored is_it ignored (none, q) = (none, q)
unless_ignored is_it ignored (some (E.returned _), q) = (some (E.returned tt), q)
unless_ignored is_it ignored (some (E.raised e x), q) =
    (some (if is_it e then (if ignored then E.returned tt else E.raised e x) else E.raised e x), q)

abbrev pub already_exists : Error → Bool
already_exists query_index_already_exists = true
already_exists _ = false

abbrev pub not_found : Error → Bool
not_found query_index_not_found = true
not_found _ = false

-- The first option block without its `index_name`.
abbrev pub popped_name : List Block → Argument × List Block
popped_name [] = (plain (str ""), [])
popped_name (b ∷ bs) =
    (elim (lookup "index_name" b) [ none ↦ plain (str "") | some v ↦ v ], erase "index_name" b ∷ bs)

abbrev pub name_value : Argument → Result Value
name_value (plain v) = ok v
name_value _ = err outside_model

-- The constant of libcouchbase, the identity of the primary name, the `objextra` of an exception of the server, UTF-8
-- and the answers of the server.
module _ (or_defer : Value → Result Value) (is_constant : Value → Bool)
    (extra : Error → Option Extra) (decode : List ℕ → Result String) (replies : List Reply) where
  abbrev pub carried : Error → Option Extra
  carried e = if is_couchbase e then extra e else none

  abbrev pub outcome : Ending (List N1qlIndex) × Request → Done (List N1qlIndex)
  outcome (returned ixs, q) = (some (E.returned ixs), some q)
  outcome (raised e, q) = (some (E.raised e (carried e)), some q)
  outcome (blocked, q) = (none, some q)

  -- `IxmgmtRequest(...).execute()`
  unfoldable pub request : String → N1qlIndex → Options → Done (List N1qlIndex)
  unfolding new execute
  request cmd info options =
      ended (new or_defer cmd (one (object info)) options replies) λ q. outcome (execute q)

  unfoldable pub handled : {A : Type 0} → Done A → Done A
  unfolding mgmt_exc_wrap
  handled (none, q) = (none, q)
  handled (some o, q) = (some (mgmt_exc_wrap decode query_errors o), q)

  -- `_n1ql_index_create`
  unfoldable pub n1ql_index_create : Value → IndexLike → Value → Options → Done (List N1qlIndex)
  unfolding index_definition create_options request lookup truthy
  n1ql_index_create bucket_name ix fields kwargs =
      if not
        (only_arguments ("defer" ∷ "ignore_exists" ∷ "primary" ∷ "cond" ∷ "timeout" ∷ []) kwargs)
      then (some (E.raised type_error none), none)
      else ended
          (index_definition is_constant bucket_name ix (argument "primary" (bool false) kwargs)
            fields (argument "cond" null kwargs))
          λ info. request "create" info (create_options kwargs)

  -- `_create_index`
  unfoldable pub create_with : Value → Value → IndexLike → Block → List Block → Done (Unit {0})
  unfolding forward_args option_values renamed created_key n1ql_index_create lookup truthy
  create_with bucket_name fields index_name kwargs options =
      ended (bind (forward_args kwargs [] options) option_values) λ d.
        let final_args = renamed created_key d [] in
        unless_ignored already_exists (flag "ignore_exists" final_args)
          (n1ql_index_create bucket_name index_name fields final_args)

  unfoldable pub create_index : Value → Value → Value → Block → List Block → Done (Unit {0})
  unfolding handled create_with
  create_index bucket_name index_name fields kwargs options =
      handled (create_with bucket_name fields (named index_name) kwargs options)

  unfoldable pub create_primary_index : Value → Block → List Block → Done (Unit {0})
  unfolding handled create_with insert lookup erase
  create_primary_index bucket_name kwargs options =
      let (name, rest) = popped_name options in
      handled (
        ended (name_value name) λ v.
          create_with bucket_name (list nil) (named v) (insert "primary" (plain (bool true)) kwargs)
            rest)

  -- `_drop_index`
  unfoldable pub drop_with : Value → Value → Block → Done (Unit {0})
  unfolding mk_index_def forward_args option_values renamed dropped_key request lookup erase truthy
  drop_with bucket_name index_name kwargs =
      ended (name_value (elim (lookup "primary" kwargs) [ none ↦ plain (bool false) | some v ↦ v ]))
        λ primary. ended (mk_index_def bucket_name (named index_name) primary) λ info.
          ended (bind (forward_args (erase "primary" kwargs) [] []) option_values) λ d.
            let final_args = renamed dropped_key d [] in
            unless_ignored not_found (flag "ignore_missing" final_args)
              (request "drop" info final_args)

  unfoldable pub drop_index : Value → Value → Block → List Block → Done (Unit {0})
  unfolding handled forward_args drop_with
  drop_index bucket_name index_name kwargs options = handled (
      ended (forward_args kwargs [] options)
        λ final_args. drop_with bucket_name index_name final_args)

  unfoldable pub drop_primary_index : Value → Block → List Block → Done (Unit {0})
  unfolding handled forward_args drop_with insert lookup erase
  drop_primary_index bucket_name kwargs options = handled (
      ended (forward_args kwargs [] options) λ final_args.
        let d = insert "primary" (plain (bool true)) final_args in
        ended (name_value (elim (lookup "index_name" d) [ none ↦ plain (str "") | some v ↦ v ]))
          λ v. drop_with bucket_name v (erase "index_name" d))
