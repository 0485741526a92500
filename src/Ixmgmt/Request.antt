-- ===== src/Ixmgmt/Request.antt =====
-- couchbase_core/_ixmgmt.py: `IxmgmtRequest`, the indexes that the server sends as rows.
use couchbase_python_client.Base.{
  String, Bool, true, false, Option, none, some, List, [], ◌∷◌, ◌++◌, ◌==◌, string_eq,
  if◌then◌else◌, Error, document_exists, document_not_found, outside_model, Result, ok, err, bind,
}
use couchbase_python_client.Base.Decimal.{pos}
use couchbase_python_client.Base.Dict.{Dict, lookup, insert, erase}
use couchbase_python_client.Base.Value.{Value, int, truthy}
use couchbase_python_client.Base.Reply.{Reply, page, failure, Ending, returned, raised, blocked}
use couchbase_python_client.Base.Emitted.{Emitted, each}
use couchbase_python_client.Ixmgmt.Index.{N1qlIndex, make, IndexArgument, index_to_rawjson}

abbrev pub Options : Type 0
Options = Dict String Value

-- The argument `index`: one index, or the list that `watch` takes.
pub data Indexes : Type 0 where
  one : IndexArgument → Indexes
  many : List IndexArgument → Indexes

pub record Request : Type 0 where
  pub cmd : String
  pub index : Indexes
  pub options : Options
  pub ignore_exists : Bool
  pub ignore_missing : Bool
  -- `_mres` is set, and the JSON texts and options of each request that was sent.
  pub started : Bool
  pub sent : List (List String × Options)
  -- `raw.done`
  pub done : Bool
  -- What `fetch` will give.
  pub replies : List Reply

-- `kwargs.pop(k, False)`, in a test.
abbrev pub flag : String → Options → Bool
flag k d = elim (lookup k d) [ none ↦ false | some v ↦ truthy v ]

abbrev pub flags_or_zero : Option Value → Value
flags_or_zero none = int (pos 0)
flags_or_zero (some v) = v

abbrev pub with_flags : Options → Value → Options
with_flags d v = insert "flags" v d

module _ (or_defer : Value → Result Value) where
  -- The options that are passed on; `or_defer flags` is `flags | C.LCB_N1XSPEC_F_DEFER`, a constant of
  -- libcouchbase.
  unfoldable pub passed : String → Options → Result Options
  unfolding lookup insert erase truthy
  passed cmd d =
      if cmd == "create"
      then (if flag "defer" d
          then bind (or_defer (flags_or_zero (lookup "flags" (erase "defer" d))))
              (λ v. ok (with_flags (erase "defer" d) v))
          else ok (erase "defer" d))
      else ok d

  -- `__init__`
  unfoldable pub new : String → Indexes → Options → List Reply → Result Request
  unfolding passed erase lookup truthy
  new cmd index kwargs replies =
      bind (passed cmd (erase "ignore_missing" (erase "ignore_exists" kwargs))) λ options.
        ok record {
          cmd = cmd;
          index = index;
          options = options;
          ignore_exists = flag "ignore_exists" kwargs;
          ignore_missing = flag "ignore_missing" (erase "ignore_exists" kwargs);
          started = false;
          sent = [];
          done = false;
          replies = replies;
        }

abbrev pub consed : String → List String → Result (List String)
consed s ss = ok (s ∷ ss)

unfoldable pub all_to_rawjson : List IndexArgument → Result (List String)
unfolding index_to_rawjson
all_to_rawjson [] = ok []
all_to_rawjson (x ∷ xs) = bind (index_to_rawjson x) λ s. bind (all_to_rawjson xs) (consed s)

-- The JSON texts that are sent. A list for another command than `watch`, or one index for `watch`, is
-- outside the model.
unfoldable pub payload : String → Indexes → Result (List String)
unfolding all_to_rawjson index_to_rawjson
payload cmd (many xs) = if cmd == "watch" then all_to_rawjson xs else err outside_model
payload cmd (one x) =
    if cmd == "watch" then err outside_model else bind (index_to_rawjson x) λ s. ok (s ∷ [])

abbrev pub sent_with : Result (List String) → Request → Result (Unit {0}) × Request
sent_with (ok texts) q =
    (ok tt, record q { started = true; sent = q.sent ++ ((texts, q.options) ∷ []) })
sent_with (err e) q = (err e, q)

-- `_start`
unfoldable pub start : Request → Result (Unit {0}) × Request
unfolding payload
start q = if q.started then (ok tt, q) else sent_with (payload q.cmd q.index) q

-- The exceptions that end the loop. `CODE` tells the classes apart.
unfoldable pub ignored : Request → Error → Bool
ignored q document_exists = q.ignore_exists
ignored q document_not_found = q.ignore_missing
ignored q _ = false

abbrev pub Iteration : Type 0
Iteration = List N1qlIndex × Ending (Unit {0}) × Request

abbrev pub after_page : Emitted N1qlIndex → Request → Iteration → Iteration
after_page (rows, none) q (more, ending, q') = (rows ++ more, ending, q')
after_page (rows, some e) q later = (rows, raised e, q)

abbrev pub received : Bool → List Reply → Request → Request
received done rest q = record q { done = done; replies = rest }

-- The loop of `__iter__` while `raw.done` is false: all the indexes that it yields.
unfoldable pub drain : List Reply → Request → Iteration
unfolding ignored make each
drain [] q = ([], blocked, record q { replies = [] })
drain (failure e ∷ rest) q =
    ([], if ignored q e then returned tt else raised e, record q { replies = rest })
drain (page rows true v ∷ rest) q =
    let q' = received true rest q in after_page (each make rows) q' ([], returned tt, q')
drain (page rows false v ∷ rest) q =
    let q' = received false rest q in after_page (each make rows) q' (drain rest q')

abbrev pub loop : Result (Unit {0}) × Request → Iteration
loop (err e, q) = ([], raised e, q)
loop (ok _, q) = if q.done then ([], returned tt, q) else drain q.replies q

-- `__iter__`
unfoldable pub iterate : Request → Iteration
unfolding drain start
iterate q = loop (start q)

abbrev pub collected : Iteration → Ending (List N1qlIndex) × Request
collected (rows, returned _, q) = (returned rows, q)
collected (rows, raised e, q) = (raised e, q)
collected (rows, blocked, q) = (blocked, q)

-- `execute`
unfoldable pub execute : Request → Ending (List N1qlIndex) × Request
unfolding iterate
execute q = collected (iterate q)
