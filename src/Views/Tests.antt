-- ===== src/Views/Tests.antt =====
-- Runs of the view options, and the theorems at concrete objects.
use couchbase_python_client.Base.{
  String, ◌≡◌, refl, true, false, none, List, [], ◌∷◌, ok, arith, string_eq,
}
use couchbase_python_client.Base.Decimal.{pos}
use couchbase_python_client.Base.Json.{dumps}
use couchbase_python_client.Base.Quote.{quote, join}
use couchbase_python_client.Base.Dict.{lookup, insert}
use couchbase_python_client.Base.Value.{Value, unspec, bool, int, str, list, nil, cons}
use couchbase_python_client.Views.Handlers.{
  run_handler, stale_param, jval_param_handler, num_param_handler, stale_param_handler,
  jarry_param_handler,
}
use couchbase_python_client.Views.Query.{
  QueryBase, view_query, set_common, set_range_common, handler_of, get_common, effective, set_value,
  set_real, set_extra, set_ends, user_has,
}
use couchbase_python_client.Views.Encode.{
  encode, encoded, options_text, with_base, long_query_encoded,
}
use couchbase_python_client.Views.Update.{
  attribute, fresh, update, update_all, update_one, set_attribute, make_options_string, options,
  from_any,
}
use couchbase_python_client.Views.Cache.{Uses, start, next, assign, read, encoded-fresh}
use couchbase_python_client.Views.Assigned.{Assigned, set_common-Assigned}
use couchbase_python_client.Views.Spelling.{Spelled, run_handler-Spelled}
use couchbase_python_client.Views.Ranges.{Stands, SetsRange, set_range_sets}
use text.Mathlib.TextEquality.{eq_iff}

abbrev blank : QueryBase
blank = fresh view_query false false

abbrev limit_10 : Value
limit_10 = int (pos 10)

-- Assignments in a row; a proof that unfolds `run` can evaluate all of the module.
run : List (String × Value) → QueryBase
unfolding update update_all string_eq update_one attribute set_attribute set_common handler_of
    run_handler effective set_range_common jval_param_handler num_param_handler stale_param_handler
    jarry_param_handler dumps join quote set_value set_real set_extra lookup insert
    long_query_encoded encoded options_text make_options_string get_common set_ends
run params = (update false params blank).1

options_string :
    make_options_string
      (options
        (("stale", bool true) ∷ ("mapkey_range", list (cons (str "a&") (cons unspec nil))) ∷ []))
      false
      false
    ≡ ok "stale=ok&startkey=%22a%26%22"
unfolding run
options_string = refl

long_query :
    long_query_encoded (run (("limit", limit_10) ∷ ("keys", list (cons (str "x") nil)) ∷ []))
    ≡ ("limit=10", "{\"keys\":[\"x\"]}")
unfolding run
long_query = refl

-- `from_any` on a subclass gives `None` for a dictionary.
view_query_of_dictionary : from_any view_query (options (("limit", limit_10) ∷ [])) [] ≡ ok none
unfolding from_any
view_query_of_dictionary = refl

limit_uses : Uses blank (encoded (update_one "limit" limit_10 blank).1).1
unfolding attribute string_eq
limit_uses =
    next (next start (assign "limit" limit_10 blank (ground arith) (ground arith)))
      (read (update_one "limit" limit_10 blank).1)

encoded-fresh_example :
    let q = (encoded (update_one "limit" limit_10 blank).1).1 in
    (encoded q).0 ≡ with_base q.base_str (encode false q)
encoded-fresh_example =
    encoded-fresh view_query false false (encoded (update_one "limit" limit_10 blank).1).1
      limit_uses

set_common-Assigned_example :
    Assigned "skip" (bool true) true blank (set_common "skip" (bool true) true blank)
set_common-Assigned_example = set_common-Assigned "skip" (bool true) true blank

run_handler-Spelled_example : Spelled stale_param "ok"
unfolding run
run_handler-Spelled_example = run_handler-Spelled stale_param (bool true) "ok" refl

abbrev from_a : Value
from_a = list (cons (str "a") nil)

set_range_sets_example :
    (user_has "startkey" blank ≡ false)
    × (user_has "endkey" blank ≡ false)
    × ((x : Value) × (y : Value) × (kept : Value) × Stands from_a x y kept
        × SetsRange "mapkey_range" "startkey" "endkey" x y kept blank
            (set_range_common "mapkey_range" "startkey" "endkey" from_a blank).1)
unfolding run
set_range_sets_example =
    set_range_sets "mapkey_range" "startkey" "endkey" (ground (arith, eq_iff "startkey" "endkey"))
      (ground arith) (ground arith) from_a blank refl
