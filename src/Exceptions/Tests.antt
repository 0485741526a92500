-- ===== src/Exceptions/Tests.antt =====
-- The theorems at concrete data.
use couchbase_python_client.Base.{
  ℕ, ◌+◌, String, Bool, true, false, Option, none, some, List, [], ◌∷◌, length, All, Result, err,
  http_error, unicode_error, ◌≡◌, refl,
}
use couchbase_python_client.Base.Value.{str, dict, field, end}
use couchbase_python_client.Exceptions.{Extra, raised, user_errors, mgmt_exc_wrap}
use couchbase_python_client.Exceptions.First.{Becomes, mgmt_exc_wrap-Becomes}
use couchbase_python_client.Exceptions.Split.{split_results}
use couchbase_python_client.Exceptions.Split.Kept.{Distinct}
use couchbase_python_client.Exceptions.Split.Whole.{Sided, Passed, split_results_parts}

abbrev no_text : List ℕ → Result String
no_text b = err unicode_error

abbrev response : Option Extra
response = some record { value = dict (field "errors" (str "Unknown user.") end); status = 404 }

mgmt_exc_wrap-Becomes_example :
    Becomes no_text {A = Unit {0}} http_error response user_errors
      (mgmt_exc_wrap no_text user_errors (raised http_error response))
mgmt_exc_wrap-Becomes_example = mgmt_exc_wrap-Becomes no_text user_errors http_error response refl

abbrev results : List (Option String × Bool)
results = (some "a", true) ∷ (none, false) ∷ []

abbrev succeeded : Bool → Bool
succeeded b = b

Distinct-results : Distinct results
Distinct-results = (((λ e. cc), tt), (tt, tt))

split_results_parts_example :
    let r = split_results succeeded results in
    (length r.0 + length r.1 ≡ length results)
    × Sided succeeded true r.0
    × Sided succeeded false r.1
    × All (Passed succeeded r) results
split_results_parts_example = split_results_parts succeeded results Distinct-results
