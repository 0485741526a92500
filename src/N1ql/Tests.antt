-- ===== src/N1ql/Tests.antt =====
-- Runs of queries and requests, and the theorems at concrete data.
use couchbase_python_client.Base.{
  String, ◌≡◌, refl, true, false, none, List, [], ◌∷◌, ok, err, string_eq, already_queried, Result,
  if◌then◌else◌, value_error,
}
use couchbase_python_client.Base.Decimal.{pos}
use couchbase_python_client.Base.Dict.{insert}
use couchbase_python_client.Base.Value.{
  Value, null, int, str, list, dict, nil, cons, field, end, Floating,
}
use couchbase_python_client.N1ql.Query.{N1qlQuery, encoded, set_option}
use couchbase_python_client.N1ql.Request.{Reply, page, returned, raised, new, iterate, meta_error}
use couchbase_python_client.N1ql.Rows.{iterate_yields, exhausted}
use couchbase_python_client.N1ql.Once.{iteration, metadata, perform_all, submitted_once}
use couchbase_python_client.Base.Reply.{delivered}

abbrev query : N1qlQuery
query = record { adhoc = true; cross_bucket = false; body = ("statement", str "SELECT 1") ∷ [] }

encoded_text :
    encoded (set_option "args" (list (cons (int (pos 0)) nil)) query)
    ≡ ok "{\"statement\": \"SELECT 1\", \"args\": [0]}"
unfolding encoded set_option insert string_eq
encoded_text = refl

-- A float whose `repr` is its text.
abbrev float_of_text : String → Floating
float_of_text s = record { repr = s; json = s; truncated = none; is_zero = false }

abbrev as_float : Value → Result Floating
as_float (str s) = ok (float_of_text s)
as_float _ = err value_error

-- The rows of a result in two pages, with an idle return between them, and what comes after it.
abbrev sent : List Reply
sent =
    page (int (pos 1) ∷ int (pos 2) ∷ []) false null
    ∷ page [] false null
    ∷ page (int (pos 3) ∷ []) true null
    ∷ page [] true (dict (field "status" (str "success") end))
    ∷ page [] false null
    ∷ []

abbrev status : Value
status = dict (field "status" (str "success") end)

abbrev row : Value → Value
row v = v

abbrev numbers : List Value
numbers = int (pos 1) ∷ int (pos 2) ∷ int (pos 3) ∷ []

abbrev behind : List Reply
behind = page [] false null ∷ []

iterate_yields_example :
    (iterate row (new row true sent) ≡ (numbers, returned tt, exhausted row true status behind))
    × (iterate row (exhausted row true status behind)
        ≡ ([], raised already_queried, exhausted row true status behind))
unfolding delivered meta_error string_eq
iterate_yields_example = iterate_yields row true sent numbers status behind refl refl

abbrev faulty : Value
faulty = dict (field "errors" (list (cons (dict (field "code" (int (pos 5000)) end)) nil)) end)

submitted_once_example :
    let cs = metadata false ∷ iteration ∷ iteration ∷ [] in
    (perform_all row cs (new row true sent)).submissions
    ≡ (if (perform_all row cs (new row true sent)).started then 1 else 0)
submitted_once_example = submitted_once row (metadata false ∷ iteration ∷ iteration ∷ []) true sent
