-- ===== src/Views/RowTests.antt =====
-- Runs of view results, and the theorems at concrete data.
use couchbase_python_client.Base.{
  ◌≡◌, refl, true, false, none, some, List, [], ◌∷◌, ok, err, Result, inr, string_eq,
  already_queried, view_engine, attribute_error,
}
use couchbase_python_client.Base.Decimal.{pos}
use couchbase_python_client.Base.Value.{
  Value, null, int, str, list, dict, nil, cons, field, end, truthy, Fields, get_field,
}
use couchbase_python_client.Base.Reply.{Reply, page, returned, raised, delivered}
use couchbase_python_client.Base.Dict.{lookup}
use couchbase_python_client.Views.Query.{QueryBase, view_query, get_common}
use couchbase_python_client.Views.Update.{fresh}
use couchbase_python_client.Base.Emitted.{each}
use couchbase_python_client.Views.Row.{view_row, item, get, get_row_doc}
use couchbase_python_client.Views.View.{iterate, get_errors, get_debug}
use couchbase_python_client.Views.Reported.{
  completed, stopped, fresh_view, iterate_continues, iterate_stops, errors_of,
}

abbrev Row : Type 0
Row = Value × Value × Value × Value

abbrev row_class : Value → Value → Value → Value → Row
row_class key value id doc = (key, value, id, doc)

abbrev spatial_class : Value → Value → Value → Value → Value → Row
spatial_class key value geometry id doc = (key, geometry, id, doc)

abbrev of_row : Value → Result Row
of_row = view_row row_class

abbrev blank : QueryBase
blank = fresh view_query false false

abbrev continues : QueryBase
continues = record blank { user_options = ("on_error", str "continue") ∷ [] }

abbrev first : Value
first = dict (field "key" (str "a") (field "value" null (field "id" (str "doc") end)))

abbrev second : Value
second = dict (field "value" null (field "key" (int (pos 1)) end))

abbrev errors : Value
errors = list (cons (str "down") nil)

abbrev meta : Fields
meta = field "total_rows" (int (pos 9)) (field "errors" errors end)

abbrev sent : List Reply
sent =
    page (first ∷ []) false null
    ∷ page [] false null
    ∷ page (second ∷ []) true null
    ∷ page [] true (dict meta)
    ∷ []

abbrev made : List Row
made = (str "a", null, str "doc", null) ∷ (int (pos 1), null, null, null) ∷ []

rows_made : each of_row (first ∷ second ∷ []) ≡ (made, none)
unfolding each view_row item get get_row_doc get_field string_eq
rows_made = refl

all_sent : delivered sent ≡ some (first ∷ second ∷ [], dict meta, [])
unfolding delivered
all_sent = refl

iterate_continues_example :
    (iterate (fresh_view of_row continues false sent (first ∷ second ∷ []))
      ≡ (made, returned tt, completed of_row continues false sent (first ∷ second ∷ []) meta []))
    × (iterate (completed of_row continues false sent (first ∷ second ∷ []) meta []) ≡ (
      [],
      raised already_queried,
      completed of_row continues false sent (first ∷ second ∷ []) meta [],
    ))
unfolding get_common string_eq lookup
iterate_continues_example =
    iterate_continues of_row continues false sent (first ∷ second ∷ []) meta [] all_sent made
      rows_made (inr refl)

iterate_stops_example :
    (iterate (fresh_view of_row blank false sent (first ∷ second ∷ []))
      ≡ (made, raised view_engine, stopped of_row blank false sent (first ∷ second ∷ []) meta []))
    × (get_errors (stopped of_row blank false sent (first ∷ second ∷ []) meta [])
        ≡ ok (errors_of meta ∷ []))
    × (get_debug (stopped of_row blank false sent (first ∷ second ∷ []) meta [])
        ≡ err attribute_error)
unfolding get_common string_eq get_field truthy lookup
iterate_stops_example =
    iterate_stops of_row blank false sent (first ∷ second ∷ []) meta [] all_sent made rows_made refl
      refl

abbrev broken : List Value
broken = first ∷ dict end ∷ second ∷ []
