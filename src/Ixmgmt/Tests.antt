-- ===== src/Ixmgmt/Tests.antt =====
-- Runs of index requests, and the theorems at concrete data.
use couchbase_python_client.Exceptions.{Extra, returned}
use couchbase_python_client.Options.Forward.{plain, duration, Block}
use couchbase_python_client.Base.Decimal.{pos}
use couchbase_python_client.Base.Dict.{lookup}
use couchbase_python_client.Ixmgmt.Definition.{index_definition}
use couchbase_python_client.Ixmgmt.Defined.{refusal, described, index_definition_lem}
use couchbase_python_client.Ixmgmt.Manager.{drop_index}
use couchbase_python_client.Ixmgmt.Dropped.{Unsent, drop_index_timeout}
use couchbase_python_client.Base.{
  ℕ, String, Bool, Option, none, some, Error, Result, err, unicode_error, query_index_not_found,
  ◌==◌, ◌&&◌, ◌≡◌, refl, true, false, List, [], ◌∷◌, ok, string_eq, document_not_found,
}
use couchbase_python_client.Base.Value.{
  Value, null, bool, str, list, nil, cons, dict, field, end, truthy,
}
use couchbase_python_client.Base.Reply.{Reply, page, failure}
use couchbase_python_client.Base.Emitted.{each}
use couchbase_python_client.Ixmgmt.Index.{index_of, named, make, object}
use couchbase_python_client.Ixmgmt.Request.{Request, one, iterate, received, payload}
use couchbase_python_client.Ixmgmt.Listed.{refused, streamed, ending_of, sent_once, iterate_indexes}

abbrev answers : List Reply
answers =
    page (dict (field "name" (str "ix") end) ∷ []) false null ∷ failure document_not_found ∷ []

abbrev drop_request : Request
drop_request = record {
  cmd = "drop";
  index = one (object (index_of (dict (field "name" (str "ix") end))));
  options = [];
  ignore_exists = false;
  ignore_missing = true;
  started = false;
  sent = [];
  done = false;
  replies = answers;
}

fits : payload "drop" drop_request.index ≡ ok ("{\"name\": \"ix\"}" ∷ [])
unfolding payload string_eq
fits = refl

iterate_indexes_example : iterate drop_request ≡ (
  index_of (dict (field "name" (str "ix") end)) ∷ [],
  ending_of false true (refused document_not_found),
  received false [] (sent_once ("{\"name\": \"ix\"}" ∷ []) drop_request),
)
unfolding streamed each make
iterate_indexes_example =
    iterate_indexes drop_request refl refl ("{\"name\": \"ix\"}" ∷ []) fits
      (dict (field "name" (str "ix") end) ∷ []) (refused document_not_found) [] refl
      (index_of (dict (field "name" (str "ix") end)) ∷ []) refl

abbrev nothing : Error → Option Extra
nothing e = none

abbrev no_text : List ℕ → Result String
no_text b = err unicode_error

abbrev is_default : Value → Bool
is_default (str s) = s == "#primary"
is_default _ = false

abbrev with_timeout : Block
with_timeout = ("timeout", duration record { seconds = pos 1; microseconds = pos 1000000 }) ∷ []

drop_index_timeout_example :
    Unsent
      (drop_index ok is_default nothing no_text answers (str "travel") (str "ix") with_timeout [])
unfolding lookup string_eq
drop_index_timeout_example =
    drop_index_timeout ok is_default nothing no_text answers with_timeout [] (refl, tt) tt
      (str "travel") (str "ix") (duration record { seconds = pos 1; microseconds = pos 1000000 })
      refl

abbrev one_field : Value
one_field = list (cons (str "city") nil)

index_definition_lem_example :
    index_definition is_default (str "travel") (named (str "ix")) (bool false) one_field null
    ≡ refusal (truthy (str "ix")) (truthy (bool false)) (truthy one_field) (truthy null) (
        described
          (truthy (bool false) && is_default (str "ix"))
          (str "travel")
          (str "ix")
          (bool false)
          one_field
          null)
index_definition_lem_example =
    index_definition_lem is_default (str "travel") (str "ix") (bool false) one_field null

-- An index that is missing is no error where the option says so, under its own name.
drop_ignored :
    (drop_index ok is_default nothing no_text
      (failure query_index_not_found ∷ [])
      (str "travel")
      (str "ix")
      (("ignore_if_not_exists", plain (bool true)) ∷ [])
      []).0
    ≡ some (returned tt)
unfolding drop_index string_eq truthy
drop_ignored = refl
