-- ===== src/Exceptions.antt =====
-- couchbase/exceptions.py: exceptions of management calls and what they become.
pub mod First
pub mod Split
pub mod Tests
use couchbase_python_client.Base.{
  ℕ, String, Bool, true, false, not, ◌&&◌, ◌||◌, Option, none, some, List, [], ◌∷◌, Result, ok, err,
  Error, is_couchbase, if◌then◌else◌, leb, beq, nat_eq, ◌==◌, http_error, not_supported,
  document_exists, document_not_found, group_not_found, user_not_found, search_index_not_found,
  bucket_already_exists, bucket_does_not_exist, scope_already_exists, scope_not_found,
  collection_not_found, collection_already_exists, design_document_not_found, query_index_not_found,
  query_index_already_exists, unicode_error,
}
use couchbase_python_client.Base.Decimal.{ℤ, pos, codes}
use couchbase_python_client.Base.Value.{Value, null, str, bytes, dict, Fields, get_field, truthy}
use text.Mathlib.Text.{starts_with}

-- How a call ends: it returns, or it raises an exception of a class with the `value` and the `http_status` of its
-- `objextra`, where it has one.
pub record Extra : Type 0 where
  pub value : Value
  pub status : ℕ

pub data Outcome (A : Type 0) : Type 0 where
  returned : A → Outcome A
  raised : Error → Option Extra → Outcome A

-- The patterns of the mappings: `AnyPattern`, a regular expression that is a choice of texts, and one that is `.*`
-- before a text.
pub data Pattern : Type 0 where
  any_pattern : Pattern
  one_of : List String → Pattern
  after_anything : String → Pattern

abbrev pub starts_with_one : List String → String → Bool
starts_with_one [] s = false
starts_with_one (t ∷ ts) s = starts_with s t || starts_with_one ts s

abbrev pub is_prefix : List ℕ → List ℕ → Bool
is_prefix [] s = true
is_prefix (c ∷ p) [] = false
is_prefix (c ∷ p) (d ∷ s) = c == d && is_prefix p s

-- The text stands in the first line; a dot is any character but a newline.
abbrev pub in_first_line : List ℕ → List ℕ → Bool
in_first_line p [] = is_prefix p []
in_first_line p (c ∷ s) = is_prefix p (c ∷ s) || (not (c == 10) && in_first_line p s)

-- `pattern.match(value)`, where a raise counts as no match.
unfoldable pub matches : Pattern → Value → Bool
matches any_pattern v = true
matches (one_of ts) (str s) = starts_with_one ts s
matches (after_anything t) (str s) = in_first_line (codes t) (codes s)
matches _ _ = false

abbrev pub or_null : Option Value → Value
or_null none = null
or_null (some v) = v

-- The entry of the body that tells the error.
unfoldable pub error_entry : Fields → Value
unfolding get_field
error_entry d = elim (get_field "error" d) [
  | some v ↦ v
  | none ↦ elim (get_field "errors" d) [
    | some v ↦ v
    | none ↦ elim (get_field "_" d) [ some v ↦ v | none ↦ dict d ]
  ]
]

-- An entry that is a dict again is given by its name.
abbrev pub name_entry : Value → Value
name_entry (dict d) = if truthy (dict d) then or_null (get_field "name" d) else dict d
name_entry v = v

abbrev pub told : Value → Value
told (dict d) = name_entry (error_entry d)
told v = v

-- A line of a mapping: the class, and its patterns in order.
abbrev pub Line : Type 0
Line = (Error → Bool) × List (Pattern × Error)

-- The first pattern that matches.
unfoldable pub first_match : List (Pattern × Error) → Value → Option Error
unfolding matches
first_match [] v = none
first_match ((p, e) ∷ ps) v = let rest = first_match ps v in if matches p v then some e else rest

module _ (decode : List ℕ → Result String) where
  abbrev pub decoded : Value → Result Value
  decoded (bytes b) = elim (decode b) [ ok s ↦ ok (str s) | err e ↦ err e ]
  decoded v = ok v

  -- What the patterns are held against.
  unfoldable pub error_text : Value → Result Value
  unfolding error_entry get_field truthy
  error_text v = decoded (told v)

  -- One line: the exception that it raises in place of the first.
  unfoldable pub line_match : List (Pattern × Error) → Option Extra → Result (Option Error)
  unfolding error_text first_match
  line_match ps none = ok none
  line_match ps (some x) = elim (error_text x.value) [
    | err e ↦ err e
    | ok v ↦ ok (first_match ps v)
  ]

  abbrev pub line_end : {A : Type 0} → Result (Option Error) → Option Extra → Outcome A → Outcome A
  line_end (err e) x rest = raised e none
  line_end (ok (some t)) x rest = raised t x
  line_end (ok none) x rest = rest

  -- The handler of `mgmt_exc_wrap`, for an exception of class `e`.
  unfoldable pub mapped : {A : Type 0} → List Line → Error → Option Extra → Outcome A
  unfolding line_match
  mapped [] e x = raised e x
  mapped ((applies, ps) ∷ ls) e x =
      let rest = mapped ls e x in if applies e then line_end (line_match ps x) x rest else rest

  -- `ErrorMapper.mgmt_exc_wrap`, by how the wrapped call ended.
  unfoldable pub mgmt_exc_wrap : {A : Type 0} → List Line → Outcome A → Outcome A
  unfolding mapped
  mgmt_exc_wrap ls (returned a) = returned a
  mgmt_exc_wrap ls (raised e x) = if is_couchbase e then mapped ls e x else raised e x

abbrev pub is_http : Error → Bool
is_http http_error = true
is_http _ = false

abbrev pub is_not_found : Error → Bool
is_not_found document_not_found = true
is_not_found _ = false

abbrev pub is_exists : Error → Bool
is_exists document_exists = true
is_exists _ = false

-- `mapping` of the subclasses of `ErrorMapper`.
abbrev pub user_errors : List Line
user_errors =
    (
      is_http,
      (one_of ("Unknown group" ∷ []), group_not_found)
          ∷ (one_of ("Unknown user" ∷ []), user_not_found)
          ∷ [],
    )
    ∷ []

abbrev pub search_errors : List Line
search_errors =
    (
      is_http,
      (after_anything "index not found", search_index_not_found)
          ∷ (one_of ("Page not found" ∷ []), not_supported)
          ∷ [],
    )
    ∷ []

abbrev pub bucket_errors : List Line
bucket_errors =
    (
      is_http,
      (
        one_of
            ("Bucket with given name already exists" ∷ "Bucket with given name still exists" ∷ []),
        bucket_already_exists,
      )
          ∷ (one_of ("Requested resource not found" ∷ []), bucket_does_not_exist)
          ∷ [],
    )
    ∷ []

abbrev pub collection_errors : List Line
collection_errors =
    (
      is_http,
      (one_of ("Scope with this name already exists" ∷ []), scope_already_exists)
          ∷ (one_of ("Scope with this name is not found" ∷ []), scope_not_found)
          ∷ (one_of ("Collection with this name is not found" ∷ []), collection_not_found)
          ∷ (one_of ("Collection with this name already exists" ∷ []), collection_already_exists)
          ∷ [],
    )
    ∷ []

abbrev pub view_errors : List Line
view_errors = (is_http, (one_of ("not_found" ∷ []), design_document_not_found) ∷ []) ∷ []

abbrev pub query_errors : List Line
query_errors =
    (is_not_found, (any_pattern, query_index_not_found) ∷ [])
    ∷ (is_exists, (any_pattern, query_index_already_exists) ∷ [])
    ∷ []

-- `NotSupportedWrapper.a_404_means_not_supported`
unfoldable pub a_404_means_not_supported : {A : Type 0} → Outcome A → Outcome A
a_404_means_not_supported (raised http_error (some x)) =
    if x.status == 404 then raised not_supported none else raised http_error (some x)
a_404_means_not_supported o = o

-- `NotSupportedWrapper.a_400_or_404_means_not_supported`
unfoldable pub a_400_or_404_means_not_supported : {A : Type 0} → Outcome A → Outcome A
a_400_or_404_means_not_supported (raised http_error (some x)) =
    if x.status == 404 || x.status == 400
    then raised not_supported none
    else raised http_error (some x)
a_400_or_404_means_not_supported o = o
