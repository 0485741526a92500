-- ===== src/Ixmgmt/Index.antt =====
-- couchbase_core/_ixmgmt.py: `N1qlIndex`, a view of the raw JSON of an index.
use couchbase_python_client.Base.{
  String, not, Option, none, some, ◌==◌, string_eq, if◌then◌else◌, Result, ok, err, attribute_error,
  type_error,
}
use couchbase_python_client.Base.Value.{
  Value, null, list, dict, str, Fields, end, field, get_field, set_field, truthy,
}
use couchbase_python_client.Base.Json.{dumps}

-- `N1qlIndex`, by its `raw`.
pub record N1qlIndex : Type 0 where
  pub raw : Value

abbrev pub index_of : Value → N1qlIndex
index_of v = record { raw = v }

-- `raw.copy()`, which dicts and lists have.
abbrev pub copied : Value → Result N1qlIndex
copied (dict d) = ok (index_of (dict d))
copied (list vs) = ok (index_of (list vs))
copied _ = err attribute_error

-- `N1qlIndex(raw)` for a JSON value.
unfoldable pub make : Value → Result N1qlIndex
unfolding truthy
make raw = if not (truthy raw) then ok (index_of (dict end)) else copied raw

-- `N1qlIndex(raw)` for another index.
unfoldable pub make_copy : N1qlIndex → Result N1qlIndex
make_copy ix = copied ix.raw

abbrev pub present : Option Value → Value
present none = null
present (some v) = v

-- `_genprop`: `fget`, `fset`, `fdel` of the property that stands for a key.
unfoldable pub fget : String → N1qlIndex → Result Value
unfolding get_field
fget k ix = elim ix.raw [ dict d ↦ ok (present (get_field k d)) | _ ↦ err attribute_error ]

unfoldable pub fset : String → Value → N1qlIndex → Result N1qlIndex
unfolding set_field
fset k v ix = elim ix.raw [ dict d ↦ ok (index_of (dict (set_field k v d))) | _ ↦ err type_error ]

unfoldable pub remove : String → Fields → Fields
remove k end = end
remove k (field j v d) = let rest = remove k d in if k == j then rest else field j v rest

unfoldable pub fdel : String → N1qlIndex → Result N1qlIndex
unfolding remove
fdel k ix = elim ix.raw [ dict d ↦ ok (index_of (dict (remove k d))) | _ ↦ err type_error ]

-- What `from_any` takes: an index, or a name or nothing.
pub data IndexLike : Type 0 where
  index : N1qlIndex → IndexLike
  named : Value → IndexLike

-- `from_any`
unfoldable pub from_any : IndexLike → Value → Result N1qlIndex
unfolding make truthy
from_any (index ix) bucket = make ix.raw
from_any (named obj) bucket = make (
    dict (
      field "namespace_id" (str "default") (
        field "keyspace_id" bucket (
          field "name" (if truthy obj then obj else str "#primary")
            (field "using" (str "gsi") end)))))

-- An index argument: JSON or an index.
pub data IndexArgument : Type 0 where
  raw_json : Value → IndexArgument
  object : N1qlIndex → IndexArgument

-- `index_to_rawjson`
unfoldable pub index_to_rawjson : IndexArgument → Result String
unfolding dumps
index_to_rawjson (raw_json v) = dumps v
index_to_rawjson (object ix) = dumps ix.raw
