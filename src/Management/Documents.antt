-- ===== src/Management/Documents.antt =====
-- couchbase/management/views.py: design documents.
pub mod Names
pub mod Manager
pub mod Asked
pub mod Kept
pub mod Published
mod Tests
use Prim.Native.Char.{code}
use Prim.Native.String.{[] as empty_text, ◌∷◌ as ◌::◌}
use couchbase_python_client.Base.{
  ℕ, String, ◌<>◌, Bool, true, false, not, ◌&&◌, ◌||◌, Option, none, some, List, [], ◌∷◌, ◌==◌,
  string_eq, nat_eq, contains, if◌then◌else◌, Result, ok, err, bind, type_error, attribute_error,
  outside_model,
}
use couchbase_python_client.Base.Decimal.{codes}
use couchbase_python_client.Base.Dict.{Dict, lookup, insert, has}
use couchbase_python_client.Base.Value.{
  Value, null, str, dict, list, Items, nil, cons, Fields, end, field, get_field, truthy,
}
use couchbase_python_client.Base.Json.{dumps}
use couchbase_python_client.Options.Forward.{Argument, plain, Block, forward_args}
use couchbase_python_client.Exceptions.{Outcome, returned, raised, view_errors, mgmt_exc_wrap}
use couchbase_python_client.Designs.{mk_devmode}
use couchbase_python_client.Designs.Operations.{item}
use text.Mathlib.Text.{starts_with}

pub data DesignDocumentNamespace : Type 0 where
  production development : DesignDocumentNamespace

-- The value of the member.
abbrev pub is_development : DesignDocumentNamespace → Bool
is_development production = false
is_development development = true

unfoldable pub prefix : DesignDocumentNamespace → String → String
unfolding mk_devmode
prefix ns ddocname = mk_devmode ddocname (is_development ns)

-- `name.lstrip(chars)`, with the codes of `chars`: every leading character goes that is one of them.
unfoldable pub lstrip : List ℕ → String → String
lstrip cs empty_text = ""
lstrip cs (c :: s) = let rest = lstrip cs s in if contains cs (code c) then rest else c :: s

unfoldable pub unprefix : String → String
unfolding lstrip
unprefix name = lstrip (codes "_dev") (lstrip (codes "_design/") name)

pub record View : Type 0 where
  pub map : Value
  pub reduce : Value

abbrev pub or_null : Option Value → Value
or_null none = null
or_null (some v) = v

unfoldable pub only_keys : List String → Fields → Bool
only_keys ks end = true
only_keys ks (field k v d) = contains ks k && only_keys ks d

abbrev pub view_with : Option Value → Value → Result View
view_with none reduce = err type_error
view_with (some m) reduce = ok record { map = m; reduce = reduce }

-- `View(**value)`
unfoldable pub view_of : Value → Result View
unfolding only_keys get_field
view_of (dict d) =
    if only_keys ("map" ∷ "reduce" ∷ []) d
    then view_with (get_field "map" d) (or_null (get_field "reduce" d))
    else err type_error
view_of _ = err type_error

abbrev pub kept : String → Value → Fields → Fields
kept k v d = if truthy v then field k v d else d

-- `View.as_dict`
unfoldable pub view_dict : View → Value
unfolding truthy
view_dict v = dict (kept "map" v.map (kept "reduce" v.reduce end))

pub record DesignDocument : Type 0 where
  pub name : String
  pub views : Dict String View

-- `DesignDocument.__init__`
unfoldable pub document : String → Dict String View → DesignDocument
unfolding unprefix
document name views = record { name = unprefix name; views = views }

-- `{key: View(**value) for key, value in views.items()}`
unfoldable pub views_of : Fields → Result (Dict String View)
unfolding view_of
views_of end = ok []
views_of (field k v d) = bind (view_of v) λ view. bind (views_of d) λ rest. ok ((k, view) ∷ rest)

abbrev pub views_entry : Option Value → Result (Dict String View)
views_entry none = ok []
views_entry (some (dict d)) = views_of d
views_entry (some _) = err attribute_error

abbrev pub has_field : String → Fields → Bool
has_field k d = elim (get_field k d) [ none ↦ false | some _ ↦ true ]

-- `DesignDocument.from_json(name, **kwargs)`, where `name` and `cls` are arguments already.
unfoldable pub from_json : String → Value → Result DesignDocument
unfolding views_of get_field document
from_json name (dict d) =
    if has_field "name" d || has_field "cls" d
    then err type_error
    else bind (views_entry (get_field "views" d)) λ views. ok (document name views)
from_json name _ = err type_error

unfoldable pub view_fields : Dict String View → Fields
unfolding view_dict
view_fields [] = end
view_fields ((k, v) ∷ views) = field k (view_dict v) (view_fields views)

-- `DesignDocument.as_dict`
unfoldable pub as_dict : DesignDocumentNamespace → DesignDocument → Value
unfolding prefix view_fields
as_dict ns doc = dict (
    field "_id" (str ("_design/" <> prefix ns doc.name))
      (field "language" (str "javascript") (field "views" (dict (view_fields doc.views)) end)))

unfoldable pub add_view : String → View → DesignDocument → DesignDocument
unfolding insert
add_view name view doc = record doc { views = insert name view doc.views }

unfoldable pub get_view : String → DesignDocument → Option View
unfolding lookup
get_view name doc = lookup name doc.views

-- `v.startswith(t)`
abbrev pub starts : Value → String → Result Bool
starts (str s) t = ok (starts_with s t)
starts _ t = err attribute_error

abbrev pub same_namespace : DesignDocumentNamespace → Bool → Bool
same_namespace production b = not b
same_namespace development b = b

abbrev pub row_id : Value → Result Value
row_id r = bind (bind (item "doc" r) (item "meta")) (item "id")

-- `matches`
unfoldable pub matches : DesignDocumentNamespace → Value → Result Bool
unfolding get_field
matches ns r = bind (row_id r) λ id. bind (starts id "_design/dev_") λ b. ok (same_namespace ns b)

-- `[r for r in rows if matches(r)]`
unfoldable pub matching : DesignDocumentNamespace → Items → Result (List Value)
unfolding matches
matching ns nil = ok []
matching ns (cons r rs) =
    bind (matches ns r) λ b. bind (matching ns rs) λ rest. ok (if b then r ∷ rest else rest)

abbrev pub named_by : Value → Value → Result DesignDocument
named_by (str s) v = from_json s v
named_by _ v = err attribute_error

-- `DesignDocument.from_json` of a row
unfoldable pub row_document : Value → Result DesignDocument
unfolding from_json get_field
row_document r = bind (row_id r) λ id. bind (bind (item "doc" r) (item "json")) λ v. named_by id v

unfoldable pub row_documents : List Value → Result (List DesignDocument)
unfolding row_document
row_documents [] = ok []
row_documents (r ∷ rs) =
    bind (row_document r) λ doc. bind (row_documents rs) λ docs. ok (doc ∷ docs)

abbrev pub rows_of : Value → Result Items
rows_of (list rs) = ok rs
rows_of _ = err outside_model

-- What `get_all_design_documents` makes of the response, where its rows are a list.
unfoldable pub all_documents : DesignDocumentNamespace → Value → Result (List DesignDocument)
unfolding matching row_documents get_field
all_documents ns v = bind (bind (item "rows" v) rows_of) λ rs. bind (matching ns rs) row_documents
