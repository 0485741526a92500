-- ===== src/Views/Update.antt =====
-- couchbase_core/views/params.py: setting options by keyword, `QueryBase.__init__`, `update`,
-- `from_any` and `make_options_string`.
use couchbase_python_client.Base.{
  String, ◌<>◌, Bool, true, false, ◌||◌, Option, none, some, List, [], ◌∷◌, ◌++◌, string_eq,
  if◌then◌else◌, Result, ok, err, invalid_argument, attribute_error, outside_model, Exec, ◌>>◌,
  pure, raise, modify, contains, bind,
}
use couchbase_python_client.Base.Dict.{Dict, lookup, insert, erase, has}
use couchbase_python_client.Base.Value.{Value, bool, truthy}
use couchbase_python_client.Views.Query.{
  QueryClass, query_base, view_query, spatial_query, query, QueryBase, set_common, set_range_common,
}
use couchbase_python_client.Views.Encode.{encoded}
use text.Mathlib.Text.{starts_with}

-- What `setattr` meets under a name: an option's property, a range property, a plain attribute, a
-- property with no setter, or a method or private field, whose overwriting is not modelled.
pub data Attribute : Type 0 where
  prop : String → Attribute
  range : String → String → String → Attribute
  passthrough_flag unrecognized_flag read_only internal : Attribute

abbrev pub base_attributes : Dict String Attribute
base_attributes =
    ("stale", prop "stale")
    ∷ ("skip", prop "skip")
    ∷ ("limit", prop "limit")
    ∷ ("full_set", prop "full_set")
    ∷ ("connection_timeout", prop "connection_timeout")
    ∷ ("debug", prop "debug")
    ∷ ("on_error", prop "on_error")
    ∷ ("passthrough", passthrough_flag)
    ∷ ("unrecognized_ok", unrecognized_flag)
    ∷ ("encoded", read_only)
    ∷ ("_long_query_encoded", read_only)
    ∷ ("has_blob", read_only)
    ∷ []

abbrev pub view_attributes : Dict String Attribute
view_attributes =
    ("descending", prop "descending")
    ∷ ("startkey", prop "startkey")
    ∷ ("endkey", prop "endkey")
    ∷ ("startkey_docid", prop "startkey_docid")
    ∷ ("endkey_docid", prop "endkey_docid")
    ∷ ("keys", prop "keys")
    ∷ ("key", prop "key")
    ∷ ("inclusive_end", prop "inclusive_end")
    ∷ ("reduce", prop "reduce")
    ∷ ("group", prop "group")
    ∷ ("group_level", prop "group_level")
    ∷ ("mapkey_single", prop "key")
    ∷ ("mapkey_multi", prop "keys")
    ∷ ("mapkey_range", range "mapkey_range" "startkey" "endkey")
    ∷ ("dockey_range", range "dockey_range" "startkey_docid" "endkey_docid")
    ∷ []

abbrev pub spatial_attributes : Dict String Attribute
spatial_attributes = ("start_range", prop "start_range") ∷ ("end_range", prop "end_range") ∷ []

-- Methods, private fields and constants of the class.
abbrev internal_names : List String
internal_names =
    "_set_common" ∷ "_get_common" ∷ "_set_range_common" ∷ "STRING_RANGE_END" ∷ "update" ∷ "from_any"
    ∷ "from_string" ∷ "_encode" ∷ "_real_options" ∷ "_user_options" ∷ "_extra_options" ∷ "_encoded"
    ∷ "_base_str" ∷ []

abbrev attributes_of : QueryClass → Dict String Attribute
attributes_of query_base = base_attributes
attributes_of view_query = view_attributes ++ base_attributes
attributes_of query = view_attributes ++ base_attributes
attributes_of spatial_query = spatial_attributes ++ base_attributes

-- `hasattr(self, k)`, with what stands there.
unfoldable pub attribute : QueryClass → String → Option Attribute
unfolding lookup
attribute c k =
    if contains internal_names k || starts_with k "__"
    then some internal
    else lookup k (attributes_of c)

-- `setattr(self, k, v)`
unfoldable pub set_attribute : Attribute → Value → Exec QueryBase (Unit {0})
unfolding truthy
set_attribute (prop p) v = set_common p v true
set_attribute (range s b e) v = set_range_common s b e v
set_attribute passthrough_flag v = modify λ q. record q { passthrough = truthy v }
set_attribute unrecognized_flag v = modify λ q. record q { unrecognized_ok = truthy v }
set_attribute read_only v = raise attribute_error
set_attribute internal v = raise outside_model

-- One round of the loop of `update`.
unfoldable pub update_one : String → Value → Exec QueryBase (Unit {0})
update_one k v q = elim (attribute q.cls k) [
  | none ↦ if q.unrecognized_ok then set_common k v true q else (err invalid_argument, q)
  | some a ↦ set_attribute a v q
]

unfoldable pub update_all : List (String × Value) → Exec QueryBase (Unit {0})
update_all [] = pure tt
update_all ((k, v) ∷ params) = update_one k v >> update_all params

-- `update`: what it returns, and the object that it was called on. A deep copy is the value itself.
unfoldable pub update : Bool → List (String × Value) → QueryBase → Result QueryBase × QueryBase
update copy params q =
    let (r, q') = update_all params q in (bind r (λ _. ok q'), if copy then q else q')

abbrev pub fresh : QueryClass → Bool → Bool → QueryBase
fresh c passthrough unrecognized_ok = record {
  cls = c;
  passthrough = passthrough;
  unrecognized_ok = unrecognized_ok;
  real_options = [];
  user_options = [];
  extra_options = [];
  cached = none;
  base_str = "";
}

-- `QueryBase.__init__`
unfoldable pub init : QueryClass → Bool → Bool → List (String × Value) → Result QueryBase
unfolding update
init c passthrough unrecognized_ok params =
    (update false params (fresh c passthrough unrecognized_ok)).0

abbrev flag_of : String → Dict String Value → Bool
flag_of k d = elim (lookup k d) [ none ↦ false | some v ↦ truthy v ]

-- `cls(**ctor_opts)`: two keywords are arguments of their own.
unfoldable pub construct : QueryClass → Dict String Value → Result QueryBase
unfolding init lookup erase truthy
construct c opts =
    init c (flag_of "passthrough" opts) (flag_of "unrecognized_ok" opts)
      (erase "unrecognized_ok" (erase "passthrough" opts))

pub data Params : Type 0 where
  object : QueryBase → Params
  options : Dict String Value → Params
  query_text : String → Params
  other : Params

-- `isinstance(_, cls)` for an object of class `c`.
abbrev pub is_instance : QueryClass → QueryClass → Bool
is_instance _ query_base = true
is_instance view_query view_query = true
is_instance query view_query = true
is_instance query query = true
is_instance spatial_query spatial_query = true
is_instance _ _ = false

-- `d.update(**e)`
unfoldable pub merge : Dict String Value → List (String × Value) → Dict String Value
unfolding insert
merge d [] = d
merge d ((k, v) ∷ e) = merge (insert k v d) e

-- `from_any`; `ok none` is Python's `None`, which a dictionary gives on any class but `QueryBase`.
unfoldable pub from_any : QueryClass → Params → Dict String Value → Result (Option QueryBase)
unfolding construct merge
from_any c (object q) ctor_opts = if is_instance q.cls c then ok (some q) else err invalid_argument
from_any query_base (options params) ctor_opts =
    let spatial = has "bbox" params || (has "start_range" params || has "end_range" params) in
    bind (construct (if spatial then spatial_query else view_query) (merge ctor_opts params))
      λ q. ok (some q)
from_any c (options params) ctor_opts = ok none
from_any c (query_text s) ctor_opts =
    bind (init c false false []) λ q. ok (some (record q { base_str = s }))
from_any c other ctor_opts = err invalid_argument

-- `None.encoded` would be an `AttributeError`.
abbrev encoded_of : Option QueryBase → Result String
encoded_of none = err attribute_error
encoded_of (some q) = ok (encoded q).0

-- `make_options_string`
unfoldable pub make_options_string : Params → Bool → Bool → Result String
unfolding from_any encoded
make_options_string input unrecognized_ok passthrough =
    bind
      (from_any query_base input
        (("unrecognized_ok", bool unrecognized_ok) ∷ ("passthrough", bool passthrough) ∷ []))
      encoded_of

-- `make_dvpath`
unfoldable pub make_dvpath : String → String → String
make_dvpath doc view = "_design/" <> (doc <> ("/_view/" <> (view <> "?")))
