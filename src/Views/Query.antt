-- ===== src/Views/Query.antt =====
-- couchbase_core/views/params.py: `QueryBase` and its subclasses. An object is a record; a method
-- that may raise returns what it raised and the object as the raise left it.
use couchbase_python_client.Base.{
  String, Bool, true, false, ◌||◌, not, Option, none, some, string_eq, if◌then◌else◌, ok, err,
  invalid_argument, attribute_error, Exec, ◌>>=◌, ◌>>◌, raise, lift, modify,
}
use couchbase_python_client.Base.Dict.{Dict, lookup, insert, erase}
use couchbase_python_client.Base.Value.{
  Value, unspec, str, list, tuple, nil, cons, truthy, is_unspec,
}
use couchbase_python_client.Views.Handlers.{
  Handler, string_param, run_handler, string_param_handler, handler_map,
}

-- The classes; `Query` is `ViewQuery` under another name.
pub data QueryClass : Type 0 where
  query_base view_query spatial_query query : QueryClass

pub record QueryBase : Type 0 where
  pub cls : QueryClass
  pub passthrough : Bool
  pub unrecognized_ok : Bool
  pub real_options : Dict String String
  pub user_options : Dict String Value
  pub extra_options : Dict String String
  -- `_encoded`
  pub cached : Option String
  pub base_str : String

unfoldable pub handler_of : String → Option Handler
unfolding lookup
handler_of p = lookup p handler_map

-- `handler = _string_param_handler` in passthrough mode.
unfoldable pub effective : Bool → Handler → Handler
effective passthrough h = if passthrough then string_param else h

-- The last two branches of `_set_common`: the cache is empty already.
unfoldable pub set_extra : String → Value → Exec QueryBase (Unit {0})
set_extra p v = lift (string_param_handler v) >>= λ s.
    modify λ q. record q { extra_options = insert p s q.extra_options }

unfoldable pub set_real : String → Value → Bool → Handler → Exec QueryBase (Unit {0})
set_real p v set_user h q =
    (lift (run_handler (effective q.passthrough h) v) >>= λ s. modify λ q. record q {
      real_options = insert p s q.real_options;
      user_options = if set_user then insert p v q.user_options else q.user_options;
    })
      q

unfoldable pub unset : String → Bool → QueryBase → QueryBase
unset p set_user q = record q {
  real_options = erase p q.real_options;
  user_options = if set_user then erase p q.user_options else q.user_options;
}

unfoldable pub set_value : String → Value → Bool → Exec QueryBase (Unit {0})
unfolding set_extra set_real
set_value p v set_user q = elim (handler_of p) [
  | none ↦ if q.unrecognized_ok then set_extra p v q else (err invalid_argument, q)
  | some h ↦ set_real p v set_user h q
]

-- `_set_common`
unfoldable pub set_common : String → Value → Bool → Exec QueryBase (Unit {0})
unfolding set_value unset
set_common p v set_user q =
    let q' = record q { cached = none } in
    if is_unspec v then (ok tt, unset p set_user q') else set_value p v set_user q'

-- `_get_common`
unfoldable pub get_common : String → QueryBase → Value
get_common p q = elim (lookup p q.user_options) [
  | some v ↦ v
  | none ↦ elim (lookup p q.real_options) [ none ↦ unspec | some s ↦ str s ]
]

abbrev pub user_has : String → QueryBase → Bool
user_has p q = elim (lookup p q.user_options) [ none ↦ false | some v ↦ not (is_unspec v) ]

abbrev pub set_sugar : String → Value → Exec QueryBase (Unit {0})
set_sugar k_sugar v = modify λ q. record q { user_options = insert k_sugar v q.user_options }

-- The loop at the end of `_set_range_common`.
unfoldable pub set_ends :
    String → String → String → Value → Value → Value → Exec QueryBase (Unit {0})
unfolding set_common
set_ends k_sugar k_start k_end first second kept =
    set_common k_start first false >> (set_common k_end second false >> set_sugar k_sugar kept)

-- `value` by its length; a tuple has no `append`.
unfoldable pub set_range_items : String → String → String → Value → Exec QueryBase (Unit {0})
unfolding set_ends
set_range_items s b e (list (cons x nil)) =
    set_ends s b e x unspec (list (cons x (cons unspec nil)))
set_range_items s b e (tuple (cons x nil)) = raise attribute_error
set_range_items s b e (list (cons x (cons y nil))) = set_ends s b e x y (list (cons x (cons y nil)))
set_range_items s b e (tuple (cons x (cons y nil))) =
    set_ends s b e x y (tuple (cons x (cons y nil)))
set_range_items s b e _ = raise invalid_argument

abbrev pub is_range : Value → Bool
is_range (list _) = true
is_range (tuple _) = true
is_range unspec = true
is_range _ = false

-- `_set_range_common`
unfoldable pub set_range_common : String → String → String → Value → Exec QueryBase (Unit {0})
unfolding set_range_items set_ends truthy
set_range_common k_sugar k_start k_end value q =
    if not (is_range value)
    then (err invalid_argument, q)
    else if user_has k_start q || user_has k_end q
    then (err invalid_argument, q)
    else if truthy value
    then set_range_items k_sugar k_start k_end value q
    else set_ends k_sugar k_start k_end unspec unspec unspec q

-- The getter of `_rangeprop`.
unfoldable pub get_range : String → QueryBase → Value
get_range k_sugar q = elim (lookup k_sugar q.user_options) [ none ↦ unspec | some v ↦ v ]
