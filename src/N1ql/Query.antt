-- ===== src/N1ql/Query.antt =====
-- couchbase_core/n1ql.py: `_N1QLQuery`, the options of a query.
use couchbase_python_client.Base.{
  ℕ, String, ◌<>◌, Bool, true, false, not, Option, none, some, List, [], ◌∷◌, contains, string_eq,
  if◌then◌else◌, Result, ok, err, type_error, attribute_error, value_error, overflow_error, Exec,
  ◌>>=◌, raise, lift, modify, bind,
}
use couchbase_python_client.Base.Dict.{Dict, lookup, insert, erase}
use couchbase_python_client.Base.Decimal.{ℤ, pos, codes, decimal_ℤ, parse_int}
use couchbase_python_client.Base.Json.{dumps}
use couchbase_python_client.Base.Value.{
  Value, bool, int, float, str, bytes, list, dict, Items, nil, cons, Fields, end, field, truthy,
  to_items, Floating,
}
use Prim.Native.String.{[] as empty_text, ◌∷◌ as ◌::◌}

pub record N1qlQuery : Type 0 where
  pub adhoc : Bool
  pub cross_bucket : Bool
  pub body : Dict String Value

-- `set_option`
unfoldable pub set_option : String → Value → N1qlQuery → N1qlQuery
set_option name v q = record q { body = insert name v q.body }

-- `_set_named_args`
unfoldable pub set_named_args : List (String × Value) → N1qlQuery → N1qlQuery
unfolding set_option
set_named_args [] q = q
set_named_args ((k, v) ∷ kv) q = set_named_args kv (set_option ("$" <> k) v q)

-- `self._body.setdefault(k, d)`: what it returns.
abbrev pub stored_or : Value → Option Value → Value
stored_or d none = d
stored_or d (some v) = v

unfoldable pub append_items : Items → List Value → Items
append_items nil args = to_items args
append_items (cons v vs) args = cons v (append_items vs args)

unfoldable pub extend_args : Value → List Value → Exec N1qlQuery (Unit {0})
unfolding append_items set_option
extend_args (list vs) args = modify (set_option "args" (list (append_items vs args)))
extend_args _ args = raise attribute_error

-- `_add_pos_args`: only a list has `extend`.
unfoldable pub add_pos_args : List Value → Exec N1qlQuery (Unit {0})
unfolding extend_args
add_pos_args args q = extend_args (stored_or (list nil) (lookup "args" q.body)) args q

-- `__init__`
unfoldable pub new : Value → List Value → List (String × Value) → Result N1qlQuery
unfolding add_pos_args set_named_args
new statement args kwargs =
    let q : N1qlQuery = record {
      adhoc = true;
      cross_bucket = false;
      body = ("statement", statement) ∷ [];
    } in
    elim args [
      | [] ↦ ok (set_named_args kwargs q)
      | v ∷ vs ↦
          bind (add_pos_args (v ∷ vs) q).0
            λ _. ok (set_named_args kwargs (add_pos_args (v ∷ vs) q).1)
    ]

abbrev pub get_or : Value → String → N1qlQuery → Value
get_or d k q = stored_or d (lookup k q.body)

-- The getters of the plain options.
unfoldable pub metrics : N1qlQuery → Value
metrics = get_or (bool true) "metrics"

unfoldable pub consistency : N1qlQuery → Value
consistency = get_or (str "not_bounded") "scan_consistency"

unfoldable pub readonly : N1qlQuery → Value
readonly = get_or (bool false) "readonly"

unfoldable pub profile : N1qlQuery → Value
profile = get_or (str "off") "profile"

-- `v in (a, b, …)` for texts.
abbrev pub is_one_of : List String → Value → Bool
is_one_of xs (str s) = contains xs s
is_one_of xs _ = false

-- `consistent_with`; the state is given by its scan vectors, and is false when it has none.
unfoldable pub consistent_with : Fields → Exec N1qlQuery (Unit {0})
unfolding consistency set_option truthy
consistent_with sv q =
    if not (is_one_of ("none" ∷ "not_bounded" ∷ "at_plus" ∷ []) (consistency q))
    then (err type_error, q)
    else if not (truthy (dict sv))
    then (err type_error, q)
    else (
      ok tt,
      set_option "scan_vectors" (dict sv) (set_option "scan_consistency" (str "at_plus") q),
    )

-- The setters of `scan_cap`, `pipeline_batch` and `pipeline_cap` at an integer.
unfoldable pub set_cap : String → ℤ → N1qlQuery → N1qlQuery
unfolding set_option
set_cap name n q = set_option name (str (decimal_ℤ n)) q

abbrev or_value_error : Option ℤ → Result ℤ
or_value_error none = err value_error
or_value_error (some n) = ok n

abbrev or_overflow : Option ℤ → Result ℤ
or_overflow none = err overflow_error
or_overflow (some n) = ok n

-- `int(v)`; that of NaN would be a `ValueError`.
unfoldable pub to_int : Value → Result ℤ
to_int (int n) = ok n
to_int (bool b) = ok (pos (if b then 1 else 0))
to_int (str s) = or_value_error (parse_int (codes s))
to_int (bytes b) = or_value_error (parse_int b)
to_int (float x) = or_overflow x.truncated
to_int _ = err type_error

-- Their getters.
unfoldable pub get_cap : String → N1qlQuery → Result ℤ
unfolding to_int
get_cap name q = to_int (get_or (str "0") name q)

-- The setter of `profile`.
unfoldable pub set_profile : Value → Exec N1qlQuery (Unit {0})
unfolding set_option
set_profile v q =
    if is_one_of ("off" ∷ "timings" ∷ "phases" ∷ []) v
    then (ok tt, set_option "profile" v q)
    else (err type_error, q)

-- `s[:-1]`
unfoldable pub drop_last : String → String
drop_last empty_text = ""
drop_last (c :: empty_text) = ""
drop_last (c :: d :: s) = c :: drop_last (d :: s)

unfoldable pub drop_last_byte : List ℕ → List ℕ
drop_last_byte [] = []
drop_last_byte (b ∷ []) = []
drop_last_byte (b ∷ c ∷ s) = b ∷ drop_last_byte (c ∷ s)

-- `value[:-1]` of what `float` may take; a list has slices that `float` refuses with the same error.
unfoldable pub without_unit : Value → Result Value
unfolding drop_last drop_last_byte
without_unit (str s) = ok (str (drop_last s))
without_unit (bytes s) = ok (bytes (drop_last_byte s))
without_unit _ = err type_error

-- `float(v)` is a parameter.
module _ (to_float : Value → Result Floating) where
  -- The setter of `timeout`; `'{0}s'.format(x)` of a float is its `repr`.
  unfoldable pub set_timeout : Value → Exec N1qlQuery (Unit {0})
  unfolding truthy set_option
  set_timeout v q =
      if truthy v
      then (lift (to_float v) >>= λ x. modify (set_option "timeout" (str (x.repr <> "s")))) q
      else (ok tt, record q { body = erase "timeout" q.body })

  -- Its getter.
  unfoldable pub get_timeout : N1qlQuery → Result Floating
  unfolding without_unit
  get_timeout q = bind (without_unit (get_or (str "0s") "timeout" q)) to_float

-- A dict as a value.
abbrev pub to_fields : Dict String Value → Fields
to_fields [] = end
to_fields ((k, v) ∷ d) = field k v (to_fields d)

-- `encoded`
unfoldable pub encoded : N1qlQuery → Result String
unfolding dumps
encoded q = dumps (dict (to_fields q.body))
