-- ===== src/Views/Handlers.antt =====
-- couchbase_core/views/params.py: the functions that check one option's value and spell it, and the
-- table that gives each option its function.
use couchbase_python_client.Base.{
  String, Bool, Option, none, some, [], ◌∷◌, ◌==◌, contains, string_eq, if◌then◌else◌, Result, ok,
  err, invalid_argument, type_error, bind,
}
use couchbase_python_client.Base.Dict.{Dict}
use couchbase_python_client.Base.Decimal.{ℤ, codes, decimal_ℤ, parse_int}
use couchbase_python_client.Base.Value.{Value, bool, int, float, str, bytes, truthy}
use couchbase_python_client.Base.Json.{dumps}
use text.Mathlib.Text.{starts_with}

abbrev pub spell_bool : Bool → String
spell_bool b = if b then "true" else "false"

-- `_bool_param_handler`
unfoldable pub bool_param_handler : Value → Result String
unfolding truthy
bool_param_handler (bool b) = ok (spell_bool b)
bool_param_handler (str s) =
    if contains ("true" ∷ "false" ∷ []) s then ok s else err invalid_argument
bool_param_handler (int n) = ok (spell_bool (truthy (int n)))
bool_param_handler (float x) = ok (spell_bool (truthy (float x)))
bool_param_handler _ = err invalid_argument

abbrev pub or_invalid : Option ℤ → Result String
or_invalid none = err invalid_argument
or_invalid (some n) = ok (decimal_ℤ n)

-- `_num_param_handler`: `str(int(input))`.
unfoldable pub num_param_handler : Value → Result String
num_param_handler (int n) = ok (decimal_ℤ n)
num_param_handler (float x) = or_invalid x.truncated
num_param_handler (str s) = or_invalid (parse_int (codes s))
num_param_handler (bytes b) = or_invalid (parse_int b)
num_param_handler _ = err invalid_argument

-- `_string_param_common`, which forces `do_quote` to `False`.
unfoldable pub string_param_common : Value → Result String
string_param_common (str s) = ok s
string_param_common (int n) = ok (decimal_ℤ n)
string_param_common (float x) = ok x.repr
string_param_common _ = err invalid_argument

-- `_string_param_handler`
abbrev pub string_param_handler : Value → Result String
string_param_handler v = string_param_common v

-- `_generic_param_handler` passes a keyword that `_string_param_handler` does not take.
pub generic_param_handler : Value → Result String
generic_param_handler v = err type_error

abbrev pub ok_if_true : String → String
ok_if_true s = if s == "true" then "ok" else s

unfoldable pub stale_flag : Value → Result String
unfolding bool_param_handler
stale_flag v = bind (bool_param_handler v) λ s. ok (ok_if_true s)

-- `_stale_param_handler`
unfoldable pub stale_param_handler : Value → Result String
unfolding stale_flag
stale_param_handler (str s) =
    if contains ("update_after" ∷ "ok" ∷ "false" ∷ []) s then ok s else stale_flag (str s)
stale_param_handler v = stale_flag v

-- `_onerror_param_handler`
unfoldable pub onerror_param_handler : Value → Result String
onerror_param_handler (str s) =
    if contains ("continue" ∷ "stop" ∷ []) s then ok s else err invalid_argument
onerror_param_handler _ = err invalid_argument

abbrev pub invalid_on_error : Result String → Result String
invalid_on_error (ok s) = ok s
invalid_on_error (err _) = err invalid_argument

-- `_jval_param_handler`
unfoldable pub jval_param_handler : Value → Result String
unfolding string_param_common
jval_param_handler v = invalid_on_error (bind (dumps v) λ s. string_param_handler (str s))

-- `_jarry_param_handler`
unfoldable pub jarry_param_handler : Value → Result String
unfolding jval_param_handler
jarry_param_handler v =
    bind (jval_param_handler v) λ s. if starts_with s "[" then ok s else err invalid_argument

pub data Handler : Type 0 where
  bool_param num_param string_param stale_param onerror_param jval_param jarry_param : Handler

unfoldable pub run_handler : Handler → Value → Result String
run_handler bool_param v = bool_param_handler v
run_handler num_param v = num_param_handler v
run_handler string_param v = string_param_handler v
run_handler stale_param v = stale_param_handler v
run_handler onerror_param v = onerror_param_handler v
run_handler jval_param v = jval_param_handler v
run_handler jarry_param v = jarry_param_handler v

-- `_HANDLER_MAP`
abbrev pub handler_map : Dict String Handler
handler_map =
    ("descending", bool_param)
    ∷ ("startkey", jval_param)
    ∷ ("startkey_docid", string_param)
    ∷ ("endkey", jval_param)
    ∷ ("endkey_docid", string_param)
    ∷ ("full_set", bool_param)
    ∷ ("group", bool_param)
    ∷ ("group_level", num_param)
    ∷ ("inclusive_end", bool_param)
    ∷ ("key", jval_param)
    ∷ ("keys", jarry_param)
    ∷ ("on_error", onerror_param)
    ∷ ("reduce", bool_param)
    ∷ ("stale", stale_param)
    ∷ ("skip", num_param)
    ∷ ("limit", num_param)
    ∷ ("debug", bool_param)
    ∷ ("connection_timeout", num_param)
    ∷ ("start_range", jarry_param)
    ∷ ("end_range", jarry_param)
    ∷ []
