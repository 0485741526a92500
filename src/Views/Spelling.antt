-- ===== src/Views/Spelling.antt =====
-- couchbase_core/views/params.py: every text in `_real_options` belongs to a known option and has the
-- form that the option's handler gives.
use couchbase_python_client.Base.{
  Result-cases, String, ◌≡◌, ◌⊎◌, inl, inr, Bool, true, false, Option, none, some, ok, string_eq,
  arith, All, Result-cases,
}
use couchbase_python_client.Base.Decimal.{ℤ, decimal_ℤ, codes, parse_int}
use couchbase_python_client.Base.Json.{dumps}
use couchbase_python_client.Base.Value.{Value, bool, int, float, str, bytes}
use couchbase_python_client.Views.Handlers.{
  Handler, bool_param, num_param, string_param, stale_param, onerror_param, jval_param, jarry_param,
  spell_bool, bool_param_handler, num_param_handler, stale_param_handler, onerror_param_handler,
  or_invalid, stale_flag, jval_param_handler, jarry_param_handler, run_handler,
}
use couchbase_python_client.Views.Query.{set_common}
use couchbase_python_client.Views.Query.{QueryBase, handler_of, effective, set_common}
use couchbase_python_client.Views.Assigned.{Assigned}
use text.Mathlib.Text.{starts_with}

abbrev pub Spelled : Handler → String → Type 0
Spelled bool_param s = (s ≡ "true") ⊎ (s ≡ "false")
Spelled num_param s = (n : ℤ) × (s ≡ decimal_ℤ n)
Spelled string_param s = Unit
Spelled stale_param s = (s ≡ "update_after") ⊎ ((s ≡ "ok") ⊎ (s ≡ "false"))
Spelled onerror_param s = (s ≡ "continue") ⊎ (s ≡ "stop")
Spelled jval_param s = (v : Value) × (dumps v ≡ ok s)
Spelled jarry_param s = (v : Value) × (dumps v ≡ ok s) × (starts_with s "[" ≡ true)

spell_bool-Spelled : (b : Bool) {s : String} → ok (spell_bool b) ≡ ok s → Spelled bool_param s
spell_bool-Spelled true h = ground arith
spell_bool-Spelled false h = ground arith

bool-Spelled : (v : Value) (s : String) → bool_param_handler v ≡ ok s → Spelled bool_param s
unfolding bool_param_handler
bool-Spelled (bool b) s h = spell_bool-Spelled b h
bool-Spelled (str t) s h = ground arith
bool-Spelled (int n) s h = spell_bool-Spelled _ h
bool-Spelled (float x) s h = spell_bool-Spelled _ h
bool-Spelled _ s h = cc

or_invalid-Spelled : (o : Option ℤ) {s : String} → or_invalid o ≡ ok s → Spelled num_param s
or_invalid-Spelled none h = cc
or_invalid-Spelled (some n) h = (n, ground arith)

num-Spelled : (v : Value) (s : String) → num_param_handler v ≡ ok s → Spelled num_param s
unfolding num_param_handler
num-Spelled (int n) s h = (n, ground arith)
num-Spelled (float x) s h = or_invalid-Spelled x.truncated h
num-Spelled (str t) s h = or_invalid-Spelled (parse_int (codes t)) h
num-Spelled (bytes b) s h = or_invalid-Spelled (parse_int b) h
num-Spelled _ s h = cc

flag-Spelled : (v : Value) (s : String) → stale_flag v ≡ ok s → Spelled stale_param s
unfolding stale_flag
flag-Spelled v s h = elim (Result-cases (bool_param_handler v)) [
  | inl (t, e) ↦ ground (arith, bool-Spelled v t e)
  | inr (x, e) ↦ ground arith
]

stale-Spelled : (v : Value) (s : String) → stale_param_handler v ≡ ok s → Spelled stale_param s
unfolding stale_param_handler
stale-Spelled (str t) s h = ground (arith, flag-Spelled (str t) s)
stale-Spelled v s h = flag-Spelled v s h

onerror-Spelled :
    (v : Value) (s : String) → onerror_param_handler v ≡ ok s → Spelled onerror_param s
unfolding onerror_param_handler
onerror-Spelled (str t) s h = ground arith
onerror-Spelled _ s h = cc

jval-Spelled : (v : Value) (s : String) → jval_param_handler v ≡ ok s → dumps v ≡ ok s
unfolding jval_param_handler
jval-Spelled v s h = ground arith

jarry-Spelled : (v : Value) (s : String) → jarry_param_handler v ≡ ok s → Spelled jarry_param s
unfolding jarry_param_handler
jarry-Spelled v s h = elim (Result-cases (jval_param_handler v)) [
  | inl (t, e) ↦ (v, ground (arith, jval-Spelled v t e), ground arith)
  | inr (x, e) ↦ absurd (ground arith)
]

-- Whatever value an option's handler accepts, the text that it returns has the form of the option:
-- `true` or `false`, a decimal integer, one of the words that the option knows, or the JSON text of
-- some value, for `keys` and the two ends of a spatial range a JSON text that begins with `[`.
pub run_handler-Spelled :
    (h : Handler) (v : Value) (s : String) → run_handler h v ≡ ok s → Spelled h s
unfolding run_handler
run_handler-Spelled bool_param v s e = bool-Spelled v s e
run_handler-Spelled num_param v s e = num-Spelled v s e
run_handler-Spelled string_param v s e = tt
run_handler-Spelled stale_param v s e = stale-Spelled v s e
run_handler-Spelled onerror_param v s e = onerror-Spelled v s e
run_handler-Spelled jval_param v s e = (v, jval-Spelled v s e)
run_handler-Spelled jarry_param v s e = jarry-Spelled v s e

-- The form of one entry of `_real_options`: `passthrough` makes every option a text of its own.
abbrev pub Fits : Bool → String → String → Type 0
Fits passthrough p s = (h : Handler) × (handler_of p ≡ some h) × Spelled (effective passthrough h) s

abbrev pub IsSpelled : QueryBase → Type 0
IsSpelled q = All (λ e. Fits q.passthrough e.0 e.1) q.real_options

-- The object keeps its mode, and its options their forms.
abbrev Keeps : Bool → QueryBase → Type 0
Keeps mode q = (q.passthrough ≡ mode) × All (λ e. Fits mode e.0 e.1) q.real_options
