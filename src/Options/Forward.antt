-- ===== src/Options/Forward.antt =====
-- couchbase/options.py: option blocks, and the options that an operation passes on.
use couchbase_python_client.Base.{
  String, Bool, true, false, Option, none, some, List, [], ◌∷◌, Result, ok, err, bind,
  invalid_argument, attribute_error, string_eq,
}
use couchbase_python_client.Base.Decimal.{ℤ}
use couchbase_python_client.Base.Dict.{Dict, lookup, insert}
use couchbase_python_client.Options.Bounded.{ConstrainedInt}
use couchbase_python_client.Base.Value.{Value, null, int, dict, get_field}

-- A `timedelta`, by `int(d.total_seconds())` and `int(d.total_seconds() * 1e6)`, which are 0 for an empty one.
pub record Timedelta : Type 0 where
  pub seconds : ℤ
  pub microseconds : ℤ

-- An argument of an operation: a value, a duration, a durability option (couchbase/durability.py) with the `value` of
-- its level, its `replicate_to` and its `persist_to`, which are `null` where it has none, or a bounded integer.
pub data Argument : Type 0 where
  plain : Value → Argument
  duration : Timedelta → Argument
  durability : Value → Value → Value → Argument
  bounded : ConstrainedInt → Argument

abbrev pub Block : Type 0
Block = Dict String Argument

abbrev pub is_none : Argument → Bool
is_none (plain null) = true
is_none _ = false

abbrev pub kept_unless : Bool → String → Argument → Block → Block
kept_unless true k v d = d
kept_unless false k v d = insert k v d

-- `d.update(e)`
unfoldable pub update : Block → List (String × Argument) → Block
unfolding insert
update d [] = d
update d ((k, v) ∷ e) = update (insert k v d) e

-- `OptionBlock.__init__`
unfoldable pub block : List (String × Argument) → Block → Block
unfolding insert
block [] d = d
block ((k, v) ∷ kwargs) d = block kwargs (kept_unless (is_none v) k v d)

-- `OptionBlockTimeOut.timeout`
unfoldable pub set_timeout : Timedelta → Block → Block
unfolding insert
set_timeout d b = insert "timeout" (duration d) b

unfoldable pub timedelta_as_timestamp : Argument → Result Argument
timedelta_as_timestamp (duration d) = ok (plain (int d.seconds))
timedelta_as_timestamp _ = err invalid_argument

unfoldable pub timedelta_as_microseconds : Argument → Result Argument
timedelta_as_microseconds (duration d) = ok (plain (int d.microseconds))
timedelta_as_microseconds _ = err invalid_argument

abbrev pub null_or : Option Value → Value
null_or none = null
null_or (some v) = v

-- The functions of `arg_mapping`.
pub data Conversion : Type 0 where
  same as_microseconds as_timestamp level_value replicate_to persist_to : Conversion

unfoldable pub convert : Conversion → Argument → Result Argument
unfolding timedelta_as_timestamp timedelta_as_microseconds get_field
convert same v = ok v
convert as_microseconds v = timedelta_as_microseconds v
convert as_timestamp v = timedelta_as_timestamp v
convert level_value (durability level r p) = ok (plain level)
convert level_value (plain (dict d)) = ok (plain null)
convert replicate_to (durability level r p) = ok (plain r)
convert replicate_to (plain (dict d)) = ok (plain (null_or (get_field "replicate_to" d)))
convert persist_to (durability level r p) = ok (plain p)
convert persist_to (plain (dict d)) = ok (plain (null_or (get_field "persist_to" d)))
convert _ _ = err attribute_error

-- `DefaultForwarder.arg_mapping`
abbrev pub arg_mapping : Dict String (Dict String Conversion)
arg_mapping =
    ("spec", ("specs", same) ∷ [])
    ∷ ("id", [])
    ∷ ("timeout", ("timeout", as_microseconds) ∷ [])
    ∷ ("expiry", ("ttl", as_timestamp) ∷ [])
    ∷ ("self", [])
    ∷ ("options", [])
    ∷ (
      "durability",
      ("durability_level", level_value)
          ∷ ("replicate_to", replicate_to)
          ∷ ("persist_to", persist_to)
          ∷ [],
    )
    ∷ []

-- The inner loop: every output of one option, unless it is `None`.
unfoldable pub convert_all : Dict String Conversion → Argument → Block → Result Block
unfolding convert insert
convert_all [] v out = ok out
convert_all ((k, f) ∷ fs) v out =
    bind (convert f v) λ w. convert_all fs v (kept_unless (is_none w) k w out)

abbrev pub step : Option (Dict String Conversion) → String → Argument → Block → Result Block
step none k v out = ok (insert k v out)
step (some fs) k v out = convert_all fs v out

-- The outer loop of `forward_args`.
unfoldable pub forward : List (String × Argument) → Block → Result Block
unfolding convert_all
forward [] out = ok out
forward ((k, v) ∷ d) out = bind (step (lookup k arg_mapping) k v out) (forward d)

-- `options[0]`, or an empty block.
abbrev pub first_block : List Block → Block
first_block [] = []
first_block (b ∷ _) = b

-- The options that hold before they are converted; `kwargs` is the entry of that name in `arg_vars`.
unfoldable pub temp_options : Block → Block → List Block → Block
unfolding update
temp_options arg_vars kwargs options = update (update (first_block options) kwargs) arg_vars

-- `forward_args`
unfoldable pub forward_args : Block → Block → List Block → Result Block
unfolding forward temp_options
forward_args arg_vars kwargs options = forward (temp_options arg_vars kwargs options) []
