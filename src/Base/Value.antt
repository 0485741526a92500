-- ===== src/Base/Value.antt =====
-- The Python values that reach the modelled code.
use Prim.Native.String.{String}
use mathlib.Core.Bool.{Bool, true, false, not}
use mathlib.Core.Option.{Option, none, some}
use mathlib.Core.List.{List, [], ◌∷◌}
use Prim.Native.Nat.{ℕ}
use couchbase_python_client.Base.Equality.{◌==◌, string_eq, if◌then◌else◌}
use couchbase_python_client.Base.Decimal.{ℤ, pos}

-- A float, by what the code observes of it: `repr(x)`, `json.dumps(x)`, `int(x)` (`none` for an
-- infinity and NaN, where `int` raises) and `x == 0`.
pub record Floating : Type 0 where
  pub repr : String
  pub json : String
  pub truncated : Option ℤ
  pub is_zero : Bool

-- `unspec` is `couchbase_core.views.params.UNSPEC`; the keys of a dict are texts.
mutual
  pub data Value : Type 0 where
    null unspec : Value
    bool : Bool → Value
    int : ℤ → Value
    float : Floating → Value
    str : String → Value
    bytes : List ℕ → Value
    list tuple : Items → Value
    dict : Fields → Value

  pub data Items : Type 0 where
    nil : Items
    cons : Value → Items → Items

  pub data Fields : Type 0 where
    end : Fields
    field : String → Value → Fields → Fields

-- `bool(v)`
unfoldable pub truthy : Value → Bool
truthy null = false
truthy unspec = false
truthy (bool b) = b
truthy (int (pos ℕ.zero)) = false
truthy (int _) = true
truthy (float x) = not x.is_zero
truthy (str s) = not (s == "")
truthy (bytes []) = false
truthy (bytes (_ ∷ _)) = true
truthy (list nil) = false
truthy (list (cons _ _)) = true
truthy (tuple nil) = false
truthy (tuple (cons _ _)) = true
truthy (dict end) = false
truthy (dict (field _ _ _)) = true

-- `v is UNSPEC`
abbrev pub is_unspec : Value → Bool
is_unspec unspec = true
is_unspec _ = false

-- `d.get(k)`
unfoldable pub get_field : String → Fields → Option Value
get_field k end = none
get_field k (field j v d) = if k == j then some v else get_field k d

-- `d[k] = v`
unfoldable pub set_field : String → Value → Fields → Fields
set_field k v end = field k v end
set_field k v (field j w d) = if k == j then field j v d else field j w (set_field k v d)

abbrev pub to_list : Items → List Value
to_list nil = []
to_list (cons v vs) = v ∷ to_list vs

abbrev pub to_items : List Value → Items
to_items [] = nil
to_items (v ∷ vs) = cons v (to_items vs)
