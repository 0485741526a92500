-- ===== src/Subdoc.antt =====
-- couchbase_core/subdocument.py and couchbase/subdocument.py: specs of sub-document operations.
pub mod Project
pub mod Tests
use couchbase_python_client.Base.{
  ℕ, ◌+◌, ◌^◌, String, Bool, true, false, if◌then◌else◌, List, Result, ok, err, value_error,
}
use couchbase_python_client.Base.Value.{Value, str, truthy}

-- The constants `LCB_SDCMD_*` and `SDCMD_*`.
pub data Command : Type 0 where
  sd_get sd_exists sd_replace sd_dict_add sd_dict_upsert sd_array_add_first sd_array_add_last :
      Command
  sd_array_add_unique sd_array_insert sd_counter sd_remove sd_get_count sd_fulldoc_get : Command

-- The fourth member of a `Spec`, where it has one.
pub data Payload : Type 0 where
  no_payload : Payload
  single : Value → Payload
  multi : List Value → Payload

pub record Spec : Type 0 where
  pub command : Command
  pub path : Value
  pub flags : ℕ
  pub payload : Payload

-- The bits are distinct and each is set once, so `|=` adds them.
abbrev pub mkdir_p : ℕ
mkdir_p = 2 ^ 16

abbrev pub xattr_bit : ℕ
xattr_bit = 2 ^ 18

abbrev pub expand_macros_bit : ℕ
expand_macros_bit = 2 ^ 19

-- `_gen_3spec`
unfoldable pub gen_3spec : Command → Value → Bool → Spec
gen_3spec op path xattr = record {
  command = op;
  path = path;
  flags = if xattr then xattr_bit else 0;
  payload = no_payload;
}

-- `_gen_4spec`
unfoldable pub gen_4spec : Command → Value → Payload → Bool → Bool → Bool → Spec
gen_4spec op path v create_path xattr expand_macros = record {
  command = op;
  path = path;
  flags =
      (if create_path then mkdir_p else 0)
      + (if xattr then xattr_bit else 0)
      + (if expand_macros then expand_macros_bit else 0);
  payload = v;
}

unfoldable pub get : Value → Bool → Spec
unfolding gen_3spec
get path xattr = gen_3spec sd_get path xattr

unfoldable pub exists : Value → Bool → Spec
unfolding gen_3spec
exists path xattr = gen_3spec sd_exists path xattr

unfoldable pub upsert : Value → Value → Bool → Bool → Spec
unfolding gen_4spec
upsert path v create_parents xattr =
    gen_4spec sd_dict_upsert path (single v) create_parents xattr false

unfoldable pub replace : Value → Value → Bool → Spec
unfolding gen_4spec
replace path v xattr = gen_4spec sd_replace path (single v) false xattr false

unfoldable pub insert : Value → Value → Bool → Bool → Spec
unfolding gen_4spec
insert path v create_parents xattr =
    gen_4spec sd_dict_add path (single v) create_parents xattr false

unfoldable pub array_append : Value → List Value → Bool → Bool → Spec
unfolding gen_4spec
array_append path vs create_parents xattr =
    gen_4spec sd_array_add_last path (multi vs) create_parents xattr false

unfoldable pub array_prepend : Value → List Value → Bool → Bool → Spec
unfolding gen_4spec
array_prepend path vs create_parents xattr =
    gen_4spec sd_array_add_first path (multi vs) create_parents xattr false

unfoldable pub array_insert : Value → List Value → Bool → Spec
unfolding gen_4spec
array_insert path vs xattr = gen_4spec sd_array_insert path (multi vs) false xattr false

unfoldable pub array_addunique : Value → Value → Bool → Bool → Spec
unfolding gen_4spec
array_addunique path v create_parents xattr =
    gen_4spec sd_array_add_unique path (single v) create_parents xattr false

unfoldable pub counter : Value → Value → Bool → Bool → Result Spec
unfolding gen_4spec truthy
counter path delta create_parents xattr =
    if truthy delta
    then ok (gen_4spec sd_counter path (single delta) create_parents xattr false)
    else err value_error

unfoldable pub remove : Value → Bool → Spec
unfolding gen_3spec
remove path xattr = gen_3spec sd_remove path xattr

unfoldable pub get_count : Value → Bool → Spec
unfolding gen_3spec
get_count path xattr = gen_3spec sd_get_count path xattr

-- `couchbase.subdocument.count`, which does not pass its `xattr` on.
unfoldable pub count : Value → Bool → Spec
unfolding get_count
count path xattr = get_count path false

unfoldable pub get_full : Spec
unfolding gen_3spec
get_full = gen_3spec sd_fulldoc_get (str "") false

unfoldable pub with_expiry : Spec
unfolding get
with_expiry = get (str "$document.exptime") true
