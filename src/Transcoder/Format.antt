-- ===== src/Transcoder/Format.antt =====
-- couchbase_core/transcoder.py: the flags that name a format. The constants are those of src/pycbc.h;
-- `x & FMT_COMMON_MASK` keeps bits 24 to 31, and `x & FMT_LEGACY_MASK` bits 0 to 2.
use couchbase_python_client.Base.{
  ℕ, ◌+◌, ◌*◌, ◌/◌, ◌%◌, ◌^◌, Bool, true, false, not, Option, none, some, List, [], ◌∷◌, map,
  if◌then◌else◌, nat_eq, ◌==◌, contains,
}
use couchbase_python_client.Base.Dict.{Dict, lookup, insert}

unfoldable pub common_mask : ℕ → ℕ
common_mask flags = flags / 2 ^ 24 % 2 ^ 8 * 2 ^ 24

unfoldable pub legacy_mask : ℕ → ℕ
legacy_mask flags = flags % 2 ^ 3

abbrev pub fmt_json : ℕ
fmt_json = 0 + 2 * 2 ^ 24

abbrev pub fmt_pickle : ℕ
fmt_pickle = 1 + 1 * 2 ^ 24

abbrev pub fmt_bytes : ℕ
fmt_bytes = 2 + 3 * 2 ^ 24

abbrev pub fmt_utf8 : ℕ
fmt_utf8 = 4 + 4 * 2 ^ 24

-- `UNIFIED_FORMATS`, `LEGACY_FORMATS`, `COMMON_FORMATS`
abbrev pub unified_formats : List ℕ
unified_formats = fmt_json ∷ fmt_bytes ∷ fmt_utf8 ∷ fmt_pickle ∷ []

abbrev pub legacy_formats : List ℕ
legacy_formats = map legacy_mask unified_formats

abbrev pub common_formats : List ℕ
common_formats = map common_mask unified_formats

-- The loop that fills `COMMON2UNIFIED` and `LEGACY2UNIFIED`.
unfoldable pub fill : (ℕ → ℕ) → List ℕ → Dict ℕ ℕ → Dict ℕ ℕ
fill mask [] d = d
fill mask (f ∷ fs) d = fill mask fs (insert (mask f) f d)

abbrev pub common_to_unified : Dict ℕ ℕ
common_to_unified = fill common_mask unified_formats []

abbrev pub legacy_to_unified : Dict ℕ ℕ
legacy_to_unified = fill legacy_mask unified_formats []

abbrev pub found : Option ℕ → ℕ × Bool
found (some f) = (f, true)
found none = (fmt_bytes, false)

-- `get_decode_format`; a key in the tuple is in the dict.
unfoldable pub get_decode_format : ℕ → ℕ × Bool
unfolding common_mask legacy_mask fill insert lookup
get_decode_format flags =
    if not (common_mask flags == 0)
    then (if not (contains common_formats (common_mask flags))
        then (fmt_bytes, false)
        else found (lookup (common_mask flags) common_to_unified))
    else if not (contains legacy_formats (legacy_mask flags))
    then (fmt_bytes, false)
    else found (lookup (legacy_mask flags) legacy_to_unified)
