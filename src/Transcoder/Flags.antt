-- ===== src/Transcoder/Flags.antt =====
-- couchbase_core/transcoder.py: which flags are known, for every 32-bit number and beyond.
use couchbase_python_client.Base.{
  ℕ, ◌*◌, ◌/◌, ◌%◌, ◌^◌, Bool, true, false, not, Option, none, some, [], ◌∷◌, if◌then◌else◌, nat_eq,
  ◌==◌, contains, ◌≡◌, refl, ◌∙◌, arith,
}
use couchbase_python_client.Base.Dict.{lookup, insert}
use couchbase_python_client.Transcoder.Format.{
  fmt_json, fmt_pickle, fmt_bytes, fmt_utf8, get_decode_format, legacy_mask, common_mask, fill,
  found,
}

-- The format of the byte that holds the common flags, where it is not 0.
abbrev pub common_format : ℕ → Option ℕ
common_format n =
    if n == 2
    then some fmt_json
    else if n == 3
    then some fmt_bytes
    else if n == 4
    then some fmt_utf8
    else if n == 1
    then some fmt_pickle
    else none

-- The format of the three bits that hold the legacy flags.
abbrev pub legacy_format : ℕ → Option ℕ
legacy_format n =
    if n == 0
    then some fmt_json
    else if n == 2
    then some fmt_bytes
    else if n == 4
    then some fmt_utf8
    else if n == 1
    then some fmt_pickle
    else none

abbrev pub format_of : ℕ → Option ℕ
format_of flags =
    if flags / 2 ^ 24 % 2 ^ 8 == 0
    then legacy_format (flags % 2 ^ 3)
    else common_format (flags / 2 ^ 24 % 2 ^ 8)

-- The branches of `get_decode_format`, with its tables computed.
abbrev by_legacy : ℕ → ℕ × Bool
by_legacy l =
    if not (contains (0 ∷ 2 ∷ 4 ∷ 1 ∷ []) l)
    then (fmt_bytes, false)
    else found (lookup l ((0, fmt_json) ∷ (2, fmt_bytes) ∷ (4, fmt_utf8) ∷ (1, fmt_pickle) ∷ []))

abbrev by_common : ℕ → ℕ × Bool
by_common c =
    if not (contains (33554432 ∷ 50331648 ∷ 67108864 ∷ 16777216 ∷ []) c)
    then (fmt_bytes, false)
    else found (
        lookup c (
          (33554432, fmt_json)
          ∷ (50331648, fmt_bytes)
          ∷ (67108864, fmt_utf8)
          ∷ (16777216, fmt_pickle)
          ∷ []))

tables_lem :
    (flags : ℕ)
    → get_decode_format flags ≡ (
        if not (common_mask flags == 0)
        then by_common (common_mask flags)
        else by_legacy (legacy_mask flags))
unfolding get_decode_format fill insert lookup nat_eq
tables_lem flags = refl

by_legacy_lem : (l : ℕ) → by_legacy l ≡ found (legacy_format l)
unfolding lookup
by_legacy_lem l = ground arith

by_common_lem : (n : ℕ) → by_common (n * 2 ^ 24) ≡ found (common_format n)
unfolding lookup
by_common_lem n = ground arith

mask_zero : (n : ℕ) → (n * 2 ^ 24 == 0) ≡ (n == 0)
mask_zero n = ground arith

either_way :
    (b : Bool) {x y : ℕ × Bool} (o p : Option ℕ)
    → x ≡ found o
    → y ≡ found p
    → (if not b then x else y) ≡ found (if b then p else o)
either_way true o p h k = k
either_way false o p h k = h

-- For every number, the format that is decoded is that of bits 24 to 31 if one of them is set, of bits 0
-- to 2 otherwise, and no other bit matters; it is bytes, and reported unknown, where those bits name none.
pub get_decode_format_lem : (flags : ℕ) → get_decode_format flags ≡ found (format_of flags)
unfolding common_mask legacy_mask
get_decode_format_lem flags =
    let n = flags / 2 ^ 24 % 2 ^ 8 in
    tables_lem flags
    ∙ rw (mask_zero n) (
        either_way (n == 0) (common_format n) (legacy_format (flags % 2 ^ 3)) (by_common_lem n)
          (by_legacy_lem (flags % 2 ^ 3)))
