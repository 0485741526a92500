-- ===== src/Transcoder/Convert.antt =====
-- couchbase_core/transcoder.py: `TranscoderPP` and `LegacyTranscoderPP`. What a subclass may
-- override, and the UTF-8 codec, are a parameter.
use couchbase_python_client.Base.{
  ℕ, String, Bool, false, not, List, [], ◌∷◌, if◌then◌else◌, nat_eq, ◌==◌, contains, Result, ok,
  err, bind, value_error, type_error, attribute_error,
}
use couchbase_python_client.Base.Value.{Value, null, bool, str, bytes, list, tuple, dict}
use couchbase_python_client.Transcoder.Format.{
  fmt_json, fmt_pickle, fmt_bytes, fmt_utf8, get_decode_format, legacy_mask,
}

-- A Python object: a value, a bytearray, or an object of a class of which nothing is known but that
-- it is none of the others and has no method `encode`.
pub data Object (P : Type 0) : Type 0 where
  value : Value → Object P
  bytearray : List ℕ → Object P
  instance_of : P → Object P

-- A format argument: `FMT_AUTO`, which is no number, or a number.
pub data Format : Type 0 where
  auto : Format
  number : ℕ → Format

module _ (P : Type 0) where
  pub record Codecs : Type 0 where
    -- `s.encode('utf-8')`, `b.decode('utf-8')`
    pub utf8_encode : String → Result (List ℕ)
    pub utf8_decode : List ℕ → Result String
    pub do_json_encode : Object P → Result String
    pub do_json_decode : String → Result (Object P)
    pub do_pickle_encode : Object P → Result (List ℕ)
    pub do_pickle_decode : List ℕ → Result (Object P)

module _ {P : Type 0} where
  -- The format that `FMT_AUTO` stands for.
  unfoldable pub auto_format : Object P → ℕ
  auto_format (value (str _)) = fmt_utf8
  auto_format (value (bytes _)) = fmt_bytes
  auto_format (bytearray _) = fmt_bytes
  auto_format (value (list _)) = fmt_json
  auto_format (value (tuple _)) = fmt_json
  auto_format (value (dict _)) = fmt_json
  auto_format (value (bool _)) = fmt_json
  auto_format (value null) = fmt_json
  auto_format _ = fmt_pickle

  abbrev pub chosen : Object P → Format → ℕ
  chosen v auto = auto_format v
  chosen v (number f) = if f == 0 then fmt_json else f

  abbrev pub as_bytes : Object P → Result (List ℕ)
  as_bytes (value (bytes b)) = ok b
  as_bytes (bytearray b) = ok b
  as_bytes _ = err type_error

  module _ (c : Codecs P) where
    abbrev pub as_utf8 : Object P → Result (List ℕ)
    as_utf8 (value (str s)) = c.utf8_encode s
    as_utf8 _ = err attribute_error

    abbrev pub with_flags : ℕ → List ℕ → Result (List ℕ × ℕ)
    with_flags f b = ok (b, f)

    -- The tests of `encode_value` after the format is chosen.
    unfoldable pub encode_as : Object P → ℕ → Result (List ℕ × ℕ)
    encode_as v f =
        if not (contains (fmt_pickle ∷ fmt_json ∷ fmt_bytes ∷ fmt_utf8 ∷ []) f)
        then err value_error
        else if f == fmt_bytes
        then bind (as_bytes v) (with_flags f)
        else if f == fmt_utf8
        then bind (as_utf8 v) (with_flags f)
        else if f == fmt_pickle
        then bind (c.do_pickle_encode v) (with_flags fmt_pickle)
        else if f == fmt_json
        then bind (bind (c.do_json_encode v) c.utf8_encode) (with_flags fmt_json)
        else err value_error

    unfoldable pub encode_value : Object P → Format → Result (List ℕ × ℕ)
    unfolding encode_as auto_format
    encode_value v format = encode_as v (chosen v format)

    abbrev pub only_bytes : List ℕ × ℕ → Result (List ℕ)
    only_bytes (b, _) = ok b

    unfoldable pub encode_key : Object P → Result (List ℕ)
    unfolding encode_value
    encode_key key = bind (encode_value key (number fmt_utf8)) only_bytes

    abbrev pub text_object : String → Result (Object P)
    text_object s = ok (value (str s))

    abbrev pub decode_as : List ℕ → ℕ → Result (Object P)
    decode_as b f =
        if f == fmt_bytes
        then ok (value (bytes b))
        else if f == fmt_utf8
        then bind (c.utf8_decode b) text_object
        else if f == fmt_json
        then bind (c.utf8_decode b) c.do_json_decode
        else if f == fmt_pickle
        then c.do_pickle_decode b
        else ok (value null)

    -- `decode_value`, and whether it warns of flags that it does not know.
    unfoldable pub decode_value : List ℕ → ℕ → Result (Object P) × Bool
    unfolding get_decode_format
    decode_value b flags =
        let (f, is_recognized) = get_decode_format flags in
        (decode_as b f, if f == fmt_bytes then not is_recognized else false)

    unfoldable pub decode_key : List ℕ → Result (Object P) × Bool
    unfolding decode_value
    decode_key key = decode_value key fmt_utf8

    abbrev pub legacy_flags : List ℕ × ℕ → Result (List ℕ × ℕ)
    legacy_flags (b, f) = ok (b, legacy_mask f)

    -- `LegacyTranscoderPP.encode_value`
    unfoldable pub encode_value_legacy : Object P → Format → Result (List ℕ × ℕ)
    unfolding encode_value legacy_mask
    encode_value_legacy v format = bind (encode_value v format) legacy_flags
