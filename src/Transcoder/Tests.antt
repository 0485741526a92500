-- ===== src/Transcoder/Tests.antt =====
-- Runs of the transcoder, and the theorems at concrete data.
use couchbase_python_client.Base.{
  ℕ, ◌+◌, ◌*◌, ◌^◌, String, ◌≡◌, refl, false, List, [], ◌∷◌, ok, err, nat_eq, Result, unicode_error,
  arith, ◌==◌, if◌then◌else◌, string_eq, type_error,
}
use couchbase_python_client.Base.Value.{dict, end}
use couchbase_python_client.Transcoder.Format.{get_decode_format, found}
use couchbase_python_client.Transcoder.Flags.{format_of, get_decode_format_lem}
use couchbase_python_client.Transcoder.Convert.{
  Object, value, instance_of, auto, Codecs, chosen, encode_value, encode_value_legacy, decode_value,
}
use couchbase_python_client.Transcoder.RoundTrip.{Faithful, stored, decode_value-encode_value}

-- Codecs that know one text, one JSON value and one object.
abbrev encode_text : String → Result (List ℕ)
encode_text s = if s == "{}" then ok (123 ∷ 125 ∷ []) else err unicode_error

abbrev encode_json : Object (Unit {0}) → Result String
encode_json (value (dict end)) = ok "{}"
encode_json _ = err type_error

abbrev encode_pickle : Object (Unit {0}) → Result (List ℕ)
encode_pickle (instance_of _) = ok (128 ∷ [])
encode_pickle _ = err type_error

abbrev codecs : Codecs (Unit {0})
codecs = record {
  utf8_encode = encode_text;
  utf8_decode = λ b. ok "{}";
  do_json_encode = encode_json;
  do_json_decode = λ s. ok (value (dict end));
  do_pickle_encode = encode_pickle;
  do_pickle_decode = λ b. ok (instance_of tt);
}

abbrev document : Object (Unit {0})
document = value (dict end)

faithful : Faithful codecs document
faithful = record { utf8 = λ s b h. ground arith; json = λ s h. refl; pickle = λ b h. cc }

encoded : encode_value codecs document auto ≡ ok (123 ∷ 125 ∷ [], 2 * 2 ^ 24)
unfolding encode_value nat_eq string_eq
encoded = refl

decode_value-encode_value_example :
    ((b : List ℕ) (flags : ℕ)
      → encode_value codecs document auto ≡ ok (b, flags)
      → decode_value codecs b flags ≡ (ok (stored codecs document (chosen document auto)), false))
    × ((b : List ℕ) (flags : ℕ)
        → encode_value_legacy codecs document auto ≡ ok (b, flags)
        → decode_value codecs b flags ≡ (ok (stored codecs document (chosen document auto)), false))
decode_value-encode_value_example = decode_value-encode_value codecs document auto faithful

get_decode_format_lem_example :
    get_decode_format (7 + 5 * 2 ^ 24) ≡ found (format_of (7 + 5 * 2 ^ 24))
get_decode_format_lem_example = get_decode_format_lem (7 + 5 * 2 ^ 24)
