-- ===== src/Base/Json.antt =====
-- `json.dumps(v)` with its default options.
use Prim.Native.Nat.{ℕ, ◌+◌, ◌-◌, ◌/◌, ◌%◌}
use Prim.Native.Char.{Char, code}
use Prim.Native.String.{String, ◌++◌ as ◌<>◌, [] as empty_text, ◌∷◌ as ◌::◌}
use mathlib.Core.Path.{◌≡◌, refl}
use mathlib.Core.Bool.{true, false, ◌&&◌}
use couchbase_python_client.Base.Equality.{if◌then◌else◌, ltb, leb, beq}
use couchbase_python_client.Base.Decimal.{negsuc, decimal_ℤ}
use couchbase_python_client.Base.Quote.{lower_hex}
use couchbase_python_client.Base.Outcome.{Result, ok, err, type_error, bind}
use couchbase_python_client.Base.Value.{
  Value, null, unspec, bool, int, float, str, bytes, list, tuple, dict, Items, nil, cons, Fields,
  end, field,
}

escape_unit : ℕ → String
escape_unit n =
    "\\u"
    <> (lower_hex (n / 4096)
        <> (lower_hex (n / 256 % 16) <> (lower_hex (n / 16 % 16) <> lower_hex (n % 16))))

-- A character above U+FFFF is two UTF-16 units.
escape_char : Char → String
unfolding escape_unit
escape_char c =
    let n = code c in
    if beq n 34
    then "\\\""
    else if beq n 92
    then "\\\\"
    else if beq n 10
    then "\\n"
    else if beq n 13
    then "\\r"
    else if beq n 9
    then "\\t"
    else if beq n 12
    then "\\f"
    else if beq n 8
    then "\\b"
    else if leb 32 n && leb n 126
    then c :: ""
    else if ltb n 65536
    then escape_unit n
    else escape_unit (55296 + (n - 65536) / 1024) <> escape_unit (56320 + (n - 65536) % 1024)

escape : String → String
unfolding escape_char
escape empty_text = ""
escape (c :: s) = escape_char c <> escape s

quoted : String → String
unfolding escape
quoted s = "\"" <> (escape s <> "\"")

-- A value that JSON lacks is a `TypeError`.
unfoldable mutual
  unfolding quoted decimal_ℤ

  pub dumps : Value → Result String
  dumps null = ok "null"
  dumps unspec = err type_error
  dumps (bool true) = ok "true"
  dumps (bool false) = ok "false"
  dumps (int n) = ok (decimal_ℤ n)
  dumps (float x) = ok x.json
  dumps (str s) = ok (quoted s)
  dumps (bytes _) = err type_error
  dumps (list vs) = bind (dumps_items vs) λ s. ok ("[" <> (s <> "]"))
  dumps (tuple vs) = bind (dumps_items vs) λ s. ok ("[" <> (s <> "]"))
  dumps (dict d) = bind (dumps_fields d) λ s. ok ("{" <> (s <> "}"))

  dumps_items : Items → Result String
  dumps_items nil = ok ""
  dumps_items (cons v vs) =
      bind (dumps v)
        λ s. bind (dumps_items vs) λ t. ok (elim vs [ nil ↦ s | cons _ _ ↦ s <> (", " <> t) ])

  dumps_fields : Fields → Result String
  dumps_fields end = ok ""
  dumps_fields (field k v d) = bind (dumps v) λ s. bind (dumps_fields d) λ t.
      let entry = quoted k <> (": " <> s) in
      ok (elim d [ end ↦ entry | field _ _ _ ↦ entry <> (", " <> t) ])

dumps_tests :
    (dumps (list (cons (str "a\"é") (cons null (cons (int (negsuc 4)) nil))))
      ≡ ok "[\"a\\\"\\u00e9\", null, -5]")
    × (dumps (dict (field "k" (bool true) end)) ≡ ok "{\"k\": true}")
    × (dumps (list (cons unspec nil)) ≡ err type_error)
unfolding dumps
dumps_tests = (refl, refl, refl)
