-- ===== src/Management/Roles.antt =====
-- couchbase/management/admin.py and couchbase/management/users.py: roles and their texts.
use Prim.Native.Char.{Char, code}
use Prim.Native.String.{[] as empty_text, ◌∷◌ as ◌::◌}
use couchbase_python_client.Base.{
  ℕ, String, ◌<>◌, Bool, true, false, not, ◌&&◌, ◌||◌, Option, none, some, List, [], ◌∷◌,
  if◌then◌else◌, beq, Result, ok, err, bind, type_error, outside_model,
}
use couchbase_python_client.Base.Quote.{join}

-- What is given for a role: a text; a dict or a pair, with its name and bucket if it has them; or something else.
pub data RoleLike : Type 0 where
  named : String → RoleLike
  parts : Option String → Option String → RoleLike
  other : RoleLike

abbrev pub is_empty : String → Bool
is_empty empty_text = true
is_empty (_ :: _) = false

-- `if name and bucket`
abbrev pub role_text : Option String → Option String → Option String
role_text none bucket = none
role_text (some name) none = some name
role_text (some name) (some bucket) =
    if not (is_empty name) && not (is_empty bucket)
    then some (name <> ("[" <> (bucket <> "]")))
    else some name

-- `_role_to_str`
unfoldable pub role_to_str : RoleLike → Option String
role_to_str (named name) = role_text (some name) none
role_to_str (parts name bucket) = role_text name bucket
role_to_str other = role_text none none

-- `','.join` fails on `None`.
unfoldable pub role_texts : List RoleLike → Result (List String)
unfolding role_to_str
role_texts [] = ok []
role_texts (r ∷ rs) = elim (role_to_str r) [
  | none ↦ err type_error
  | some s ↦ bind (role_texts rs) λ ss. ok (s ∷ ss)
]

-- `_gen_role_list`
unfoldable pub gen_role_list : List RoleLike → Result String
unfolding role_texts
gen_role_list roles = bind (role_texts roles) λ ss. ok (join "," ss)

unfoldable pub has_code : ℕ → String → Bool
has_code n empty_text = false
has_code n (c :: s) = beq (code c) n || has_code n s

abbrev pub in_front : Char → Option (String × String) → Option (String × String)
in_front c none = none
in_front c (some (s, t)) = some (c :: s, t)

-- The texts before and after the first `[`.
unfoldable pub at_bracket : String → Option (String × String)
at_bracket empty_text = none
at_bracket (c :: s) =
    let later = at_bracket s in if beq (code c) 91 then some ("", s) else in_front c later

abbrev pub in_front_of : Char → Option String → Option String
in_front_of c none = none
in_front_of c (some s) = some (c :: s)

-- The text before a `]` that ends it.
unfoldable pub before_close : String → Option String
before_close empty_text = none
before_close (c :: empty_text) = if beq (code c) 93 then some "" else none
before_close (c :: d :: s) = in_front_of c (before_close (d :: s))

abbrev pub with_bucket : String → String → Option String → String × Option String
with_bucket s name none = (s, none)
with_bucket s name (some bucket) = (name, some bucket)

-- A match of `^(?P<role>.*?)(|\[(?P<bucket>.*?)\])$`: the shortest `role` that is followed by nothing, or by a `[`
-- such that the text ends in `]`. A later `[` is followed by no more than the first.
abbrev pub matched : String → Option (String × String) → String × Option String
matched s none = (s, none)
matched s (some (name, rest)) = with_bucket s name (before_close rest)

-- `_str_to_role`, for texts without a newline, which `.` does not match.
unfoldable pub str_to_role : String → Result (String × Option String)
unfolding has_code at_bracket before_close
str_to_role s = if has_code 10 s then err outside_model else ok (matched s (at_bracket s))

-- `Role.decode`, for a text, or the name and the bucket.
unfoldable pub decode : RoleLike → Result (Option String × Option String)
unfolding str_to_role
decode (named s) = bind (str_to_role s) λ r. ok (some r.0, r.1)
decode (parts name bucket) = ok (name, bucket)
decode other = err type_error
