-- ===== src/Management/Tests.antt =====
-- Texts of roles, and the theorem on them.
use couchbase_python_client.Base.{◌<>◌, ◌≡◌, refl, none, some, ok, [], ◌∷◌}
use couchbase_python_client.Base.Quote.{join}
use couchbase_python_client.Management.Roles.{
  named, parts, role_to_str, gen_role_list, decode, has_code,
}
use couchbase_python_client.Management.RoleText.{decode-role_to_str}

two_roles :
    gen_role_list (named "admin" ∷ parts (some "data_reader") (some "travel") ∷ [])
    ≡ ok "admin,data_reader[travel]"
unfolding gen_role_list join
two_roles = refl

scoped : decode (named "data_reader[b:s[x]]") ≡ ok (some "data_reader", some "b:s[x]")
unfolding decode
scoped = refl

decode-role_to_str_example :
    (role_to_str (parts (some "data_reader") (some "b[0]"))
      ≡ some ("data_reader" <> ("[" <> ("b[0]" <> "]"))))
    × (decode (named ("data_reader" <> ("[" <> ("b[0]" <> "]"))))
        ≡ ok (some "data_reader", some "b[0]"))
    × (role_to_str (parts (some "data_reader") none) ≡ some "data_reader")
    × (decode (named "data_reader") ≡ ok (some "data_reader", none))
unfolding has_code
decode-role_to_str_example = decode-role_to_str "data_reader" "b[0]" refl refl refl refl refl
