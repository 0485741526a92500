-- ===== src/Management/RoleText.antt =====
-- couchbase/management: the text of a role is read back as the role.
use Prim.Native.Char.{code}
use Prim.Native.String.{[] as empty_text, ◌∷◌ as ◌::◌}
use text.Mathlib.TextLemmas.{nil-append, cons-append}
use couchbase_python_client.Base.{
  ℕ, String, ◌<>◌, Bool, true, false, ◌||◌, none, some, beq, ok, ◌≡◌, refl, ap, sym, ◌∙◌,
}
use couchbase_python_client.Management.Roles.{
  named, parts, is_empty, role_to_str, has_code, at_bracket, in_front_of, before_close, str_to_role,
  decode,
}

or_false : (a b : Bool) → (a || b) ≡ false → (a ≡ false) × (b ≡ false)
or_false true b h = cc
or_false false b h = (refl, h)

or_assoc : (a b c : Bool) → (a || (b || c)) ≡ ((a || b) || c)
or_assoc true b c = refl
or_assoc false b c = refl

has_code-append : (n : ℕ) (s t : String) → has_code n (s <> t) ≡ (has_code n s || has_code n t)
unfolding has_code
has_code-append n empty_text t = rw nil-append
has_code-append n (c :: s) t =
    rw (cons-append, has_code-append n s t)
      (or_assoc (beq (code c) n) (has_code n s) (has_code n t))

at_bracket-open : (t : String) → at_bracket ("[" <> t) ≡ some ("", t)
unfolding at_bracket
at_bracket-open t =
    ap at_bracket (cons-append "[" "" t) ∙ ap (λ (u : String). some ("", u)) (nil-append t)

at_bracket-append :
    (s t : String) → has_code 91 s ≡ false → at_bracket (s <> ("[" <> t)) ≡ some (s, t)
unfolding at_bracket has_code
at_bracket-append empty_text t h = rw nil-append (at_bracket-open t)
at_bracket-append (c :: s) t h =
    let (other, later) = or_false (beq (code c) 91) (has_code 91 s) h in
    rw (cons-append, other, at_bracket-append s t later) refl

at_bracket-none : (s : String) → has_code 91 s ≡ false → at_bracket s ≡ none
unfolding at_bracket has_code
at_bracket-none empty_text h = refl
at_bracket-none (c :: s) h =
    let (other, later) = or_false (beq (code c) 91) (has_code 91 s) h in
    rw (other, at_bracket-none s later) refl

before_close-append : (s : String) → before_close (s <> "]") ≡ some s
unfolding before_close
before_close-append empty_text = refl
before_close-append (c :: empty_text) = rw cons-append refl
before_close-append (c :: d :: s) =
    rw (cons-append, cons-append)
      (ap (in_front_of c)
        (ap before_close (sym (cons-append d s "]")) ∙ before_close-append (d :: s)))

no_newline :
    (name bucket : String)
    → has_code 10 name ≡ false
    → has_code 10 bucket ≡ false
    → has_code 10 (name <> ("[" <> (bucket <> "]"))) ≡ false
no_newline name bucket h k =
    has_code-append 10 name ("[" <> (bucket <> "]"))
    ∙ rw (h, has_code-append 10 "[" (bucket <> "]"), has_code-append 10 bucket "]", k)
        (unfold has_code in refl)

-- The text of a role with a bucket is its name and its bucket in brackets, that of a role without one its
-- name, and `Role.decode` reads the name and the bucket back from it: for a name and a bucket that are not
-- empty and hold no newline, and a name without `[`. The bucket may hold brackets.
pub decode-role_to_str :
    (name bucket : String)
    → is_empty name ≡ false
    → is_empty bucket ≡ false
    → has_code 91 name ≡ false
    → has_code 10 name ≡ false
    → has_code 10 bucket ≡ false
    → (role_to_str (parts (some name) (some bucket)) ≡ some (name <> ("[" <> (bucket <> "]"))))
      × (decode (named (name <> ("[" <> (bucket <> "]")))) ≡ ok (some name, some bucket))
      × (role_to_str (parts (some name) none) ≡ some name)
      × (decode (named name) ≡ ok (some name, none))
unfolding role_to_str decode str_to_role
decode-role_to_str name bucket n b plain line line' = (
  rw (n, b) refl,
  rw
      (
        no_newline name bucket line line',
        at_bracket-append name (bucket <> "]") plain,
        before_close-append bucket,
      )
      refl,
  refl,
  rw (line, at_bracket-none name plain) refl,
)
