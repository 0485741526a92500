-- ===== src/Ixmgmt/Dropped.antt =====
-- couchbase/management/queries.py: how indexes are dropped.
use couchbase_python_client.Base.{
  String, Bool, true, false, Option, none, some, List, [], string_eq, ℕ, Error, is_couchbase,
  Result, ok, err, ◌≡◌, ◌≢◌, refl, ◌∙◌, arith,
}
use text.Mathlib.TextEquality.{eq_iff}
use couchbase_python_client.Base.Dict.{lookup, erase, NodupKeys, lookup-erase_ne, erase-NodupKeys}
use couchbase_python_client.Base.Value.{Value, bool}
use couchbase_python_client.Base.Reply.{Reply}
use couchbase_python_client.Exceptions as E
use couchbase_python_client.Exceptions.{
  Extra, Outcome, Line, is_not_found, is_exists, mapped, mgmt_exc_wrap, query_errors,
}
use couchbase_python_client.Options.Forward.{Argument, plain, Block, forward_args, first_block}
use couchbase_python_client.Options.Passed.{effective, forward_args_passes}
use couchbase_python_client.Options.Again.{forwarded-NodupKeys, refused, Timed-plain}
use couchbase_python_client.Ixmgmt.Index.{named}
use couchbase_python_client.Ixmgmt.Definition.{mk_index_def}
use couchbase_python_client.Ixmgmt.Manager.{Done, ended, name_value, handled, drop_with, drop_index}

-- Nothing is sent, and an exception is raised.
abbrev pub Unsent : {A : Type 0} → Done A → Type 0
Unsent d = (e : Error) × (d ≡ (some (E.raised e none), none))

ended-Unsent :
    {A B : Type 0} (r : Result A) (k : A → Done B)
    → ((a : A) → r ≡ ok a → Unsent (k a))
    → Unsent (ended r k)
ended-Unsent (ok a) k h = h a refl
ended-Unsent (err e) k h = (e, refl)

abbrev Apart : String → Type 0
Apart name = "timeout" ≢ name

not_primary : Apart "primary"
not_primary = ground (arith, eq_iff "timeout" "primary")

module _ (or_defer : Value → Result Value) (is_constant : Value → Bool)
    (extra : Error → Option Extra) (decode : List ℕ → Result String) (replies : List Reply) where
  wrapped_bare :
      {A : Type 0} (e : Error) (a b c : Bool)
      → is_couchbase e ≡ a
      → is_not_found e ≡ b
      → is_exists e ≡ c
      → mgmt_exc_wrap decode {A = A} query_errors (E.raised e none) ≡ E.raised e none
  unfolding mgmt_exc_wrap
  wrapped_bare e true true true h k l = rw (h, k, l) refl
  wrapped_bare e true true false h k l = rw (h, k, l) refl
  wrapped_bare e true false true h k l = rw (h, k, l) refl
  wrapped_bare e true false false h k l = rw (h, k, l) refl
  wrapped_bare e false b c h k l = rw h refl

  handled-Unsent :
      {A : Type 0} (d : Done A)
      → Unsent d
      → Unsent (handled or_defer is_constant extra decode replies d)
  unfolding handled
  handled-Unsent d (e, h) = (
    e,
    rw (h, wrapped_bare e (is_couchbase e) (is_not_found e) (is_exists e) refl refl refl) refl,
  )

  drop_with-Unsent :
      (bucket_name index_name : Value) (args : Block) (v : Value)
      → NodupKeys args
      → lookup "timeout" args ≡ some (plain v)
      → Unsent (drop_with or_defer is_constant extra decode replies bucket_name index_name args)
  unfolding drop_with
  drop_with-Unsent bucket_name index_name args v u h =
      let (e, q) =
        refused (erase "primary" args) v (erase-NodupKeys "primary" args u)
          (lookup-erase_ne "timeout" "primary" args not_primary ∙ h) in
      ended-Unsent
        (name_value (elim (lookup "primary" args) [ none ↦ plain (bool false) | some w ↦ w ])) _
        (λ primary _.
          ended-Unsent (mk_index_def bucket_name (named index_name) primary) _
            (λ info _. (e, rw q refl)))

  module _ (kwargs : Block) (options : List Block) (u : NodupKeys kwargs)
      (v : NodupKeys (first_block options)) where
    -- Dropping an index with a timeout sends nothing and raises an exception, whatever the server would
    -- answer: the options are converted, and then `_drop_index` converts them again, which refuses a
    -- timeout that is a number by now.
    pub drop_index_timeout :
        (bucket_name index_name : Value) (a : Argument)
        → effective kwargs [] options "timeout" ≡ some a
        → Unsent (
            drop_index or_defer is_constant extra decode replies bucket_name index_name kwargs
              options)
    unfolding drop_index
    drop_index_timeout bucket_name index_name a h = handled-Unsent _ (
        ended-Unsent (forward_args kwargs [] options)
          (λ args. drop_with or_defer is_constant extra decode replies bucket_name index_name args)
          (λ args r.
            let timed = rw h at (forward_args_passes kwargs [] options u tt v args r).2 in
            let (w, is_plain) = Timed-plain a (lookup "timeout" args) timed in
            drop_with-Unsent bucket_name index_name args w
              (forwarded-NodupKeys kwargs options args r) is_plain))
