-- ===== src/Collections/Twice.antt =====
-- The options of `increment_multi` and `decrement_multi` of couchbase/collection.py are forwarded twice.
use couchbase_python_client.Base.{
  String, Option, none, some, List, [], ok, err, Error, Exec, string_eq, ◌≡◌, ◌≢◌, refl, sym, ap,
  subst, ◌∙◌, arith, Result-cases, inl, inr,
}
use text.Mathlib.TextEquality.{eq_iff}
use couchbase_python_client.Base.Dict.{
  lookup, insert, lookup-insert_ne, NodupKeys, insert-NodupKeys,
}
use couchbase_python_client.Base.Value.{Value, null, int}
use couchbase_python_client.Options.Bounded.{Kind, signed_int64, delta_value}
use couchbase_python_client.Options.Forward.{Argument, plain, Block, forward_args, first_block}
use couchbase_python_client.Options.Passed.{effective, forward_args_passes}
use couchbase_python_client.Collections.{Collection, Answer, inject, text_or_null}
use couchbase_python_client.Collections.Counters.{
  checked_option, verified_int, check_delta_initial, increment_multi,
}
use couchbase_python_client.Collections.Passed.{by_target}
use couchbase_python_client.Options.Again.{
  bind_ok, ok_inj, forwarded-NodupKeys, refused, Timed-plain,
}

-- The options that a counter operation has checked keep the timeout and the keys apart.
checked_option-keeps :
    (k : Kind) (name : String) (o : Option Argument) (f final : Block)
    → "timeout" ≢ name
    → NodupKeys f
    → checked_option k name o f ≡ ok final
    → NodupKeys final × (lookup "timeout" final ≡ lookup "timeout" f)
unfolding checked_option
checked_option-keeps k name none f final n u h =
    (subst NodupKeys (ok_inj h) u, ap (λ (d : Block). lookup "timeout" d) (sym (ok_inj h)))
checked_option-keeps k name (some (plain null)) f final n u h =
    (subst NodupKeys (ok_inj h) u, ap (λ (d : Block). lookup "timeout" d) (sym (ok_inj h)))
checked_option-keeps k name (some a) f final n u h =
    let (z, made, rest) = bind_ok (verified_int k a) (λ y. ok (insert name (plain (int y)) f)) h in
    (
      subst NodupKeys (ok_inj rest) (insert-NodupKeys name (plain (int z)) f u),
      ap (λ (d : Block). lookup "timeout" d) (sym (ok_inj rest))
          ∙ lookup-insert_ne "timeout" name (plain (int z)) f n,
    )

abbrev Apart : String → Type 0
Apart name = "timeout" ≢ name

not_initial : Apart "initial"
not_initial = ground (arith, eq_iff "timeout" "initial")

not_delta : Apart "delta"
not_delta = ground (arith, eq_iff "timeout" "delta")

not_scope : Apart "scope"
not_scope = ground (arith, eq_iff "timeout" "scope")

not_collection : Apart "collection"
not_collection = ground (arith, eq_iff "timeout" "collection")

abbrev Keeps : Block → Block → Type 0
Keeps d e = NodupKeys e × (lookup "timeout" e ≡ lookup "timeout" d)

insert-Keeps :
    (name : String) (v : Argument) (d e : Block)
    → Apart name
    → Keeps d e
    → Keeps d (insert name v e)
insert-Keeps name v d e n k =
    (insert-NodupKeys name v e k.0, lookup-insert_ne "timeout" name v e n ∙ k.1)

inject-Keeps : (c : Collection) (d : Block) → NodupKeys d → Keeps d (inject c d)
inject-Keeps c d u =
    let scope = plain (text_or_null c.scope.name) in
    by_target c (Keeps d) d
      (insert-Keeps "collection" (plain (text_or_null c.name)) d (insert "scope" scope d)
        not_collection (insert-Keeps "scope" scope d d not_scope (u, refl)))
      (u, refl)

module _ {S : Type 0} (counter_multi : List String → Block → Exec S Answer) (c : Collection)
    (options : List Block) (kwargs : Block) (u : NodupKeys kwargs)
    (v : NodupKeys (first_block options)) where
  checked_timeout :
      (a : Argument) (final : Block)
      → effective kwargs [] options "timeout" ≡ some a
      → check_delta_initial kwargs options ≡ ok final
      → NodupKeys final × ((w : Value) × (lookup "timeout" final ≡ some (plain w)))
  unfolding check_delta_initial
  checked_timeout a final h e =
      let (f, forwarded, rest) = bind_ok (forward_args kwargs [] options) _ e in
      let (g, initial, last) =
        bind_ok (checked_option signed_int64 "initial" (lookup "initial" f) f) _ rest in
      let nodup = forwarded-NodupKeys kwargs options f forwarded in
      let k =
        checked_option-keeps signed_int64 "initial" (lookup "initial" f) f g not_initial nodup
          initial in
      let l =
        checked_option-keeps delta_value "delta" (lookup "delta" g) g final not_delta k.0 last in
      let timed = rw h at (forward_args_passes kwargs [] options u tt v f forwarded).2 in
      let (w, is_plain) = Timed-plain a (lookup "timeout" f) timed in
      (l.0, (w, l.1 ∙ k.1 ∙ is_plain))

  -- `increment_multi` with a timeout never reaches the server: its options are converted, and then the wrapper of the
  -- operation converts them again, which refuses a timeout that is a number by now.
  pub increment_multi_timeout :
      (keys : List String) (a : Argument) (s : S)
      → effective kwargs [] options "timeout" ≡ some a
      → (e : Error) × (increment_multi counter_multi c keys options kwargs s ≡ (err e, s))
  unfolding increment_multi
  increment_multi_timeout keys a s h = elim (Result-cases (check_delta_initial kwargs options)) [
    | inr (e, r) ↦ (e, rw r refl)
    | inl (final, r) ↦
        let (nodup, (w, there)) = checked_timeout a final h r in
        let k = inject-Keeps c final nodup in
        let (e, q) = refused (inject c final) w k.0 (k.1 ∙ there) in (e, rw (r, q) refl)
  ]
