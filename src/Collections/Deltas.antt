-- ===== src/Collections/Deltas.antt =====
-- What the counter operations of couchbase/collection.py send.
use couchbase_python_client.Base.{
  String, Option, none, some, List, [], Result, ok, err, bind, resume, string_eq, ◌≡◌, refl, sym,
  ap, ◌∙◌, inl, inr, ◌⊎◌, type_error,
}
use couchbase_python_client.Base.Decimal.{ℤ, negsuc}
use couchbase_python_client.Base.Dict.{lookup, insert, lookup-insert_self}
use couchbase_python_client.Base.Value.{null, int}
use couchbase_python_client.Options.Bounded.{signed_int64, delta_value}
use couchbase_python_client.Options.Again.{bind_ok, ok_inj, err_ok}
use couchbase_python_client.Options.Forward.{Argument, plain, bounded, Block, forward_args}
use couchbase_python_client.Collections.{Collection, Core, Call, inject}
use couchbase_python_client.Collections.Counters.{
  negated, checked_option, check_delta_initial, verified_int, minus_delta, increment, decrement,
}

abbrev pub DeltaCases : Option Argument → Type 0
DeltaCases o = (o ≡ none) ⊎ ((o ≡ some (plain null)) ⊎ ((z : ℤ) × (o ≡ some (plain (int z)))))

set_to :
    (r : Result ℤ) (f final : Block)
    → bind r (λ z. ok (insert "delta" (plain (int z)) f)) ≡ ok final
    → DeltaCases (lookup "delta" final)
set_to (err e) f final h = absurd (err_ok h)
set_to (ok z) f final h = inr (
    inr (
      z,
      ap (λ (d : Block). lookup "delta" d) (sym (ok_inj h))
          ∙ lookup-insert_self "delta" (plain (int z)) f,
    ))

by_option :
    (o : Option Argument) (f final : Block)
    → lookup "delta" f ≡ o
    → checked_option delta_value "delta" o f ≡ ok final
    → DeltaCases (lookup "delta" final)
unfolding checked_option verified_int
by_option none f final h e = inl (ap (λ (d : Block). lookup "delta" d) (sym (ok_inj e)) ∙ h)
by_option (some (plain null)) f final h e =
    inr (inl (ap (λ (d : Block). lookup "delta" d) (sym (ok_inj e)) ∙ h))
by_option (some (bounded c)) f final h e = set_to (verified_int delta_value (bounded c)) f final e
by_option (some (plain _)) f final h e = absurd (err_ok e)
by_option (some _) f final h e = absurd (err_ok e)

check_delta_initial-DeltaCases :
    (kwargs : Block) (options : List Block) (final : Block)
    → check_delta_initial kwargs options ≡ ok final
    → DeltaCases (lookup "delta" final)
unfolding check_delta_initial
check_delta_initial-DeltaCases kwargs options final h =
    let given = bind_ok (forward_args kwargs [] options) _ h in
    let initial =
      bind_ok (checked_option signed_int64 "initial" (lookup "initial" given.0) given.0) _
        given.2 in
    by_option (lookup "delta" initial.0) initial.0 final refl initial.2

module _ {S : Type 0} (core : Core S) (c : Collection) where
  increment_step :
      (key : String) (options : List Block) (kwargs final : Block) (s : S)
      → check_delta_initial (inject c kwargs) options ≡ ok final
      → increment core c key options kwargs s ≡ core (Call.counter key) final s
  unfolding increment
  increment_step key options kwargs final s h = rw h refl

  decrement_step :
      (key : String) (options : List Block) (kwargs final : Block) (s : S) (o : Option Argument)
      → check_delta_initial (inject c kwargs) options ≡ ok final
      → lookup "delta" final ≡ o
      → decrement core c key options kwargs s
        ≡ resume
            (minus_delta o)
            s
            (λ z. core (Call.counter key) (insert "delta" (plain (int z)) final))
  unfolding decrement
  decrement_step key options kwargs final s o h d = rw h (
      ap
        (λ p.
          resume (minus_delta p) s
            (λ z. core (Call.counter key) (insert "delta" (plain (int z)) final)))
        d)

  -- Where the options of a counter operation are accepted, `increment` sends them as they are; `decrement` sends them
  -- with the opposite of their delta, with -1 if they have none, and raises a `TypeError` if it is given as `None`.
  pub counter_deltas :
      (key : String) (options : List Block) (kwargs final : Block) (s : S)
      → check_delta_initial (inject c kwargs) options ≡ ok final
      → let sent = λ (z : ℤ). core (Call.counter key) (insert "delta" (plain (int z)) final) s in
        let delta = lookup "delta" final in
        let decremented = decrement core c key options kwargs s in
        (increment core c key options kwargs s ≡ core (Call.counter key) final s)
        × (((delta ≡ none) × (decremented ≡ sent (negsuc 0)))
            ⊎ (((delta ≡ some (plain null)) × (decremented ≡ (err type_error, s)))
                ⊎ ((z : ℤ) × (delta ≡ some (plain (int z))) × (decremented ≡ sent (negated z)))))
  counter_deltas key options kwargs final s h = (
    increment_step key options kwargs final s h,
    elim (check_delta_initial-DeltaCases (inject c kwargs) options final h) [
      | inl d ↦ inl (d, decrement_step key options kwargs final s none h d)
      | inr (inl d) ↦
          inr (inl (d, decrement_step key options kwargs final s (some (plain null)) h d))
      | inr (inr (z, d)) ↦
          inr (inr (z, d, decrement_step key options kwargs final s (some (plain (int z))) h d))
    ],
  )
