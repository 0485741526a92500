-- ===== src/Collections/Counters.antt =====
-- couchbase/collection.py: `BinaryCollection`.
use couchbase_python_client.Base.{
  zero, suc, String, Option, none, some, List, [], ◌∷◌, Result, ok, err, bind, Exec, lift, ◌>>=◌,
  if◌then◌else◌, invalid_argument, type_error, key_error, outside_model, string_eq,
}
use couchbase_python_client.Base.Decimal.{ℤ, pos, negsuc}
use couchbase_python_client.Base.Dict.{lookup, insert, erase}
use couchbase_python_client.Base.Value.{Value, null, int}
use couchbase_python_client.Options.Bounded.{Kind, signed_int64, delta_value, same_kind, int_of}
use couchbase_python_client.Options.Forward.{Argument, plain, bounded, Block, forward_args, update}
use couchbase_python_client.Collections.{
  Collection, Core, Answer, inject, counter, append_doc, prepend_doc,
}

abbrev pub negated : ℤ → ℤ
negated (pos zero) = pos zero
negated (pos (suc n)) = negsuc n
negated (negsuc n) = pos (suc n)

-- `int(cls.verified(item))`
unfoldable pub verified_int : Kind → Argument → Result ℤ
unfolding int_of
verified_int k (bounded c) =
    if same_kind c.kind k
    then elim (int_of c) [ none ↦ err outside_model | some z ↦ ok z ]
    else err invalid_argument
verified_int k _ = err invalid_argument

-- The integer of an option takes its place, unless it is not there or `None`.
unfoldable pub checked_option : Kind → String → Option Argument → Block → Result Block
unfolding verified_int insert
checked_option k name none final = ok final
checked_option k name (some (plain null)) final = ok final
checked_option k name (some a) final =
    bind (verified_int k a) λ z. ok (insert name (plain (int z)) final)

-- `_check_delta_initial`
unfoldable pub check_delta_initial : Block → List Block → Result Block
unfolding forward_args checked_option lookup
check_delta_initial kwargs options = bind (forward_args kwargs [] options) λ forwarded.
    bind (checked_option signed_int64 "initial" (lookup "initial" forwarded) forwarded)
      λ final. checked_option delta_value "delta" (lookup "delta" final) final

-- `-final_opts.get('delta', DeltaValue(1))`
abbrev pub minus_delta : Option Argument → Result ℤ
minus_delta none = ok (negsuc 0)
minus_delta (some (plain (int z))) = ok (negated z)
minus_delta (some _) = err type_error

-- `delta = final_opts.pop('delta')`, and its negation unless it is falsy.
abbrev pub popped_delta : Option Argument → Block → Result Block
popped_delta none final = err key_error
popped_delta (some (plain (int (pos zero)))) final = ok final
popped_delta (some (plain (int z))) final = ok (insert "delta" (plain (int (negated z))) final)
popped_delta (some (plain null)) final = ok final
popped_delta (some _) final = err outside_model

module _ {S : Type 0} (core : Core S) (c : Collection) where
  unfoldable pub increment : String → List Block → Block → Exec S Answer
  unfolding inject check_delta_initial
  increment key options kwargs =
      lift (check_delta_initial (inject c kwargs) options) >>= λ final. core (counter key) final

  unfoldable pub decrement : String → List Block → Block → Exec S Answer
  unfolding inject check_delta_initial lookup insert
  decrement key options kwargs = lift (check_delta_initial (inject c kwargs) options) >>= λ final.
      lift (minus_delta (lookup "delta" final)) >>= λ z.
      core (counter key) (insert "delta" (plain (int z)) final)

  -- The formatted operations; the format is `FMT_UTF8` unless the caller gives one.
  unfoldable pub append : Value → String → Value → List Block → Block → Exec S Answer
  unfolding inject forward_args update
  append fmt_utf8 key v options kwargs =
      lift (forward_args (inject c kwargs) [] options) >>= λ given.
      core (append_doc key v) (update (("format", plain fmt_utf8) ∷ []) given)

  unfoldable pub prepend : Value → String → Value → List Block → Block → Exec S Answer
  unfolding inject forward_args update
  prepend fmt_utf8 key v options kwargs =
      lift (forward_args (inject c kwargs) [] options) >>= λ given.
      core (prepend_doc key v) (update (("format", plain fmt_utf8) ∷ []) given)

module _ {S : Type 0} (counter_multi : List String → Block → Exec S Answer) (c : Collection) where
  -- What `_wrap_multi_mutation_result(_Base.counter_multi)` does: the options are forwarded once more.
  unfoldable pub multi : List String → Block → Exec S Answer
  unfolding inject forward_args
  multi keys final = lift (forward_args (inject c final) [] []) >>= counter_multi keys

  unfoldable pub increment_multi : List String → List Block → Block → Exec S Answer
  unfolding check_delta_initial multi
  increment_multi keys options kwargs = lift (check_delta_initial kwargs options) >>= multi keys

  unfoldable pub decrement_multi : List String → List Block → Block → Exec S Answer
  unfolding check_delta_initial lookup erase insert multi
  decrement_multi keys options kwargs = lift (check_delta_initial kwargs options) >>= λ final.
      lift (popped_delta (lookup "delta" final) (erase "delta" final)) >>= multi keys
