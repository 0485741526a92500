-- ===== src/Options/Passed.antt =====
-- couchbase/options.py: which options an operation passes on, and with which values.
use couchbase_python_client.Base.{
  String, false, Option, none, some, List, [], ◌∷◌, ok, string_eq, contains, ◌≡◌, ◌≢◌, refl, sym,
  ap, subst, ◌∙◌, arith,
}
use couchbase_python_client.Base.Value.{int}
use couchbase_python_client.Base.Dict.{
  Dict, lookup, lookup-nil, lookup-cons, lookup-insert, insert, lookup-insert_ne,
  lookup-insert_self, NodupKeys, insert-NodupKeys,
}
use couchbase_python_client.Options.Forward.{
  as_microseconds, plain, duration, durability, bounded, Argument, Block, update, Conversion,
  convert, convert_all, arg_mapping, step, first_block, temp_options, forward_args,
  timedelta_as_microseconds,
}
use text.Mathlib.TextEquality.{eq_iff}
use couchbase_python_client.Options.Writes.{
  convert_all-keeps, Sole, forward-keeps, Written, forward-Written,
}

-- The keys that `arg_mapping` writes.
abbrev pub outputs : List String
outputs = "specs" ∷ "timeout" ∷ "ttl" ∷ "durability_level" ∷ "replicate_to" ∷ "persist_to" ∷ []

not_written :
    (j k : String) (fs : Dict String Conversion)
    → contains outputs j ≡ false
    → lookup k arg_mapping ≡ some fs
    → lookup j fs ≡ none
unfolding lookup
not_written j k fs n h = ground arith

timeout_not_written :
    (k : String) (fs : Dict String Conversion)
    → k ≢ "timeout"
    → lookup k arg_mapping ≡ some fs
    → lookup "timeout" fs ≡ none
unfolding lookup
timeout_not_written k fs n h = ground (
  arith,
  eq_iff "timeout" "specs",
  eq_iff "timeout" "ttl",
  eq_iff "timeout" "durability_level",
  eq_iff "timeout" "replicate_to",
  eq_iff "timeout" "persist_to",
)

timeout_mapped : lookup "timeout" arg_mapping ≡ some (("timeout", as_microseconds) ∷ [])
unfolding lookup string_eq
timeout_mapped = refl

Sole-step :
    (i j k : String) (o : Option (Dict String Conversion)) (v : Argument) (out end : Block)
    → lookup k arg_mapping ≡ o
    → j ≢ k
    → ((fs : Dict String Conversion) → lookup k arg_mapping ≡ some fs → lookup j fs ≡ none)
    → step o k v out ≡ ok end
    → lookup j end ≡ lookup j out
Sole-step i j k none v out end e n w h =
    let same_block : end ≡ insert k v out = cc in
    ap (λ (d : Block). lookup j d) same_block ∙ lookup-insert_ne j k v out n
Sole-step i j k (some fs) v out end e n w h = convert_all-keeps j fs v out end (w fs e) h

Sole-plain : (j : String) → contains outputs j ≡ false → Sole j j
Sole-plain j n k v out end differs h =
    Sole-step j j k (lookup k arg_mapping) v out end refl (λ e. differs (sym e))
      (λ fs. not_written j k fs n) h

Sole-timeout : Sole "timeout" "timeout"
Sole-timeout k v out end differs h =
    Sole-step "timeout" "timeout" k (lookup k arg_mapping) v out end refl (λ e. differs (sym e))
      (λ fs. timeout_not_written k fs differs) h

-- The value that holds: of the arguments, else of the keywords, else of the block.
abbrev pub or_else : Option Argument → Option Argument → Option Argument
or_else (some v) o = some v
or_else none o = o

update_step :
    (j k : String) (v : Argument) (d : Block) (e : List (String × Argument))
    → lookup k e ≡ none
    → or_else (lookup j e) (lookup j (insert k v d)) ≡ or_else (lookup j ((k, v) ∷ e)) (lookup j d)
update_step j k v d e fresh = ground (arith, lookup-insert j k v d, lookup-cons j k v e)

lookup-update :
    (j : String) (d : Block) (e : List (String × Argument))
    → NodupKeys e
    → lookup j (update d e) ≡ or_else (lookup j e) (lookup j d)
unfolding update
lookup-update j d [] u = ap (λ o. or_else o (lookup j d)) (sym (lookup-nil j))
lookup-update j d ((k, v) ∷ e) (fresh, u) =
    lookup-update j (insert k v d) e u ∙ update_step j k v d e fresh

update-NodupKeys : (d : Block) (e : List (String × Argument)) → NodupKeys d → NodupKeys (update d e)
unfolding update
update-NodupKeys d [] u = u
update-NodupKeys d ((k, v) ∷ e) u = update-NodupKeys (insert k v d) e (insert-NodupKeys k v d u)

-- What holds for an option before it is converted.
abbrev pub effective : Block → Block → List Block → String → Option Argument
effective arg_vars kwargs options j =
    or_else (lookup j arg_vars) (or_else (lookup j kwargs) (lookup j (first_block options)))

inserted :
    (j : String) (o : Option (Dict String Conversion)) (a : Argument) (before after : Block)
    → o ≡ none
    → step o j a before ≡ ok after
    → lookup j after ≡ some a
inserted j none a before after e h =
    let same_block : after ≡ insert j a before = cc in
    ap (λ (d : Block). lookup j d) same_block ∙ lookup-insert_self j a before
inserted j (some fs) a before after e h = cc

left_out :
    (j : String) (o : Option (Dict String Conversion)) (a : Argument) (before after : Block)
    → o ≡ some []
    → step o j a before ≡ ok after
    → after ≡ before
unfolding convert_all
left_out j none a before after e h = cc
left_out j (some []) a before after e h = cc
left_out j (some (f ∷ fs)) a before after e h = cc

-- A timeout is passed on in microseconds.
abbrev pub Timed : Option Argument → Option Argument → Type 0
Timed none o = o ≡ none
Timed (some a) o = (w : Argument) × (timedelta_as_microseconds a ≡ ok w) × (o ≡ some w)

timed :
    (a : Argument) (before after : Block)
    → convert_all (("timeout", as_microseconds) ∷ []) a before ≡ ok after
    → Timed (some a) (lookup "timeout" after)
unfolding convert_all convert timedelta_as_microseconds
timed (duration d) before after h =
    let w = plain (int d.microseconds) in
    let same_block : after ≡ insert "timeout" w before = cc in
    (
      w,
      refl,
      ap (λ (d : Block). lookup "timeout" d) same_block ∙ lookup-insert_self "timeout" w before,
    )
timed (plain v) before after h = cc
timed (durability l r p) before after h = cc
timed (bounded c) before after h = cc

module _ (arg_vars kwargs : Block) (options : List Block) (u : NodupKeys arg_vars)
    (v : NodupKeys kwargs) (w : NodupKeys (first_block options)) where
  lookup-temp_options :
      (j : String)
      → lookup j (temp_options arg_vars kwargs options) ≡ effective arg_vars kwargs options j
  unfolding temp_options
  lookup-temp_options j =
      lookup-update j (update (first_block options) kwargs) arg_vars u
      ∙ ap (or_else (lookup j arg_vars)) (lookup-update j (first_block options) kwargs v)

  temp_options-NodupKeys : NodupKeys (temp_options arg_vars kwargs options)
  unfolding temp_options
  temp_options-NodupKeys =
      update-NodupKeys (update (first_block options) kwargs) arg_vars
        (update-NodupKeys (first_block options) kwargs w)

  module _ (end : Block) (returned : forward_args arg_vars kwargs options ≡ ok end) where
    unwritten :
        (j : String) → Sole j j → effective arg_vars kwargs options j ≡ none → lookup j end ≡ none
    unfolding forward_args
    unwritten j sole h =
        forward-keeps j j sole (temp_options arg_vars kwargs options) [] end
          (lookup-temp_options j ∙ h) returned
        ∙ lookup-nil j

    written :
        (j : String)
        → Sole j j
        → (a : Argument) → effective arg_vars kwargs options j ≡ some a
        → Written j j a [] end
    unfolding forward_args
    written j sole a h =
        forward-Written j j sole (temp_options arg_vars kwargs options) a [] end
          temp_options-NodupKeys (lookup-temp_options j ∙ h) returned

    passed_by :
        (j : String) (o : Option Argument)
        → contains outputs j ≡ false
        → lookup j arg_mapping ≡ none
        → effective arg_vars kwargs options j ≡ o
        → lookup j end ≡ o
    passed_by j none n m h = unwritten j (Sole-plain j n) h
    passed_by j (some a) n m h =
        let (before, after, made, same_before, same_after) = written j (Sole-plain j n) a h in
        same_after ∙ inserted j (lookup j arg_mapping) a before after m made

    dropped_by :
        (j : String) (o : Option Argument)
        → contains outputs j ≡ false
        → lookup j arg_mapping ≡ some []
        → effective arg_vars kwargs options j ≡ o
        → lookup j end ≡ none
    dropped_by j none n m h = unwritten j (Sole-plain j n) h
    dropped_by j (some a) n m h =
        let (before, after, made, same_before, same_after) = written j (Sole-plain j n) a h in
        same_after
        ∙ ap (λ (d : Block). lookup j d) (left_out j (lookup j arg_mapping) a before after m made)
        ∙ same_before
        ∙ lookup-nil j

    timeout_passed :
        (o : Option Argument)
        → effective arg_vars kwargs options "timeout" ≡ o
        → Timed o (lookup "timeout" end)
    timeout_passed none h = unwritten "timeout" Sole-timeout h
    timeout_passed (some a) h =
        let (before, after, made, same_before, same_after) = written "timeout" Sole-timeout a h in
        subst (Timed (some a)) (sym same_after) (
          timed a before after
            (subst (λ o. step o "timeout" a before ≡ ok after) timeout_mapped made))

    pub forward_args_passes :
        ((j : String)
          → contains outputs j ≡ false
          → lookup j arg_mapping ≡ none
          → lookup j end ≡ effective arg_vars kwargs options j)
        × ((j : String)
            → contains outputs j ≡ false
            → lookup j arg_mapping ≡ some []
            → lookup j end ≡ none)
        × Timed (effective arg_vars kwargs options "timeout") (lookup "timeout" end)
    forward_args_passes = (
      λ j n m. passed_by j (effective arg_vars kwargs options j) n m refl,
      λ j n m. dropped_by j (effective arg_vars kwargs options j) n m refl,
      timeout_passed (effective arg_vars kwargs options "timeout") refl,
    )
