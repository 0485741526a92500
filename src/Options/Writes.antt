-- ===== src/Options/Writes.antt =====
-- couchbase/options.py: what the loops of `forward_args` write.
use couchbase_python_client.Base.{
  String, Bool, true, false, none, some, [], ◌∷◌, Result, ok, err, bind, string_eq, ◌≡◌, ◌≢◌, refl,
  sym, subst, ◌∙◌, arith,
}
use couchbase_python_client.Base.Dict.{Dict, lookup, lookup-insert_ne, NodupKeys}
use couchbase_python_client.Options.Forward.{
  Argument, Block, is_none, kept_unless, Conversion, convert, convert_all, arg_mapping, step,
  forward,
}

bind-returned :
    {A B : Type 0} (r : Result A) (f : A → Result B) (b : B)
    → bind r f ≡ ok b
    → (a : A) × (r ≡ ok a) × (f a ≡ ok b)
bind-returned (ok a) f b h = (a, refl, h)
bind-returned (err e) f b h = cc

lookup-kept_unless :
    (j k : String) (b : Bool) (v : Argument) (d : Block)
    → j ≢ k
    → lookup j (kept_unless b k v d) ≡ lookup j d
lookup-kept_unless j k true v d n = refl
lookup-kept_unless j k false v d n = lookup-insert_ne j k v d n

nil_none : {V : Type 0} (j : String) (v : V) → lookup j [] ≡ some v → ⊥
unfolding lookup
nil_none j v h = cc

head_differs :
    {V : Type 0} (j k : String) (v : V) (d : Dict String V)
    → lookup j ((k, v) ∷ d) ≡ none
    → (j ≢ k) × (lookup j d ≡ none)
unfolding lookup
head_differs j k v d h = ground arith

head_same :
    {V : Type 0} (j k : String) (w v : V) (d : Dict String V)
    → j ≡ k
    → lookup j ((k, w) ∷ d) ≡ some v
    → w ≡ v
unfolding lookup
head_same j k w v d e h = ground arith

head_other :
    {V : Type 0} (j k : String) (w v : V) (d : Dict String V)
    → j ≢ k
    → lookup j ((k, w) ∷ d) ≡ some v
    → lookup j d ≡ some v
unfolding lookup
head_other j k w v d n h = ground arith

pub convert_all-keeps :
    (j : String) (fs : Dict String Conversion) (v : Argument) (out end : Block)
    → lookup j fs ≡ none
    → convert_all fs v out ≡ ok end
    → lookup j end ≡ lookup j out
unfolding convert_all
convert_all-keeps j [] v out end n h = cc
convert_all-keeps j ((k, f) ∷ fs) v out end n h =
    let (differs, later) = head_differs j k f fs n in
    let (w, converted, rest) =
      bind-returned (convert f v) (λ w. convert_all fs v (kept_unless (is_none w) k w out)) end h in
    convert_all-keeps j fs v (kept_unless (is_none w) k w out) end later rest
    ∙ lookup-kept_unless j k (is_none w) w out differs

-- Only the option `i` may write the output `j`.
abbrev pub Sole : String → String → Type 0
Sole i j =
    (k : String) (v : Argument) (out end : Block)
    → k ≢ i
    → step (lookup k arg_mapping) k v out ≡ ok end
    → lookup j end ≡ lookup j out

-- The round of the option `i`, by what it does to the output `j`.
abbrev pub Written : String → String → Argument → Block → Block → Type 0
Written i j v out end =
    (before : Block) × (after : Block) × (step (lookup i arg_mapping) i v before ≡ ok after)
    × (lookup j before ≡ lookup j out)
    × (lookup j end ≡ lookup j after)

module _ (i j : String) (sole : Sole i j) where
  pub forward-keeps :
      (d : Block) (out end : Block)
      → lookup i d ≡ none
      → forward d out ≡ ok end
      → lookup j end ≡ lookup j out
  unfolding forward
  forward-keeps [] out end n h = cc
  forward-keeps ((k, v) ∷ d) out end n h =
      let (differs, later) = head_differs i k v d n in
      let (out', stepped, rest) =
        bind-returned (step (lookup k arg_mapping) k v out) (forward d) end h in
      forward-keeps d out' end later rest ∙ sole k v out out' (λ e. differs (sym e)) stepped

  pub forward-Written :
      (d : Block) (v : Argument) (out end : Block)
      → NodupKeys d
      → lookup i d ≡ some v
      → forward d out ≡ ok end
      → Written i j v out end
  unfolding forward
  forward-Written [] v out end u n h = absurd (nil_none i v n)
  forward-Written ((k, w) ∷ d) v out end (fresh, u) n h =
      let (out', stepped, rest) =
        bind-returned (step (lookup k arg_mapping) k w out) (forward d) end h in
      elim (string_eq.dec i k) [
        | yes e ↦ (
          out,
          out',
          subst (λ a. step (lookup i arg_mapping) i a out ≡ ok out') (head_same i k w v d e n)
              (subst (λ x. step (lookup x arg_mapping) x w out ≡ ok out') (sym e) stepped),
          refl,
          forward-keeps d out' end (subst (λ x. lookup x d ≡ none) (sym e) fresh) rest,
        )
        | no ne ↦
            let (before, after, made, same_before, same_after) =
              forward-Written d v out' end u (head_other i k w v d ne n) rest in
            (
              before,
              after,
              made,
              same_before ∙ sole k w out out' (λ e. ne (sym e)) stepped,
              same_after,
            )
      ]
