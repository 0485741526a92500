-- ===== src/Subdoc/Project.antt =====
-- couchbase/subdocument.py: the specs of a projection.
use couchbase_python_client.Base.{
  ℕ, ◌≤◌, Bool, true, false, List, [], ◌∷◌, map, length, if◌then◌else◌, ltb, Result, ok, err, bind,
  invalid_argument, type_error, ◌≡◌, refl, arith, ◌⊎◌, inl, inr, Bool-cases,
}
use couchbase_python_client.Base.Decimal.{pos}
use couchbase_python_client.Base.Value.{
  Value, null, unspec, bool, float, str, int, bytes, list, tuple, dict, truthy, to_list, nil, cons,
  Fields, end, field,
}
use couchbase_python_client.Subdoc.{Spec, get, get_full, with_expiry}

abbrev pub keys : Fields → List Value
keys end = []
keys (field k v d) = str k ∷ keys d

abbrev ints : List ℕ → List Value
ints [] = []
ints (b ∷ bs) = int (pos b) ∷ ints bs

-- `hasattr(project, "__getitem__") or hasattr(project, "__iter__")`, for what is not a text.
abbrev pub is_iterable : Value → Bool
is_iterable (list vs) = true
is_iterable (tuple vs) = true
is_iterable (dict d) = true
is_iterable (bytes b) = true
is_iterable _ = false

-- What an iteration gives.
abbrev pub elements : Value → List Value
elements (list vs) = to_list vs
elements (tuple vs) = to_list vs
elements (dict d) = keys d
elements (bytes b) = ints b
elements _ = []

abbrev is_str : Value → Bool
is_str (str s) = true
is_str _ = false

unfoldable pub validate_project : Value → Result (Unit {0})
unfolding truthy
validate_project project =
    if truthy project
    then (if is_str project
        then err invalid_argument
        else if is_iterable project
        then ok tt
        else err invalid_argument)
    else ok tt

abbrev pub max_specs : ℕ
max_specs = 16

-- `generate`
unfoldable pub generate : Value → Spec
unfolding truthy get get_full with_expiry
generate null = with_expiry
generate path = if truthy path then get path false else get_full

-- `[None] + project`
abbrev pub prefixed : Bool → Value → Result (List Value)
prefixed true (list vs) = ok (null ∷ to_list vs)
prefixed true _ = err type_error
prefixed false project = ok (elements project)

abbrev pub bounded : List Value → Result (List Spec)
bounded paths =
    if ltb max_specs (length paths) then err invalid_argument else ok (map generate paths)

unfoldable pub gen_projection_spec : Value → Bool → Result (List Spec)
unfolding truthy validate_project generate
gen_projection_spec project with_exp = bind (validate_project project) λ _.
    bind (prefixed with_exp (if truthy project then project else list (cons (str "") nil))) bounded

-- What a projection comes to.
abbrev pub Projected : Bool → Result (List Spec) → Type 0
Projected exp r =
    ((specs : List Spec) × (r ≡ ok specs) × (1 ≤ length specs) × (length specs ≤ max_specs))
    ⊎ ((r ≡ err invalid_argument) ⊎ ((exp ≡ true) × (r ≡ err type_error)))

length-map : (vs : List Value) → length (map generate vs) ≡ length vs
length-map [] = refl
length-map (_ ∷ vs) = ground (arith, length-map vs)

bounded-Projected : (exp : Bool) (vs : List Value) → 1 ≤ length vs → Projected exp (bounded vs)
bounded-Projected exp vs h = elim (Bool-cases (ltb max_specs (length vs))) [
  | inl b ↦ inr (inl (rw b refl))
  | inr b ↦
      inl (map generate vs, rw b refl, rw (length-map vs) h, rw (length-map vs) (ground arith))
]

nonempty : (v : Value) → truthy v ≡ true → is_iterable v ≡ true → 1 ≤ length (elements v)
unfolding truthy
nonempty (list nil) t i = absurd cc
nonempty (list (cons v vs)) t i = ground arith
nonempty (tuple nil) t i = absurd cc
nonempty (tuple (cons v vs)) t i = ground arith
nonempty (dict end) t i = absurd cc
nonempty (dict (field k v d)) t i = ground arith
nonempty (bytes []) t i = absurd cc
nonempty (bytes (b ∷ bs)) t i = ground arith
nonempty null t i = absurd cc
nonempty unspec t i = absurd cc
nonempty (bool b) t i = absurd cc
nonempty (int z) t i = absurd cc
nonempty (float x) t i = absurd cc
nonempty (str s) t i = absurd cc

prefixed-Projected :
    (exp : Bool) (v : Value)
    → 1 ≤ length (elements v)
    → Projected exp (bind (prefixed exp v) bounded)
prefixed-Projected false v h = bounded-Projected false (elements v) h
prefixed-Projected true (list vs) h = bounded-Projected true (null ∷ to_list vs) (ground arith)
prefixed-Projected true _ h = inr (inr (refl, refl))

-- A projection that is accepted asks for 1 to 16 paths; any other is an `InvalidArgumentException`, or,
-- where the expiry is wanted and the paths are not a list, a `TypeError`.
pub gen_projection_spec-Projected :
    (project : Value) (exp : Bool) → Projected exp (gen_projection_spec project exp)
unfolding gen_projection_spec validate_project
gen_projection_spec-Projected project exp = elim (Bool-cases (truthy project)) [
  | inl t ↦ elim (Bool-cases (is_str project)) [
    | inl s ↦ inr (inl (rw (t, s) refl))
    | inr s ↦ elim (Bool-cases (is_iterable project)) [
      | inl i ↦ rw (t, s, i) (prefixed-Projected exp project (nonempty project t i))
      | inr i ↦ inr (inl (rw (t, s, i) refl))
    ]
  ]
  | inr t ↦ rw t (prefixed-Projected exp (list (cons (str "") nil)) (ground arith))
]
