-- ===== src/Views/Ranges.antt =====
-- couchbase_core/views/params.py: the range options, which set two options of the server.
use couchbase_python_client.Base.{
  String, ◌≡◌, refl, ◌≢◌, ◌⊎◌, inl, inr, Bool, true, false, Option, none, some, ok, err, string_eq,
  if◌then◌else◌, arith, ◌>>◌, ◌∙◌, Result, >>=-returned, invalid_argument, sym, subst, not, ◌||◌,
}
use couchbase_python_client.Base.Dict.{lookup, insert, lookup-insert, lookup-erase}
use couchbase_python_client.Base.Value.{Value, unspec, list, tuple, nil, cons, truthy}
use couchbase_python_client.Views.Handlers.{Handler, run_handler}
use couchbase_python_client.Views.Query.{
  QueryBase, handler_of, effective, unset, set_common, set_range_common, set_ends, set_range_items,
  set_sugar, get_range, user_has, is_range,
}
use couchbase_python_client.Views.Assigned.{
  Assigned, cleared, unknown, extra, stored, refused, set_common-Assigned,
}

-- The text that the option `p` is to have for the value `v`: none for `UNSPEC`.
abbrev pub Expected : Bool → String → Value → Option String → Type 0
Expected passthrough p v o =
    ((v ≡ unspec) × (o ≡ none))
    ⊎ ((h : Handler) × (s : String) × (handler_of p ≡ some h)
        × (run_handler (effective passthrough h) v ≡ ok s)
        × (o ≡ some s))

-- What an assignment that returned has done for the server's options.
pub record Sets (p : String) (v : Value) (q r : QueryBase) : Type 0 where
  pub value : Expected q.passthrough p v (lookup p r.real_options)
  pub others : (j : String) → j ≢ p → lookup j r.real_options ≡ lookup j q.real_options
  pub mode : r.passthrough ≡ q.passthrough

Assigned-Sets :
    (p : String) (v : Value) (user : Bool) (q : QueryBase) (r : Result (Unit {0}) × QueryBase)
    → Assigned p v user q r
    → handler_of p ≢ none
    → r.0 ≡ ok tt
    → Sets p v q r.1
unfolding unset
Assigned-Sets p v user q r (cleared n) known done = record {
  value = inl (n, ground (arith, lookup-erase p p q.real_options));
  others = λ j m. ground (arith, lookup-erase j p q.real_options);
  mode = refl;
}
Assigned-Sets p v user q r (unknown n f u) known done = cc
Assigned-Sets p v user q r (extra s n f e) known done = absurd (known f)
Assigned-Sets p v user q r (stored h s n f e) known done = record {
  value = inr (h, s, f, e, ground (arith, lookup-insert p p s q.real_options));
  others = λ j m. ground (arith, lookup-insert j p s q.real_options);
  mode = refl;
}
Assigned-Sets p v user q r (refused x n w) known done = cc

set_common-Sets :
    (p : String) (v : Value) (user : Bool) (q : QueryBase)
    → handler_of p ≢ none
    → (set_common p v user q).0 ≡ ok tt
    → Sets p v q (set_common p v user q).1
set_common-Sets p v user q = Assigned-Sets p v user q _ (set_common-Assigned p v user q)

-- What a range assignment that returned has done.
pub record SetsRange (s b e : String) (x y kept : Value) (q r : QueryBase) : Type 0 where
  pub first : Expected q.passthrough b x (lookup b r.real_options)
  pub second : Expected q.passthrough e y (lookup e r.real_options)
  pub others : (j : String) → j ≢ b → j ≢ e → lookup j r.real_options ≡ lookup j q.real_options
  pub reads : get_range s r ≡ kept

-- What a range value says: its two ends, and what is kept for reading. An empty one clears both.
pub data Stands : Value → Value → Value → Value → Type 0 where
  empty : (v : Value) → truthy v ≡ false → Stands v unspec unspec unspec
  one : (x : Value) → Stands (list (cons x nil)) x unspec (list (cons x (cons unspec nil)))
  pair_list : (x y : Value) → Stands (list (cons x (cons y nil))) x y (list (cons x (cons y nil)))
  pair_tuple :
      (x y : Value) → Stands (tuple (cons x (cons y nil))) x y (tuple (cons x (cons y nil)))

module _ (s b e : String) (apart : b ≢ e) (known_b : handler_of b ≢ none)
    (known_e : handler_of e ≢ none) where
  Sets-SetsRange :
      (x y kept : Value) (q t r : QueryBase)
      → Sets b x q t
      → Sets e y t r
      → SetsRange s b e x y kept q (record r { user_options = insert s kept r.user_options })
  unfolding get_range
  Sets-SetsRange x y kept q t r at_b at_e = record {
    first = subst (Expected q.passthrough b x) (sym (at_e.others b apart)) at_b.value;
    second = subst (λ m. Expected m e y (lookup e r.real_options)) at_b.mode at_e.value;
    others = λ j jb je. at_e.others j je ∙ at_b.others j jb;
    reads = ground (arith, lookup-insert s s kept r.user_options);
  }

  set_ends-SetsRange :
      (x y kept : Value) (q : QueryBase)
      → (set_ends s b e x y kept q).0 ≡ ok tt
      → SetsRange s b e x y kept q (set_ends s b e x y kept q).1
  unfolding set_ends
  set_ends-SetsRange x y kept q done =
      let (_, done_b, rest, step) =
        >>=-returned (set_common b x false) (λ _. set_common e y false >> set_sugar s kept) q
          done in
      let t = (set_common b x false q).1 in
      let (_, done_e, _, step') =
        >>=-returned (set_common e y false) (λ _. set_sugar s kept) t rest in
      subst (λ (w : Result (Unit {0}) × QueryBase). SetsRange s b e x y kept q w.1)
        (sym (step ∙ step'))
        (Sets-SetsRange x y kept q t (set_common e y false t).1
          (set_common-Sets b x false q known_b done_b) (set_common-Sets e y false t known_e done_e))

  -- The two ends that a value stands for, and what reading the range option gives back.
  set_range_items-SetsRange :
      (v : Value) (q : QueryBase)
      → (set_range_items s b e v q).0 ≡ ok tt
      → (x : Value) × (y : Value) × (kept : Value) × Stands v x y kept
        × SetsRange s b e x y kept q (set_range_items s b e v q).1
  unfolding set_range_items
  set_range_items-SetsRange (list (cons x nil)) q done =
      (x, unspec, _, one x, set_ends-SetsRange x unspec _ q done)
  set_range_items-SetsRange (list (cons x (cons y nil))) q done =
      (x, y, _, pair_list x y, set_ends-SetsRange x y _ q done)
  set_range_items-SetsRange (tuple (cons x (cons y nil))) q done =
      (x, y, _, pair_tuple x y, set_ends-SetsRange x y _ q done)
  set_range_items-SetsRange _ q done = cc

  module _ (v : Value) (q : QueryBase) where
    -- `_set_range_common` by its four tests.
    abbrev by_tests : Bool → Bool → Bool → Bool → Result (Unit {0}) × QueryBase
    by_tests legal busy_b busy_e full =
        if not legal
        then (err invalid_argument, q)
        else if busy_b || busy_e
        then (err invalid_argument, q)
        else if full
        then set_range_items s b e v q
        else set_ends s b e unspec unspec unspec q

    abbrev SetBy : Result (Unit {0}) × QueryBase → Type 0
    SetBy w =
        (x : Value) × (y : Value) × (kept : Value) × Stands v x y kept
        × SetsRange s b e x y kept q w.1

    by_tests-SetBy :
        (legal busy_b busy_e full : Bool)
        → truthy v ≡ full
        → (by_tests legal busy_b busy_e full).0 ≡ ok tt
        → (busy_b ≡ false) × (busy_e ≡ false) × SetBy (by_tests legal busy_b busy_e full)
    by_tests-SetBy false _ _ _ e done = cc
    by_tests-SetBy true true _ _ e done = cc
    by_tests-SetBy true false true _ e done = cc
    by_tests-SetBy true false false true e done = (refl, refl, set_range_items-SetsRange v q done)
    by_tests-SetBy true false false false e done = (
      refl,
      refl,
      (unspec, unspec, unspec, empty v e, set_ends-SetsRange unspec unspec unspec q done),
    )

  -- A range assignment that returned has set the option of each end to what its handler makes of that
  -- end, or has dropped it where the end is missing or `UNSPEC`. Other options of the server stay, and
  -- reading the range gives the two ends back. It is refused while either end is set on its own.
  pub set_range_sets :
      (v : Value) (q : QueryBase)
      → (set_range_common s b e v q).0 ≡ ok tt
      → (user_has b q ≡ false)
        × (user_has e q ≡ false)
        × ((x : Value) × (y : Value) × (kept : Value) × Stands v x y kept
            × SetsRange s b e x y kept q (set_range_common s b e v q).1)
  unfolding set_range_common
  set_range_sets v q done =
      by_tests-SetBy v q (is_range v) (user_has b q) (user_has e q) (truthy v) refl done
