-- ===== src/N1ql/Options.antt =====
-- couchbase_core/n1ql.py: what the setters of `_N1QLQuery` store is what the getters return.
use Prim.Native.String.{[] as empty_text, ◌∷◌ as ◌::◌}
use text.Mathlib.TextLemmas.{nil-append, cons-append}
use couchbase_python_client.Base.{
  String, ◌<>◌, Bool, true, false, not, Option, none, some, List, [], ◌∷◌, ◌++◌, ◌≡◌, refl, ◌≢◌,
  string_eq, if◌then◌else◌, Result, ok, err, type_error, attribute_error, ◌⊎◌, inl, inr, ap, ◌∙◌,
}
use couchbase_python_client.Base.Dict.{
  lookup, insert, lookup-insert, lookup-insert_self, lookup-insert_ne,
}
use couchbase_python_client.Base.Decimal.{ℤ}
use couchbase_python_client.Base.Decimal.RoundTrip.{parse_int-decimal_ℤ}
use couchbase_python_client.Base.Value.{
  Value, str, list, dict, Items, nil, cons, Fields, truthy, to_list, Floating,
}
use couchbase_python_client.N1ql.Query.{
  N1qlQuery, set_option, add_pos_args, append_items, extend_args, consistency, consistent_with,
  set_cap, get_cap, set_profile, profile, is_one_of, set_timeout, get_timeout, drop_last, stored_or,
}

-- A cap that is set to an integer reads as that integer, and other options keep their values.
pub get_cap-set_cap :
    (name : String) (n : ℤ) (q : N1qlQuery)
    → (get_cap name (set_cap name n q) ≡ ok n)
      × ((j : String) → j ≢ name → lookup j (set_cap name n q).body ≡ lookup j q.body)
unfolding get_cap set_cap
get_cap-set_cap name n q =
    (rw (lookup-insert_self, parse_int-decimal_ℤ), λ j h. lookup-insert_ne j name _ q.body h)

to_list-append_items :
    (vs : Items) (args : List Value) → to_list (append_items vs args) ≡ to_list vs ++ args
unfolding append_items
to_list-append_items nil [] = refl
to_list-append_items nil (v ∷ vs) = ap (λ r. v ∷ r) (to_list-append_items nil vs)
to_list-append_items (cons v vs) args = ap (λ r. v ∷ r) (to_list-append_items vs args)

-- The positional arguments of a query.
abbrev pub positional : Option Value → List Value
positional (some (list vs)) = to_list vs
positional _ = []

-- What a call of `_add_pos_args` may do.
abbrev pub Appends : List Value → N1qlQuery → Option Value → Result (Unit {0}) × N1qlQuery → Type 0
Appends args q o r =
    ((r.0 ≡ ok tt) × (positional (lookup "args" r.1.body) ≡ positional o ++ args))
    ⊎ ((v : Value) × (o ≡ some v) × ((vs : Items) → v ≢ list vs) × (r ≡ (err attribute_error, q)))

extend-Appends :
    (args : List Value) (q : N1qlQuery) (o : Option Value)
    → Appends args q o (extend_args (stored_or (list nil) o) args q)
unfolding extend_args set_option
extend-Appends args q none = inl (refl, rw lookup-insert_self (to_list-append_items nil args))
extend-Appends args q (some (list vs)) =
    inl (refl, rw lookup-insert_self (to_list-append_items vs args))
extend-Appends args q (some v) = inr (v, refl, (λ vs e. cc), refl)

-- Positional arguments accumulate: a call returns, and those of the query are then the ones before it
-- followed by the new ones, or the query's `args` is something other than a list, and the call raises
-- and changes nothing.
pub add_pos_args-Appends :
    (args : List Value) (q : N1qlQuery)
    → Appends args q (lookup "args" q.body) (add_pos_args args q)
unfolding add_pos_args
add_pos_args-Appends args q = extend-Appends args q (lookup "args" q.body)

abbrev pub allows : N1qlQuery → Bool
allows q = is_one_of ("none" ∷ "not_bounded" ∷ "at_plus" ∷ []) (consistency q)

abbrev at_plus : Fields → N1qlQuery → N1qlQuery
at_plus sv q = set_option "scan_vectors" (dict sv) (set_option "scan_consistency" (str "at_plus") q)

-- What a call that was allowed leaves.
pub record AtPlus (sv : Fields) (q r : N1qlQuery) : Type 0 where
  pub level : consistency r ≡ str "at_plus"
  pub vectors : lookup "scan_vectors" r.body ≡ some (dict sv)
  pub others :
      (j : String) → j ≢ "scan_vectors" → j ≢ "scan_consistency" → lookup j r.body ≡ lookup j q.body
  pub again : allows r ≡ true

level_is : (sv : Fields) (q : N1qlQuery) → consistency (at_plus sv q) ≡ str "at_plus"
unfolding consistency set_option string_eq
level_is sv q = rw (lookup-insert, lookup-insert) refl

at_plus_listed : is_one_of ("none" ∷ "not_bounded" ∷ "at_plus" ∷ []) (str "at_plus") ≡ true
unfolding string_eq
at_plus_listed = refl

at_plus-AtPlus : (sv : Fields) (q : N1qlQuery) → AtPlus sv q (at_plus sv q)
unfolding set_option
at_plus-AtPlus sv q = record {
  level = level_is sv q;
  vectors =
      lookup-insert_self "scan_vectors" (dict sv)
        (insert "scan_consistency" (str "at_plus") q.body);
  others = λ j a b.
      lookup-insert_ne j "scan_vectors" _ (insert "scan_consistency" (str "at_plus") q.body) a
      ∙ lookup-insert_ne j "scan_consistency" _ q.body b;
  again = rw (level_is sv q) at_plus_listed;
}

-- `consistent_with` returns exactly when no other consistency was chosen and the state has a vector.
-- Then the query is at `at_plus` with the state's vectors, its other options are as before, and a
-- further call is allowed; when it raises, the query is as before.
pub consistent_with_cases :
    (sv : Fields) (q : N1qlQuery)
    → ((allows q ≡ true)
        × (truthy (dict sv) ≡ true)
        × ((consistent_with sv q).0 ≡ ok tt)
        × AtPlus sv q (consistent_with sv q).1)
      ⊎ (((allows q ≡ false) ⊎ (truthy (dict sv) ≡ false))
          × (consistent_with sv q ≡ (err type_error, q)))
unfolding consistent_with
consistent_with_cases sv q = by_tests (allows q) (truthy (dict sv))
  where
    by_tests :
        (a f : Bool)
        → let r : Result (Unit {0}) × N1qlQuery =
            (if not a
              then (err type_error, q)
              else if not f
              then (err type_error, q)
              else (ok tt, at_plus sv q)) in
          ((a ≡ true) × (f ≡ true) × (r.0 ≡ ok tt) × AtPlus sv q r.1)
          ⊎ (((a ≡ false) ⊎ (f ≡ false)) × (r ≡ (err type_error, q)))
    by_tests false f = inr (inl refl, refl)
    by_tests true false = inr (inr refl, refl)
    by_tests true true = inl (refl, refl, refl, at_plus-AtPlus sv q)

-- A profile is stored only if it is one of the three, and then it reads back; any other value raises
-- and changes nothing.
pub set_profile_cases :
    (v : Value) (q : N1qlQuery)
    → ((set_profile v q).0 ≡ ok tt)
        × (profile (set_profile v q).1 ≡ v)
        × (is_one_of ("off" ∷ "timings" ∷ "phases" ∷ []) v ≡ true)
      ⊎ (set_profile v q ≡ (err type_error, q))
        × (is_one_of ("off" ∷ "timings" ∷ "phases" ∷ []) v ≡ false)
unfolding set_profile profile set_option
set_profile_cases v q = by_test (is_one_of ("off" ∷ "timings" ∷ "phases" ∷ []) v)
  where
    by_test :
        (b : Bool)
        → let r : Result (Unit {0}) × N1qlQuery =
            (if b then (ok tt, set_option "profile" v q) else (err type_error, q)) in
          (r.0 ≡ ok tt) × (profile r.1 ≡ v) × (b ≡ true) ⊎ (r ≡ (err type_error, q)) × (b ≡ false)
    by_test true = inl (refl, rw lookup-insert_self, refl)
    by_test false = inr (refl, refl)

drop_last-append : (s : String) → drop_last (s <> "s") ≡ s
unfolding drop_last
drop_last-append empty_text = refl
drop_last-append (c :: empty_text) =
    ap drop_last (cons-append c "" "s") ∙ ap (λ r. drop_last (c :: r)) (nil-append "s")
drop_last-append (c :: d :: s) =
    rw (cons-append, cons-append) (ap (λ r. c :: r) (rw cons-append at (drop_last-append (d :: s))))

-- A timeout that is set to a true value reads as the float that the value stands for, where `float`
-- gives that float back from its `repr`.
pub get_timeout-set_timeout :
    (to_float : Value → Result Floating) (v : Value) (x : Floating) (q : N1qlQuery)
    → to_float (str x.repr) ≡ ok x
    → truthy v ≡ true
    → to_float v ≡ ok x
    → get_timeout to_float (set_timeout to_float v q).1 ≡ ok x
unfolding get_timeout set_timeout set_option
get_timeout-set_timeout to_float v x q back given e =
    rw (given, set_timeout) (rw (e, set_timeout) (rw lookup-insert_self (rw drop_last-append back)))
