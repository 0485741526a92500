-- ===== src/Collections/Retry.antt =====
-- The rounds of `set_remove` of couchbase/collection.py.
use couchbase_python_client.Base.{
  ℕ, suc, String, Bool, false, Option, none, some, List, [], ◌∷◌, Result, ok, err, lift, ◌>>=◌,
  document_exists, value_error, type_error, string_eq, contains, ◌≡◌, refl, arith, ◌∙◌,
}
use couchbase_python_client.Base.Dict.{insert}
use couchbase_python_client.Base.Decimal.{pos}
use couchbase_python_client.Base.Value.{Value, int}
use couchbase_python_client.Options.Forward.{Argument, plain, Block}
use couchbase_python_client.Collections.{Collection, Core, accepted, get_keywords, client_get}
use couchbase_python_client.Collections.Structures.{list_remove}
use couchbase_python_client.Collections.Sets.{
  listed, index_of, located, round_end, round, set_remove_loop,
}

accepted-insert :
    (names : List String) (key : String) (x : Argument) (kwargs : Block)
    → contains names key ≡ false
    → accepted names (insert key x kwargs) ≡ false
unfolding accepted insert
accepted-insert names key x [] h = ground arith
accepted-insert names key x ((k, v) ∷ kwargs) h =
    let ih = accepted-insert names key x kwargs h in ground arith

unknown_cas : contains get_keywords "cas" ≡ false
unfolding string_eq
unknown_cas = refl

accepted-cas :
    (x : Argument) (kwargs : Block) → accepted get_keywords (insert "cas" x kwargs) ≡ false
accepted-cas x kwargs = accepted-insert get_keywords "cas" x kwargs unknown_cas

module _ {S : Type 0} (same : Value → Value → Bool) (core : Core S) (c : Collection) where
  -- Every round after the first fails in `get`.
  later_round :
      (f : ℕ) (key : String) (v : Value) (x : Argument) (kwargs : Block) (s : S)
      → set_remove_loop same core c (suc f) key v (insert "cas" x kwargs) s
        ≡ some (err type_error, s)
  unfolding set_remove_loop client_get round
  later_round f key v x kwargs s = rw (accepted-cas x kwargs) refl

  -- Two ways to go on that both fail at once come to one result.
  round_end_ends :
      (again more : S → Option (Result Value × S))
      → ((t : S) → again t ≡ some (err type_error, t))
      → ((t : S) → more t ≡ some (err type_error, t))
      → (p : Result Value × S)
      → (r : Result Value × S) × (round_end again p ≡ some r) × (round_end more p ≡ some r)
  unfolding round_end
  round_end_ends again more h k (err document_exists, s) = (_, h s, k s)
  round_end_ends again more h k (err value_error, s) = (_, refl, refl)
  round_end_ends again more h k (ok v, s) = (_, refl, refl)
  round_end_ends again more h k (err _, s) = (_, refl, refl)

  located_ends :
      (f : ℕ) (key : String) (v : Value) (kwargs : Block) (cas : ℕ) (o : Option ℕ) (s : S)
      → (r : Result Value × S) × (located core c key kwargs
            (set_remove_loop same core c 1 key v)
            cas
            o
            s
          ≡ some r)
        × (located core c key kwargs (set_remove_loop same core c (suc f) key v) cas o s ≡ some r)
  unfolding located
  located_ends f key v kwargs cas none s = (_, refl, refl)
  located_ends f key v kwargs cas (some i) s =
      let x = plain (int (pos cas)) in
      round_end_ends (set_remove_loop same core c 1 key v (insert "cas" x kwargs))
        (set_remove_loop same core c (suc f) key v (insert "cas" x kwargs))
        (later_round 0 key v x kwargs) (later_round f key v x kwargs)
        (list_remove core c key (pos i) (insert "cas" x kwargs) s)

  round_ends :
      (f : ℕ) (key : String) (v : Value) (kwargs : Block) (got : Result (List Value × ℕ)) (s : S)
      → (r : Result Value × S) × (round same core c key v kwargs
            (set_remove_loop same core c 1 key v)
            got
            s
          ≡ some r)
        × (round same core c key v kwargs (set_remove_loop same core c (suc f) key v) got s
            ≡ some r)
  unfolding round
  round_ends f key v kwargs (err e) s = (_, refl, refl)
  round_ends f key v kwargs (ok (vs, cas)) s =
      located_ends f key v kwargs cas (index_of same v vs) s

  -- Two rounds of `set_remove` are enough, whatever the server answers and others do: the loop ends, and more rounds
  -- would change nothing.
  pub set_remove_ends :
      (f : ℕ) (key : String) (v : Value) (kwargs : Block) (s : S)
      → (r : Result Value × S) × (set_remove_loop same core c 2 key v kwargs s ≡ some r)
        × (set_remove_loop same core c (suc (suc f)) key v kwargs s ≡ some r)
  unfolding set_remove_loop
  set_remove_ends f key v kwargs s =
      let got = (client_get core key kwargs >>= λ a. lift (listed a)) s in
      round_ends f key v kwargs got.0 got.1

  set_remove_loop-round :
      (f : ℕ) (key : String) (v : Value) (kwargs : Block) (s : S)
      → set_remove_loop same core c (suc f) key v kwargs s ≡ (
          let got = (client_get core key kwargs >>= λ a. lift (listed a)) s in
          round same core c key v kwargs (set_remove_loop same core c f key v) got.0 got.1)
  unfolding set_remove_loop
  set_remove_loop-round f key v kwargs s = refl

  round_conflicts :
      (retry : Block → S → Option (Result Value × S)) (key : String) (v : Value) (vs : List Value)
      (cas i : ℕ) (kwargs : Block) (t u : S)
      → index_of same v vs ≡ some i
      → list_remove core c key (pos i) (insert "cas" (plain (int (pos cas))) kwargs) t
        ≡ (err document_exists, u)
      → round same core c key v kwargs retry (ok (vs, cas)) t
        ≡ retry (insert "cas" (plain (int (pos cas))) kwargs) u
  unfolding round located round_end
  round_conflicts retry key v vs cas i kwargs t u at_i conflict = rw (at_i, conflict) refl

  -- When another client changes the set between the read and the removal of `set_remove`, the removal is not tried
  -- again as it is meant to be: the CAS stays among the keyword arguments of the next read, which is a `TypeError`.
  pub set_remove_conflicts :
      (f : ℕ) (key : String) (v : Value) (vs : List Value) (cas i : ℕ) (kwargs : Block) (s t u : S)
      → (client_get core key kwargs >>= λ a. lift (listed a)) s ≡ (ok (vs, cas), t)
      → index_of same v vs ≡ some i
      → list_remove core c key (pos i) (insert "cas" (plain (int (pos cas))) kwargs) t
        ≡ (err document_exists, u)
      → set_remove_loop same core c (suc (suc f)) key v kwargs s ≡ some (err type_error, u)
  set_remove_conflicts f key v vs cas i kwargs s t u g at_i conflict =
      rw (set_remove_loop-round (suc f) key v kwargs s, g)
        (round_conflicts (set_remove_loop same core c (suc f) key v) key v vs cas i kwargs t u at_i
            conflict
          ∙ later_round f key v (plain (int (pos cas))) kwargs u)
