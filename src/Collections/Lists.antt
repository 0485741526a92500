-- ===== src/Collections/Lists.antt =====
-- The list operations of couchbase/collection.py on a document that the server keeps.
use couchbase_python_client.Base.{
  String, true, false, Option, none, some, [], ◌∷◌, length, Result, ok, err, Exec, pure, lift,
  ◌>>=◌, document_not_found, path_not_found, index_error, string_eq, ◌≡◌, refl, ◌∙◌, ap, resume,
}
use couchbase_python_client.Base.Decimal.{pos, negsuc}
use couchbase_python_client.Base.Value.{Value, null, int, list, nil}
use couchbase_python_client.Options.Forward.{Block}
use couchbase_python_client.Collections.{Collection, Core, Call, Answer}
use couchbase_python_client.Base.Dict.{erase}
use couchbase_python_client.Collections.Operations.{insert_new}
use couchbase_python_client.Collections.Structures.{
  lookup_one, mutate_one, dsop, recovered, first_result, map_get, map_remove, map_size, list_get,
  list_remove, list_size, list_prepend, element,
}
use couchbase_python_client.Collections.Passed.{
  address, mutation_address, inject-address, create-creating, erase-creating, lookup_one-address,
  mutate_one-address,
}
use couchbase_python_client.Collections.Served.{
  Serves, Contents, last_answer, last_result, drop_answer, count_answer, prepend_answer, last,
  last_spec, drop_spec, prepend_spec, count_spec, dropped, prepended,
}

-- What `_dsop` makes of the result when nothing is to be created.
abbrev pub wrapped : Result Value → Result Value
wrapped (err path_not_found) = err index_error
wrapped r = r

abbrev pub peek_last : Option Value → Result Value
peek_last none = err index_error
peek_last (some v) = ok v

abbrev pub peek_result : Contents → Result Value
peek_result none = err document_not_found
peek_result (some vs) = peek_last (last vs)

abbrev pub drop_result : Contents → Result Value
drop_result none = err document_not_found
drop_result (some []) = err index_error
drop_result (some (v ∷ vs)) = ok null

abbrev pub count_result : Contents → Result Value
count_result none = err document_not_found
count_result (some vs) = ok (int (pos (length vs)))

abbrev pub prepend_result : Contents → Result Value
prepend_result none = err document_not_found
prepend_result (some vs) = ok null

module _ {S : Type 0} (core : Core S) (c : Collection) (key : String) where
  pub recovered-wrapped :
      (insert_it : Value → Exec S Answer) (create_type : Option Value) (again : Exec S Value)
      (r : Result Value) (s : S)
      → recovered insert_it create_type true false again (r, s) ≡ (wrapped r, s)
  unfolding recovered
  recovered-wrapped insert_it create_type again (ok v) s = refl
  recovered-wrapped insert_it create_type again (err document_not_found) s = refl
  recovered-wrapped insert_it create_type again (err path_not_found) s = refl
  recovered-wrapped insert_it create_type again (err _) s = refl

  pub dsop-wrapped :
      (create_type : Option Value) (fn : Block → Exec S Value) (s : S)
      → dsop core c create_type true key fn (address c) s
        ≡ (wrapped (fn (address c) s).0, (fn (address c) s).1)
  unfolding dsop
  dsop-wrapped create_type fn s = rw (create-creating c false) (
      recovered-wrapped (λ v. insert_new core c key v [] []) create_type (fn (address c))
        (fn (address c) s).0 (fn (address c) s).1)

  list_get-peek :
      (s : S)
      → list_get core c key (negsuc 0) (address c) s ≡ (
          let r =
            (core (Call.lookup_in key (last_spec ∷ [])) (address c) >>= λ a. lift (first_result a))
              s in
          (wrapped (wrapped r.0), r.1))
  unfolding list_get map_get
  list_get-peek s =
      rw (inject-address c, dsop-wrapped none (map_get core c key (element (negsuc 0))) s)
        (rw
          (
            inject-address c,
            dsop-wrapped none (lookup_one core c key last_spec) s,
            lookup_one-address c core key last_spec s,
          )
          refl)

  list_remove-drop :
      (s : S)
      → list_remove core c key (negsuc 0) (address c) s ≡ (
          let r =
            (core (Call.mutate_in key (drop_spec ∷ [])) (mutation_address c) >>= λ _. pure null)
              s in
          (wrapped (wrapped r.0), r.1))
  unfolding list_remove map_remove
  list_remove-drop s =
      rw (inject-address c, dsop-wrapped none (map_remove core c key (element (negsuc 0))) s)
        (rw
          (
            inject-address c,
            dsop-wrapped none (mutate_one core c key drop_spec) s,
            mutate_one-address c core key drop_spec s,
          )
          refl)

  list_size-count :
      (s : S)
      → list_size core c key (address c) s ≡ (
          let r =
            (core (Call.lookup_in key (count_spec ∷ [])) (address c) >>= λ a. lift (first_result a))
              s in
          (wrapped (wrapped r.0), r.1))
  unfolding list_size map_size
  list_size-count s =
      rw (inject-address c, dsop-wrapped none (map_size core c key) s)
        (rw
          (
            inject-address c,
            dsop-wrapped none (lookup_one core c key count_spec) s,
            lookup_one-address c core key count_spec s,
          )
          refl)

  list_prepend-prepend :
      (v : Value) (s : S)
      → list_prepend core c key v (address c) s ≡ (
          let r =
            (core (Call.mutate_in key (prepend_spec v ∷ [])) (mutation_address c) >>= λ _.
            pure null)
              s in
          (wrapped r.0, r.1))
  unfolding list_prepend
  list_prepend-prepend v s =
      rw
        (
          inject-address c,
          dsop-wrapped (some (list nil))
              (λ kw. mutate_one core c key (prepend_spec v) (erase ⦃e = string_eq⦄ "create" kw)) s,
        )
        (rw (erase-creating c false, mutate_one-address c core key (prepend_spec v) s) refl)

  last_result-peek_last : (o : Option Value) → wrapped (wrapped (last_result o)) ≡ peek_last o
  last_result-peek_last none = refl
  last_result-peek_last (some v) = refl

  module _ {view : S → Contents} (served : Serves core c key view) where
    after_get :
        (o : Contents) (r : Result Answer) (t : S)
        → r ≡ last_answer o
        → (wrapped (wrapped (resume r t (λ a. lift (first_result a))).0) ≡ peek_result o)
          × ((resume r t (λ a. lift (first_result a))).1 ≡ t)
    unfolding first_result
    after_get none r t h = rw h (refl, refl)
    after_get (some vs) r t h = rw h (last_result-peek_last (last vs), refl)

    pub peeks :
        (s : S)
        → ((list_get core c key (negsuc 0) (address c) s).0 ≡ peek_result (view s))
          × (view (list_get core c key (negsuc 0) (address c) s).1 ≡ view s)
    peeks s =
        let r = core (Call.lookup_in key (last_spec ∷ [])) (address c) s in
        let a = after_get (view s) r.0 r.1 (served.gets_last s).0 in
        rw (list_get-peek s) (a.0, ap view a.1 ∙ (served.gets_last s).1)

    after_drop :
        (o : Contents) (r : Result Answer) (t : S)
        → r ≡ drop_answer o
        → (wrapped (wrapped (resume r t (λ _. pure null)).0) ≡ drop_result o)
          × ((resume r t (λ _. pure null)).1 ≡ t)
    after_drop none r t h = rw h (refl, refl)
    after_drop (some []) r t h = rw h (refl, refl)
    after_drop (some (_ ∷ _)) r t h = rw h (refl, refl)

    pub drops :
        (s : S)
        → ((list_remove core c key (negsuc 0) (address c) s).0 ≡ drop_result (view s))
          × (view (list_remove core c key (negsuc 0) (address c) s).1 ≡ dropped (view s))
    drops s =
        let r = core (Call.mutate_in key (drop_spec ∷ [])) (mutation_address c) s in
        let a = after_drop (view s) r.0 r.1 (served.drops s).0 in
        rw (list_remove-drop s) (a.0, ap view a.1 ∙ (served.drops s).1)

    after_count :
        (o : Contents) (r : Result Answer) (t : S)
        → r ≡ count_answer o
        → (wrapped (wrapped (resume r t (λ a. lift (first_result a))).0) ≡ count_result o)
          × ((resume r t (λ a. lift (first_result a))).1 ≡ t)
    unfolding first_result
    after_count none r t h = rw h (refl, refl)
    after_count (some _) r t h = rw h (refl, refl)

    pub sizes :
        (s : S)
        → ((list_size core c key (address c) s).0 ≡ count_result (view s))
          × (view (list_size core c key (address c) s).1 ≡ view s)
    sizes s =
        let r = core (Call.lookup_in key (count_spec ∷ [])) (address c) s in
        let a = after_count (view s) r.0 r.1 (served.counts s).0 in
        rw (list_size-count s) (a.0, ap view a.1 ∙ (served.counts s).1)

    after_prepend :
        (o : Contents) (r : Result Answer) (t : S)
        → r ≡ prepend_answer o
        → (wrapped (resume r t (λ _. pure null)).0 ≡ prepend_result o)
          × ((resume r t (λ _. pure null)).1 ≡ t)
    after_prepend none r t h = rw h (refl, refl)
    after_prepend (some _) r t h = rw h (refl, refl)

    pub prepends :
        (v : Value) (s : S)
        → ((list_prepend core c key v (address c) s).0 ≡ prepend_result (view s))
          × (view (list_prepend core c key v (address c) s).1 ≡ prepended v (view s))
    prepends v s =
        let r = core (Call.mutate_in key (prepend_spec v ∷ [])) (mutation_address c) s in
        let a = after_prepend (view s) r.0 r.1 (served.prepends v s).0 in
        rw (list_prepend-prepend v s) (a.0, ap view a.1 ∙ (served.prepends v s).1)
