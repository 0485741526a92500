-- ===== src/Collections/Passed.antt =====
-- What the structures' operations send for a collection when the caller gives no options, or `create`.
use couchbase_python_client.Base.{
  String, Bool, true, false, [], ◌∷◌, ok, lift, pure, ◌>>=◌, string_eq, ◌≡◌, refl, Bool-cases, inl,
  inr,
}
use couchbase_python_client.Base.Dict.{lookup, insert, erase}
use couchbase_python_client.Base.Decimal.{pos}
use couchbase_python_client.Base.Value.{Value, bool, int, null, truthy}
use couchbase_python_client.Options.Forward.{
  plain, Block, forward_args, forward, temp_options, update,
}
use couchbase_python_client.Subdoc.{Spec}
use couchbase_python_client.Collections.{
  Collection, Core, lookup_in, mutate_in, insert_doc, inject, true_collections, text_or_null,
  forwarded,
}
use couchbase_python_client.Collections.Operations.{
  doc_flags, client_mutate_in, mutate_specs, lookup_specs, insert_new,
}
use couchbase_python_client.Collections.Structures.{
  first_result, mutate_one, lookup_one, wants_create,
}

-- The keyword arguments that name the collection.
abbrev pub address : Collection → Block
address c = inject c []

-- With the flags of `Client.mutate_in`.
abbrev pub mutation_address : Collection → Block
mutation_address c = insert "_sd_doc_flags" (plain (int (pos 0))) (inject c [])

-- `create=True`, or nothing.
abbrev pub creating : Bool → Block
creating true = ("create", plain (bool true)) ∷ []
creating false = []

-- With the names of the collection added.
abbrev pub named : Collection → Block → Block
named c kwargs =
    insert "collection" (plain (text_or_null c.name))
      (insert "scope" (plain (text_or_null c.scope.name)) kwargs)

module _ (c : Collection) where
  -- The names are added or they are not.
  pub by_target :
      (P : Block → Type 0) (kwargs : Block) → P (named c kwargs) → P kwargs → P (inject c kwargs)
  unfolding inject
  by_target P kwargs yes_named un_named = elim (Bool-cases (true_collections c)) [
    | inl h ↦ rw h yes_named
    | inr h ↦ rw h un_named
  ]

  pub inject-address : inject c (address c) ≡ address c
  unfolding inject insert string_eq
  inject-address = elim (Bool-cases (true_collections c)) [ inl h ↦ rw h refl | inr h ↦ rw h refl ]

  pub forward-address : forward_args (address c) [] [] ≡ ok (address c)
  unfolding inject insert string_eq forward_args forward temp_options update lookup
  forward-address = by_target (λ b. forward_args b [] [] ≡ ok b) [] refl refl

  pub create-creating : (b : Bool) → wants_create (lookup "create" (inject c (creating b))) ≡ b
  unfolding inject insert string_eq lookup truthy
  create-creating true =
      by_target (λ k. wants_create (lookup "create" k) ≡ true) (creating true) refl refl
  create-creating false =
      by_target (λ k. wants_create (lookup "create" k) ≡ false) (creating false) refl refl

  pub erase-creating : (b : Bool) → erase "create" (inject c (creating b)) ≡ address c
  unfolding inject insert string_eq erase
  erase-creating true = elim (Bool-cases (true_collections c)) [
    | inl h ↦ rw h refl
    | inr h ↦ rw h refl
  ]
  erase-creating false = elim (Bool-cases (true_collections c)) [
    | inl h ↦ rw h refl
    | inr h ↦ rw h refl
  ]

  pub address-default : true_collections c ≡ false → address c ≡ []
  unfolding inject
  address-default h = rw h refl

  pub address-named :
      true_collections c ≡ true
      → address c
        ≡ ("scope", plain (text_or_null c.scope.name))
          ∷ ("collection", plain (text_or_null c.name))
          ∷ []
  unfolding inject insert string_eq
  address-named h = rw h refl

  flags-address : doc_flags (address c) ≡ ok 0
  unfolding doc_flags inject insert string_eq lookup truthy
  flags-address = by_target (λ b. doc_flags b ≡ ok 0) [] refl refl

  cleared-address : erase "upsert_doc" (erase "insert_doc" (address c)) ≡ address c
  unfolding inject insert string_eq erase
  cleared-address = by_target (λ b. erase "upsert_doc" (erase "insert_doc" b) ≡ b) [] refl refl

  module _ {S : Type 0} (core : Core S) where
    pub lookup_one-address :
        (key : String) (op : Spec) (s : S)
        → lookup_one core c key op (address c) s
          ≡ (core (lookup_in key (op ∷ [])) (address c) >>= λ a. lift (first_result a)) s
    unfolding lookup_one lookup_specs forwarded
    lookup_one-address key op s = rw (inject-address, forward-address) refl

    pub mutate_one-address :
        (key : String) (op : Spec) (s : S)
        → mutate_one core c key op (address c) s
          ≡ (core (mutate_in key (op ∷ [])) (mutation_address c) >>= λ _. pure null) s
    unfolding mutate_one mutate_specs client_mutate_in
    mutate_one-address key op s =
        rw (inject-address, forward-address, flags-address, cleared-address) refl

    pub insert_new-address :
        (key : String) (v : Value) (s : S)
        → insert_new core c key v [] [] s ≡ core (insert_doc key v) (address c) s
    unfolding insert_new forwarded
    insert_new-address key v s = rw forward-address refl
