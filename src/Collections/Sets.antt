-- ===== src/Collections/Sets.antt =====
-- couchbase/collection.py: sets kept in one document. `same` is Python's `==` on the values of documents.
use couchbase_python_client.Base.{
  ℕ, zero, suc, ◌+◌, String, Bool, true, false, ◌||◌, Option, none, some, List, [], ◌∷◌, Result, ok,
  err, Exec, lift, pure, ◌>>=◌, string_eq, if◌then◌else◌, document_exists, value_error, path_exists,
  attribute_error, outside_model,
}
use couchbase_python_client.Base.Dict.{insert, erase}
use couchbase_python_client.Base.Decimal.{pos}
use couchbase_python_client.Base.Value.{
  Value, null, str, int, bool, bytes, list, tuple, dict, nil, to_list,
}
use couchbase_python_client.Options.Forward.{plain, Block}
use couchbase_python_client.Subdoc as SD
use couchbase_python_client.Collections.{Collection, Core, Answer, document, inject, client_get}
use couchbase_python_client.Collections.Structures.{dsop, mutate_one, list_remove, list_size}

-- `vs.index(v)`, where `none` is a `ValueError`.
unfoldable pub index_of : (Value → Value → Bool) → Value → List Value → Option ℕ
index_of same v [] = none
index_of same v (w ∷ vs) =
    let rest = index_of same v vs in
    if same w v then some 0 else elim rest [ none ↦ none | some i ↦ some (i + 1) ]

-- `v in vs`
unfoldable pub among : (Value → Value → Bool) → Value → List Value → Bool
among same v [] = false
among same v (w ∷ vs) = same w v || among same v vs

-- The value of a document as a list. Texts, bytes and tuples have `index` too.
abbrev pub listed : Answer → Result (List Value × ℕ)
listed (document (list vs) cas) = ok (to_list vs, cas)
listed (document (str s) cas) = err outside_model
listed (document (bytes b) cas) = err outside_model
listed (document (tuple vs) cas) = err outside_model
listed (document (dict d) cas) = err outside_model
listed (document _ cas) = err attribute_error
listed _ = err outside_model

module _ {S : Type 0} where
  -- `set_add` catches the exception of a value that is there.
  abbrev pub unless_there : Result Value × S → Result Value × S
  unless_there (err path_exists, s) = (ok null, s)
  unless_there r = r

  -- What follows `list_remove` in a round; `again` is the next round.
  unfoldable pub round_end :
      (S → Option (Result Value × S)) → Result Value × S → Option (Result Value × S)
  round_end again (err document_exists, s) = again s
  round_end again (err value_error, s) = some (ok null, s)
  round_end again r = some r

  abbrev pub finished : S → Option (Result Value × S) → Result Value × S
  finished s none = (err outside_model, s)
  finished s (some r) = r

module _ {S : Type 0} (core : Core S) (c : Collection) where
  unfoldable pub set_add : String → Value → Block → Exec S Value
  unfolding inject dsop mutate_one erase SD.array_addunique
  set_add key v kwargs =
      dsop core c (some (list nil)) true key
        (λ kw s.
          unless_there (
            mutate_one core c key (SD.array_addunique (str "") v false false) (erase "create" kw)
              s))
        (inject c kwargs)

  -- A round of `set_remove` from the position of the value; `retry` takes the new keyword arguments.
  unfoldable pub located :
      String
      → Block
      → (Block → S → Option (Result Value × S))
      → ℕ
      → Option ℕ
      → S
      → Option (Result Value × S)
  unfolding round_end list_remove insert
  located key kwargs retry cas none s = some (ok null, s)
  located key kwargs retry cas (some i) s =
      let with_cas = insert "cas" (plain (int (pos cas))) kwargs in
      round_end (retry with_cas) (list_remove core c key (pos i) with_cas s)

  unfoldable pub set_size : String → Block → Exec S Value
  unfolding inject list_size
  set_size key kwargs = list_size core c key (inject c kwargs)

module _ {S : Type 0} (same : Value → Value → Bool) (core : Core S) (c : Collection) where
  -- What follows `get`.
  unfoldable pub round :
      String
      → Value
      → Block
      → (Block → S → Option (Result Value × S))
      → Result (List Value × ℕ)
      → S
      → Option (Result Value × S)
  unfolding located index_of
  round key v kwargs retry (err e) s = some (err e, s)
  round key v kwargs retry (ok (vs, cas)) s =
      located core c key kwargs retry cas (index_of same v vs) s

  -- The loop of `set_remove`. Without fuel it has no result.
  unfoldable pub set_remove_loop : ℕ → String → Value → Block → S → Option (Result Value × S)
  unfolding round client_get
  set_remove_loop zero key v kwargs s = none
  set_remove_loop (suc f) key v kwargs s =
      let got = (client_get core key kwargs >>= λ a. lift (listed a)) s in
      round key v kwargs (set_remove_loop f key v) got.0 got.1

  unfoldable pub set_remove : String → Value → Block → Exec S Value
  unfolding inject dsop set_remove_loop
  set_remove key v kwargs =
      dsop core c none true key (λ kw s. finished s (set_remove_loop 2 key v kw s))
        (inject c kwargs)

  unfoldable pub set_contains : String → Value → Block → Exec S Value
  unfolding inject client_get among
  set_contains key v kwargs = client_get core key (inject c kwargs) >>= λ a.
      lift (listed a) >>= λ got. pure (bool (among same v got.0))
