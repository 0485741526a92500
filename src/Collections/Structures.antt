-- ===== src/Collections/Structures.antt =====
-- couchbase/collection.py: maps and lists kept in one document.
use couchbase_python_client.Base.{
  String, ◌<>◌, Bool, true, false, Option, none, some, [], ◌∷◌, Result, ok, err, Exec, pure, lift,
  ◌>>=◌, string_eq, document_not_found, path_not_found, document_exists, index_error, type_error,
  outside_model,
}
use couchbase_python_client.Base.Dict.{lookup, erase}
use couchbase_python_client.Base.Decimal.{ℤ, decimal_ℤ}
use couchbase_python_client.Base.Value.{Value, null, str, list, nil, dict, end, truthy}
use couchbase_python_client.Options.Forward.{Argument, plain, Block}
use couchbase_python_client.Subdoc as SD
use couchbase_python_client.Collections.{Collection, Core, Answer, subdoc, inject}
use couchbase_python_client.Collections.Operations.{insert_new, lookup_specs, mutate_specs}

-- `'[{0}]'.format(index)`
unfoldable pub element : ℤ → Value
unfolding decimal_ℤ
element index = str ("[" <> decimal_ℤ index <> "]")

-- `sdres[0]`
unfoldable pub first_result : Answer → Result Value
first_result (subdoc (r ∷ rs)) = r
first_result (subdoc []) = err index_error
first_result _ = err outside_model

-- `kwargs.get('create')`; a duration or a durability option is not given for it.
abbrev pub wants_create : Option Argument → Bool
wants_create (some (plain v)) = truthy v
wants_create _ = false

module _ {S : Type 0} where
  -- After `self.insert(key, create_type())`: a document that exists is as good.
  unfoldable pub after_insert : Exec S Value → Result Answer × S → Result Value × S
  after_insert again (ok a, s) = again s
  after_insert again (err document_exists, s) = again s
  after_insert again (err e, s) = (err e, s)

  -- `create_type()` and the insertion, where `None` cannot be called.
  unfoldable pub create_then : (Value → Exec S Answer) → Option Value → Exec S Value → Exec S Value
  unfolding after_insert
  create_then insert_it none again s = (err type_error, s)
  create_then insert_it (some v) again s = after_insert again (insert_it v s)

  -- The handlers of `newfn`, around a first run.
  unfoldable pub recovered :
      (Value → Exec S Answer)
      → Option Value
      → Bool
      → Bool
      → Exec S Value
      → Result Value × S
      → Result Value × S
  unfolding create_then
  recovered insert_it create_type wrap true again (err document_not_found, s) =
      create_then insert_it create_type again s
  recovered insert_it create_type true create again (err path_not_found, s) = (err index_error, s)
  recovered insert_it create_type false create again (err path_not_found, s) = (ok null, s)
  recovered insert_it create_type wrap create again r = r

module _ {S : Type 0} (core : Core S) (c : Collection) where
  -- `_dsop`, around a function of its keyword arguments.
  unfoldable pub dsop : Option Value → Bool → String → (Block → Exec S Value) → Block → Exec S Value
  unfolding recovered lookup truthy insert_new
  dsop create_type wrap key fn kwargs s =
      recovered (λ v. insert_new core c key v [] []) create_type wrap
        (wants_create (lookup "create" kwargs)) (fn kwargs) (fn kwargs s)

  -- `_wrap_dsop` without a value: an `Item` is made with the value `None`, and that is returned.
  unfoldable pub mutate_one : String → SD.Spec → Block → Exec S Value
  unfolding mutate_specs
  mutate_one key op kwargs = mutate_specs core c key (op ∷ []) [] kwargs >>= λ _. pure null

  -- `_wrap_dsop` with a value
  unfoldable pub lookup_one : String → SD.Spec → Block → Exec S Value
  unfolding lookup_specs first_result
  lookup_one key op kwargs =
      lookup_specs core c key (op ∷ []) [] kwargs >>= λ r. lift (first_result r)

  unfoldable pub map_add : String → Value → Value → Block → Exec S Value
  unfolding inject dsop mutate_one erase SD.upsert
  map_add key mapkey v kwargs =
      dsop (some (dict end)) true key
        (λ kw. mutate_one key (SD.upsert mapkey v false false) (erase "create" kw))
        (inject c kwargs)

  unfoldable pub map_get : String → Value → Block → Exec S Value
  unfolding inject dsop lookup_one SD.get
  map_get key mapkey kwargs =
      dsop none true key (lookup_one key (SD.get mapkey false)) (inject c kwargs)

  unfoldable pub map_remove : String → Value → Block → Exec S Value
  unfolding inject dsop mutate_one SD.remove
  map_remove key mapkey kwargs =
      dsop none true key (mutate_one key (SD.remove mapkey false)) (inject c kwargs)

  unfoldable pub map_size : String → Block → Exec S Value
  unfolding inject dsop lookup_one SD.get_count
  map_size key kwargs =
      dsop none true key (lookup_one key (SD.get_count (str "") false)) (inject c kwargs)

  unfoldable pub list_append : String → Value → Block → Exec S Value
  unfolding inject dsop mutate_one erase SD.array_append
  list_append key v kwargs =
      dsop (some (list nil)) true key
        (λ kw. mutate_one key (SD.array_append (str "") (v ∷ []) false false) (erase "create" kw))
        (inject c kwargs)

  unfoldable pub list_prepend : String → Value → Block → Exec S Value
  unfolding inject dsop mutate_one erase SD.array_prepend
  list_prepend key v kwargs =
      dsop (some (list nil)) true key
        (λ kw. mutate_one key (SD.array_prepend (str "") (v ∷ []) false false) (erase "create" kw))
        (inject c kwargs)

  unfoldable pub list_set : String → ℤ → Value → Block → Exec S Value
  unfolding inject dsop mutate_one element SD.replace
  list_set key index v kwargs =
      dsop none true key (mutate_one key (SD.replace (element index) v false)) (inject c kwargs)

  unfoldable pub list_get : String → ℤ → Block → Exec S Value
  unfolding inject dsop map_get element
  list_get key index kwargs = dsop none true key (map_get key (element index)) (inject c kwargs)

  unfoldable pub list_remove : String → ℤ → Block → Exec S Value
  unfolding inject dsop map_remove element
  list_remove key index kwargs =
      dsop none true key (map_remove key (element index)) (inject c kwargs)

  unfoldable pub list_size : String → Block → Exec S Value
  unfolding inject dsop map_size
  list_size key kwargs = dsop none true key (map_size key) (inject c kwargs)
