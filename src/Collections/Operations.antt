-- ===== src/Collections/Operations.antt =====
-- couchbase/collection.py: the operations on one document.
use couchbase_python_client.Base.{
  ℕ, ◌+◌, ◌^◌, String, Bool, true, false, ◌||◌, Option, none, some, List, [], Result, ok, err, bind,
  Exec, lift, raise, ◌>>=◌, if◌then◌else◌, type_error, not_supported, outside_model, string_eq,
}
use couchbase_python_client.Base.Dict.{lookup, insert, erase}
use couchbase_python_client.Base.Decimal.{pos, negsuc}
use couchbase_python_client.Base.Value.{Value, int, bool, list, nil, truthy}
use couchbase_python_client.Options.Forward.{Argument, plain, Timedelta, Block, forward_args}
use couchbase_python_client.Subdoc.{Spec}
use couchbase_python_client.Subdoc.Project.{gen_projection_spec}
use couchbase_python_client.Collections.{
  Collection, Core, Answer, inject, client_get, forwarded, touch, unlock, exists, remove, lock_doc,
  upsert_doc, insert_doc, replace_doc, lookup_in, mutate_in,
}

abbrev pub value_or : Value → Option Argument → Result Value
value_or v none = ok v
value_or v (some (plain w)) = ok w
value_or v (some _) = err outside_model

-- `n > 0`
abbrev pub positive : Value → Result Bool
positive (int (pos ℕ.zero)) = ok false
positive (int (pos (ℕ.suc n))) = ok true
positive (int (negsuc n)) = ok false
positive (bool b) = ok b
positive _ = err type_error

-- `persist_to > 0 or replicate_to > 0`
unfoldable pub client_durability : Block → Result Bool
unfolding lookup
client_durability options = bind (value_or (int (pos 0)) (lookup "persist_to" options)) λ p.
    bind (positive p) λ b.
      if b then ok true else bind (value_or (int (pos 0)) (lookup "replicate_to" options)) positive

-- The flags of a document in `Client.mutate_in`; a caller's own `_sd_doc_flags` is outside the model.
unfoldable pub doc_flags : Block → Result ℕ
unfolding lookup truthy
doc_flags kwargs = elim (lookup "_sd_doc_flags" kwargs) [
  | some _ ↦ err outside_model
  | none ↦ bind (value_or (bool false) (lookup "insert_doc" kwargs)) λ insert_flag.
      bind (value_or (bool false) (lookup "upsert_doc" kwargs)) λ upsert_flag.
        ok ((if truthy insert_flag then 2 ^ 17 else 0) + (if truthy upsert_flag then 2 ^ 16 else 0))
]

module _ {S : Type 0} (core : Core S) (c : Collection) where
  -- `_get_generic`
  unfoldable pub get_generic : String → Block → List Block → Exec S Answer
  unfolding forward_args lookup erase truthy gen_projection_spec client_get
  get_generic key kwargs options = lift (forward_args kwargs [] options) >>= λ opts.
      lift (value_or (list nil) (lookup "project" opts)) >>= λ project.
      lift (value_or (bool false) (lookup "with_expiry" opts)) >>= λ expiry.
      let rest = erase "with_expiry" (erase "project" (erase "key" opts)) in
      if truthy project || truthy expiry
      then (lift (gen_projection_spec project (truthy expiry)) >>= λ specs.
          core (lookup_in key specs) rest)
      else client_get core key rest

  unfoldable pub get_doc : String → List Block → Block → Exec S Answer
  unfolding inject get_generic
  get_doc key options kwargs = get_generic key (inject c kwargs) options

  unfoldable pub get_and_touch : String → Argument → List Block → Block → Exec S Answer
  unfolding inject get_generic insert
  get_and_touch key expiry options kwargs =
      get_generic key (insert "expiry" expiry (inject c kwargs)) options

  -- `int(expiry.total_seconds())` of a `timedelta`
  unfoldable pub get_and_lock : String → Timedelta → List Block → Block → Exec S Answer
  unfolding inject forwarded
  get_and_lock key expiry options kwargs =
      forwarded core (lock_doc key expiry.seconds) (inject c kwargs) options

  unfoldable pub touch_doc : String → Argument → List Block → Block → Exec S Answer
  unfolding inject forwarded insert
  touch_doc key expiry options kwargs =
      forwarded core (touch key) (insert "expiry" expiry (inject c kwargs)) options

  unfoldable pub unlock_doc : String → Value → List Block → Block → Exec S Answer
  unfolding inject forwarded insert
  unlock_doc key cas options kwargs =
      forwarded core (unlock key) (insert "cas" (plain cas) (inject c kwargs)) options

  unfoldable pub exists_doc : String → List Block → Block → Exec S Answer
  unfolding inject forwarded
  exists_doc key options kwargs = forwarded core (exists key) (inject c kwargs) options

  unfoldable pub upsert : String → Value → List Block → Block → Exec S Answer
  unfolding inject forwarded
  upsert key v options kwargs = forwarded core (upsert_doc key v) (inject c kwargs) options

  unfoldable pub insert_new : String → Value → List Block → Block → Exec S Answer
  unfolding inject forwarded
  insert_new key v options kwargs = forwarded core (insert_doc key v) (inject c kwargs) options

  unfoldable pub replace : String → Value → List Block → Block → Exec S Answer
  unfolding inject forwarded
  replace key v options kwargs = forwarded core (replace_doc key v) (inject c kwargs) options

  unfoldable pub remove_doc : String → List Block → Block → Exec S Answer
  unfolding inject client_durability forward_args
  remove_doc key options kwargs =
      lift (forward_args (inject c kwargs) [] options) >>= λ final_options.
      lift (client_durability final_options) >>= λ unsupported.
      if unsupported then raise not_supported else core (remove key) final_options

  unfoldable pub lookup_specs : String → List Spec → List Block → Block → Exec S Answer
  unfolding inject forwarded
  lookup_specs key specs options kwargs =
      forwarded core (lookup_in key specs) (inject c kwargs) options

  -- `Client.mutate_in`
  unfoldable pub client_mutate_in : String → List Spec → Block → Exec S Answer
  unfolding doc_flags insert erase
  client_mutate_in key specs kwargs = lift (doc_flags kwargs) >>= λ flags.
      core (mutate_in key specs) (
        insert "_sd_doc_flags" (plain (int (pos flags)))
          (erase "upsert_doc" (erase "insert_doc" kwargs)))

  unfoldable pub mutate_specs : String → List Spec → List Block → Block → Exec S Answer
  unfolding inject client_mutate_in forward_args
  mutate_specs key specs options kwargs =
      lift (forward_args (inject c kwargs) [] options) >>= λ final_options.
      client_mutate_in key specs final_options
