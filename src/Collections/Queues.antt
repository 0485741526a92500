-- ===== src/Collections/Queues.antt =====
-- couchbase/collection.py: queues kept in one document.
use couchbase_python_client.Base.{
  ℕ, zero, suc, String, true, none, some, [], ◌∷◌, Result, ok, err, Exec, string_eq,
  document_exists, index_error, queue_empty, type_error, outside_model,
}
use couchbase_python_client.Base.Dict.{erase}
use couchbase_python_client.Base.Decimal.{negsuc}
use couchbase_python_client.Base.Value.{Value, list, nil}
use couchbase_python_client.Options.Forward.{Block}
use couchbase_python_client.Collections.{Collection, Core, inject}
use couchbase_python_client.Collections.Structures.{
  dsop, list_get, list_prepend, list_remove, list_size,
}

module _ {S : Type 0} where
  -- What follows `list_remove` in a round of `queue_pop`.
  unfoldable pub popped : Value → Exec S Value → Result Value × S → Result Value × S
  popped item again (ok _, s) = (ok item, s)
  popped item again (err document_exists, s) = again s
  popped item again (err index_error, s) = (err queue_empty, s)
  popped item again (err e, s) = (err e, s)

  -- What follows `list_get`. The item is a value of a document, which has no `__dict__`, so that no CAS is
  -- taken from it.
  unfoldable pub peeked : Exec S Value → Exec S Value → Result Value × S → Result Value × S
  unfolding popped
  peeked remove again (ok item, s) = popped item again (remove s)
  peeked remove again (err index_error, s) = (err queue_empty, s)
  peeked remove again (err e, s) = (err e, s)

module _ {S : Type 0} (core : Core S) (c : Collection) where
  unfoldable pub queue_push : String → Value → Block → Exec S Value
  unfolding inject dsop list_prepend erase
  queue_push key v kwargs =
      dsop core c (some (list nil)) true key (λ kw. list_prepend core c key v (erase "create" kw))
        (inject c kwargs)

  -- The loop of `queue_pop`.
  unfoldable pub queue_pop_loop : ℕ → String → Block → Exec S Value
  unfolding peeked list_get list_remove
  queue_pop_loop zero key kwargs s = (err outside_model, s)
  queue_pop_loop (suc f) key kwargs s =
      peeked (list_remove core c key (negsuc 0) kwargs) (queue_pop_loop f key kwargs)
        (list_get core c key (negsuc 0) kwargs s)

  unfoldable pub queue_pop : ℕ → String → Block → Exec S Value
  unfolding inject dsop queue_pop_loop
  queue_pop fuel key kwargs = dsop core c none true key (queue_pop_loop fuel key) (inject c kwargs)

  -- `queue_size` takes no keyword argument.
  abbrev pub size_of : String → Block → Exec S Value
  size_of key [] s = list_size core c key [] s
  size_of key (_ ∷ _) s = (err type_error, s)

  unfoldable pub queue_size : String → Block → Exec S Value
  unfolding inject dsop list_size
  queue_size key kwargs = dsop core c none true key (size_of key) (inject c kwargs)
