-- ===== src/Collections.antt =====
-- couchbase/collection.py: scopes and collections, and how an operation reaches the client's core
-- with the options of the caller and the names of the collection.
pub mod Operations
pub mod Structures
pub mod Sets
pub mod Queues
pub mod Passed
pub mod Served
pub mod Lists
pub mod Fifo
pub mod Race
pub mod Retry
pub mod Counters
pub mod Deltas
pub mod Twice
pub mod Tests
use couchbase_python_client.Base.{
  ℕ, String, Bool, true, false, not, Option, none, some, List, [], ◌∷◌, Result, ok, err, Exec, lift,
  ◌>>=◌, string_eq, ◌==◌, contains, if◌then◌else◌, type_error,
}
use couchbase_python_client.Base.Dict.{Dict, insert}
use couchbase_python_client.Base.Decimal.{ℤ}
use couchbase_python_client.Base.Value.{Value, null, str}
use couchbase_python_client.Options.Forward.{Argument, plain, Block, forward_args}
use couchbase_python_client.Subdoc.{Spec}

-- `Scope`, by its name; the bucket is the core below.
pub record Scope : Type 0 where
  pub name : Option String

-- `CBCollection`. `_cast` is the only code that makes one, and it passes a scope.
pub record Collection : Type 0 where
  pub scope : Scope
  pub name : Option String

-- `Scope.default_collection`
abbrev pub default_collection : Scope → Collection
default_collection s = record { scope = s; name = none }

-- `Scope.collection`
abbrev pub collection : Scope → String → Collection
collection s n = record { scope = s; name = some n }

abbrev is_text : Option String → Bool
is_text none = false
is_text (some s) = not (s == "")

-- `_self_true_collections` is `name and parent_scope`, and a scope is truthy.
unfoldable pub true_collections : Collection → Bool
true_collections c = is_text c.name

abbrev pub text_or_null : Option String → Value
text_or_null none = null
text_or_null (some s) = str s

-- `_inject_scope_collection_kwargs`. There is a scope, so that its `CollectionNotFoundException` is out of reach.
unfoldable pub inject : Collection → Block → Block
unfolding true_collections insert
inject c kwargs =
    if true_collections c
    then insert "collection" (plain (text_or_null c.name))
        (insert "scope" (plain (text_or_null c.scope.name)) kwargs)
    else kwargs

-- The calls of the C extension's bucket, less their keyword arguments.
pub data Call : Type 0 where
  get remove touch exists unlock counter : String → Call
  insert_doc upsert_doc replace_doc append_doc prepend_doc : String → Value → Call
  lock_doc : String → ℤ → Call
  lookup_in mutate_in : String → List Spec → Call

-- Their results: a value with its CAS, the results of the specs, or what the modelled code does not read.
pub data Answer : Type 0 where
  document : Value → ℕ → Answer
  subdoc : List (Result Value) → Answer
  done : Answer

-- The bucket of the C extension, and its state with the server's.
abbrev pub Core : Type 0 → Type 0
Core S = Call → Block → Exec S Answer

-- The keyword arguments of `_Base.get`; `scope` and `collection` are taken off first.
abbrev pub get_keywords : List String
get_keywords =
    "keys" ∷ "ttl" ∷ "quiet" ∷ "replica" ∷ "no_format" ∷ "durability_level" ∷ "timeout" ∷ "scope"
    ∷ "collection" ∷ []

unfoldable pub accepted : List String → Block → Bool
accepted names [] = true
accepted names ((k, _) ∷ kwargs) =
    let rest = accepted names kwargs in if contains names k then rest else false

module _ {S : Type 0} (core : Core S) where
  -- `Client.get`, which the C extension refuses when it does not know a keyword.
  unfoldable pub client_get : String → Block → Exec S Answer
  unfolding accepted
  client_get key kwargs s =
      if accepted get_keywords kwargs then core (get key) kwargs s else (err type_error, s)

  -- A call with what `forward_args` makes of the keyword arguments and the options.
  unfoldable pub forwarded : Call → Block → List Block → Exec S Answer
  unfolding forward_args
  forwarded call kwargs options = lift (forward_args kwargs [] options) >>= core call
