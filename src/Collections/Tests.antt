-- ===== src/Collections/Tests.antt =====
-- Runs on a server that keeps one array, and the theorems at concrete data.
use couchbase_python_client.Base.{
  ℕ, Bool, true, false, none, some, List, [], ◌∷◌, Result, ok, err, document_exists, type_error,
  outside_model, string_eq, nat_eq, ◌≡◌, refl, ◌==◌, suc, Error, ◌⊎◌, String, Exec,
}
use couchbase_python_client.Base.Dict.{insert, lookup, NodupKeys}
use couchbase_python_client.Base.Value.{Value, str, list, nil, cons, null, int}
use couchbase_python_client.Options.Forward.{
  forward_args, forward, temp_options, update, bounded, duration, Block, plain,
}
use couchbase_python_client.Base.Decimal.{ℤ, negsuc, pos}
use couchbase_python_client.Options.Bounded.{ConstrainedInt, delta_value, int_of}
use couchbase_python_client.Collections.{
  inject, true_collections, Collection, Call, Core, Answer, document, done, client_get, accepted,
}
use couchbase_python_client.Collections.Counters.{
  negated, increment, decrement, increment_multi, check_delta_initial, checked_option, verified_int,
}
use couchbase_python_client.Collections.Deltas.{counter_deltas}
use couchbase_python_client.Collections.Twice.{increment_multi_timeout}
use couchbase_python_client.Subdoc as SD
use couchbase_python_client.Collections.Structures.{
  list_remove, map_remove, dsop, recovered, mutate_one,
}
use couchbase_python_client.Collections.Operations.{mutate_specs, client_mutate_in, doc_flags}
use couchbase_python_client.Collections.Sets.{index_of, set_remove_loop}
use couchbase_python_client.Collections.Served.{
  Serves, Contents, last_answer, count_answer, drop_answer, dropped, prepend_answer, prepended,
}
use couchbase_python_client.Collections.Fifo.{
  QueueOp, push, pop, size, perform, run, fifo, stored, run_refines,
}
use couchbase_python_client.Collections.Retry.{set_remove_ends, set_remove_conflicts}

abbrev queue_collection : Collection
queue_collection = record { scope = record { name = some "inventory" }; name = some "jobs" }

abbrev by_lookup : SD.Command → Contents → Result Answer
by_lookup SD.sd_get s = last_answer s
by_lookup SD.sd_get_count s = count_answer s
by_lookup _ s = err outside_model

abbrev by_mutation : SD.Command → SD.Payload → Contents → Result Answer × Contents
by_mutation SD.sd_remove p s = (drop_answer s, dropped s)
by_mutation SD.sd_array_add_first (SD.multi (v ∷ [])) s = (prepend_answer s, prepended v s)
by_mutation _ _ s = (err outside_model, s)

-- A server that keeps one document.
abbrev server : Core Contents
server (Call.lookup_in key (spec ∷ [])) o s = (by_lookup spec.command s, s)
server (Call.mutate_in key (spec ∷ [])) o s = by_mutation spec.command spec.payload s
server (Call.insert_doc key v) o none = (ok done, some [])
server (Call.insert_doc key v) o (some vs) = (err document_exists, some vs)
server _ o s = (err outside_model, s)

abbrev whole : Contents → Contents
whole s = s

inserts_none :
    (s : Contents)
    → s ≡ none
    → ((server (Call.insert_doc "jobs" (list nil)) (inject queue_collection []) s).0 ≡ ok done)
      × ((server (Call.insert_doc "jobs" (list nil)) (inject queue_collection []) s).1 ≡ some [])
inserts_none none h = (refl, refl)
inserts_none (some _) h = absurd cc

served : Serves server queue_collection "jobs" whole
unfolding SD.get SD.get_count SD.remove SD.array_prepend SD.gen_3spec SD.gen_4spec
served = record {
  gets_last = λ s. (refl, refl);
  counts = λ s. (refl, refl);
  drops = λ s. (refl, refl);
  prepends = λ v s. (refl, refl);
  inserts = inserts_none;
}

abbrev empty : Contents
empty = none

abbrev operations : List QueueOp
operations = pop ∷ push (str "a") true ∷ push (str "b") false ∷ pop ∷ size ∷ pop ∷ pop ∷ []

run_refines_example :
    ((run (perform server queue_collection "jobs" 0) operations empty).0
      ≡ (run (fifo (true_collections queue_collection)) operations empty).0)
    × (whole (run (perform server queue_collection "jobs" 0) operations empty).1
        ≡ stored (run (fifo (true_collections queue_collection)) operations empty).1)
run_refines_example =
    run_refines server queue_collection "jobs" served 0 operations empty empty refl

abbrev two_items : Contents
two_items = some (str "b" ∷ str "a" ∷ [])

abbrev more_items : List Value
more_items = []

-- A server on which someone else changes the set before every removal.
abbrev busy : Core ℕ
busy (Call.get key) o s = (ok (document (list (cons (str "x") nil)) 7), s)
busy (Call.mutate_in key specs) o s = (err document_exists, ℕ.suc s)
busy _ o s = (err outside_model, s)

abbrev main_collection : Collection
main_collection = record { scope = record { name = none }; name = none }

abbrev same_text : Value → Value → Bool
same_text (str s) (str t) = s == t
same_text _ _ = false

set_remove_ends_example :
    (r : Result Value × ℕ) × (set_remove_loop same_text busy main_collection 2 "tags" (str "x") [] 0
      ≡ some r)
    × (set_remove_loop same_text busy main_collection 5 "tags" (str "x") [] 0 ≡ some r)
set_remove_ends_example = set_remove_ends same_text busy main_collection 3 "tags" (str "x") [] 0

abbrev members : List Value
members = str "x" ∷ []

set_remove_conflicts_example :
    set_remove_loop same_text busy main_collection 3 "tags" (str "x") [] 0
    ≡ some (err type_error, 1)
unfolding string_eq client_get accepted list_remove map_remove dsop recovered mutate_one
    mutate_specs client_mutate_in doc_flags forward_args forward temp_options update inject
    true_collections insert lookup index_of
set_remove_conflicts_example =
    set_remove_conflicts same_text busy main_collection 1 "tags" (str "x") members 7 0 [] 0 0 1 refl
      refl refl

abbrev delta_of_5 : ConstrainedInt
delta_of_5 = record { kind = delta_value; value = int (pos 5) }

abbrev given : Block
given = ("delta", bounded delta_of_5) ∷ []

abbrev minus_5 : Block
minus_5 = ("delta", plain (int (pos 5))) ∷ []

abbrev echo : Core Block
echo call o s = (ok done, o)

counter_deltas_example :
    let sent = λ (z : ℤ). echo (Call.counter "n") (insert "delta" (plain (int z)) minus_5) [] in
    let delta = lookup "delta" minus_5 in
    let decremented = decrement echo main_collection "n" [] given [] in
    (increment echo main_collection "n" [] given [] ≡ echo (Call.counter "n") minus_5 [])
    × (((delta ≡ none) × (decremented ≡ sent (negsuc 0)))
        ⊎ (((delta ≡ some (plain null)) × (decremented ≡ (err type_error, [])))
            ⊎ ((z : ℤ) × (delta ≡ some (plain (int z))) × (decremented ≡ sent (negated z)))))
unfolding inject true_collections check_delta_initial checked_option verified_int int_of
    forward_args forward temp_options update insert lookup string_eq
counter_deltas_example = counter_deltas echo main_collection "n" [] given minus_5 [] refl

abbrev no_blocks : List Block
no_blocks = []

abbrev timed_out_soon : Block
timed_out_soon = ("timeout", duration record { seconds = pos 1; microseconds = pos 1000000 }) ∷ []

abbrev no_multi : List String → Block → Exec ℕ Answer
no_multi keys o s = (ok done, suc s)

once_each : NodupKeys timed_out_soon
unfolding lookup
once_each = (refl, tt)

increment_multi_timeout_example :
    (e : Error) × (increment_multi no_multi main_collection ("n" ∷ []) no_blocks timed_out_soon 0
      ≡ (err e, 0))
unfolding lookup string_eq
increment_multi_timeout_example =
    increment_multi_timeout no_multi main_collection no_blocks timed_out_soon once_each tt
      ("n" ∷ []) (duration record { seconds = pos 1; microseconds = pos 1000000 }) 0 refl
