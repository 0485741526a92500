-- ===== src/Collections/Served.antt =====
-- What the queues rely on of the server: documented sub-document operations on a document that is an array.
use couchbase_python_client.Base.{
  String, false, Option, none, some, List, [], ◌∷◌, length, Result, ok, err, document_not_found,
  path_not_found, ◌≡◌,
}
use couchbase_python_client.Base.Decimal.{pos, negsuc}
use couchbase_python_client.Base.Value.{Value, int, str, list, nil}
use couchbase_python_client.Subdoc as SD
use couchbase_python_client.Collections.{
  Collection, Core, Answer, subdoc, done, lookup_in, mutate_in, insert_doc,
}
use couchbase_python_client.Collections.Structures.{element}
use couchbase_python_client.Collections.Passed.{address, mutation_address}

abbrev pub last : List Value → Option Value
last [] = none
last (v ∷ []) = some v
last (v ∷ w ∷ vs) = last (w ∷ vs)

abbrev pub drop_last : List Value → List Value
drop_last [] = []
drop_last (v ∷ []) = []
drop_last (v ∷ w ∷ vs) = v ∷ drop_last (w ∷ vs)

-- A document that is an array, or none.
abbrev pub Contents : Type 0
Contents = Option (List Value)

abbrev pub last_result : Option Value → Result Value
last_result none = err path_not_found
last_result (some v) = ok v

abbrev pub last_answer : Contents → Result Answer
last_answer none = err document_not_found
last_answer (some vs) = ok (subdoc (last_result (last vs) ∷ []))

abbrev pub count_answer : Contents → Result Answer
count_answer none = err document_not_found
count_answer (some vs) = ok (subdoc (ok (int (pos (length vs))) ∷ []))

abbrev pub drop_answer : Contents → Result Answer
drop_answer none = err document_not_found
drop_answer (some []) = err path_not_found
drop_answer (some (v ∷ vs)) = ok done

abbrev pub dropped : Contents → Contents
dropped none = none
dropped (some vs) = some (drop_last vs)

abbrev pub prepend_answer : Contents → Result Answer
prepend_answer none = err document_not_found
prepend_answer (some vs) = ok done

abbrev pub prepended : Value → Contents → Contents
prepended v none = none
prepended v (some vs) = some (v ∷ vs)

abbrev pub last_spec : SD.Spec
last_spec = SD.get (element (negsuc 0)) false

abbrev pub count_spec : SD.Spec
count_spec = SD.get_count (str "") false

abbrev pub drop_spec : SD.Spec
drop_spec = SD.remove (element (negsuc 0)) false

abbrev pub prepend_spec : Value → SD.Spec
prepend_spec v = SD.array_prepend (str "") (v ∷ []) false false

-- `view` is the document of `key` in the collection `c`.
pub record Serves {S : Type 0} (core : Core S) (c : Collection) (key : String) (view : S → Contents)
    : Type 0 where
  pub gets_last :
      (s : S)
      → ((core (lookup_in key (last_spec ∷ [])) (address c) s).0 ≡ last_answer (view s))
        × (view (core (lookup_in key (last_spec ∷ [])) (address c) s).1 ≡ view s)
  pub counts :
      (s : S)
      → ((core (lookup_in key (count_spec ∷ [])) (address c) s).0 ≡ count_answer (view s))
        × (view (core (lookup_in key (count_spec ∷ [])) (address c) s).1 ≡ view s)
  pub drops :
      (s : S)
      → ((core (mutate_in key (drop_spec ∷ [])) (mutation_address c) s).0 ≡ drop_answer (view s))
        × (view (core (mutate_in key (drop_spec ∷ [])) (mutation_address c) s).1 ≡ dropped (view s))
  pub prepends :
      (v : Value) (s : S)
      → ((core (mutate_in key (prepend_spec v ∷ [])) (mutation_address c) s).0
          ≡ prepend_answer (view s))
        × (view (core (mutate_in key (prepend_spec v ∷ [])) (mutation_address c) s).1
            ≡ prepended v (view s))
  pub inserts :
      (s : S)
      → view s ≡ none
      → ((core (insert_doc key (list nil)) (address c) s).0 ≡ ok done)
        × (view (core (insert_doc key (list nil)) (address c) s).1 ≡ some [])
