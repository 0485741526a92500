-- ===== src/Mutation/State.antt =====
-- couchbase/mutation_state.py: `MutationState`. Of every bucket and vbucket it keeps the sequence
-- number and the vbucket's uuid of one mutation.
use couchbase_python_client.Base.{
  ℕ, String, ◌<>◌, Bool, true, false, Option, none, some, List, [], ◌∷◌, if◌then◌else◌, string_eq,
  nat_eq, Result, ok, err, missing_token, type_error, key_error, Exec, pure, raise, bind,
}
use couchbase_python_client.Base.Dict.{Dict, lookup, insert}
use couchbase_python_client.Base.Decimal.{pos, decimal}
use couchbase_python_client.Base.Json.{dumps}
use couchbase_python_client.Base.Value.{Value, int, str, tuple, dict, nil, cons, Fields, end, field}

-- `_mutinfo` of a result: `(vb, uuid, seq, bktname)`.
pub record Token : Type 0 where
  pub vb : ℕ
  pub uuid : ℕ
  pub seq : ℕ
  pub bktname : String

-- The vectors of one bucket.
abbrev pub Vectors : Type 0
Vectors = Dict ℕ (ℕ × String)

-- `_sv`
abbrev pub MutationState : Type 0
MutationState = Dict String Vectors

abbrev pub vectors_or : Option Vectors → Vectors
vectors_or none = []
vectors_or (some d) = d

-- `_add_scanvec`
unfoldable pub add_scanvec : Token → MutationState → MutationState
add_scanvec m sv =
    insert m.bktname (insert m.vb (m.seq, decimal m.uuid) (vectors_or (lookup m.bktname sv))) sv

-- The loop of `add_results`, over each result's token, if it has one.
unfoldable pub add_each : List (Option Token) → Bool → Exec MutationState Bool
add_each [] quiet = pure true
add_each (none ∷ rvs) quiet = if quiet then pure false else raise missing_token
add_each (some m ∷ rvs) quiet = λ sv. add_each rvs quiet (add_scanvec m sv)

-- `add_results`
unfoldable pub add_results : List (Option Token) → Bool → Exec MutationState Bool
unfolding add_each
add_results [] quiet = raise missing_token
add_results (r ∷ rvs) quiet = add_each (r ∷ rvs) quiet

-- `__init__`
unfoldable pub new : List (Option Token) → Result Bool × MutationState
unfolding add_results
new [] = (ok true, [])
new (r ∷ rvs) = add_results (r ∷ rvs) false []

unfoldable pub add_tokens : List Token → MutationState → MutationState
add_tokens [] sv = sv
add_tokens (m ∷ ms) sv = add_tokens ms (add_scanvec m sv)

-- `add_all`, with the tokens that `bucket._mutinfo()` gives.
unfoldable pub add_all : List Token → Bool → Exec MutationState Bool
unfolding add_tokens
add_all [] quiet = if quiet then pure false else raise missing_token
add_all (m ∷ ms) quiet = λ sv. (ok true, add_tokens (m ∷ ms) sv)

-- `__nonzero__`
unfoldable pub nonzero : MutationState → Bool
nonzero [] = false
nonzero (_ ∷ _) = true

fts_entries : Vectors → Dict String ℕ → Dict String ℕ
fts_entries [] out = out
fts_entries ((vb, (seq, uuid)) ∷ d) out =
    fts_entries d (insert (decimal vb <> ("/" <> uuid)) seq out)

-- `_to_fts_encodable`; the key of an empty dict is `None`, which it does not hold.
unfoldable pub to_fts_encodable : MutationState → Result (Dict String ℕ)
unfolding fts_entries
to_fts_encodable [] = err key_error
to_fts_encodable ((_, d) ∷ []) = ok (fts_entries d [])
to_fts_encodable (_ ∷ _ ∷ _) = err type_error

vectors_value : Vectors → Fields
vectors_value [] = end
vectors_value ((vb, (seq, uuid)) ∷ d) =
    field (decimal vb) (tuple (cons (int (pos seq)) (cons (str uuid) nil))) (vectors_value d)

-- The vectors as a value; `json.dumps` spells a key that is a number as its text.
unfoldable pub state_value : MutationState → Fields
unfolding vectors_value
state_value [] = end
state_value ((b, d) ∷ sv) = field b (dict (vectors_value d)) (state_value sv)

-- `encode`, with the default converter.
unfoldable pub encode : MutationState → Result String
unfolding state_value dumps
encode sv = dumps (dict (state_value sv))

-- `decode` builds a state and does not return it.
unfoldable pub decode : (String → Result Value) → String → Result (Option MutationState)
decode from_json s = bind (from_json s) λ _. ok none
