-- ===== src/Mutation/Tests.antt =====
-- Runs of mutation states, and the theorems at concrete data.
use couchbase_python_client.Base.{
  ℕ, String, ◌≡◌, refl, true, false, none, some, [], ◌∷◌, ok, string_eq, nat_eq,
}
use couchbase_python_client.Base.Dict.{insert, lookup}
use couchbase_python_client.Mutation.State.{Token, MutationState, add_results, encode, add_scanvec}
use couchbase_python_client.Mutation.Latest.{
  vector, latest, tokens_before, all_have, verdict, add_results-latest,
}

abbrev first : Token
first = record { vb = 7; uuid = 12; seq = 3; bktname = "default" }

abbrev second : Token
second = record { vb = 7; uuid = 13; seq = 9; bktname = "default" }

abbrev old : MutationState
old = ("default", (8, (1, "5")) ∷ []) ∷ []

encoded :
    encode (add_results (some first ∷ some second ∷ []) false old).1
    ≡ ok "{\"default\": {\"8\": [1, \"5\"], \"7\": [9, \"13\"]}}"
unfolding encode add_results add_scanvec insert lookup string_eq nat_eq
encoded = refl

add_results-latest_example :
    ((add_results (some first ∷ none ∷ some second ∷ []) true old).0
      ≡ verdict (all_have (some first ∷ none ∷ some second ∷ [])) true)
    × ((b : String) (vb : ℕ)
        → vector b vb (add_results (some first ∷ none ∷ some second ∷ []) true old).1
          ≡ latest b vb (tokens_before (some first ∷ none ∷ some second ∷ [])) (vector b vb old))
add_results-latest_example = add_results-latest (some first) (none ∷ some second ∷ []) true old
