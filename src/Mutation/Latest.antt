-- ===== src/Mutation/Latest.antt =====
-- couchbase/mutation_state.py: a state holds the latest token of each bucket and vbucket.
use couchbase_python_client.Base.{
  ℕ, String, Bool, true, false, Option, none, some, List, [], ◌∷◌, if◌then◌else◌, string_eq, nat_eq,
  ◌==◌, ◌&&◌, Result, ok, err, missing_token, ◌≡◌, refl, ◌∙◌, ap, arith, ◌≢◌, ◌↔◌,
}
use couchbase_python_client.Base.Dict.{lookup, insert, lookup-insert}
use couchbase_python_client.Base.Decimal.{decimal}
use couchbase_python_client.Mutation.State.{
  Token, MutationState, vectors_or, add_scanvec, add_each, add_results, add_tokens, add_all,
}

-- The abstract view: the vector of a bucket's vbucket.
abbrev pub vector : String → ℕ → MutationState → Option (ℕ × String)
vector b vb sv = lookup vb (vectors_or (lookup b sv))

abbrev pub is_for : String → ℕ → Token → Bool
is_for b vb m = b == m.bktname && vb == m.vb

-- The vector after some tokens: that of the last one for the bucket and vbucket, or the old one.
pub latest : String → ℕ → List Token → Option (ℕ × String) → Option (ℕ × String)
latest b vb [] old = old
latest b vb (m ∷ ms) old =
    latest b vb ms (if is_for b vb m then some (m.seq, decimal m.uuid) else old)

vector-add_scanvec :
    (b : String) (vb : ℕ) (m : Token) (sv : MutationState)
    → vector b vb (add_scanvec m sv)
      ≡ (if is_for b vb m then some (m.seq, decimal m.uuid) else vector b vb sv)
unfolding add_scanvec
vector-add_scanvec b vb m sv = ground (
  arith,
  lookup-insert b m.bktname (insert m.vb (m.seq, decimal m.uuid) (vectors_or (lookup m.bktname sv)))
      sv,
  lookup-insert vb m.vb (m.seq, decimal m.uuid) (vectors_or (lookup m.bktname sv)),
)

vector-add_tokens :
    (b : String) (vb : ℕ) (ms : List Token) (sv : MutationState)
    → vector b vb (add_tokens ms sv) ≡ latest b vb ms (vector b vb sv)
unfolding add_tokens latest
vector-add_tokens b vb [] sv = refl
vector-add_tokens b vb (m ∷ ms) sv =
    vector-add_tokens b vb ms (add_scanvec m sv)
    ∙ ap (latest b vb ms) (vector-add_scanvec b vb m sv)

-- The tokens of the results before the first that has none, and whether all have one.
pub tokens_before : List (Option Token) → List Token
tokens_before [] = []
tokens_before (none ∷ rvs) = []
tokens_before (some m ∷ rvs) = m ∷ tokens_before rvs

pub all_have : List (Option Token) → Bool
all_have [] = true
all_have (none ∷ rvs) = false
all_have (some m ∷ rvs) = all_have rvs

abbrev pub verdict : Bool → Bool → Result Bool
verdict true quiet = ok true
verdict false true = ok false
verdict false false = err missing_token

add_each_lem :
    (rvs : List (Option Token)) (quiet : Bool) (sv : MutationState)
    → add_each rvs quiet sv ≡ (verdict (all_have rvs) quiet, add_tokens (tokens_before rvs) sv)
unfolding add_each add_tokens tokens_before all_have
add_each_lem [] quiet sv = refl
add_each_lem (none ∷ rvs) true sv = refl
add_each_lem (none ∷ rvs) false sv = refl
add_each_lem (some m ∷ rvs) quiet sv = add_each_lem rvs quiet (add_scanvec m sv)

-- Adding results returns `True` if every result has a token; at the first that has none it returns
-- `False` under `quiet` and raises otherwise. In all cases the vector of every bucket and vbucket is
-- afterwards that of the last token for it among the results before that one, or the old vector.
pub add_results-latest :
    (r : Option Token) (rvs : List (Option Token)) (quiet : Bool) (sv : MutationState)
    → ((add_results (r ∷ rvs) quiet sv).0 ≡ verdict (all_have (r ∷ rvs)) quiet)
      × ((b : String) (vb : ℕ)
          → vector b vb (add_results (r ∷ rvs) quiet sv).1
            ≡ latest b vb (tokens_before (r ∷ rvs)) (vector b vb sv))
unfolding add_results
add_results-latest r rvs quiet sv = (
  ap (λ (w : Result Bool × MutationState). w.0) (add_each_lem (r ∷ rvs) quiet sv),
  λ b vb.
      ap (λ (w : Result Bool × MutationState). vector b vb w.1) (add_each_lem (r ∷ rvs) quiet sv)
      ∙ vector-add_tokens b vb (tokens_before (r ∷ rvs)) sv,
)

-- Adding all of a bucket's tokens returns `True` exactly when there is one, and then every vector is the
-- latest; with none it changes nothing, and raises unless it is told to be quiet.
pub add_all-latest :
    (ms : List Token) (quiet : Bool) (sv : MutationState)
    → ((b : String) (vb : ℕ)
        → vector b vb (add_all ms quiet sv).1 ≡ latest b vb ms (vector b vb sv))
      × (((add_all ms quiet sv).0 ≡ ok true) ↔ (ms ≢ []))
      × ((add_all [] quiet sv) ≡ (verdict false quiet, sv))
unfolding add_all latest
add_all-latest [] true sv = (λ b vb. refl, ((λ e. cc), λ ne. absurd (ne refl)), refl)
add_all-latest [] false sv = (λ b vb. refl, ((λ e. cc), λ ne. absurd (ne refl)), refl)
add_all-latest (m ∷ ms) true sv =
    (λ b vb. vector-add_tokens b vb (m ∷ ms) sv, ((λ _ e. cc), λ _. refl), refl)
add_all-latest (m ∷ ms) false sv =
    (λ b vb. vector-add_tokens b vb (m ∷ ms) sv, ((λ _ e. cc), λ _. refl), refl)
