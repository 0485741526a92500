-- ===== src/Designs/Tests.antt =====
-- A server that has one design document, and the theorems at concrete data.
use couchbase_python_client.Base.{
  ℕ, suc, ◌<◌, String, Bool, true, false, none, some, Result, ok, err, bind, string_eq, nat_eq,
  type_error, ◌≡◌, refl, arith, ◌⊎◌, Bool-cases, inl, inr, ◌==◌,
}
use couchbase_python_client.Base.Decimal.{pos}
use couchbase_python_client.Base.Value.{Value, str, dict, field, end, truthy, get_field}
use couchbase_python_client.Designs.{
  World, HttpResult, poll_round, poll_loop, design_get, poll_vq_single, view_to_poll, with_current,
}
use couchbase_python_client.Designs.Poll.{Passes, Found, Missing, poll_loop-true}
use couchbase_python_client.Designs.Operations.{design_publish, publish_defaults}
use couchbase_python_client.Designs.Ends.{design_publish_ends}

abbrev body : Value
body = dict (field "views" (dict (field "by_name" (str "…") end)) end)

abbrev answer : HttpResult
answer = record { rev = ok "2"; body = body }

-- Every request takes a microsecond.
abbrev world : World ℕ
world = record {
  http = λ r s. (ok answer, suc s);
  view_query = λ d v m k s. (ok tt, s);
  clock = λ s. s;
}

passes_known :
    (name : String) (use_devmode deleting : Bool) (b : Bool) (s : ℕ)
    → s < (with_current world deleting (ok b) name use_devmode answer (suc s)).1
unfolding poll_vq_single view_to_poll truthy get_field string_eq
passes_known name use_devmode deleting true s = ground arith
passes_known name use_devmode deleting false s = ground arith

passes : Passes world
unfolding poll_round design_get
passes name use_devmode deleting none s = passes_known name use_devmode deleting false s
passes name use_devmode deleting (some old) s = elim (Bool-cases (old == "")) [
  | inl h ↦ rw h (passes_known name use_devmode deleting false s)
  | inr h ↦ rw h (passes_known name use_devmode deleting ("2" == old) s)
]

abbrev start : ℕ
start = 100

design_publish_ends_example :
    (r : Result HttpResult × ℕ) × (design_publish world 5 "people" (pos 4) none start ≡ some r)
design_publish_ends_example = design_publish_ends world passes 3 "people" none start

publish_defaults_example :
    design_publish world 5 "people" (pos 0) none start
    ≡ some (
      bind (design_get world "people" true start).0 (λ _. err type_error),
      (design_get world "people" true start).1,
    )
publish_defaults_example = publish_defaults world 5 "people" start

poll_loop-true_example :
    (t : ℕ) × (t < 120)
    × (Found world "people" false (some "1") (design_get world "people" false t)
        ⊎ (Missing world (some "1") (design_get world "people" false t) × (false ≡ true)))
unfolding poll_loop poll_round design_get poll_vq_single view_to_poll truthy get_field string_eq
poll_loop-true_example = poll_loop-true world 3 "people" false false (some "1") 120 start 101 refl
