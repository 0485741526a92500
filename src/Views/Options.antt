-- ===== src/Views/Options.antt =====
-- couchbase_core/views/params.py: what `_set_common` does to the options.
use couchbase_python_client.Base.{
  String, ◌≡◌, refl, ◌≢◌, Bool, true, none, ok, err, string_eq, arith, Error, Result,
}
use couchbase_python_client.Base.Dict.{lookup-insert, lookup-erase}
use couchbase_python_client.Base.Value.{Value, unspec}
use couchbase_python_client.Views.Query.{QueryBase, handler_of, unset, set_common, get_common}
use couchbase_python_client.Views.Assigned.{
  Assigned, cleared, unknown, extra, stored, refused, uncached, set_common-Assigned,
}

get-Assigned :
    (p : String) (v : Value) (q : QueryBase) (r : Result (Unit {0}) × QueryBase)
    → Assigned p v true q r
    → handler_of p ≢ none
    → r.0 ≡ ok tt
    → (get_common p r.1 ≡ v) × ((j : String) → j ≢ p → get_common j r.1 ≡ get_common j q)
unfolding unset get_common
get-Assigned p v q r (cleared e) known done = (
  ground (arith, lookup-erase p p q.user_options, lookup-erase p p q.real_options),
  λ j n. ground (arith, lookup-erase j p q.user_options, lookup-erase j p q.real_options),
)
get-Assigned p v q r (unknown n h u) known done = cc
get-Assigned p v q r (extra s n h e) known done = absurd (known h)
get-Assigned p v q r (stored h s n found e) known done = (
  ground (arith, lookup-insert p p v q.user_options),
  λ j m. ground (arith, lookup-insert j p v q.user_options, lookup-insert j p s q.real_options),
)
get-Assigned p v q r (refused e n w) known done = cc

-- An option that is set reads as the value that it was set to, and one that is set to `UNSPEC` reads
-- as `UNSPEC`. Options of other names read as before.
pub get-set :
    (p : String) (v : Value) (q : QueryBase)
    → handler_of p ≢ none
    → (set_common p v true q).0 ≡ ok tt
    → (get_common p (set_common p v true q).1 ≡ v)
      × ((j : String) → j ≢ p → get_common j (set_common p v true q).1 ≡ get_common j q)
get-set p v q = get-Assigned p v q _ (set_common-Assigned p v true q)

raise-Assigned :
    (p : String) (v : Value) (user : Bool) (q : QueryBase) (r : Result (Unit {0}) × QueryBase)
    → Assigned p v user q r
    → {e : Error} → r.0 ≡ err e
    → r.1 ≡ uncached q
raise-Assigned p v user q r (cleared n) h = cc
raise-Assigned p v user q r (unknown n f u) h = refl
raise-Assigned p v user q r (extra s n f e) h = cc
raise-Assigned p v user q r (stored k s n f e) h = cc
raise-Assigned p v user q r (refused x n w) h = refl

-- An assignment that raises changes no option; it only empties the cache.
pub set_common_atomic :
    (p : String) (v : Value) (user : Bool) (q : QueryBase) {e : Error}
    → (set_common p v user q).0 ≡ err e
    → (set_common p v user q).1 ≡ uncached q
set_common_atomic p v user q h = raise-Assigned p v user q _ (set_common-Assigned p v user q) h

-- Setting an option of unknown name to `UNSPEC` raises nothing and removes nothing: the texts of the
-- unrecognized options stay as they were.
pub unset-extra :
    (p : String) (user : Bool) (q : QueryBase)
    → ((set_common p unspec user q).0 ≡ ok tt)
      × ((set_common p unspec user q).1.extra_options ≡ q.extra_options)
unfolding set_common unset
unset-extra p user q = (refl, refl)
