-- ===== src/Views/Assigned.antt =====
-- couchbase_core/views/params.py: the ways in which `_set_common` ends.
use couchbase_python_client.Base.{
  Result-cases, String, ◌≡◌, refl, ◌≢◌, ◌⊎◌, inl, inr, Bool, true, false, none, some, ok, err,
  string_eq, if◌then◌else◌, Option-cases, Error, Result, invalid_argument,
}
use couchbase_python_client.Base.Dict.{insert}
use couchbase_python_client.Base.Value.{Value, unspec, is_unspec}
use couchbase_python_client.Views.Handlers.{Handler, run_handler, string_param_handler}
use couchbase_python_client.Views.Query.{
  QueryBase, handler_of, effective, set_extra, set_real, unset, set_value, set_common,
}

abbrev pub uncached : QueryBase → QueryBase
uncached q = record q { cached = none }

-- The ways in which `_set_common` ends, each with what it tested and the object that it leaves.
pub data Assigned (p : String) (v : Value) (user : Bool) (q : QueryBase)
    : Result (Unit {0}) × QueryBase → Type 0 where
  cleared : v ≡ unspec → Assigned p v user q (ok tt, unset p user (uncached q))
  unknown :
      v ≢ unspec
      → handler_of p ≡ none
      → q.unrecognized_ok ≡ false
      → Assigned p v user q (err invalid_argument, uncached q)
  extra :
      (s : String)
      → v ≢ unspec
      → handler_of p ≡ none
      → string_param_handler v ≡ ok s
      → Assigned p v user q
          (ok tt, record q { extra_options = insert p s q.extra_options; cached = none })
  stored :
      (h : Handler) (s : String)
      → v ≢ unspec
      → handler_of p ≡ some h
      → run_handler (effective q.passthrough h) v ≡ ok s
      → Assigned p v user q (
        ok tt,
        record q {
          real_options = insert p s q.real_options;
          user_options = if user then insert p v q.user_options else q.user_options;
          cached = none;
        },
      )
  refused :
      (e : Error)
      → v ≢ unspec
      → (handler_of p ≡ none) × (string_param_handler v ≡ err e)
        ⊎ ((h : Handler) × (handler_of p ≡ some h)
            × (run_handler (effective q.passthrough h) v ≡ err e))
      → Assigned p v user q (err e, uncached q)

module _ (p : String) (v : Value) (user : Bool) (q : QueryBase) (given : v ≢ unspec) where
  set_extra-Assigned : handler_of p ≡ none → Assigned p v user q (set_extra p v (uncached q))
  unfolding set_extra
  set_extra-Assigned no_handler = elim (Result-cases (string_param_handler v)) [
    | inl (s, e) ↦ rw (e, set_extra) (extra s given no_handler e)
    | inr (x, e) ↦ rw (e, set_extra) (refused x given (inl (no_handler, e)))
  ]

  set_real-Assigned :
      (h : Handler) → handler_of p ≡ some h → Assigned p v user q (set_real p v user h (uncached q))
  unfolding set_real
  set_real-Assigned h found = elim (Result-cases (run_handler (effective q.passthrough h) v)) [
    | inl (s, e) ↦ rw (e, set_real) (stored h s given found e)
    | inr (x, e) ↦ rw (e, set_real) (refused x given (inr (h, found, e)))
  ]

  if-Assigned :
      handler_of p ≡ none
      → (b : Bool) → q.unrecognized_ok ≡ b
      → Assigned p v user q
          (if b then set_extra p v (uncached q) else (err invalid_argument, uncached q))
  if-Assigned n true e = set_extra-Assigned n
  if-Assigned n false e = unknown given n e

  set_value-Assigned : Assigned p v user q (set_value p v user (uncached q))
  unfolding set_value
  set_value-Assigned = elim (Option-cases (handler_of p)) [
    | inl n ↦ rw (n, set_value) (if-Assigned n q.unrecognized_ok refl)
    | inr (h, e) ↦ rw (e, set_value) (set_real-Assigned h e)
  ]

pub Unspec-cases :
    (v : Value) → ((v ≡ unspec) × (is_unspec v ≡ true)) ⊎ ((v ≢ unspec) × (is_unspec v ≡ false))
Unspec-cases unspec = inl (refl, refl)
Unspec-cases _ = inr ((λ e. cc), refl)

-- `_set_common` ends in one of these ways, whatever the option, the value and the object.
pub set_common-Assigned :
    (p : String) (v : Value) (user : Bool) (q : QueryBase)
    → Assigned p v user q (set_common p v user q)
unfolding set_common
set_common-Assigned p v user q = elim (Unspec-cases v) [
  | inl (e, t) ↦ rw (t, set_common) (cleared e)
  | inr (n, f) ↦ rw (f, set_common) (set_value-Assigned p v user q n)
]
