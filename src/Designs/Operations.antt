-- ===== src/Designs/Operations.antt =====
-- couchbase_core/bucketmanager.py: creation, deletion, publication and listing of design documents.
use couchbase_python_client.Base.{
  ℕ, zero, suc, String, ◌<>◌, Bool, true, false, Option, none, some, Result, ok, err, bind,
  is_couchbase, Exec, if◌then◌else◌, type_error, key_error, outside_model, string_eq, ◌≡◌, refl,
}
use couchbase_python_client.Base.Decimal.{ℤ, pos, negsuc}
use couchbase_python_client.Base.Value.{
  Value, dict, str, list, Items, nil, cons, Fields, end, get_field, set_field,
}
use couchbase_python_client.Base.Json.{dumps}
use couchbase_python_client.Options.Bounded.{◌+ℤ◌}
use couchbase_python_client.Designs.{
  World, HttpResult, http_put, http_delete, mk_devmode, design_get, design_poll, is_couchbase,
}

-- A method that may run out of the fuel of its loops.
abbrev pub Looping : Type 0 → Type 0 → Type 0
Looping S A = S → Option (Result A × S)

abbrev pub follow :
    {S A B : Type 0} → Option (Result A × S) → (A → Looping S B) → Option (Result B × S)
follow none k = none
follow (some (err e, s)) k = some (err e, s)
follow (some (ok a, s)) k = k a s

infixl 5 ◌>=>◌
unfoldable pub ◌>=>◌ : {S A B : Type 0} → Looping S A → (A → Looping S B) → Looping S B
◌>=>◌ m k s = follow (m s) k

unfoldable pub once : {S A : Type 0} → Exec S A → Looping S A
once m s = some (m s)

abbrev negated : ℤ → ℤ
negated (pos zero) = pos zero
negated (pos (suc n)) = negsuc n
negated (negsuc n) = pos (suc n)

abbrev pub is_zero : ℤ → Bool
is_zero (pos zero) = true
is_zero _ = false

-- `deadline` of `syncwait_or_deadline_time` at a time
abbrev pub deadline_from : Option ℤ → ℕ → Option ℤ
deadline_from none now = none
deadline_from (some t) now = if is_zero t then none else some (pos now +ℤ t)

-- The function that `syncwait_or_deadline_time` returns, called at a time: `None` has no difference.
unfoldable pub remaining : ℤ → Option ℤ → ℕ → Result ℤ
remaining syncwait none now = if is_zero syncwait then err type_error else ok syncwait
remaining syncwait (some d) now =
    if is_zero syncwait then ok (d +ℤ negated (pos now)) else ok syncwait

-- `ddoc.copy()` with its `_id`, as JSON; a document given as a text is outside the model.
unfoldable pub document_text : String → Value → Result String
unfolding set_field dumps
document_text fqname (dict d) = dumps (dict (set_field "_id" (str fqname) d))
document_text fqname _ = err outside_model

-- `v[k]`
abbrev pub item : String → Value → Result Value
item k (dict d) = elim (get_field k d) [ none ↦ err key_error | some v ↦ ok v ]
item k _ = err type_error

abbrev pub text_key : Value → Result String
text_key (str s) = ok s
text_key _ = err outside_model

abbrev add_row : Value → Fields → Result Fields
add_row r out = bind (item "doc" r) λ doc.
    bind (bind (item "meta" doc) (item "id"))
      λ id. bind (item "json" doc) λ json. bind (text_key id) λ k. ok (set_field k json out)

add_rows : Items → Fields → Result Fields
unfolding get_field set_field
add_rows nil out = ok out
add_rows (cons r rs) out = bind (add_row r out) (add_rows rs)

-- What `design_list` makes of the rows.
unfoldable pub design_rows : Value → Result Value
unfolding get_field add_rows
design_rows v = bind (item "rows" v) λ rows. elim rows [
  | list rs ↦ bind (add_rows rs end) (λ d. ok (dict d))
  | _ ↦ err outside_model
]

follow_type_error :
    {S A B : Type 0} (p : Result A × S) (k : A → Looping S B)
    → ((a : A) (t : S) → k a t ≡ some (err type_error, t))
    → follow (some p) k ≡ some (bind p.0 (λ _. err type_error), p.1)
follow_type_error (ok a, s) k h = h a s
follow_type_error (err e, s) k h = refl

module _ {S : Type 0} (w : World S) where
  abbrev unless_couchbase : Result HttpResult × S → Result (Option HttpResult) × S
  unless_couchbase (ok r, s) = (ok (some r), s)
  unless_couchbase (err e, s) = if is_couchbase e then (ok none, s) else (err e, s)

  -- The document before the change, which is read only if the caller waits.
  unfoldable pub existing : String → ℤ → Exec S (Option HttpResult)
  unfolding design_get
  existing name syncwait s =
      if is_zero syncwait then (ok none, s) else unless_couchbase (design_get w name false s)

  abbrev pub put_document : String → String → Exec S HttpResult
  put_document fqname body =
      w.http record { path = fqname; method = http_put; post_data = some body }

  abbrev pub delete_document : String → Exec S HttpResult
  delete_document path = w.http record { path = path; method = http_delete; post_data = none }

  unfoldable pub design_create : ℕ → String → Value → Bool → ℤ → Looping S HttpResult
  unfolding mk_devmode document_text existing design_poll
  design_create f given ddoc use_devmode syncwait =
      let name = mk_devmode given use_devmode in
      let fqname = "_design/" <> name in
      once (λ s. (document_text fqname ddoc, s)) >=> λ body.
      once (existing name syncwait) >=> λ old. once (put_document fqname body) >=> λ ret.
      design_poll w f name false old syncwait use_devmode >=> λ _. once (λ s. (ok ret, s))

  unfoldable pub design_delete : ℕ → String → Bool → ℤ → Looping S HttpResult
  unfolding mk_devmode existing design_poll
  design_delete f given use_devmode syncwait =
      let name = mk_devmode given use_devmode in
      once (existing name syncwait) >=> λ old.
      once (delete_document ("_design/" <> name)) >=> λ ret.
      design_poll w f name true old syncwait false >=> λ _. once (λ s. (ok ret, s))

  -- `design_publish`, where `time.time` and `datetime.now` are one clock.
  unfoldable pub design_publish : ℕ → String → ℤ → Option ℤ → Looping S HttpResult
  unfolding design_get remaining design_create design_delete design_poll
  design_publish f name syncwait timeout = once (design_get w name true) >=> λ old.
      once (λ s. (ok (deadline_from timeout (w.clock s)), s)) >=> λ deadline.
      once (λ s. (remaining syncwait deadline (w.clock s), s)) >=> λ t1.
      design_create f name old.body false t1 >=> λ rv.
      once (λ s. (remaining syncwait deadline (w.clock s), s)) >=> λ t2.
      design_delete f name true t2 >=> λ _.
      once (λ s. (remaining syncwait deadline (w.clock s), s)) >=> λ t3.
      design_poll w f name false none t3 false >=> λ _. once (λ s. (ok rv, s))

  -- With its default arguments `design_publish` publishes nothing: after the request for the development document it
  -- raises a `TypeError`, whatever the server answers, unless the request itself fails.
  pub publish_defaults :
      (f : ℕ) (name : String) (s : S)
      → design_publish f name (pos 0) none s
        ≡ some
            (bind (design_get w name true s).0 (λ _. err type_error), (design_get w name true s).1)
  unfolding design_publish remaining ◌>=>◌ once
  publish_defaults f name s = follow_type_error (design_get w name true s) _ (λ old t. refl)
