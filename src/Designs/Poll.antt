-- ===== src/Designs/Poll.antt =====
-- How long the polling of couchbase_core/bucketmanager.py goes on, and what its success means.
use couchbase_python_client.Base.{
  ℕ, zero, suc, ◌+◌, ◌<◌, ◌≤◌, String, Bool, true, false, Option, none, some, Result, ok, err, bind,
  Error, is_couchbase, ltb, timed_out, ◌≡◌, refl, ◌⊎◌, inl, inr, arith, Bool-cases, ap,
}
use couchbase_python_client.Base.Decimal.{pos}
use couchbase_python_client.Designs.{
  World, HttpResult, poll_loop, poll_round, went_on, design_poll, poll_from, old_rev_of, design_get,
  unchanged, poll_vq_single, is_couchbase, after_get, with_current, after_query, caught,
}

ok_inj : {A : Type 0} {a b : A} → ok a ≡ ok b → a ≡ b
ok_inj e = cc

some_inj : {A : Type 0} {a b : A} → some a ≡ some b → a ≡ b
some_inj e = cc

none-some : {A : Type 0} {a : A} → none ≡ some a → ⊥
none-some h = cc

ok_err : {A : Type 0} {a : A} {e : Error} → err e ≡ ok a → ⊥
ok_err h = cc

module _ {S : Type 0} (w : World S) where
  -- Every round takes time.
  abbrev pub Passes : Type 0
  Passes =
      (name : String) (use_devmode deleting : Bool) (old_rev : Option String) (s : S)
      → w.clock s < w.clock (poll_round w name use_devmode deleting old_rev s).1

  went_on_ends :
      (again : S → Option (Result Bool × S)) (p : Result Bool × S)
      → ((r : Result Bool × S) × (again p.1 ≡ some r))
      → (r : Result Bool × S) × (went_on w again p ≡ some r)
  went_on_ends again (ok true, s) h = (_, refl)
  went_on_ends again (ok false, s) h = h
  went_on_ends again (err e, s) h = (_, refl)

  loop_ends :
      Passes
      → (f : ℕ) (name : String) (use_devmode deleting : Bool) (old_rev : Option String) (t_end : ℕ)
        (s : S)
      → t_end ≤ w.clock s + f
      → (r : Result Bool × S) × (poll_loop w (suc f) name use_devmode deleting old_rev t_end s
          ≡ some r)
  unfolding poll_loop
  loop_ends passes zero name use_devmode deleting old_rev t_end s h =
      elim (Bool-cases (ltb (w.clock s) t_end)) [
        | inl b ↦ absurd (ground arith)
        | inr b ↦ ((err timed_out, s), rw b refl)
      ]
  loop_ends passes (suc f) name use_devmode deleting old_rev t_end s h =
      let p = poll_round w name use_devmode deleting old_rev s in
      let later = passes name use_devmode deleting old_rev s in
      let rest = loop_ends passes f name use_devmode deleting old_rev t_end p.1 (ground arith) in
      let ended =
        went_on_ends (poll_loop w (suc f) name use_devmode deleting old_rev t_end) p rest in
      elim (Bool-cases (ltb (w.clock s) t_end)) [
        | inl b ↦ (ended.0, rw b ended.1)
        | inr b ↦ ((err timed_out, s), rw b refl)
      ]

  from_ends :
      Passes
      → (f : ℕ) (name : String) (use_devmode deleting : Bool) (t_end : ℕ)
        (old : Result (Option String)) (s : S)
      → t_end ≤ w.clock s + f
      → (r : Result Bool × S) × (poll_from w (suc f) name use_devmode deleting t_end old s ≡ some r)
  from_ends passes f name use_devmode deleting t_end (err e) s h = (_, refl)
  from_ends passes f name use_devmode deleting t_end (ok old_rev) s h =
      loop_ends passes f name use_devmode deleting old_rev t_end s h

  -- Where every round takes at least a microsecond, `_design_poll` ends, and with at most one round for each
  -- microsecond of its timeout and one more.
  pub design_poll_ends :
      Passes
      → (n : ℕ) (name : String) (deleting : Bool) (oldres : Option HttpResult) (use_devmode : Bool)
        (s : S)
      → (r : Result Bool × S) × (design_poll w (suc n) name deleting oldres (pos n) use_devmode s
          ≡ some r)
  unfolding design_poll
  design_poll_ends passes zero name deleting oldres use_devmode s = (_, refl)
  design_poll_ends passes (suc n) name deleting oldres use_devmode s =
      from_ends passes (suc n) name use_devmode deleting (w.clock s + suc n) (old_rev_of w oldres) s
        (ground arith)

  -- A document was found in a revision that is not the old one, and a view of it was queried.
  abbrev pub Found : String → Bool → Option String → Result HttpResult × S → Type 0
  Found name use_devmode old_rev p =
      (cur : HttpResult) × (p.0 ≡ ok cur)
      × (unchanged w old_rev cur ≡ ok false)
      × ((poll_vq_single w name use_devmode cur.body p.1).0 ≡ ok true)

  -- The document or its revision could not be had.
  abbrev pub Missing : Option String → Result HttpResult × S → Type 0
  Missing old_rev p =
      (e : Error) × (bind p.0 (unchanged w old_rev) ≡ err e) × (is_couchbase e ≡ true)

  caught-true :
      (b : Bool) (e : Error) (s u : S)
      → caught w b e s ≡ (ok true, u)
      → (is_couchbase e ≡ true) × (b ≡ true)
  caught-true b e s u h = elim (Bool-cases (is_couchbase e)) [
    | inl c ↦ (c, ok_inj (ap (λ p. p.0) (rw c at h)))
    | inr c ↦ absurd (ok_err (ap (λ p. p.0) (rw c at h)))
  ]

  after_query-true : (p : Result Bool × S) (u : S) → after_query w p ≡ (ok true, u) → p.0 ≡ ok true
  after_query-true (ok b, s) u h = ap (λ p. p.0) h
  after_query-true (err e, s) u h = absurd (let c = (caught-true false e s u h).1 in cc)

  with_current-true :
      (name : String) (use_devmode deleting : Bool) (old_rev : Option String) (cur : HttpResult)
      (b : Result Bool) (s u : S)
      → with_current w deleting b name use_devmode cur s ≡ (ok true, u)
      → ((b ≡ ok false) × ((poll_vq_single w name use_devmode cur.body s).0 ≡ ok true))
        ⊎ ((e : Error) × (b ≡ err e) × (is_couchbase e ≡ true) × (deleting ≡ true))
  with_current-true name use_devmode deleting old_rev cur (ok true) s u h =
      absurd (let c = ap (λ p. p.0) h in cc)
  with_current-true name use_devmode deleting old_rev cur (ok false) s u h =
      inl (refl, after_query-true (poll_vq_single w name use_devmode cur.body s) u h)
  with_current-true name use_devmode deleting old_rev cur (err e) s u h =
      let c = caught-true deleting e s u h in inr (e, refl, c.0, c.1)

  after_get-true :
      (name : String) (use_devmode deleting : Bool) (old_rev : Option String)
      (p : Result HttpResult × S) (u : S)
      → after_get w name use_devmode deleting old_rev p ≡ (ok true, u)
      → Found name use_devmode old_rev p ⊎ (Missing old_rev p × (deleting ≡ true))
  after_get-true name use_devmode deleting old_rev (err e, s) u h =
      let c = caught-true deleting e s u h in inr ((e, refl, c.0), c.1)
  after_get-true name use_devmode deleting old_rev (ok cur, s) u h =
      elim (with_current-true name use_devmode deleting old_rev cur (unchanged w old_rev cur) s u
        h) [ inl (b, q) ↦ inl (cur, refl, b, q) | inr (e, b, c, d) ↦ inr ((e, b, c), d) ]

  round_true :
      (name : String) (use_devmode deleting : Bool) (old_rev : Option String) (s u : S)
      → poll_round w name use_devmode deleting old_rev s ≡ (ok true, u)
      → Found name use_devmode old_rev (design_get w name use_devmode s)
        ⊎ (Missing old_rev (design_get w name use_devmode s) × (deleting ≡ true))
  unfolding poll_round
  round_true name use_devmode deleting old_rev s u h =
      after_get-true name use_devmode deleting old_rev (design_get w name use_devmode s) u h

  went_on-true :
      (again : S → Option (Result Bool × S)) (p : Result Bool × S) (u : S)
      → went_on w again p ≡ some (ok true, u)
      → (p ≡ (ok true, u)) ⊎ (again p.1 ≡ some (ok true, u))
  went_on-true again (ok true, s) u h = inl (some_inj h)
  went_on-true again (ok false, s) u h = inr h
  went_on-true again (err e, s) u h = absurd (let c = ap (λ p. p.0) (some_inj h) in cc)

  -- When the loop of `_design_poll` returns `True`, at some moment before the deadline either the document
  -- was there in a revision that is not the old one and a query of a view of it succeeded, or the poll is
  -- for a deletion and the document or its revision could not be had.
  pub poll_loop-true :
      (f : ℕ) (name : String) (use_devmode deleting : Bool) (old_rev : Option String) (t_end : ℕ)
      (s u : S)
      → poll_loop w f name use_devmode deleting old_rev t_end s ≡ some (ok true, u)
      → (t : S) × (w.clock t < t_end)
        × (Found name use_devmode old_rev (design_get w name use_devmode t)
            ⊎ (Missing old_rev (design_get w name use_devmode t) × (deleting ≡ true)))
  unfolding poll_loop
  poll_loop-true zero name use_devmode deleting old_rev t_end s u h = absurd (none-some h)
  poll_loop-true (suc f) name use_devmode deleting old_rev t_end s u h =
      elim (Bool-cases (ltb (w.clock s) t_end)) [
        | inl b ↦
            elim (went_on-true (poll_loop w f name use_devmode deleting old_rev t_end)
              (poll_round w name use_devmode deleting old_rev s) u (rw b at h)) [
                | inl now ↦ (s, ground arith, round_true name use_devmode deleting old_rev s u now)
                | inr later ↦
                    poll_loop-true f name use_devmode deleting old_rev t_end
                      (poll_round w name use_devmode deleting old_rev s).1 u later
              ]
        | inr b ↦ absurd (ok_err (ap (λ p. p.0) (some_inj (rw b at h))))
      ]
