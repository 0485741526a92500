-- ===== src/Iops/Timers.antt =====
-- couchbase_core/iops/select.py: the order and the completeness of the timers, and how they are removed.
use couchbase_python_client.Base.{
  ℕ, ◌≤◌, Bool, true, not, ◌&&◌, ◌||◌, List, [], ◌∷◌, ◌++◌, nat_eq, ◌==◌, contains, ltb, ok, ◌≡◌,
  ◌≢◌, refl, ap, ◌∙◌, arith, All,
}
use couchbase_python_client.Iops.Select.{
  Select, remove_equal, unregister_timer, put_in, sort, due, polled, poll, active_events,
  ready_events, Calls,
}

module _ (time : ℕ → ℕ) where
  -- Every timer of the list is due at this time or later.
  abbrev pub From : ℕ → List ℕ → Type 0
  From n ts = All (λ t. n ≤ time t) ts

  abbrev pub Sorted : List ℕ → Type 0
  Sorted [] = Unit
  Sorted (t ∷ ts) = From (time t) ts × Sorted ts

  From-put_in : (n t : ℕ) (ts : List ℕ) → n ≤ time t → From n ts → From n (put_in time t ts)
  unfolding put_in
  From-put_in n t [] h k = (h, tt)
  From-put_in n t (u ∷ us) h (k, ks) = let ih = From-put_in n t us h ks in ground arith

  From-lower : (m n : ℕ) (ts : List ℕ) → m ≤ n → From n ts → From m ts
  From-lower m n [] h k = tt
  From-lower m n (t ∷ ts) h (k, ks) = (omega arith, From-lower m n ts h ks)

  put_in-Sorted : (t : ℕ) (ts : List ℕ) → Sorted ts → Sorted (put_in time t ts)
  unfolding put_in
  put_in-Sorted t [] k = (tt, tt)
  put_in-Sorted t (u ∷ us) (k, ks) =
      let ih = put_in-Sorted t us ks in
      let below_all : time t ≤ time u → From (time t) us =
        λ h. From-lower (time t) (time u) us h k in
      let above_all : time u ≤ time t → From (time u) (put_in time t us) =
        λ h. From-put_in (time u) t us h k in
      ground arith

  sort-Sorted : (ts : List ℕ) → Sorted (sort time ts)
  unfolding sort
  sort-Sorted [] = tt
  sort-Sorted (t ∷ ts) = put_in-Sorted t (sort time ts) (sort-Sorted ts)

  contains-put_in :
      (t x : ℕ) (ts : List ℕ) → contains (put_in time t ts) x ≡ (x == t || contains ts x)
  unfolding put_in
  contains-put_in t x [] = refl
  contains-put_in t x (u ∷ us) = let ih = contains-put_in t x us in ground arith

  contains-sort : (x : ℕ) (ts : List ℕ) → contains (sort time ts) x ≡ contains ts x
  unfolding sort
  contains-sort x [] = refl
  contains-sort x (t ∷ ts) =
      contains-put_in t x (sort time ts) ∙ ap (λ b. x == t || b) (contains-sort x ts)

  module _ (active : ℕ → Bool) (now : ℕ) where
    From-due : (n : ℕ) (ts : List ℕ) → From n ts → From n (due active time now ts)
    unfolding due
    From-due n [] k = tt
    From-due n (t ∷ ts) (k, ks) = let ih = From-due n ts ks in ground arith

    due-Sorted : (ts : List ℕ) → Sorted ts → Sorted (due active time now ts)
    unfolding due
    due-Sorted [] k = tt
    due-Sorted (t ∷ ts) (k, ks) =
        let ih = due-Sorted ts ks in let from = From-due (time t) ts k in ground arith

    contains-due :
        (x : ℕ) (ts : List ℕ)
        → contains (due active time now ts) x
          ≡ (contains ts x && (active x && not (ltb now (time x))))
    unfolding due
    contains-due x [] = refl
    contains-due x (t ∷ ts) = let ih = contains-due x ts in ground arith

polled-ok :
    (t : ℕ) (us : List ℕ) (calls : Calls) (s : Select)
    → contains us t ≡ true
    → (polled us calls s).0 ≡ ok calls
polled-ok t [] calls s h = cc
polled-ok t (u ∷ us) calls s h = refl

polled-timers : (us : List ℕ) (calls : Calls) (s : Select) → (polled us calls s).1.timers ≡ us
polled-timers [] calls s = refl
polled-timers (u ∷ us) calls s = refl

-- A poll of a loop that has a timer calls, after the events that are ready and active, the timers that are
-- active and due, every one of them and no other, in the order of their times; and it keeps all timers. The
-- calls are taken not to change them.
pub poll_fires :
    (rout wout eout : List ℕ) (now : ℕ) (event_active timer_active : ℕ → Bool) (s : Select) (t : ℕ)
    → contains s.timers t ≡ true
    → (calls : Calls) × ((poll rout wout eout now event_active timer_active s).0 ≡ ok calls)
      × (calls.0 ≡ active_events event_active (ready_events rout wout eout))
      × Sorted s.exptime calls.1
      × ((x : ℕ)
          → contains calls.1 x
            ≡ (contains s.timers x && (timer_active x && not (ltb now (s.exptime x)))))
      × ((x : ℕ)
          → contains (poll rout wout eout now event_active timer_active s).1.timers x
            ≡ contains s.timers x)
unfolding poll
poll_fires rout wout eout now event_active timer_active s t h =
    let ts = sort s.exptime s.timers in
    let calls : Calls = (
      active_events event_active (ready_events rout wout eout),
      due timer_active s.exptime now ts,
    ) in
    (
      calls,
      polled-ok t ts calls s (contains-sort s.exptime t s.timers ∙ h),
      refl,
      due-Sorted s.exptime timer_active now ts (sort-Sorted s.exptime s.timers),
      (λ x.
          contains-due s.exptime timer_active now x ts
          ∙ ap (λ b. b && (timer_active x && not (ltb now (s.exptime x))))
              (contains-sort s.exptime x s.timers)),
      λ x. ap (λ us. contains us x) (polled-timers ts calls s) ∙ contains-sort s.exptime x s.timers,
    )

remove_first :
    (time : ℕ → ℕ) (t u : ℕ) (front rest : List ℕ)
    → All (λ x. time x ≢ time t) front
    → time u ≡ time t
    → remove_equal time t (front ++ (u ∷ rest)) ≡ front ++ rest
unfolding remove_equal
remove_first time t u [] rest k same = ground arith
remove_first time t u (x ∷ front) rest (k, ks) same =
    let ih = remove_first time t u front rest ks same in ground arith

-- Unregistering a timer removes the first timer of the list that has its time and no other: that is the
-- timer itself where no other has its time, but where another with the same time comes first, that one is
-- removed and the timer stays.
pub unregister_timer_removes :
    (t u : ℕ) (front rest : List ℕ) (s : Select)
    → s.timers ≡ front ++ (u ∷ rest)
    → All (λ x. s.exptime x ≢ s.exptime t) front
    → s.exptime u ≡ s.exptime t
    → (unregister_timer t s).timers ≡ front ++ rest
unfolding unregister_timer
unregister_timer_removes t u front rest s listed before same =
    ap (remove_equal s.exptime t) listed ∙ remove_first s.exptime t u front rest before same
