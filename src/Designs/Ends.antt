-- ===== src/Designs/Ends.antt =====
-- Operations on design documents end.
use couchbase_python_client.Base.{
  ℕ, suc, String, Bool, true, false, Option, none, some, Result, ok, err, Exec, ◌≡◌, refl,
}
use couchbase_python_client.Base.Decimal.{ℤ, pos}
use couchbase_python_client.Base.Value.{Value}
use couchbase_python_client.Designs.{World, HttpResult, mk_devmode}
use couchbase_python_client.Designs.Poll.{Passes, design_poll_ends}
use couchbase_python_client.Designs.Operations.{
  Looping, follow, ◌>=>◌, once, remaining, design_create, design_delete, design_publish,
}

module _ {S : Type 0} where
  abbrev pub Ends : {A : Type 0} → Looping S A → Type 0
  Ends {A} m = (s : S) → (r : Result A × S) × (m s ≡ some r)

  followed :
      {A B : Type 0} (o : Option (Result A × S)) (k : A → Looping S B)
      → ((r : Result A × S) × (o ≡ some r))
      → ((a : A) → Ends (k a))
      → (r : Result B × S) × (follow o k ≡ some r)
  followed none k (r, h) e = absurd (let g = h in cc)
  followed (some (ok a, s)) k h e = e a s
  followed (some (err x, s)) k h e = ((err x, s), refl)

  chained :
      {A B : Type 0} (m : Looping S A) (k : A → Looping S B)
      → Ends m
      → ((a : A) → Ends (k a))
      → Ends (m >=> k)
  unfolding ◌>=>◌
  chained m k h e s = followed (m s) k (h s) e

  once-Ends : {A : Type 0} (m : Exec S A) → Ends (once m)
  unfolding once
  once-Ends m s = (m s, refl)

  valued :
      {A B : Type 0} (m : Looping S A) (k : A → Looping S B) (a : A)
      → ((s : S) → m s ≡ some (ok a, s))
      → Ends (k a)
      → Ends (m >=> k)
  unfolding ◌>=>◌
  valued m k a h e s = rw (h s) (e s)

  module _ (w : World S) (passes : Passes w) (n : ℕ) where
    create-Ends :
        (name : String) (ddoc : Value) (use_devmode : Bool)
        → Ends (design_create w (suc n) name ddoc use_devmode (pos n))
    unfolding design_create
    create-Ends name ddoc use_devmode = chained _ _ (once-Ends _) λ body.
        chained _ _ (once-Ends _) λ old. chained _ _ (once-Ends _) λ ret.
          chained _ _
            (design_poll_ends w passes n (mk_devmode name use_devmode) false old use_devmode)
            λ _. once-Ends _

    delete-Ends :
        (name : String) (use_devmode : Bool)
        → Ends (design_delete w (suc n) name use_devmode (pos n))
    unfolding design_delete
    delete-Ends name use_devmode = chained _ _ (once-Ends _) λ old. chained _ _ (once-Ends _) λ ret.
        chained _ _ (design_poll_ends w passes n (mk_devmode name use_devmode) true old false)
          λ _. once-Ends _

  waits :
      (w : World S) (n : ℕ) (deadline : Option ℤ) (s : S)
      → once (λ t. (remaining (pos (suc n)) deadline (w.clock t), t)) s ≡ some (ok (pos (suc n)), s)
  unfolding once remaining
  waits w n none s = refl
  waits w n (some d) s = refl

  -- `design_publish` with a time to wait ends, where every round of polling takes at least a microsecond: whatever the
  -- server answers, each of its three waits has at most one round for each microsecond of that time and one more.
  pub design_publish_ends :
      (w : World S)
      → Passes w
      → (n : ℕ) (name : String) (timeout : Option ℤ) (s : S)
      → (r : Result HttpResult × S) × (design_publish w (suc (suc n)) name (pos (suc n)) timeout s
          ≡ some r)
  unfolding design_publish
  design_publish_ends w passes n name timeout = chained _ _ (once-Ends _) λ old.
      chained _ _ (once-Ends _) λ deadline. valued _ _ (pos (suc n)) (waits w n deadline) (
        chained _ _ (create-Ends w passes (suc n) name old.body false) λ rv.
          valued _ _ (pos (suc n)) (waits w n deadline) (
            chained _ _ (delete-Ends w passes (suc n) name true) λ _.
              valued _ _ (pos (suc n)) (waits w n deadline) (
                chained _ _ (design_poll_ends w passes (suc n) name false none false)
                  λ _. once-Ends _)))
