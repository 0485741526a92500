-- ===== src/Async/Events.antt =====
-- couchbase_core/asynchronous/events.py: `EventQueue`. The hooks of a subclass are a parameter, by
-- whether they raise; what they are called with is kept in a log.
use couchbase_python_client.Base.{
  ℕ, Bool, true, false, Option, none, some, List, [], ◌∷◌, ◌++◌, map, Error, attribute_error,
  type_error, Result, ok, err, length, if◌then◌else◌, ◌≡◌, refl, ap, sym, ◌∙◌,
}
use mathlib.Core.List.{append_assoc, append-nil}

-- A call of a hook.
pub data Call (E : Type 0) : Type 0 where
  fired succeeded failed : E → Call E

pub record EventQueue (E : Type 0) : Type 0 where
  pub called : Bool
  -- `None` after the waiters were invoked.
  pub waiters : Option (List E)
  pub log : List (Call E)

module _ {E : Type 0} where
  -- `__init__`
  abbrev pub new : EventQueue E
  new = record { called = false; waiters = some []; log = [] }

  abbrev pub logged : List (Call E) → EventQueue E → EventQueue E
  logged cs q = record q { log = q.log ++ cs }

  -- `schedule`; what `fire_async` raises is passed on.
  unfoldable pub schedule :
      (E → Result (Unit {0})) → E → EventQueue E → Result (Unit {0}) × EventQueue E
  schedule fire_async event q =
      if q.called then (fire_async event, logged (fired event ∷ []) q) else elim q.waiters [
        | none ↦ (err attribute_error, q)
        | some es ↦ (ok tt, record q { waiters = some (es ++ (event ∷ [])) })
      ]

  -- `invoke_waiters`, by what `maybe_raise` raises. What the calls for single events raise is dropped. Without
  -- waiters, `for` raises `TypeError`, in the handler a second time.
  unfoldable pub invoke_waiters : Option Error → EventQueue E → Result (Unit {0}) × EventQueue E
  invoke_waiters maybe_raise q = elim q.waiters [
    | none ↦ (err type_error, record q { called = true })
    | some es ↦ elim maybe_raise [
      | none ↦ (ok tt, record (logged (map succeeded es) q) { called = true; waiters = none })
      | some _ ↦ (ok tt, record (logged (map failed es) q) { called = true; waiters = none })
    ]
  ]

  -- `__len__`
  unfoldable pub len : EventQueue E → Result ℕ
  len q = elim q.waiters [ none ↦ err type_error | some es ↦ ok (length es) ]

  unfoldable pub schedule_all : (E → Result (Unit {0})) → List E → EventQueue E → EventQueue E
  unfolding schedule
  schedule_all f [] q = q
  schedule_all f (e ∷ es) q = schedule_all f es (schedule f e q).1

  abbrev pub waiting : List E → EventQueue E
  waiting es = record { called = false; waiters = some es; log = [] }

  abbrev pub over : List (Call E) → EventQueue E
  over cs = record { called = true; waiters = none; log = cs }

  schedule_waiting :
      (f : E → Result (Unit {0})) (es ds : List E)
      → schedule_all f es (waiting ds) ≡ waiting (ds ++ es)
  unfolding schedule_all
  schedule_waiting f [] ds = ap waiting (sym (append-nil ds))
  schedule_waiting f (e ∷ es) ds =
      schedule_waiting f es (ds ++ (e ∷ [])) ∙ ap waiting (append_assoc ds (e ∷ []) es)

  schedule_over :
      (f : E → Result (Unit {0})) (es : List E) (cs : List (Call E))
      → schedule_all f es (over cs) ≡ over (cs ++ map fired es)
  unfolding schedule_all
  schedule_over f [] cs = ap over (sym (append-nil cs))
  schedule_over f (e ∷ es) cs =
      schedule_over f es (cs ++ (fired e ∷ []))
      ∙ ap over (append_assoc cs (fired e ∷ []) (map fired es))

  abbrev pub notice : Option Error → E → Call E
  notice none = succeeded
  notice (some _) = failed

  invoke_waiting :
      (raises : Option Error) (es : List E)
      → invoke_waiters raises (waiting es) ≡ (ok tt, over (map (notice raises) es))
  unfolding invoke_waiters
  invoke_waiting none es = refl
  invoke_waiting (some e) es = refl

  all_told :
      (f : E → Result (Unit {0})) (raises : Option Error) (early late : List E)
      → schedule_all f late (invoke_waiters raises (schedule_all f early new)).1
        ≡ over (map (notice raises) early ++ map fired late)
  all_told f raises early late =
      ap (λ q. schedule_all f late (invoke_waiters raises q).1) (schedule_waiting f early [])
      ∙ ap (λ (w : Result (Unit {0}) × EventQueue E). schedule_all f late w.1)
          (invoke_waiting raises early)
      ∙ schedule_over f late (map (notice raises) early)

  -- Events that are scheduled before the queue is called wait, are then told of the success or the failure
  -- once each and in their order, and events that are scheduled later are fired at once, in their order.
  -- Calling the queue again raises `TypeError` and tells nobody.
  pub told_once :
      (f : E → Result (Unit {0})) (raises : Option Error) (early late : List E)
      → let called_queue = (invoke_waiters raises (schedule_all f early new)).1 in
        (schedule_all f late called_queue ≡ over (map (notice raises) early ++ map fired late))
        × ((invoke_waiters raises (schedule_all f late called_queue)).0 ≡ err type_error)
        × ((invoke_waiters raises (schedule_all f late called_queue)).1.log
            ≡ map (notice raises) early ++ map fired late)
  unfolding invoke_waiters
  told_once f raises early late = (
    all_told f raises early late,
    ap (λ q. (invoke_waiters raises q).0) (all_told f raises early late),
    ap (λ q. (invoke_waiters raises q).1.log) (all_told f raises early late),
  )
