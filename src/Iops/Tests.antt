-- ===== src/Iops/Tests.antt =====
-- Runs of the event loop, and the theorems at concrete data.
use couchbase_python_client.Base.{
  ℕ, Bool, true, not, ◌&&◌, List, [], ◌∷◌, ◌++◌, ◌≡◌, refl, ok, contains, arith, nat_eq, ◌==◌,
  if◌then◌else◌, ltb,
}
use couchbase_python_client.Base.Dict.{lookup}
use couchbase_python_client.Iops.Select.{
  Select, ready_events, active_events, Calls, poll, unregister_timer,
}
use couchbase_python_client.Iops.Watched.{flags_of, lookup-ready_events}
use couchbase_python_client.Iops.Timers.{Sorted, poll_fires, unregister_timer_removes}

-- Timers 1 and 2 have one time.
abbrev times : ℕ → ℕ
times t = if t == 3 then 50 else 20

abbrev loop : Select
loop = record { exptime = times; timers = 3 ∷ 1 ∷ 2 ∷ []; evrd = 7 ∷ []; evwr = [] }

abbrev new_event : ℕ
new_event = 8

abbrev none_failed : List ℕ
none_failed = []

abbrev readers : List ℕ
readers = 7 ∷ []

abbrev writers : List ℕ
writers = 8 ∷ 7 ∷ []

abbrev all_active : ℕ → Bool
all_active x = true

lookup-ready_events_example :
    lookup 7 (ready_events readers writers none_failed)
    ≡ flags_of (contains readers 7) (contains writers 7) (contains none_failed 7)
lookup-ready_events_example = lookup-ready_events readers writers none_failed 7

poll_fires_example :
    (calls : Calls) × ((poll (7 ∷ []) [] [] 30 all_active all_active loop).0 ≡ ok calls)
    × (calls.0 ≡ active_events all_active (ready_events (7 ∷ []) [] []))
    × Sorted times calls.1
    × ((x : ℕ) → contains calls.1 x ≡ (contains loop.timers x && (true && not (ltb 30 (times x)))))
    × ((x : ℕ)
        → contains (poll (7 ∷ []) [] [] 30 all_active all_active loop).1.timers x
          ≡ contains loop.timers x)
unfolding nat_eq
poll_fires_example = poll_fires (7 ∷ []) [] [] 30 all_active all_active loop 1 refl

unregister_timer_removes_example : (unregister_timer 2 loop).timers ≡ (3 ∷ []) ++ (2 ∷ [])
unfolding nat_eq
unregister_timer_removes_example =
    unregister_timer_removes 2 1 (3 ∷ []) (2 ∷ []) loop refl ((λ e. omega arith), tt) refl
