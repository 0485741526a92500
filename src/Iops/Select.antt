-- ===== src/Iops/Select.antt =====
-- couchbase_core/iops/select.py: `SelectIOPS`. Events and timers are objects, named by numbers; a timer's time
-- is in a store, since the list of timers and the C extension share it. Times are in microseconds, and `now` is
-- what `time.time()` gives.
use couchbase_python_client.Base.{
  ℕ, ◌+◌, Bool, true, false, not, Option, none, some, List, [], ◌∷◌, ◌++◌, if◌then◌else◌, nat_eq,
  ◌==◌, contains, leb, ltb, Result, ok, err, index_error,
}
use couchbase_python_client.Base.Dict.{Dict, lookup, insert}

-- A mask of `LCB_READ_EVENT` and `LCB_WRITE_EVENT`; `LCB_RW_EVENT` has both.
pub record Flags : Type 0 where
  pub reads : Bool
  pub writes : Bool

abbrev pub read_event : Flags
read_event = record { reads = true; writes = false }

abbrev pub write_event : Flags
write_event = record { reads = false; writes = true }

abbrev pub rw_event : Flags
rw_event = record { reads = true; writes = true }

pub data Action : Type 0 where
  watch unwatch : Action

pub record Select : Type 0 where
  -- `exptime` of every timer.
  pub exptime : ℕ → ℕ
  -- `_timers`
  pub timers : List ℕ
  -- `_evrd`, `_evwr`
  pub evrd : List ℕ
  pub evwr : List ℕ

-- `xs.add(x)` and `xs.remove(x)` on a set.
unfoldable pub set_add : ℕ → List ℕ → List ℕ
set_add x xs = if contains xs x then xs else xs ++ (x ∷ [])

unfoldable pub set_remove : ℕ → List ℕ → List ℕ
set_remove x [] = []
set_remove x (y ∷ ys) = let rest = set_remove x ys in if x == y then rest else y ∷ rest

-- `timer in self._timers` and `self._timers.remove(timer)`: timers are equal if their times are.
unfoldable pub remove_equal : (ℕ → ℕ) → ℕ → List ℕ → List ℕ
remove_equal time t [] = []
remove_equal time t (u ∷ us) =
    let rest = remove_equal time t us in if time u == time t then us else u ∷ rest

-- `_unregister_timer`
unfoldable pub unregister_timer : ℕ → Select → Select
unfolding remove_equal
unregister_timer t s = record s { timers = remove_equal s.exptime t s.timers }

-- `SelectTimer.activate`
unfoldable pub activate : ℕ → ℕ → ℕ → Select → Select
activate now usecs t s = record s { exptime = λ u. if u == t then now + usecs else s.exptime u }

abbrev pub appended : ℕ → Select → Select
appended t s = record s { timers = s.timers ++ (t ∷ []) }

-- `update_timer`; `active` says whether the timer is.
unfoldable pub update_timer : ℕ → Bool → ℕ → Action → ℕ → Select → Select
unfolding unregister_timer activate
update_timer now active t unwatch usecs s = unregister_timer t s
update_timer now active t watch usecs s =
    appended t (activate now usecs t (if active then unregister_timer t s else s))

-- `_unregister_event`
unfoldable pub unregister_event : ℕ → Select → Select
unfolding set_remove
unregister_event e s = record s { evrd = set_remove e s.evrd; evwr = set_remove e s.evwr }

-- `update_event`
unfoldable pub update_event : ℕ → Action → Flags → Select → Select
unfolding unregister_event set_add set_remove
update_event e unwatch flags s = unregister_event e s
update_event e watch flags s = record s {
  evrd = if flags.reads then set_add e s.evrd else set_remove e s.evrd;
  evwr = if flags.writes then set_add e s.evwr else set_remove e s.evwr;
}

-- `self._timers.sort()`, which is stable.
unfoldable pub put_in : (ℕ → ℕ) → ℕ → List ℕ → List ℕ
put_in time t [] = t ∷ []
put_in time t (u ∷ us) =
    let rest = put_in time t us in if leb (time t) (time u) then t ∷ u ∷ us else u ∷ rest

unfoldable pub sort : (ℕ → ℕ) → List ℕ → List ℕ
unfolding put_in
sort time [] = []
sort time (t ∷ ts) = put_in time t (sort time ts)

abbrev pub with_write : Option Flags → Flags
with_write none = write_event
with_write (some f) = record f { writes = true }

unfoldable pub add_reads : List ℕ → Dict ℕ Flags → Dict ℕ Flags
unfolding insert
add_reads [] d = d
add_reads (e ∷ es) d = add_reads es (insert e read_event d)

unfoldable pub add_writes : List ℕ → Dict ℕ Flags → Dict ℕ Flags
unfolding insert lookup
add_writes [] d = d
add_writes (e ∷ es) d = add_writes es (insert e (with_write (lookup e d)) d)

unfoldable pub add_errors : List ℕ → Dict ℕ Flags → Dict ℕ Flags
unfolding insert
add_errors [] d = d
add_errors (e ∷ es) d = add_errors es (insert e rw_event d)

-- `ready_events`, of what `select` returns.
unfoldable pub ready_events : List ℕ → List ℕ → List ℕ → Dict ℕ Flags
unfolding add_reads add_writes add_errors
ready_events rout wout eout = add_errors eout (add_writes wout (add_reads rout []))

unfoldable pub active_events : (ℕ → Bool) → Dict ℕ Flags → List (ℕ × Flags)
active_events active [] = []
active_events active ((e, f) ∷ d) =
    let rest = active_events active d in if active e then (e, f) ∷ rest else rest

unfoldable pub due : (ℕ → Bool) → (ℕ → ℕ) → ℕ → List ℕ → List ℕ
due active time now [] = []
due active time now (t ∷ ts) =
    let rest = due active time now ts in
    if not (active t) then rest else if ltb now (time t) then rest else t ∷ rest

-- The calls of `ready`: of events with their flags, and then of timers.
abbrev pub Calls : Type 0
Calls = List (ℕ × Flags) × List ℕ

-- The rest of `_poll` once the timers are sorted. Without one, `self._timers[0]` fails.
abbrev pub polled : List ℕ → Calls → Select → Result Calls × Select
polled [] calls s = (err index_error, record s { timers = [] })
polled (t ∷ ts) calls s = (ok calls, record s { timers = t ∷ ts })

-- `_poll`, by what `select` returns, by the time after it, and by which events and timers are active; a
-- call of `ready` is taken not to change that.
unfoldable pub poll :
    List ℕ → List ℕ → List ℕ → ℕ → (ℕ → Bool) → (ℕ → Bool) → Select → Result Calls × Select
unfolding sort ready_events active_events due
poll rout wout eout now event_active timer_active s =
    polled (sort s.exptime s.timers)
      (
        active_events event_active (ready_events rout wout eout),
        due timer_active s.exptime now (sort s.exptime s.timers),
      )
      s
