-- ===== src/Iops/Watched.antt =====
-- couchbase_core/iops/select.py: which events are watched, and with which flags they are ready.
use couchbase_python_client.Base.{
  ℕ, Bool, true, false, Option, none, some, List, [], ◌∷◌, ◌++◌, ◌||◌, if◌then◌else◌, nat_eq, ◌==◌,
  contains, ◌≡◌, refl, subst, ap, ◌∙◌, arith,
}
use couchbase_python_client.Base.Dict.{Dict, lookup, insert, lookup-insert, lookup-nil}
use couchbase_python_client.Iops.Select.{
  Flags, read_event, rw_event, Select, watch, unwatch, set_add, set_remove, update_event,
  unregister_event, with_write, add_reads, add_writes, add_errors, ready_events,
}

contains-append : (xs : List ℕ) (e x : ℕ) → contains (xs ++ (e ∷ [])) x ≡ (x == e || contains xs x)
contains-append [] e x = ground arith
contains-append (y ∷ ys) e x = let ih = contains-append ys e x in ground arith

contains-set_add :
    (e x : ℕ) (xs : List ℕ) → contains (set_add e xs) x ≡ (if x == e then true else contains xs x)
unfolding set_add
contains-set_add e x xs = let later = contains-append xs e x in ground arith

contains-set_remove :
    (e x : ℕ) (xs : List ℕ)
    → contains (set_remove e xs) x ≡ (if x == e then false else contains xs x)
unfolding set_remove
contains-set_remove e x [] = ground arith
contains-set_remove e x (y ∷ ys) = let ih = contains-set_remove e x ys in ground arith

set_to :
    (b : Bool) (e x : ℕ) (xs : List ℕ)
    → contains (if b then set_add e xs else set_remove e xs) x
      ≡ (if x == e then b else contains xs x)
set_to true e x xs = contains-set_add e x xs
set_to false e x xs = contains-set_remove e x xs

-- After an event is watched with some flags, it is among the readers exactly if they ask for reading and
-- among the writers exactly if they ask for writing; after it is unwatched it is among neither; every other
-- event is where it was.
pub update_event_watches :
    (e x : ℕ) (flags : Flags) (s : Select)
    → (contains (update_event e watch flags s).evrd x
        ≡ (if x == e then flags.reads else contains s.evrd x))
      × (contains (update_event e watch flags s).evwr x
          ≡ (if x == e then flags.writes else contains s.evwr x))
      × (contains (update_event e unwatch flags s).evrd x
          ≡ (if x == e then false else contains s.evrd x))
      × (contains (update_event e unwatch flags s).evwr x
          ≡ (if x == e then false else contains s.evwr x))
unfolding update_event unregister_event
update_event_watches e x flags s = (
  set_to flags.reads e x s.evrd,
  set_to flags.writes e x s.evwr,
  contains-set_remove e x s.evrd,
  contains-set_remove e x s.evwr,
)

lookup-add_reads :
    (es : List ℕ) (d : Dict ℕ Flags) (x : ℕ)
    → lookup x (add_reads es d) ≡ (if contains es x then some read_event else lookup x d)
unfolding add_reads
lookup-add_reads [] d x = refl
lookup-add_reads (e ∷ es) d x =
    let ih = lookup-add_reads es (insert e read_event d) x in
    let step = lookup-insert x e read_event d in ground arith

lookup-add_errors :
    (es : List ℕ) (d : Dict ℕ Flags) (x : ℕ)
    → lookup x (add_errors es d) ≡ (if contains es x then some rw_event else lookup x d)
unfolding add_errors
lookup-add_errors [] d x = refl
lookup-add_errors (e ∷ es) d x =
    let ih = lookup-add_errors es (insert e rw_event d) x in
    let step = lookup-insert x e rw_event d in ground arith

twice : (o : Option Flags) → with_write (some (with_write o)) ≡ with_write o
twice none = refl
twice (some f) = refl

write_one :
    (e x : ℕ) (d : Dict ℕ Flags)
    → lookup x (insert e (with_write (lookup e d)) d)
      ≡ (if x == e then some (with_write (lookup x d)) else lookup x d)
write_one e x d = elim (nat_eq.dec x e) [
  | yes p ↦
      subst
        (λ y.
          lookup x (insert y (with_write (lookup y d)) d)
          ≡ (if x == y then some (with_write (lookup x d)) else lookup x d))
        p (lookup-insert x x (with_write (lookup x d)) d)
  | no n ↦ let step = lookup-insert x e (with_write (lookup e d)) d in ground arith
]

write_later :
    (i c : Bool) (o : Option Flags)
    → (if c
        then some (with_write (if i then some (with_write o) else o))
        else (if i then some (with_write o) else o))
      ≡ (if i || c then some (with_write o) else o)
write_later true true o = ap (λ f. some f) (twice o)
write_later true false o = refl
write_later false true o = refl
write_later false false o = refl

lookup-add_writes :
    (es : List ℕ) (d : Dict ℕ Flags) (x : ℕ)
    → lookup x (add_writes es d)
      ≡ (if contains es x then some (with_write (lookup x d)) else lookup x d)
unfolding add_writes
lookup-add_writes [] d x = refl
lookup-add_writes (e ∷ es) d x =
    lookup-add_writes es (insert e (with_write (lookup e d)) d) x
    ∙ ap (λ o. if contains es x then some (with_write o) else o) (write_one e x d)
    ∙ write_later (x == e) (contains es x) (lookup x d)

-- The flags that an event has in the lists of `select`.
abbrev pub flags_of : Bool → Bool → Bool → Option Flags
flags_of reads writes true = some rw_event
flags_of reads true false = some (record { reads = reads; writes = true })
flags_of true false false = some read_event
flags_of false false false = none

flags_lem :
    (r w e : Bool)
    → (if e
        then some rw_event
        else (if w
            then some (with_write (if r then some read_event else none))
            else (if r then some read_event else none)))
      ≡ flags_of r w e
flags_lem r w true = refl
flags_lem true true false = refl
flags_lem false true false = refl
flags_lem true false false = refl
flags_lem false false false = refl

-- Whatever `select` returns, an event is ready exactly if it is in one of the lists: for both after an error, for
-- writing if it is a writer, and for reading if it is a reader.
pub lookup-ready_events :
    (rout wout eout : List ℕ) (x : ℕ)
    → lookup x (ready_events rout wout eout)
      ≡ flags_of (contains rout x) (contains wout x) (contains eout x)
unfolding ready_events
lookup-ready_events rout wout eout x =
    lookup-add_errors eout (add_writes wout (add_reads rout [])) x
    ∙ ap (λ o. if contains eout x then some rw_event else o)
        (lookup-add_writes wout (add_reads rout []) x
          ∙ ap (λ o. if contains wout x then some (with_write o) else o)
              (lookup-add_reads rout [] x
                ∙ ap (λ o. if contains rout x then some read_event else o) (lookup-nil x)))
    ∙ flags_lem (contains rout x) (contains wout x) (contains eout x)
