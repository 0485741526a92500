-- ===== src/Collections/Fifo.antt =====
-- Queues of couchbase/collection.py refine a first-in, first-out queue.
use couchbase_python_client.Base.{
  ℕ, suc, ◌+◌, String, Bool, true, false, none, some, List, [], ◌∷◌, ◌++◌, length, Result, ok, err,
  Exec, document_not_found, index_error, queue_empty, type_error, string_eq, ◌≡◌, refl, sym,
  Bool-cases, ◌∙◌, ap, inl, inr,
}
use couchbase_python_client.Base.Decimal.{pos, negsuc}
use couchbase_python_client.Base.Value.{Value, null, int, list, nil}
use couchbase_python_client.Collections.{Collection, Core, Answer, done, true_collections}
use couchbase_python_client.Collections.Operations.{insert_new}
use couchbase_python_client.Collections.Structures.{
  dsop, recovered, create_then, after_insert, list_get, list_remove, list_prepend,
}
use couchbase_python_client.Collections.Queues.{
  queue_push, queue_pop, queue_pop_loop, queue_size, size_of, peeked, popped,
}
use couchbase_python_client.Collections.Passed.{
  address, address-named, address-default, creating, create-creating, erase-creating,
  insert_new-address,
}
use couchbase_python_client.Collections.Lists.{
  wrapped, peek_last, peek_result, drop_result, count_result, prepend_result, dsop-wrapped, peeks,
  drops, sizes, prepends,
}
use couchbase_python_client.Collections.Served.{
  Serves, Contents, last, drop_last, dropped, prepended,
}

pub data QueueOp : Type 0 where
  push : Value → Bool → QueueOp
  pop size : QueueOp

-- The specification: no document, or the items with the oldest first. On a named collection `queue_size` does not work.
abbrev pub fifo : Bool → QueueOp → Contents → Result Value × Contents
fifo named (push v true) none = (ok null, some (v ∷ []))
fifo named (push v false) none = (err document_not_found, none)
fifo named (push v create) (some q) = (ok null, some (q ++ (v ∷ [])))
fifo named pop none = (err document_not_found, none)
fifo named pop (some []) = (err queue_empty, some [])
fifo named pop (some (v ∷ q)) = (ok v, some q)
fifo true size q = (err type_error, q)
fifo false size none = (err document_not_found, none)
fifo false size (some q) = (ok (int (pos (length q))), some q)

-- The document keeps the newest first.
abbrev pub newest_first : List Value → List Value
newest_first [] = []
newest_first (v ∷ q) = newest_first q ++ (v ∷ [])

abbrev pub stored : Contents → Contents
stored none = none
stored (some q) = some (newest_first q)

pub last-append : (vs : List Value) (v : Value) → last (vs ++ (v ∷ [])) ≡ some v
last-append [] v = refl
last-append (w ∷ []) v = refl
last-append (w ∷ x ∷ vs) v = last-append (x ∷ vs) v

pub drop_last-append : (vs : List Value) (v : Value) → drop_last (vs ++ (v ∷ [])) ≡ vs
drop_last-append [] v = refl
drop_last-append (w ∷ []) v = refl
drop_last-append (w ∷ x ∷ vs) v = rw (drop_last-append (x ∷ vs) v) refl

newest_first-append :
    (q : List Value) (v : Value) → newest_first (q ++ (v ∷ [])) ≡ v ∷ newest_first q
newest_first-append [] v = refl
newest_first-append (w ∷ q) v = rw (newest_first-append q v) refl

length-append : (vs : List Value) (v : Value) → length (vs ++ (v ∷ [])) ≡ length vs + 1
length-append [] v = refl
length-append (w ∷ vs) v = rw (length-append vs v) refl

length-newest_first : (q : List Value) → length (newest_first q) ≡ length q
length-newest_first [] = refl
length-newest_first (v ∷ q) = rw (length-append (newest_first q) v, length-newest_first q) refl

pub drop_result-append :
    (vs : List Value) (v : Value) → drop_result (some (vs ++ (v ∷ []))) ≡ ok null
drop_result-append [] v = refl
drop_result-append (_ ∷ vs) v = refl

-- One operation of the queue of `key`. `queue_pop` may go around `f + 1` times.
abbrev pub perform : {S : Type 0} → Core S → Collection → String → ℕ → QueueOp → Exec S Value
perform core c key f (push v create) = queue_push core c key v (creating create)
perform core c key f pop = queue_pop core c (suc f) key []
perform core c key f size = queue_size core c key []

-- The results of a sequence of operations, and what they leave.
abbrev pub run : {Op S : Type 0} → (Op → Exec S Value) → List Op → S → List (Result Value) × S
run act [] s = ([], s)
run act (op ∷ ops) s = let rest = run act ops (act op s).1 in ((act op s).0 ∷ rest.0, rest.1)

module _ {S : Type 0} (core : Core S) (c : Collection) (key : String) {view : S → Contents}
    (served : Serves core c key view) where
  -- A call that ended in `r` and left a document `o`.
  abbrev Ends : Result Value → Contents → Result Value × S → Type 0
  Ends r o p = (p.0 ≡ r) × (view p.1 ≡ o)

  pub peeked_item :
      (remove again : Exec S Value) (p : Result Value × S) (v : Value)
      → p.0 ≡ ok v
      → peeked remove again p ≡ popped v again (remove p.1)
  unfolding peeked
  peeked_item remove again (r, s) v h = rw h refl

  peeked_missing :
      (remove again : Exec S Value) (p : Result Value × S)
      → p.0 ≡ err document_not_found
      → peeked remove again p ≡ (err document_not_found, p.1)
  unfolding peeked
  peeked_missing remove again (r, s) h = rw h refl

  peeked_empty :
      (remove again : Exec S Value) (p : Result Value × S)
      → p.0 ≡ err index_error
      → peeked remove again p ≡ (err queue_empty, p.1)
  unfolding peeked
  peeked_empty remove again (r, s) h = rw h refl

  pub popped_null :
      (v : Value) (again : Exec S Value) (p : Result Value × S)
      → p.0 ≡ ok null
      → popped v again p ≡ (ok v, p.1)
  unfolding popped
  popped_null v again (r, s) h = rw h refl

  pop_loop :
      (f : ℕ) (q : Contents) (s : S)
      → view s ≡ stored q
      → Ends
          (fifo false pop q).0
          (stored (fifo false pop q).1)
          (queue_pop_loop core c (suc f) key (address c) s)
  unfolding queue_pop_loop
  pop_loop f none s h =
      let p = peeks core c key served s in
      let gone =
        peeked_missing (list_remove core c key (negsuc 0) (address c))
          (queue_pop_loop core c f key (address c)) (list_get core c key (negsuc 0) (address c) s)
          (p.0 ∙ ap peek_result h) in
      rw gone (refl, p.1 ∙ h)
  pop_loop f (some []) s h =
      let p = peeks core c key served s in
      let gone =
        peeked_empty (list_remove core c key (negsuc 0) (address c))
          (queue_pop_loop core c f key (address c)) (list_get core c key (negsuc 0) (address c) s)
          (p.0 ∙ ap peek_result h) in
      rw gone (refl, p.1 ∙ h)
  pop_loop f (some (v ∷ q)) s h =
      let p = peeks core c key served s in
      let t = (list_get core c key (negsuc 0) (address c) s).1 in
      let at_t = p.1 ∙ h in
      let d = drops core c key served t in
      let item =
        peeked_item (list_remove core c key (negsuc 0) (address c))
          (queue_pop_loop core c f key (address c)) (list_get core c key (negsuc 0) (address c) s) v
          (p.0 ∙ ap peek_result h ∙ ap peek_last (last-append (newest_first q) v)) in
      let done =
        popped_null v (queue_pop_loop core c f key (address c))
          (list_remove core c key (negsuc 0) (address c) t)
          (d.0 ∙ ap drop_result at_t ∙ drop_result-append (newest_first q) v) in
      rw (item, done) (refl, d.1 ∙ ap dropped at_t ∙ ap some (drop_last-append (newest_first q) v))

  fifo_pop : (named : Bool) (q : Contents) → fifo named pop q ≡ fifo false pop q
  fifo_pop named none = refl
  fifo_pop named (some []) = refl
  fifo_pop named (some (_ ∷ _)) = refl

  wrapped-fifo : (q : Contents) → wrapped (fifo false pop q).0 ≡ (fifo false pop q).0
  wrapped-fifo none = refl
  wrapped-fifo (some []) = refl
  wrapped-fifo (some (_ ∷ _)) = refl

  pop-Ends :
      (f : ℕ) (named : Bool) (q : Contents) (s : S)
      → view s ≡ stored q
      → Ends (fifo named pop q).0 (stored (fifo named pop q).1) (queue_pop core c (suc f) key [] s)
  unfolding queue_pop
  pop-Ends f named q s h =
      let p = pop_loop f q s h in
      rw (dsop-wrapped core c key none (queue_pop_loop core c (suc f) key) s)
        (rw (fifo_pop named q) (ap wrapped p.0 ∙ wrapped-fifo q, p.1))

  recovered_ok :
      (insert_it : Value → Exec S Answer) (b : Bool) (again : Exec S Value) (p : Result Value × S)
      → p.0 ≡ ok null
      → recovered insert_it (some (list nil)) true b again p ≡ (ok null, p.1)
  unfolding recovered
  recovered_ok insert_it true again (r, s) h = rw h refl
  recovered_ok insert_it false again (r, s) h = rw h refl

  recovered_missing :
      (insert_it : Value → Exec S Answer) (again : Exec S Value) (p : Result Value × S)
      → p.0 ≡ err document_not_found
      → recovered insert_it (some (list nil)) true false again p ≡ (err document_not_found, p.1)
  unfolding recovered
  recovered_missing insert_it again (r, s) h = rw h refl

  after_insert_ok :
      (again : Exec S Value) (p : Result Answer × S)
      → p.0 ≡ ok done
      → after_insert again p ≡ again p.1
  unfolding after_insert
  after_insert_ok again (r, s) h = rw h refl

  recovered_created :
      (insert_it : Value → Exec S Answer) (again : Exec S Value) (p : Result Value × S)
      → p.0 ≡ err document_not_found
      → (insert_it (list nil) p.1).0 ≡ ok done
      → recovered insert_it (some (list nil)) true true again p ≡ again (insert_it (list nil) p.1).1
  unfolding recovered create_then
  recovered_created insert_it again (r, s) h k =
      rw h (after_insert_ok again (insert_it (list nil) s) k)

  inserts :
      (s : S)
      → view s ≡ none
      → ((insert_new core c key (list nil) [] [] s).0 ≡ ok done)
        × (view (insert_new core c key (list nil) [] [] s).1 ≡ some [])
  inserts s h = rw (insert_new-address c core key (list nil) s) (served.inserts s h)

  push-Ends :
      (named : Bool) (v : Value) (b : Bool) (q : Contents) (s : S)
      → view s ≡ stored q
      → Ends
          (fifo named (push v b) q).0
          (stored (fifo named (push v b) q).1)
          (queue_push core c key v (creating b) s)
  unfolding queue_push dsop
  push-Ends named v b (some q) s h =
      let p = prepends core c key served v s in
      let done_it =
        recovered_ok (λ w. insert_new core c key w [] []) b (list_prepend core c key v (address c))
          (list_prepend core c key v (address c) s) (p.0 ∙ ap prepend_result h) in
      rw (create-creating c b, erase-creating c b, done_it)
        (refl, p.1 ∙ ap (prepended v) h ∙ ap some (sym (newest_first-append q v)))
  push-Ends named v false none s h =
      let p = prepends core c key served v s in
      let gone =
        recovered_missing (λ w. insert_new core c key w [] [])
          (list_prepend core c key v (address c)) (list_prepend core c key v (address c) s)
          (p.0 ∙ ap prepend_result h) in
      rw (create-creating c false, erase-creating c false, gone) (refl, p.1 ∙ ap (prepended v) h)
  push-Ends named v true none s h =
      let prepend = list_prepend core c key v (address c) in
      let p = prepends core c key served v s in
      let i = inserts (prepend s).1 (p.1 ∙ ap (prepended v) h) in
      let made =
        recovered_created (λ w. insert_new core c key w [] []) prepend (prepend s)
          (p.0 ∙ ap prepend_result h) i.0 in
      let again =
        prepends core c key served v (insert_new core c key (list nil) [] [] (prepend s).1).1 in
      rw (create-creating c true, erase-creating c true, made)
        (again.0 ∙ ap prepend_result i.1, again.1 ∙ ap (prepended v) i.1)

  size_keeps : (q : Contents) → q ≡ (fifo false size q).1
  size_keeps none = refl
  size_keeps (some q) = refl

  count_newest_first : (q : Contents) → wrapped (count_result (stored q)) ≡ (fifo false size q).0
  count_newest_first none = refl
  count_newest_first (some q) = rw (length-newest_first q) refl

  queue_size-sized :
      (s : S)
      → queue_size core c key [] s
        ≡ (wrapped (size_of core c key (address c) s).0, (size_of core c key (address c) s).1)
  unfolding queue_size
  queue_size-sized s = dsop-wrapped core c key none (size_of core c key) s

  size-Ends :
      (q : Contents) (s : S)
      → view s ≡ stored q
      → Ends
          (fifo (true_collections c) size q).0
          (stored (fifo (true_collections c) size q).1)
          (queue_size core c key [] s)
  size-Ends q s h = elim (Bool-cases (true_collections c)) [
    | inl t ↦ rw (queue_size-sized s, address-named c t, t) (refl, h)
    | inr t ↦
        let z = rw (address-default c t) at (sizes core c key served s) in
        rw (queue_size-sized s, address-default c t, t)
          (
            ap wrapped (z.0 ∙ ap count_result h) ∙ count_newest_first q,
            z.1 ∙ h ∙ ap stored (size_keeps q),
          )
  ]

  perform-Ends :
      (f : ℕ) (op : QueueOp) (q : Contents) (s : S)
      → view s ≡ stored q
      → Ends
          (fifo (true_collections c) op q).0
          (stored (fifo (true_collections c) op q).1)
          (perform core c key f op s)
  perform-Ends f (push v b) q s h = push-Ends (true_collections c) v b q s h
  perform-Ends f pop q s h = pop-Ends f (true_collections c) q s h
  perform-Ends f size q s h = size-Ends q s h

  -- Under a server that keeps the document as an array, any sequence of `queue_push`, `queue_pop` and
  -- `queue_size` has the results of a first-in, first-out queue of which the document holds the newest item
  -- first: a push creates the document if it is asked to, a pop of an empty queue is a `QueueEmpty`, an
  -- operation without the document is a `DocumentNotFoundException`, and `queue_size` is the length on a
  -- default collection and a `TypeError` on a named one. One round of `queue_pop` is enough.
  pub run_refines :
      (f : ℕ) (ops : List QueueOp) (q : Contents) (s : S)
      → view s ≡ stored q
      → ((run (perform core c key f) ops s).0 ≡ (run (fifo (true_collections c)) ops q).0)
        × (view (run (perform core c key f) ops s).1
            ≡ stored (run (fifo (true_collections c)) ops q).1)
  run_refines f [] q s h = (refl, h)
  run_refines f (op ∷ ops) q s h =
      let now = perform-Ends f op q s h in
      let later =
        run_refines f ops (fifo (true_collections c) op q).1 (perform core c key f op s).1 now.1 in
      rw (now.0, later.0) (refl, later.1)
