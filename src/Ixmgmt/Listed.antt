-- ===== src/Ixmgmt/Listed.antt =====
-- couchbase_core/_ixmgmt.py: what a request gives for what the server sent.
use couchbase_python_client.Base.{
  Bool, true, false, Option, none, some, List, [], ◌∷◌, ◌++◌, if◌then◌else◌, Error, document_exists,
  document_not_found, Result, ok, ◌≡◌, refl, sym, ap, subst, ◌∙◌, String,
}
use mathlib.Core.List.{append-nil}
use couchbase_python_client.Base.Value.{Value}
use couchbase_python_client.Base.Reply.{Reply, page, failure, Ending, returned, raised}
use couchbase_python_client.Base.Emitted.{Emitted, each, then_page, each-append}
use couchbase_python_client.Ixmgmt.Index.{N1qlIndex, make}
use couchbase_python_client.Ixmgmt.Request.{
  Request, ignored, Iteration, after_page, received, drain, iterate, start, sent_with, payload,
  loop,
}

-- How a stream of answers ends: with the page that is done, or with an exception of the server.
pub data Close : Type 0 where
  complete : Close
  refused : Error → Close

abbrev prepend :
    List Value → Option (List Value × Close × List Reply) → Option (List Value × Close × List Reply)
prepend vs none = none
prepend vs (some (ws, c, rest)) = some (vs ++ ws, c, rest)

-- The rows that the server sends, up to the end of the stream, how that is, and the answers after it.
unfoldable pub streamed : List Reply → Option (List Value × Close × List Reply)
streamed [] = none
streamed (failure e ∷ rest) = some ([], refused e, rest)
streamed (page rows true v ∷ rest) = some (rows, complete, rest)
streamed (page rows false v ∷ rest) = prepend rows (streamed rest)

-- An existing index is no error for a request that ignores those, a missing one for one that ignores these.
abbrev pub ending_of : Bool → Bool → Close → Ending (Unit {0})
ending_of exists missing complete = returned tt
ending_of exists missing (refused document_exists) =
    if exists then returned tt else raised document_exists
ending_of exists missing (refused document_not_found) =
    if missing then returned tt else raised document_not_found
ending_of exists missing (refused e) = raised e

abbrev pub is_complete : Close → Bool
is_complete complete = true
is_complete (refused e) = false

refused_lem :
    (q : Request) (e : Error)
    → (if ignored q e then returned tt else raised e)
      ≡ ending_of q.ignore_exists q.ignore_missing (refused e)
unfolding ignored
refused_lem q document_exists = refl
refused_lem q document_not_found = refl
refused_lem q _ = refl

abbrev Gives : Emitted N1qlIndex → Close → List Reply → Request → Iteration → Type 0
Gives (ixs, none) c rest q it =
    it ≡ (ixs, ending_of q.ignore_exists q.ignore_missing c, received (is_complete c) rest q)
Gives (ixs, some e) c rest q it = (it.0 ≡ ixs) × (it.1 ≡ raised e)

abbrev Fits : Request → Option (List Value × Close × List Reply) → Iteration → Type 0
Fits q none it = Unit
Fits q (some (vs, c, rest)) it = Gives (each make vs) c rest q it

Gives-after_page :
    (a b : Emitted N1qlIndex) (c : Close) (rest more : List Reply) (q : Request) (it : Iteration)
    → Gives b c rest (received false more q) it
    → Gives (then_page a b) c rest q (after_page a (received false more q) it)
Gives-after_page (xs, none) (ys, none) c rest more q it h =
    ap (λ (u : Iteration). after_page (xs, none) (received false more q) u) h
Gives-after_page (xs, none) (ys, some e) c rest more q it h = (ap (λ ws. xs ++ ws) h.0, h.1)
Gives-after_page (xs, some e) b c rest more q it h = (refl, refl)

Gives-last :
    (a : Emitted N1qlIndex) (rest : List Reply) (q : Request)
    → Gives a complete rest q
        (after_page a (received true rest q) ([], returned tt, received true rest q))
Gives-last (xs, none) rest q = rw append-nil refl
Gives-last (xs, some e) rest q = (refl, refl)

Fits-page :
    (xs : List Value) (more : List Reply) (q : Request)
    (o : Option (List Value × Close × List Reply)) (it : Iteration)
    → Fits (received false more q) o it
    → Fits q (prepend xs o) (after_page (each make xs) (received false more q) it)
Fits-page xs more q none it h = tt
Fits-page xs more q (some (ys, c, rest)) it h =
    subst (λ a. Gives a c rest q (after_page (each make xs) (received false more q) it))
      (sym (each-append make xs ys))
      (Gives-after_page (each make xs) (each make ys) c rest more q it h)

drain-Fits :
    (replies : List Reply) (q : Request)
    → q.done ≡ false
    → Fits q (streamed replies) (drain replies q)
unfolding streamed drain each
drain-Fits [] q h = tt
drain-Fits (failure e ∷ rest) q h =
    ap (λ (w : Ending (Unit {0})). ([], w, record q { replies = rest })) (refused_lem q e)
    ∙ ap
        (λ (d : Bool). (
          [],
          ending_of q.ignore_exists q.ignore_missing (refused e),
          record q { done = d; replies = rest },
        ))
        h
drain-Fits (page rows true v ∷ rest) q h = Gives-last (each make rows) rest q
drain-Fits (page rows false v ∷ rest) q h =
    Fits-page rows rest q (streamed rest) (drain rest (received false rest q))
      (drain-Fits rest (received false rest q) refl)

abbrev pub sent_once : List String → Request → Request
sent_once texts q = record q { started = true; sent = q.sent ++ ((texts, q.options) ∷ []) }

module _ (q : Request) (unstarted : q.started ≡ false) (unread : q.done ≡ false)
    (texts : List String) (fits : payload q.cmd q.index ≡ ok texts) (vs : List Value) (c : Close)
    (rest : List Reply) (sent : streamed q.replies ≡ some (vs, c, rest)) where
  iterate-drain : iterate q ≡ drain q.replies (sent_once texts q)
  unfolding iterate start
  iterate-drain =
      ap (λ (b : Bool). loop (if b then (ok tt, q) else sent_with (payload q.cmd q.index) q))
        unstarted
      ∙ ap (λ (r : Result (List String)). loop (sent_with r q)) fits
      ∙ ap
          (λ (d : Bool).
            if d then ([], returned tt, sent_once texts q) else drain q.replies (sent_once texts q))
          unread

  iterate-Fits : Fits (sent_once texts q) (some (vs, c, rest)) (iterate q)
  iterate-Fits = rw iterate-drain (
      subst (λ o. Fits (sent_once texts q) o (drain q.replies (sent_once texts q))) sent
        (drain-Fits q.replies (sent_once texts q) unread))

  -- A request that was not sent yet, for which the server sends rows that indexes are made of, sends its
  -- indexes as JSON once, with its options, and yields an index for every row of the server up to the page
  -- that is done, rows of that page included; it then ends. Where the server refuses, it yields the rows
  -- before, and ends normally if it ignores this error, else raises it.
  pub iterate_indexes :
      (ixs : List N1qlIndex)
      → each make vs ≡ (ixs, none)
      → iterate q ≡ (
        ixs,
        ending_of q.ignore_exists q.ignore_missing c,
        received (is_complete c) rest (sent_once texts q),
      )
  iterate_indexes ixs rows =
      subst (λ a. Gives a c rest (sent_once texts q) (iterate q)) rows iterate-Fits
