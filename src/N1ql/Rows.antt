-- ===== src/N1ql/Rows.antt =====
-- couchbase_core/n1ql.py: the rows and the metadata of a result against what the server sent.
use couchbase_python_client.Base.{
  Bool, true, false, Option, none, some, List, [], ◌∷◌, map, ◌≡◌, refl, Error, already_queried,
  subst, ◌∙◌,
}
use mathlib.Core.List.{map-append, append_assoc, append-nil}
use couchbase_python_client.Base.Value.{Value}
use couchbase_python_client.N1ql.Request.{
  Reply, page, failure, Ending, returned, raised, meta_error, Request, new, start, Iteration,
  after_rows, finish, received, drain, iterate, first_of_replies, get_single_result,
}
use couchbase_python_client.Base.Reply.{prepend, delivered}

module _ {R : Type 0} (f : Value → R) where
  -- What an iteration gives for a result: all its rows, and then the end that the metadata calls for.
  abbrev pub whole : List Value → Value → List Reply → Request f → Iteration f
  whole vs v rest q = after_rows f (map f vs) (finish f (meta_error v) (received f v rest q))

  abbrev Fits : Request f → Option (List Value × Value × List Reply) → Iteration f → Type 0
  Fits q none it = Unit
  Fits q (some (vs, v, rest)) it = it ≡ whole vs v rest q

  prepend-Fits :
      (xs : List Value) (o : Option (List Value × Value × List Reply)) (q : Request f)
      (it : Iteration f)
      → Fits q o it
      → Fits q (prepend xs o) (after_rows f (map f xs) it)
  prepend-Fits xs none q it h = tt
  prepend-Fits xs (some (ws, v, rest)) q it h = rw (h, map-append, append_assoc)

  Fits-received :
      (v : Value) (rest : List Reply) (q : Request f) (o : Option (List Value × Value × List Reply))
      (it : Iteration f)
      → Fits (received f v rest q) o it
      → Fits q o it
  Fits-received v rest q none it h = tt
  Fits-received v rest q (some _) it h = h

  drain-Fits :
      (replies : List Reply) (q : Request f) → Fits q (delivered replies) (drain f replies q)
  unfolding delivered drain
  drain-Fits [] q = tt
  drain-Fits (failure e ∷ rest) q = tt
  drain-Fits (page (r ∷ rs) done v ∷ rest) q =
      prepend-Fits (r ∷ rs) (delivered rest) q (drain f rest (received f v rest q))
        (Fits-received v rest q (delivered rest) _ (drain-Fits rest (received f v rest q)))
  drain-Fits (page [] true v ∷ rest) q = refl
  drain-Fits (page [] false v ∷ rest) q =
      Fits-received v rest q (delivered rest) _ (drain-Fits rest (received f v rest q))

  drain-delivered :
      (replies : List Reply) (q : Request f) {vs : List Value} {v : Value} {rest : List Reply}
      → delivered replies ≡ some (vs, v, rest)
      → drain f replies q ≡ whole vs v rest q
  drain-delivered replies q h = subst (λ o. Fits q o (drain f replies q)) h (drain-Fits replies q)

  -- The object after an iteration over a result whose metadata raises nothing.
  abbrev pub exhausted : Bool → Value → List Reply → Request f
  exhausted ahead v rest = record {
    started = true;
    submissions = 1;
    do_iter = false;
    meta_received = true;
    buffered_remainder = [];
    meta_lookahead = ahead;
    value = v;
    replies = rest;
  }

  module _ (ahead : Bool) (replies : List Reply) (vs : List Value) (v : Value) (rest : List Reply)
      (sent : delivered replies ≡ some (vs, v, rest)) where
    first_iteration :
        iterate f (new f ahead replies) ≡ whole vs v rest (start f (new f ahead replies))
    unfolding iterate new start
    first_iteration = drain-delivered replies (start f (new f ahead replies)) sent

    -- A first iteration over a result whose metadata raises nothing yields every row of it, in the order
    -- sent, submits the query once and reads nothing behind the page that ends the result. It then ends; a
    -- further iteration raises `AlreadyQueriedException` and asks the server for nothing.
    pub iterate_yields :
        meta_error v ≡ none
        → (iterate f (new f ahead replies) ≡ (map f vs, returned tt, exhausted ahead v rest))
          × (iterate f (exhausted ahead v rest)
              ≡ ([], raised already_queried, exhausted ahead v rest))
    unfolding finish start new iterate
    iterate_yields fine = (first_iteration ∙ rw (fine, finish) (rw append-nil), refl)

    -- Where the metadata raises, a first iteration yields every row and then raises.
    pub iterate_raises :
        {e : Error}
        → meta_error v ≡ some e
        → ((iterate f (new f ahead replies)).0 ≡ map f vs)
          × ((iterate f (new f ahead replies)).1 ≡ raised e)
    unfolding finish
    iterate_raises fault = rw first_iteration (rw (fault, finish) (append-nil _, refl))

  -- The object whose rows were read ahead.
  abbrev pub read_ahead : List Value → Value → List Reply → Request f
  read_ahead vs v rest = record (exhausted true v rest) { buffered_remainder = map f vs }

  abbrev head_of : List Value → Option R
  head_of [] = none
  head_of (w ∷ _) = some (f w)

  abbrev FirstFits : Option (List Value × Value × List Reply) → Ending (Option R) → Type 0
  FirstFits none e = Unit
  FirstFits (some (vs, v, rest)) e = meta_error v ≡ none → e ≡ returned (head_of vs)

  prepend-FirstFits :
      (r : Value) (rs : List Value) (o : Option (List Value × Value × List Reply))
      → FirstFits (prepend (r ∷ rs) o) (returned (some (f r)))
  prepend-FirstFits r rs none = tt
  prepend-FirstFits r rs (some _) = λ fine. refl

  first-FirstFits :
      (replies : List Reply) (q : Request f)
      → FirstFits (delivered replies) (first_of_replies f replies q).0
  unfolding delivered first_of_replies
  first-FirstFits [] q = tt
  first-FirstFits (failure e ∷ rest) q = tt
  first-FirstFits (page (r ∷ rs) done v ∷ rest) q = prepend-FirstFits r rs (delivered rest)
  first-FirstFits (page [] true v ∷ rest) q = λ fine. rw (fine, finish) refl
  first-FirstFits (page [] false v ∷ rest) q = first-FirstFits rest (received f v rest q)

  -- Of a result whose metadata raises nothing, `get_single_result` on a new request returns the first row,
  -- and `None` where it has no row.
  pub get_single_result-first :
      (ahead : Bool) (replies : List Reply) (vs : List Value) (v : Value) (rest : List Reply)
      → delivered replies ≡ some (vs, v, rest)
      → meta_error v ≡ none
      → (get_single_result f (new f ahead replies)).0 ≡ returned (head_of vs)
  unfolding get_single_result new
  get_single_result-first ahead replies vs v rest sent fine =
      (subst (λ o. FirstFits o (first_of_replies f replies (start f (new f ahead replies))).0) sent
          (first-FirstFits replies (start f (new f ahead replies))))
        fine
