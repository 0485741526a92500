-- ===== src/Views/Results.antt =====
-- couchbase_core/views/iterator.py: the rows and the errors of a view against what the server sent.
use couchbase_python_client.Base.{
  ℕ, ◌+◌, true, false, Option, none, some, List, [], ◌∷◌, ◌++◌, length, Result, string_eq, ◌≡◌,
  refl, sym, ap, subst, ◌∙◌, arith,
}
use mathlib.Core.List.{append_assoc}
use couchbase_python_client.Base.Value.{Value}
use couchbase_python_client.Base.Reply.{Reply, page, failure, raised, delivered, prepend}
use couchbase_python_client.Base.Emitted.{Emitted, each, then_page, each-append}
use couchbase_python_client.Views.View.{
  View, handle_meta, Iteration, after_rows, finish, after_page, received, drain,
}

length-append : (xs ys : List Value) → length (xs ++ ys) ≡ length xs + length ys
length-append [] ys = omega arith
length-append (x ∷ xs) ys = rw (length-append xs ys) omega arith

plus_assoc : (k m n : ℕ) → k + m + n ≡ k + (m + n)
plus_assoc k m n = omega arith

pub zero_plus : (n : ℕ) → 0 + n ≡ n
zero_plus n = omega arith

module _ {R : Type 0} where
  after_rows_twice :
      (rs ss : List R) (it : Iteration R)
      → after_rows rs (after_rows ss it) ≡ after_rows (rs ++ ss) it
  after_rows_twice rs ss (ts, ending, w) = rw append_assoc

  received_twice :
      (m n : ℕ) (more rest : List Reply) (w : View R)
      → received n rest (received m more w) ≡ received (m + n) rest w
  received_twice m n more rest w =
      ap (λ k. record w { rows_returned = k; replies = rest }) (plus_assoc w.rows_returned m n)

  -- An iteration over rows that the processor takes to these, and after them the metadata.
  abbrev pub Gives : Emitted R → ℕ → Value → List Reply → View R → Iteration R → Type 0
  Gives (rs, none) n v rest w it = it ≡ after_rows rs (finish (handle_meta v (received n rest w)))
  Gives (rs, some e) n v rest w it = (it.0 ≡ rs) × (it.1 ≡ raised e)

  Gives-after_page :
      (a b : Emitted R) (m n : ℕ) (v : Value) (rest more : List Reply) (w : View R)
      (it : Iteration R)
      → Gives b n v rest (received m more w) it
      → Gives (then_page a b) (m + n) v rest w (after_page a (received m more w) it)
  Gives-after_page (rs, none) (ss, none) m n v rest more w it h =
      ap (after_rows rs) h
      ∙ after_rows_twice rs ss (finish (handle_meta v (received n rest (received m more w))))
      ∙ ap (λ u. after_rows (rs ++ ss) (finish (handle_meta v u))) (received_twice m n more rest w)
  Gives-after_page (rs, none) (ss, some e) m n v rest more w it h = (ap (λ x. rs ++ x) h.0, h.1)
  Gives-after_page (rs, some e) b m n v rest more w it h = (refl, refl)

  module _ (f : Value → Result R) where
    abbrev pub Fits : View R → Option (List Value × Value × List Reply) → Iteration R → Type 0
    Fits w none it = Unit
    Fits w (some (vs, v, rest)) it = Gives (each f vs) (length vs) v rest w it

    Fits-page :
        (xs : List Value) (more : List Reply) (w : View R)
        (o : Option (List Value × Value × List Reply)) (it : Iteration R)
        → Fits (received (length xs) more w) o it
        → Fits w (prepend xs o) (after_page (each f xs) (received (length xs) more w) it)
    Fits-page xs more w none it h = tt
    Fits-page xs more w (some (ys, v, rest)) it h =
        rw (each-append f xs ys, length-append xs ys)
          (Gives-after_page (each f xs) (each f ys) (length xs) (length ys) v rest more w it h)

    Fits-empty :
        (more : List Reply) (w : View R) (o : Option (List Value × Value × List Reply))
        (it : Iteration R)
        → Fits (received 0 more w) o it
        → Fits w o it
    Fits-empty more w none it h = tt
    Fits-empty more w (some (ys, v, rest)) it h =
        subst (λ n. Gives (each f ys) n v rest w it) (zero_plus (length ys))
          (Gives-after_page ([], none) (each f ys) 0 (length ys) v rest more w it h)

    pub drain-Fits :
        (replies : List Reply) (w : View R)
        → w.row_processor ≡ each f
        → Fits w (delivered replies) (drain replies w)
    unfolding delivered drain each
    drain-Fits [] w p = tt
    drain-Fits (failure e ∷ rest) w p = tt
    drain-Fits (page (r ∷ rs) done v ∷ rest) w p =
        let w' = received (length (r ∷ rs)) rest w in
        subst
          (λ (g : List Value → Emitted R).
            Fits w (prepend (r ∷ rs) (delivered rest)) (after_page (g (r ∷ rs)) w' (drain rest w')))
          (sym p)
          (Fits-page (r ∷ rs) rest w (delivered rest) (drain rest w') (drain-Fits rest w' p))
    drain-Fits (page [] true v ∷ rest) w p = refl
    drain-Fits (page [] false v ∷ rest) w p =
        Fits-empty rest w (delivered rest) (drain rest (received 0 rest w))
          (drain-Fits rest (received 0 rest w) p)
