-- ===== src/Wrapper/Rows.antt =====
-- couchbase_core/__init__.py: `IterableWrapper` around a result that comes in pages. A generator of the wrapped
-- class holds the page that it fetched, so what is left of the page is gone with the generator.
use couchbase_python_client.Base.{
  ℕ, zero, suc, Bool, true, false, List, [], ◌∷◌, ◌++◌, if◌then◌else◌,
}

module _ (R : Type 0) where
  pub record IterableWrapper : Type 0 where
    pub done : Bool
    pub buffered_rows : List R
    -- The pages that the wrapped class has not fetched; after them it stops.
    pub pages : List (List R)

-- The rows that were drawn, whether the wrapped iterator stopped, and the pages it has left.
abbrev pub Drawn : Type 0 → Type 0
Drawn R = List R × Bool × List (List R)

module _ {R : Type 0} where
  -- `__init__`
  abbrev pub new : List (List R) → IterableWrapper R
  new pages = record { done = false; buffered_rows = []; pages = pages }

  -- The first rows of a list, and how many are wanted still.
  unfoldable pub take_rows : ℕ → List R → List R × ℕ
  take_rows zero rs = ([], zero)
  take_rows (suc n) [] = ([], suc n)
  take_rows (suc n) (r ∷ rs) = let (more, left) = take_rows n rs in (r ∷ more, left)

  abbrev pub after_page : List R → Drawn R → Drawn R
  after_page rs (more, stopped, rest) = (rs ++ more, stopped, rest)

  abbrev pub go_on : ℕ → List R → List (List R) → Drawn R → Drawn R
  go_on zero rs rest later = (rs, false, rest)
  go_on (suc n) rs rest later = after_page rs later

  -- `next(parent_iter)` for so many rows, or until it stops.
  unfoldable pub draw : ℕ → List (List R) → Drawn R
  unfolding take_rows
  draw n [] = ([], true, [])
  draw n (p ∷ ps) = let (rs, left) = take_rows n p in go_on left rs ps (draw left ps)

  abbrev pub kept : IterableWrapper R → Drawn R → IterableWrapper R
  kept w (rs, stopped, rest) = record w {
    done = stopped;
    buffered_rows = w.buffered_rows ++ rs;
    pages = rest;
  }

  abbrev pub from_parent : ℕ → List R → IterableWrapper R → List R × IterableWrapper R
  from_parent zero rs w = (rs, w)
  from_parent (suc n) rs w =
      if w.done then (rs, w) else let drawn = draw (suc n) w.pages in (rs ++ drawn.0, kept w drawn)

  -- `__iter__` for a consumer that takes so many rows and then leaves.
  unfoldable pub iterate : ℕ → IterableWrapper R → List R × IterableWrapper R
  unfolding take_rows draw
  iterate n w = let (rs, left) = take_rows n w.buffered_rows in from_parent left rs w

  unfoldable pub all_rows : List (List R) → List R
  all_rows [] = []
  all_rows (p ∷ ps) = p ++ all_rows ps

  -- `rows`, that is `list(self)`.
  unfoldable pub rows : IterableWrapper R → List R × IterableWrapper R
  unfolding all_rows
  rows w =
      if w.done
      then (w.buffered_rows, w)
      else let rs = all_rows w.pages in
        (
          w.buffered_rows ++ rs,
          record w { done = true; buffered_rows = w.buffered_rows ++ rs; pages = [] },
        )
