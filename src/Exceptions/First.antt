-- ===== src/Exceptions/First.antt =====
-- What ErrorMapper of couchbase/exceptions.py makes of an exception.
use couchbase_python_client.Base.{
  ℕ, String, Bool, true, false, Option, none, some, List, [], ◌∷◌, Result, ok, err, Error,
  is_couchbase, All, if◌then◌else◌, ◌≡◌, refl, ◌⊎◌, inl, inr,
}
use couchbase_python_client.Base.Value.{Value}
use couchbase_python_client.Exceptions.{
  Extra, Outcome, raised, Pattern, matches, Line, first_match, line_match, line_end, mapped,
  error_text, mgmt_exc_wrap,
}

abbrev Exists : {A : Type 0} → (A → Type 0) → List A → Type 0
Exists P [] = ⊥
Exists P (x ∷ xs) = P x ⊎ Exists P xs

-- A pattern of a line matches, and stands for `t`.
abbrev pub Matched : Value → Error → List (Pattern × Error) → Type 0
Matched v t ps = Exists (λ pe. (matches pe.0 v ≡ true) × (pe.1 ≡ t)) ps

abbrev pub Unmatched : Value → List (Pattern × Error) → Type 0
Unmatched v ps = All (λ pe. matches pe.0 v ≡ false) ps

abbrev Found : List (Pattern × Error) → Value → Option Error → Type 0
Found ps v none = Unmatched v ps
Found ps v (some t) = Matched v t ps

found :
    (p : Pattern) (e : Error) (ps : List (Pattern × Error)) (v : Value) (b : Bool)
    (o : Option Error)
    → matches p v ≡ b
    → Found ps v o
    → Found ((p, e) ∷ ps) v (if b then some e else o)
found p e ps v true o h r = inl (h, refl)
found p e ps v false none h r = (h, r)
found p e ps v false (some t) h r = inr r

first_match-Found : (ps : List (Pattern × Error)) (v : Value) → Found ps v (first_match ps v)
unfolding first_match
first_match-Found [] v = tt
first_match-Found ((p, e) ∷ ps) v =
    found p e ps v (matches p v) (first_match ps v) refl (first_match-Found ps v)

module _ (decode : List ℕ → Result String) where
  -- The text of the error, where there is one.
  abbrev pub Told : Option Extra → Value → Type 0
  Told x v = (y : Extra) × (x ≡ some y) × (error_text decode y.value ≡ ok v)

  -- The text is bytes that are not UTF-8.
  abbrev pub Garbled : Option Extra → Error → Type 0
  Garbled x u = (y : Extra) × (x ≡ some y) × (error_text decode y.value ≡ err u)

  abbrev View : List (Pattern × Error) → Option Extra → Result (Option Error) → Type 0
  View ps x (ok none) = (x ≡ none) ⊎ ((v : Value) × Told x v × Unmatched v ps)
  View ps x (ok (some t)) = (v : Value) × Told x v × Matched v t ps
  View ps x (err u) = Garbled x u

  by_found :
      (ps : List (Pattern × Error)) (y : Extra) (v : Value) (o : Option Error)
      → error_text decode y.value ≡ ok v
      → Found ps v o
      → View ps (some y) (ok o)
  by_found ps y v none h r = inr (v, (y, refl, h), r)
  by_found ps y v (some t) h r = (v, (y, refl, h), r)

  by_text :
      (ps : List (Pattern × Error)) (y : Extra) (r : Result Value)
      → error_text decode y.value ≡ r
      → View ps (some y) (elim r [ err e ↦ err e | ok v ↦ ok (first_match ps v) ])
  by_text ps y (err u) h = (y, refl, h)
  by_text ps y (ok v) h = by_found ps y v (first_match ps v) h (first_match-Found ps v)

  line_match-View :
      (ps : List (Pattern × Error)) (x : Option Extra) → View ps x (line_match decode ps x)
  unfolding line_match
  line_match-View ps none = inl refl
  line_match-View ps (some y) = by_text ps y (error_text decode y.value) refl

  -- A line for the class has a pattern that matches, and it stands for `t`.
  abbrev pub Explained : Error → Option Extra → Error → List Line → Type 0
  Explained e x t ls = Exists (λ l. (l.0 e ≡ true) × ((v : Value) × Told x v × Matched v t l.1)) ls

  -- No line for the class has a pattern that matches.
  abbrev pub Silent : Error → Option Extra → List Line → Type 0
  Silent e x ls =
      All (λ l. (l.0 e ≡ false) ⊎ ((x ≡ none) ⊎ ((v : Value) × Told x v × Unmatched v l.1))) ls

  abbrev pub Becomes : {A : Type 0} → Error → Option Extra → List Line → Outcome A → Type 0
  Becomes e x ls o =
      ((o ≡ raised e x) × Silent e x ls)
      ⊎ (((t : Error) × (o ≡ raised t x) × Explained e x t ls)
          ⊎ ((u : Error) × (o ≡ raised u none) × Garbled x u))

  passed_on :
      {A : Type 0} (e : Error) (x : Option Extra) (l : Line) (ls : List Line) (o : Outcome A)
      → (l.0 e ≡ false) ⊎ ((x ≡ none) ⊎ ((v : Value) × Told x v × Unmatched v l.1))
      → Becomes e x ls o
      → Becomes e x (l ∷ ls) o
  passed_on e x l ls o quiet (inl (h, s)) = inl (h, (quiet, s))
  passed_on e x l ls o quiet (inr (inl (t, h, s))) = inr (inl (t, h, inr s))
  passed_on e x l ls o quiet (inr (inr g)) = inr (inr g)

  line_end-Becomes :
      {A : Type 0} (e : Error) (x : Option Extra) (l : Line) (ls : List Line)
      (r : Result (Option Error)) (o : Outcome A)
      → l.0 e ≡ true
      → View l.1 x r
      → Becomes e x ls o
      → Becomes e x (l ∷ ls) (line_end decode r x o)
  line_end-Becomes e x l ls (ok none) o a view b = passed_on e x l ls o (inr view) b
  line_end-Becomes e x l ls (ok (some t)) o a view b = inr (inl (t, refl, inl (a, view)))
  line_end-Becomes e x l ls (err u) o a view b = inr (inr (u, refl, view))

  by_applies :
      {A : Type 0} (e : Error) (x : Option Extra) (l : Line) (ls : List Line) (b : Bool)
      (o : Outcome A)
      → l.0 e ≡ b
      → Becomes e x ls o
      → Becomes e x (l ∷ ls) (if b then line_end decode (line_match decode l.1 x) x o else o)
  by_applies e x l ls true o a r =
      line_end-Becomes e x l ls (line_match decode l.1 x) o a (line_match-View l.1 x) r
  by_applies e x l ls false o a r = passed_on e x l ls o (inl a) r

  mapped-Becomes :
      {A : Type 0} (ls : List Line) (e : Error) (x : Option Extra)
      → Becomes {A = A} e x ls (mapped decode ls e x)
  unfolding mapped
  mapped-Becomes [] e x = inl (refl, tt)
  mapped-Becomes (l ∷ ls) e x =
      by_applies e x l ls (l.0 e) (mapped decode ls e x) refl (mapped-Becomes ls e x)

  -- A management call that raises a `CouchbaseException` under an `ErrorMapper` raises the class of a pattern that
  -- matches the error of the server's body, in a line for the class of the exception, with the same body; it raises
  -- the first exception only if no line for its class has such a pattern; else the body is bytes that are not UTF-8,
  -- and it raises what decoding them raises.
  pub mgmt_exc_wrap-Becomes :
      {A : Type 0} (ls : List Line) (e : Error) (x : Option Extra)
      → is_couchbase e ≡ true
      → Becomes {A = A} e x ls (mgmt_exc_wrap decode ls (raised e x))
  unfolding mgmt_exc_wrap
  mgmt_exc_wrap-Becomes ls e x c = rw c (mapped-Becomes ls e x)
