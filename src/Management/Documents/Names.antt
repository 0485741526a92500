-- ===== src/Management/Documents/Names.antt =====
-- couchbase/management/views.py: the names of design documents.
use Prim.Native.Char.{code}
use Prim.Native.String.{[] as empty_text, ◌∷◌ as ◌::◌, count}
use text.Mathlib.Text.{starts_with}
use text.Mathlib.TextEquality.{starts_with_iff}
use text.Mathlib.TextLemmas.{nil-append, cons-append, length-cons}
use couchbase_python_client.Base.{
  ℕ, ◌≤◌, ◌<◌, String, ◌<>◌, Bool, true, false, ◌&&◌, ◌||◌, List, contains, nat_eq, ◌≡◌, ◌≢◌, ◌↔◌,
  inl, inr, refl, ap, ◌∙◌, subst, arith, Bool-cases,
}
use couchbase_python_client.Base.Decimal.{codes}
use couchbase_python_client.Management.Documents.{
  DesignDocumentNamespace, production, development, prefix, lstrip, unprefix,
}

abbrev pub begins_in : List ℕ → String → Bool
begins_in cs empty_text = false
begins_in cs (c :: s) = contains cs (code c)

abbrev pub all_in : List ℕ → String → Bool
all_in cs empty_text = true
all_in cs (c :: s) = contains cs (code c) && all_in cs s

both_true : (a b : Bool) → (a && b) ≡ true → (a ≡ true) × (b ≡ true)
both_true true b h = (refl, h)
both_true false b h = cc

lstrip-append : (cs : List ℕ) (p s : String) → all_in cs p ≡ true → lstrip cs (p <> s) ≡ lstrip cs s
unfolding lstrip
lstrip-append cs empty_text s h = rw nil-append refl
lstrip-append cs (c :: p) s h =
    let (here, there) = both_true (contains cs (code c)) (all_in cs p) h in
    rw (cons-append, here) (lstrip-append cs p s there)

pub lstrip_kept : (cs : List ℕ) (s : String) → begins_in cs s ≡ false → lstrip cs s ≡ s
unfolding lstrip
lstrip_kept cs empty_text h = refl
lstrip_kept cs (c :: s) h = rw h refl

lstrip_shorter : (cs : List ℕ) (s : String) → count (lstrip cs s) ≤ count s
unfolding lstrip
lstrip_shorter cs empty_text = ground arith
lstrip_shorter cs (c :: s) =
    let ih = lstrip_shorter cs s in
    let e = length-cons c s in
    elim (Bool-cases (contains cs (code c))) [
      | inl b ↦ rw b (ground arith)
      | inr b ↦ rw b (ground arith)
    ]

lstrip_loses : (cs : List ℕ) (s : String) → begins_in cs s ≡ true → count (lstrip cs s) < count s
unfolding lstrip
lstrip_loses cs empty_text h = absurd (let g = h in cc)
lstrip_loses cs (c :: s) h =
    let ih = lstrip_shorter cs s in let e = length-cons c s in rw h (ground arith)

shorter_differs : (s t : String) → count s < count t → s ≢ t
shorter_differs s t h = λ e. let k = ap count e in ground arith

strip_keeps : (cs : List ℕ) (s : String) → (lstrip cs s ≡ s) ↔ (begins_in cs s ≡ false)
strip_keeps cs s = elim (Bool-cases (begins_in cs s)) [
  | inl b ↦ rw b (
    (λ e. absurd (shorter_differs (lstrip cs s) s (lstrip_loses cs s b) e)),
    (λ e. absurd (let g = e in cc)),
  )
  | inr b ↦ rw b ((λ _. refl), (λ _. lstrip_kept cs s b))
]

-- Two strips keep a text exactly if it begins with no character of either.
strips_keep :
    (cs ds : List ℕ) (s : String)
    → (lstrip ds (lstrip cs s) ≡ s) ↔ ((begins_in cs s || begins_in ds s) ≡ false)
strips_keep cs ds s = elim (Bool-cases (begins_in cs s)) [
  | inl b ↦ rw b (
      let h = lstrip_loses cs s b in
      let k = lstrip_shorter ds (lstrip cs s) in
      (
        (λ e. absurd (shorter_differs (lstrip ds (lstrip cs s)) s (ground arith) e)),
        (λ e. absurd (let g = e in cc)),
      ))
  | inr b ↦ rw (b, lstrip_kept cs s b) (strip_keeps ds s)
]

unprefix_dev : (n : String) → unprefix ("dev_" <> n) ≡ lstrip (codes "_dev") n
unfolding unprefix lstrip nat_eq
unprefix_dev n = rw (cons-append, cons-append, cons-append, cons-append, nil-append) refl

unprefix_design : (n : String) → unprefix ("_design/" <> n) ≡ unprefix n
unfolding unprefix nat_eq
unprefix_design n = ap (lstrip (codes "_dev")) (lstrip-append (codes "_design/") "_design/" n refl)

prefix_new : (n : String) → starts_with n "dev_" ≡ false → prefix development n ≡ "dev_" <> n
unfolding prefix
prefix_new n h = rw h refl

prefix_had : (n : String) → starts_with n "dev_" ≡ true → prefix development n ≡ n
unfolding prefix
prefix_had n h = rw h refl

pub prefix_production : (n : String) → prefix production n ≡ n
unfolding prefix
prefix_production n = elim (Bool-cases (starts_with n "dev_")) [
  | inl h ↦ rw h refl
  | inr h ↦ rw h refl
]

-- A name that begins with `dev_` begins with `d`.
dev_begins : (n : String) → starts_with n "dev_" ≡ true → begins_in (codes "_dev") n ≡ true
unfolding nat_eq
dev_begins n h =
    let (t, e) = (starts_with_iff n "dev_").0 h in
    subst (λ s. begins_in (codes "_dev") s ≡ true) e (rw cons-append refl)

or_true : (a : Bool) → (a || true) ≡ true
or_true true = refl
or_true false = refl

-- The first character of a name that `unprefix` takes for a part of a prefix.
abbrev pub loses : DesignDocumentNamespace → String → Bool
loses production n = begins_in (codes "_design/") n || begins_in (codes "_dev") n
loses development n = begins_in (codes "_dev") n

-- The name that is read back.
pub unprefix-prefix_new :
    (n : String)
    → starts_with n "dev_" ≡ false
    → unprefix (prefix development n) ≡ lstrip (codes "_dev") n
unprefix-prefix_new n h = ap unprefix (prefix_new n h) ∙ unprefix_dev n

-- `unprefix` reads the name of a design document back from the name with its prefix, with `_design/` in
-- front of it or not, exactly if the name is empty or does not begin with one of the characters that are
-- stripped: those of `_dev` for a development document, and those of `_design/` too for a production
-- document.
pub unprefix-prefix :
    (ns : DesignDocumentNamespace) (n : String)
    → (unprefix ("_design/" <> prefix ns n) ≡ unprefix (prefix ns n))
      × ((unprefix (prefix ns n) ≡ n) ↔ (loses ns n ≡ false))
unprefix-prefix production n = (
  unprefix_design (prefix production n),
  rw (prefix_production n) (unfold unprefix in strips_keep (codes "_design/") (codes "_dev") n),
)
unprefix-prefix development n = (
  unprefix_design (prefix development n),
  elim (Bool-cases (starts_with n "dev_")) [
    | inl h ↦
        rw (prefix_had n h, dev_begins n h)
          (subst (λ b. (unprefix n ≡ n) ↔ (b ≡ false))
            (ap (λ b. begins_in (codes "_design/") n || b) (dev_begins n h)
              ∙ or_true (begins_in (codes "_design/") n))
            (unfold unprefix in strips_keep (codes "_design/") (codes "_dev") n))
    | inr h ↦ rw (unprefix-prefix_new n h) (strip_keeps (codes "_dev") n)
  ],
)

pub lstrip_differs : (cs : List ℕ) (s : String) → begins_in cs s ≡ true → lstrip cs s ≢ s
lstrip_differs cs s h = shorter_differs (lstrip cs s) s (lstrip_loses cs s h)
