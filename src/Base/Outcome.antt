-- ===== src/Base/Outcome.antt =====
-- Python's exceptions as values: a call returns or raises, and an object keeps what was written to
-- it before a raise.
use mathlib.Core.Path.{◌≡◌, refl}
use mathlib.Core.Logic.{◌⊎◌, inl, inr}
use mathlib.Core.Bool.{Bool, true, false}

-- The classes that the modelled code raises; the messages are not modelled.
pub data Error : Type 0 where
  invalid_argument type_error value_error attribute_error key_error index_error runtime_error :
      Error
  missing_token already_queried n1ql_exception view_engine not_supported overflow_error : Error
  outside_model document_exists document_not_found other_couchbase unicode_error json_error
        path_not_found path_exists http_error timed_out group_not_found user_not_found
        search_index_not_found bucket_already_exists bucket_does_not_exist scope_already_exists
        scope_not_found collection_not_found collection_already_exists design_document_not_found
        query_index_not_found query_index_already_exists invalid_state queue_empty :
      Error

-- Subclasses of `CouchbaseException`.
abbrev pub is_couchbase : Error → Bool
is_couchbase type_error = false
is_couchbase value_error = false
is_couchbase attribute_error = false
is_couchbase key_error = false
is_couchbase index_error = false
is_couchbase runtime_error = false
is_couchbase overflow_error = false
is_couchbase outside_model = false
is_couchbase unicode_error = false
is_couchbase json_error = false
is_couchbase invalid_state = false
is_couchbase queue_empty = false
is_couchbase _ = true

pub data Result {ℓ} (A : Type ℓ) : Type ℓ where
  ok : A → Result A
  err : Error → Result A

abbrev pub bind {ℓ κ} : {A : Type ℓ} {B : Type κ} → Result A → (A → Result B) → Result B
bind (ok a) f = f a
bind (err e) f = err e

-- A method of an object whose fields are `S`.
abbrev pub Exec {ℓ} : Type ℓ → Type ℓ → Type ℓ
Exec S A = S → Result A × S

module _ {ℓ} {S A : Type ℓ} where
  abbrev pub pure : A → Exec S A
  pure a s = (ok a, s)

  abbrev pub raise : Error → Exec S A
  raise e s = (err e, s)

  abbrev pub lift : Result A → Exec S A
  lift r s = (r, s)

-- What follows a call that ended in a result and left an object.
abbrev pub resume {ℓ} : {S A B : Type ℓ} → Result A → S → (A → Exec S B) → Result B × S
resume (ok a) s f = f a s
resume (err e) s f = (err e, s)

infixl 5 ◌>>=◌ ◌>>◌
abbrev pub ◌>>=◌ {ℓ} : {S A B : Type ℓ} → Exec S A → (A → Exec S B) → Exec S B
◌>>=◌ m f s = resume (m s).0 (m s).1 f

abbrev pub ◌>>◌ {ℓ} : {S A B : Type ℓ} → Exec S A → Exec S B → Exec S B
m >> k = m >>= λ _. k

abbrev pub raise_if : {S : Type 0} → Bool → Error → Exec S (Unit {0})
raise_if true e = raise e
raise_if false e = pure tt

abbrev pub modify : {S : Type 0} → (S → S) → Exec S (Unit {0})
modify f s = (ok tt, f s)

-- What a call keeps on every path, a raise included, its parts keep.
module _ {ℓ κ} {S A B : Type ℓ} (P : S → Type κ) where
  after-keeps :
      (r : Result A) (s : S) (f : A → Exec S B)
      → P s
      → ((a : A) (t : S) → P t → P (f a t).1)
      → P (resume r s f).1
  after-keeps (ok a) s f h k = k a s h
  after-keeps (err e) s f h k = h

  pub >>=-keeps :
      (m : Exec S A) (f : A → Exec S B) (s : S)
      → P (m s).1
      → ((a : A) (t : S) → P t → P (f a t).1)
      → P ((m >>= f) s).1
  >>=-keeps m f s h k = after-keeps (m s).0 (m s).1 f h k

pub Result-cases {ℓ} :
    {A : Type ℓ} (r : Result A) → ((a : A) × (r ≡ ok a)) ⊎ ((e : Error) × (r ≡ err e))
Result-cases (ok a) = inl (a, refl)
Result-cases (err e) = inr (e, refl)

module _ {ℓ} {S A B : Type ℓ} where
  resume-returned :
      (r : Result A) (s : S) (f : A → Exec S B) {b : B}
      → (resume r s f).0 ≡ ok b
      → (a : A) × (r ≡ ok a) × ((f a s).0 ≡ ok b) × (resume r s f ≡ f a s)
  resume-returned (ok a) s f h = (a, refl, h, refl)
  resume-returned (err e) s f h = cc

  -- Inversion of a call that returned.
  pub >>=-returned :
      (m : Exec S A) (f : A → Exec S B) (s : S) {b : B}
      → ((m >>= f) s).0 ≡ ok b
      → (a : A) × ((m s).0 ≡ ok a) × ((f a (m s).1).0 ≡ ok b) × ((m >>= f) s ≡ f a (m s).1)
  >>=-returned m f s h = resume-returned (m s).0 (m s).1 f h
