-- ===== src/Views/Keeps.antt =====
-- couchbase_core/views/params.py: what `_set_common` keeps, the other assignments keep too.
use couchbase_python_client.Base.{
  String, refl, ◌≢◌, Bool, true, false, some, ◌>>◌, ◌∙◌, ap, >>=-keeps, string_eq, Option-cases,
  arith, inl, inr,
}
use couchbase_python_client.Base.Dict.{Dict, insert}
use couchbase_python_client.Base.Value.{Value, unspec, list, tuple, nil, cons}
use couchbase_python_client.Views.Query.{
  QueryBase, set_common, set_range_common, set_ends, set_range_items, set_sugar,
}
use couchbase_python_client.Views.Update.{
  Attribute, passthrough_flag, unrecognized_flag, read_only, internal, prop, range, attribute,
  set_attribute, update_one,
}

-- A property of the object that does not look at what the caller assigned or at the mode for unknown
-- names, and that `_set_common` keeps.
pub record IsKept {κ} (P : QueryBase → Type κ) : Type κ where
  pub common :
      (p : String) (v : Value) (user : Bool) (q : QueryBase) → P q → P (set_common p v user q).1
  pub sugar : (d : Dict String Value) (q : QueryBase) → P q → P (record q { user_options = d })
  pub flag : (b : Bool) (q : QueryBase) → P q → P (record q { unrecognized_ok = b })

module _ {κ} (P : QueryBase → Type κ) (kept : IsKept P) where
  set_ends-keeps :
      (s b e : String) (x y v : Value) (q : QueryBase) → P q → P (set_ends s b e x y v q).1
  unfolding set_ends
  set_ends-keeps s b e x y v q h =
      >>=-keeps P (set_common b x false) (λ _. set_common e y false >> set_sugar s v) q
        (kept.common b x false q h)
        λ _ t ht.
          >>=-keeps P (set_common e y false) (λ _. set_sugar s v) t (kept.common e y false t ht)
            λ _ r hr. kept.sugar (insert s v r.user_options) r hr

  set_range_items-keeps :
      (s b e : String) (v : Value) (q : QueryBase) → P q → P (set_range_items s b e v q).1
  unfolding set_range_items
  set_range_items-keeps s b e (list (cons x nil)) q h = set_ends-keeps s b e x unspec _ q h
  set_range_items-keeps s b e (list (cons x (cons y nil))) q h = set_ends-keeps s b e x y _ q h
  set_range_items-keeps s b e (tuple (cons x (cons y nil))) q h = set_ends-keeps s b e x y _ q h
  set_range_items-keeps s b e _ q h = h

  pub set_range_common-keeps :
      (s b e : String) (v : Value) (q : QueryBase) → P q → P (set_range_common s b e v q).1
  unfolding set_range_common
  set_range_common-keeps s b e v q h =
      ground
        (arith, set_ends-keeps s b e unspec unspec unspec q h, set_range_items-keeps s b e v q h)

  set_attribute-keeps :
      (a : Attribute) (v : Value) (q : QueryBase)
      → a ≢ passthrough_flag
      → P q
      → P (set_attribute a v q).1
  unfolding set_attribute
  set_attribute-keeps (prop p) v q n h = kept.common p v true q h
  set_attribute-keeps (range s b e) v q n h = set_range_common-keeps s b e v q h
  set_attribute-keeps passthrough_flag v q n h = absurd (n refl)
  set_attribute-keeps unrecognized_flag v q n h = kept.flag _ q h
  set_attribute-keeps read_only v q n h = h
  set_attribute-keeps internal v q n h = h

  pub update_one-keeps :
      (k : String) (v : Value) (q : QueryBase)
      → attribute q.cls k ≢ some passthrough_flag
      → P q
      → P (update_one k v q).1
  unfolding update_one
  update_one-keeps k v q n h = elim (Option-cases (attribute q.cls k)) [
    | inl e ↦ rw (e, update_one) (ground (arith, kept.common k v true q h))
    | inr (a, e) ↦ rw (e, update_one) (set_attribute-keeps a v q (λ p. n (e ∙ ap some p)) h)
  ]
