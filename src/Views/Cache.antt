-- ===== src/Views/Cache.antt =====
-- couchbase_core/views/params.py: the text that `encoded` returns against the options it caches.
use couchbase_python_client.Base.{
  String, ◌≡◌, refl, ◌≢◌, Bool, false, none, some, string_eq, arith, ap,
}
use couchbase_python_client.Base.Value.{Value}
use couchbase_python_client.Views.Query.{QueryBase, QueryClass, set_common}
use couchbase_python_client.Views.Encode.{encode, options_text, encoded, with_base}
use couchbase_python_client.Views.Keeps.{IsKept, update_one-keeps}
use couchbase_python_client.Views.Update.{
  passthrough_flag, internal, attribute, set_attribute, update_one, fresh,
}

pub set_common-cached :
    (p : String) (v : Value) (u : Bool) (q : QueryBase) → (set_common p v u q).1.cached ≡ none
unfolding set_common
set_common-cached p v u q = ground arith

-- The cache is empty, or the options' text is what `_encode` makes of them now.
abbrev IsCoherent : QueryBase → Type 0
IsCoherent q = options_text q ≡ encode false q

empty-IsCoherent : (q : QueryBase) → q.cached ≡ none → IsCoherent q
unfolding options_text
empty-IsCoherent q h = ground arith

IsCoherent-IsKept : IsKept IsCoherent
unfolding options_text encode
IsCoherent-IsKept = record {
  common = λ p v u q _. empty-IsCoherent (set_common p v u q).1 (set_common-cached p v u q);
  sugar = λ d q h. h;
  flag = λ b q h. h;
}

encoded-IsCoherent : (q : QueryBase) → IsCoherent q → IsCoherent (encoded q).1
unfolding encoded options_text encode
encoded-IsCoherent q h = ground arith

-- What a caller does with an object: an assignment to one of its attributes but `passthrough`, or a
-- read of `encoded`.
pub data Use : QueryBase → QueryBase → Type 0 where
  assign :
      (k : String) (v : Value) (q : QueryBase)
      → attribute q.cls k ≢ some passthrough_flag
      → attribute q.cls k ≢ some internal
      → Use q (update_one k v q).1
  read : (q : QueryBase) → Use q (encoded q).1

pub data Uses (q : QueryBase) : QueryBase → Type 0 where
  start : Uses q q
  next : {r s : QueryBase} → Uses q r → Use r s → Uses q s

Use-IsCoherent : {q r : QueryBase} → Use q r → IsCoherent q → IsCoherent r
Use-IsCoherent (assign k v q n _) h = update_one-keeps IsCoherent IsCoherent-IsKept k v q n h
Use-IsCoherent (read q) h = encoded-IsCoherent q h

Uses-IsCoherent : {q r : QueryBase} → Uses q r → IsCoherent q → IsCoherent r
Uses-IsCoherent start h = h
Uses-IsCoherent (next us u) h = Use-IsCoherent u (Uses-IsCoherent us h)

-- However a fresh query object is used, by assignments to attributes other than `passthrough` (those
-- that raise included) and reads of `encoded` in any order, `encoded` returns the text of the options
-- that the object holds now, behind its base text.
pub encoded-fresh :
    (c : QueryClass) (passthrough unrecognized_ok : Bool) (q : QueryBase)
    → Uses (fresh c passthrough unrecognized_ok) q
    → (encoded q).0 ≡ with_base q.base_str (encode false q)
unfolding encoded
encoded-fresh c p u q us =
    ap (with_base q.base_str) (Uses-IsCoherent us (empty-IsCoherent (fresh c p u) refl))

-- An assignment to `passthrough` after a read of a text that is not empty is not seen: `encoded`
-- returns the old text.
pub encoded-passthrough :
    (q : QueryBase) (v : Value)
    → options_text q ≢ ""
    → (encoded (set_attribute passthrough_flag v (encoded q).1).1).0 ≡ (encoded q).0
unfolding encoded set_attribute options_text
encoded-passthrough q v h = ground arith
