-- ===== src/Ixmgmt/Property.antt =====
-- couchbase_core/_ixmgmt.py: the properties of an index read and write its raw JSON.
use couchbase_python_client.Base.{
  String, none, some, string_eq, ok, bind, ◌≡◌, ◌≢◌, refl, ap, arith,
}
use couchbase_python_client.Base.Value.{Value, null, dict, Fields, end, field, get_field, set_field}
use couchbase_python_client.Ixmgmt.Index.{index_of, fget, fset, fdel, remove, present}

get_field-set_field : (k : String) (v : Value) (d : Fields) → get_field k (set_field k v d) ≡ some v
unfolding get_field set_field
get_field-set_field k v end = ground arith
get_field-set_field k v (field j w d) = let ih = get_field-set_field k v d in ground arith

get_field-set_field_other :
    (j k : String) (v : Value) (d : Fields) → j ≢ k → get_field j (set_field k v d) ≡ get_field j d
unfolding get_field set_field
get_field-set_field_other j k v end n = ground arith
get_field-set_field_other j k v (field i w d) n =
    let ih = get_field-set_field_other j k v d n in ground arith

get_field-remove : (k : String) (d : Fields) → get_field k (remove k d) ≡ none
unfolding get_field remove
get_field-remove k end = refl
get_field-remove k (field j w d) = let ih = get_field-remove k d in ground arith

get_field-remove_other :
    (j k : String) (d : Fields) → j ≢ k → get_field j (remove k d) ≡ get_field j d
unfolding get_field remove
get_field-remove_other j k end n = refl
get_field-remove_other j k (field i w d) n = let ih = get_field-remove_other j k d n in ground arith

-- Writing a property of an index makes it read back as what was written and leaves every other property;
-- deleting one makes it read as `None` and leaves every other property.
pub fget-fset :
    (j k : String) (v : Value) (d : Fields)
    → j ≢ k
    → (bind (fset k v (index_of (dict d))) (fget k) ≡ ok v)
      × (bind (fset k v (index_of (dict d))) (fget j) ≡ fget j (index_of (dict d)))
      × (bind (fdel k (index_of (dict d))) (fget k) ≡ ok null)
      × (bind (fdel k (index_of (dict d))) (fget j) ≡ fget j (index_of (dict d)))
unfolding fget fset fdel
fget-fset j k v d other = (
  ap (λ o. ok (present o)) (get_field-set_field k v d),
  ap (λ o. ok (present o)) (get_field-set_field_other j k v d other),
  ap (λ o. ok (present o)) (get_field-remove k d),
  ap (λ o. ok (present o)) (get_field-remove_other j k d other),
)
