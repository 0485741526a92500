-- ===== src/Views/Row.antt =====
-- couchbase_core/views/iterator.py: `RowProcessor` and `SpatialRowProcessor`.
use couchbase_python_client.Base.{
  String, Option, none, some, Result, ok, err, bind, key_error, type_error, attribute_error,
}
use couchbase_python_client.Base.Value.{Value, null, dict, get_field}

-- `row.get(k)`
abbrev pub null_or : Option Value → Value
null_or none = null
null_or (some v) = v

abbrev pub key_or_error : Option Value → Result Value
key_or_error none = err key_error
key_or_error (some v) = ok v

-- `row[k]`; only a dict has keys that are texts.
unfoldable pub item : String → Value → Result Value
unfolding get_field
item k (dict d) = key_or_error (get_field k d)
item k _ = err type_error

unfoldable pub get : String → Value → Result Value
unfolding get_field
get k (dict d) = ok (null_or (get_field k d))
get k _ = err attribute_error

-- `get_row_doc`
unfoldable pub get_row_doc : Value → Result Value
unfolding get
get_row_doc row_json = get "__DOCRESULT__" row_json

module _ {R : Type 0} where
  -- One row of `RowProcessor.handle_rows`, with its `rowclass`.
  unfoldable pub view_row : (Value → Value → Value → Value → R) → Value → Result R
  unfolding item get get_row_doc
  view_row rowclass row = bind (item "key" row) λ key. bind (item "value" row) λ value.
      bind (get "id" row) λ id. bind (get_row_doc row) λ doc. ok (rowclass key value id doc)

  -- One row of `SpatialRowProcessor.handle_rows`.
  unfoldable pub spatial_row : (Value → Value → Value → Value → Value → R) → Value → Result R
  unfolding item get get_row_doc
  spatial_row rowclass row = bind (item "key" row) λ key. bind (item "value" row) λ value.
      bind (get "geometry" row) λ geometry.
        bind (get "id" row)
          λ id. bind (get_row_doc row) λ doc. ok (rowclass key value geometry id doc)
