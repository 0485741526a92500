-- ===== src/Ixmgmt/Definition.antt =====
-- couchbase_core/bucketmanager.py and couchbase/management/queries.py: the definition of an index that is created.
use couchbase_python_client.Base.{
  String, Bool, true, false, ◌&&◌, none, some, List, [], ◌∷◌, string_eq, contains, if◌then◌else◌,
  Result, ok, err, bind, type_error, value_error,
}
use couchbase_python_client.Base.Dict.{lookup, insert}
use couchbase_python_client.Base.Value.{Value, null, bool, list, nil, truthy}
use couchbase_python_client.Ixmgmt.Index.{
  N1qlIndex, make, make_copy, fget, fset, fdel, IndexLike, index, named,
}
use couchbase_python_client.Ixmgmt.Request.{Options}

-- The name, where there is one.
abbrev pub with_name : Value → Value → N1qlIndex → Result N1qlIndex
with_name ix primary info =
    if truthy ix then fset "name" ix info else if truthy primary then ok info else err value_error

-- `_mk_index_def`
unfoldable pub mk_index_def : Value → IndexLike → Value → Result N1qlIndex
unfolding make make_copy fset truthy
mk_index_def bucket_name (index ix) primary = make_copy ix
mk_index_def bucket_name (named ix) primary = bind (make null) λ i.
    bind (fset "keyspace_id" bucket_name i)
      λ j. bind (fset "is_primary" primary j) λ info. with_name ix primary info

abbrev pub argument : String → Value → Options → Value
argument k v d = elim (lookup k d) [ none ↦ v | some w ↦ w ]

abbrev pub only_arguments : List String → Options → Bool
only_arguments ks [] = true
only_arguments ks ((k, v) ∷ d) = contains ks k && only_arguments ks d

-- `fields or []`
abbrev pub or_empty : Value → Value
or_empty v = if truthy v then v else list nil

abbrev pub fields_fit : Bool → Bool → Result (Unit {0})
fields_fit true true = err type_error
fields_fit false false = err value_error
fields_fit _ _ = ok tt

abbrev pub with_fields : Value → N1qlIndex → Result N1qlIndex
with_fields fields info = if truthy fields then fset "index_key" fields info else ok info

abbrev pub with_condition : Value → Value → N1qlIndex → Result N1qlIndex
with_condition cond primary info =
    if truthy cond
    then (if truthy primary then err value_error else fset "condition" cond info)
    else ok info

-- `info.name is N1QL_PRIMARY_INDEX` is the identity of two texts, which a value does not show: a parameter.
module _ (is_constant : Value → Bool) where
  abbrev pub without_name : Value → N1qlIndex → Result N1qlIndex
  without_name primary info =
      if truthy primary
      then bind (fget "name" info) (λ v. if is_constant v then fdel "name" info else ok info)
      else ok info

  -- The index that `_n1ql_index_create` makes of its arguments.
  unfoldable pub index_definition : Value → IndexLike → Value → Value → Value → Result N1qlIndex
  unfolding mk_index_def truthy fget fset fdel
  index_definition bucket_name ix primary fields cond =
      bind (mk_index_def bucket_name ix primary) λ info.
        bind (fields_fit (truthy primary) (truthy fields)) λ _.
          bind (with_fields (or_empty fields) info)
            λ i. bind (without_name primary i) λ j. with_condition cond primary j

-- `timeout`, unless it is nothing.
abbrev pub with_timeout : Value → Options → Options
with_timeout v d = if truthy v then insert "timeout" v d else d

-- The options that `_n1ql_index_create` passes on.
unfoldable pub create_options : Options → Options
unfolding lookup insert truthy
create_options kwargs = with_timeout (argument "timeout" null kwargs) (
    ("ignore_exists", argument "ignore_exists" (bool false) kwargs)
    ∷ ("defer", argument "defer" (bool false) kwargs)
    ∷ [])
