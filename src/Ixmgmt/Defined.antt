-- ===== src/Ixmgmt/Defined.antt =====
-- couchbase/management/queries.py: the index that is created, described by its arguments.
use couchbase_python_client.Base.{
  String, Bool, true, false, ◌&&◌, string_eq, if◌then◌else◌, Result, ok, err, type_error,
  value_error, ◌≡◌, refl,
}
use couchbase_python_client.Base.Value.{
  Value, null, dict, Fields, end, field, get_field, set_field, truthy,
}
use couchbase_python_client.Ixmgmt.Index.{
  N1qlIndex, index_of, named, make, fget, fset, fdel, remove,
}
use couchbase_python_client.Ixmgmt.Definition.{mk_index_def, index_definition}

abbrev pub optional : String → Value → Fields → Fields
optional k v d = if truthy v then field k v d else d

-- The name that is sent: not that of the primary index, which is its default.
abbrev pub sent_name : Bool → Value → Fields → Fields
sent_name true v d = d
sent_name false v d = optional "name" v d

-- What a definition consists of.
abbrev pub described : Bool → Value → Value → Value → Value → Value → Value
described default bucket_name v primary fields cond = dict (
    field "keyspace_id" bucket_name (
      field "is_primary" primary
        (sent_name default v (optional "index_key" fields (optional "condition" cond end)))))

-- The errors of the arguments, by which of the name, `primary`, the fields and the condition are given.
abbrev pub refusal : Bool → Bool → Bool → Bool → Value → Result N1qlIndex
refusal false false f c v = err value_error
refusal n true true c v = err type_error
refusal true false false c v = err value_error
refusal n true false true v = err value_error
refusal n p f c v = ok (index_of v)

module _ (is_constant : Value → Bool) where
  defined :
      (bucket_name v primary fields cond : Value) (n p f c k l : Bool)
      → truthy v ≡ n
      → truthy primary ≡ p
      → truthy fields ≡ f
      → truthy cond ≡ c
      → is_constant v ≡ k
      → is_constant null ≡ l
      → index_definition is_constant bucket_name (named v) primary fields cond
        ≡ refusal n p f c (described (p && k) bucket_name v primary fields cond)
  unfolding index_definition mk_index_def make fset fget fdel get_field set_field remove string_eq
      truthy
  defined b v primary fields cond false false f c k l h1 h2 h3 h4 h5 h6 = rw (h1, h2) refl
  defined b v primary fields cond false true true c k l h1 h2 h3 h4 h5 h6 = rw (h1, h2, h3) refl
  defined b v primary fields cond true true true c k l h1 h2 h3 h4 h5 h6 = rw (h1, h2, h3) refl
  defined b v primary fields cond true false false c k l h1 h2 h3 h4 h5 h6 = rw (h1, h2, h3) refl
  defined b v primary fields cond true true false true true l h1 h2 h3 h4 h5 h6 =
      rw (h1, h2, h3, h4, h5) refl
  defined b v primary fields cond true true false true false l h1 h2 h3 h4 h5 h6 =
      rw (h1, h2, h3, h4, h5) refl
  defined b v primary fields cond false true false true k true h1 h2 h3 h4 h5 h6 =
      rw (h1, h2, h3, h4, h6) refl
  defined b v primary fields cond false true false true k false h1 h2 h3 h4 h5 h6 =
      rw (h1, h2, h3, h4, h6) refl
  defined b v primary fields cond true true false false true l h1 h2 h3 h4 h5 h6 =
      rw (h1, h2, h3, h4, h5) refl
  defined b v primary fields cond true true false false false l h1 h2 h3 h4 h5 h6 =
      rw (h1, h2, h3, h4, h5) refl
  defined b v primary fields cond false true false false true true h1 h2 h3 h4 h5 h6 =
      rw (h1, h2, h3, h4, h6) refl
  defined b v primary fields cond false true false false true false h1 h2 h3 h4 h5 h6 =
      rw (h1, h2, h3, h4, h6) refl
  defined b v primary fields cond false true false false false true h1 h2 h3 h4 h5 h6 =
      rw (h1, h2, h3, h4, h6) refl
  defined b v primary fields cond false true false false false false h1 h2 h3 h4 h5 h6 =
      rw (h1, h2, h3, h4, h6) refl
  defined b v primary fields cond true false true true k l h1 h2 h3 h4 h5 h6 =
      rw (h1, h2, h3, h4, h3) refl
  defined b v primary fields cond true false true false k l h1 h2 h3 h4 h5 h6 =
      rw (h1, h2, h3, h4, h3) refl

  -- The definition of an index by a name holds the bucket, whether it is the primary index, and the name,
  -- the fields and the condition that are given, without the name of a primary index that is the constant.
  -- It is refused, before anything is sent, exactly for a secondary index without a name or fields (a
  -- `ValueError`), and a primary index with fields (a `TypeError`) or with a condition (a `ValueError`).
  pub index_definition_lem :
      (bucket_name v primary fields cond : Value)
      → index_definition is_constant bucket_name (named v) primary fields cond
        ≡ refusal
            (truthy v)
            (truthy primary)
            (truthy fields)
            (truthy cond)
            (described (truthy primary && is_constant v) bucket_name v primary fields cond)
  index_definition_lem b v primary fields cond =
      defined b v primary fields cond (truthy v) (truthy primary) (truthy fields) (truthy cond)
        (is_constant v) (is_constant null) refl refl refl refl refl refl
