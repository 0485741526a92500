-- ===== src/Views/Accepts.antt =====
-- couchbase_core/views/iterator.py: which arguments a view is made of.
use couchbase_python_client.Base.{Bool, true, false, not, ◌&&◌, String, ok, ◌≡◌, string_eq}
use couchbase_python_client.Base.Dict.{Dict}
use couchbase_python_client.Base.Value.{Value, truthy}
use couchbase_python_client.Base.Reply.{Reply}
use couchbase_python_client.Views.Query.{QueryBase}
use couchbase_python_client.Base.Emitted.{Emitted}
use couchbase_python_client.Views.View.{QueryArgument, View, query_of, reduce, given, no_params}

abbrev pub NoReduce : QueryBase → Type 0
NoReduce q = (v : Value) × (reduce q ≡ ok v) × (truthy v ≡ false)

-- The rules that the arguments of a view keep.
abbrev pub Allowed : Bool → QueryArgument → Dict String Value → Bool → QueryBase → Type 0
Allowed ephemeral argument params docs q =
    (ephemeral ≡ false)
    × ((given argument && not (no_params params)) ≡ false)
    × (query_of argument params ≡ ok q)
    × (docs ≡ true → NoReduce q)
