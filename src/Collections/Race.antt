-- ===== src/Collections/Race.antt =====
-- Two clients in `queue_pop` of couchbase/collection.py, each of which reads before either removes.
use couchbase_python_client.Base.{String, Result, Exec}
use couchbase_python_client.Base.Decimal.{negsuc}
use couchbase_python_client.Base.Value.{Value}
use couchbase_python_client.Collections.{Collection, Core}
use couchbase_python_client.Collections.Structures.{list_get, list_remove}
use couchbase_python_client.Collections.Queues.{peeked}
use couchbase_python_client.Collections.Passed.{address}
use couchbase_python_client.Collections.Served.{Serves, Contents}

module _ {S : Type 0} (core : Core S) (c : Collection) (key : String) {view : S → Contents}
    (served : Serves core c key view) where
  abbrev pub read : S → Result Value × S
  read = list_get core c key (negsuc 0) (address c)

  -- The rest of a round, from what `list_get` gave and the state that the others have left since.
  abbrev pub rest_of_round : Exec S Value → Result Value × S → Result Value × S
  rest_of_round again r = peeked (list_remove core c key (negsuc 0) (address c)) again r
