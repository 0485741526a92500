-- ===== src/Subdoc/Tests.antt =====
-- The theorems at concrete data.
use couchbase_python_client.Base.Value.{Value, str, list, cons, nil}

abbrev paths : Value
paths = list (cons (str "name") (cons (str "mail") nil))
