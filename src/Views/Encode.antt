-- ===== src/Views/Encode.antt =====
-- couchbase_core/views/params.py: a query as text. `_encoded` caches the options' text.
use couchbase_python_client.Base.{
  String, ◌<>◌, Bool, true, false, ◌||◌, ◌&&◌, not, none, some, List, [], ◌∷◌, ◌++◌, ◌==◌,
  string_eq, if◌then◌else◌, map,
}
use couchbase_python_client.Base.Dict.{Dict, lookup}
use couchbase_python_client.Base.Quote.{quote, join}
use couchbase_python_client.Views.Query.{QueryBase}

abbrev pub pair_text : String → String → String
pair_text k v = k <> ("=" <> v)

abbrev pub real_pair : Bool → String × String → String
real_pair passthrough (k, v) = if passthrough then pair_text k v else pair_text (quote k) (quote v)

-- The first loop of `_encode`.
unfoldable pub real_pairs : Bool → Bool → Dict String String → List String
real_pairs omit_keys passthrough [] = []
real_pairs omit_keys passthrough ((k, v) ∷ d) =
    let rest = real_pairs omit_keys passthrough d in
    if omit_keys && k == "keys" then rest else real_pair passthrough (k, v) ∷ rest

-- The second loop.
unfoldable pub extra_pairs : Dict String String → List String
extra_pairs = map λ (k, v). pair_text k v

-- `_encode`
unfoldable pub encode : Bool → QueryBase → String
unfolding real_pairs extra_pairs
encode omit_keys q =
    join "&" (real_pairs omit_keys q.passthrough q.real_options ++ extra_pairs q.extra_options)

-- `if not self._encoded`: an empty text is computed again.
unfoldable pub options_text : QueryBase → String
unfolding encode
options_text q = elim q.cached [
  | none ↦ encode false q
  | some s ↦ if s == "" then encode false q else s
]

abbrev pub with_base : String → String → String
with_base base s = if base == "" then s else join "&" (base ∷ s ∷ [])

-- `encoded`: the text, and the object with its cache filled.
unfoldable pub encoded : QueryBase → String × QueryBase
unfolding options_text
encoded q = let s = options_text q in (with_base q.base_str s, record q { cached = some s })

-- `_long_query_encoded`: the URI's part and the body to post.
unfoldable pub long_query_encoded : QueryBase → String × String
unfolding encode
long_query_encoded q = (
  encode true q,
  elim (lookup "keys" q.real_options) [ none ↦ "{}" | some klist ↦ "{\"keys\":" <> (klist <> "}") ],
)

-- `has_blob`, as a truth value.
unfoldable pub has_blob : QueryBase → Bool
has_blob q = not (q.base_str == "") || (q.unrecognized_ok || q.passthrough)
