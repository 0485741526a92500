-- ===== src/Management/Documents/Tests.antt =====
-- A server that keeps design documents as a dict, and the theorems at concrete data.
use couchbase_python_client.Base.{
  String, ◌<>◌, true, false, Option, none, some, [], ◌∷◌, string_eq, nat_eq, ◌==◌, if◌then◌else◌,
  Result, ok, err, type_error, unicode_error, ◌≡◌, ◌↔◌, inr, refl,
}
use couchbase_python_client.Base.Decimal.{codes}
use couchbase_python_client.Base.Dict.{Dict, lookup, insert, erase}
use couchbase_python_client.Base.Value.{Value, null, bool, str, get_field, truthy}
use couchbase_python_client.Base.Json.{dumps}
use couchbase_python_client.Options.Forward.{Argument, plain, Block, forward_args}
use couchbase_python_client.Exceptions.{Outcome, returned, raised}
use couchbase_python_client.Management.Documents.{
  production, development, prefix, unprefix, lstrip, DesignDocument, View, view_of, document,
  from_json, as_dict,
}
use couchbase_python_client.Management.Documents.Manager.{
  World, get_design_document, upsert_design_document, publish_design_document,
}
use couchbase_python_client.Management.Documents.Names.{begins_in, loses, unprefix-prefix}
use couchbase_python_client.Management.Documents.Asked.{Keeps, found}
use couchbase_python_client.Management.Documents.Published.{read_back, upsert-get, publish_stores}

abbrev by_name : View
by_name = record { map = str "function (doc) { emit(doc.name); }"; reduce = null }

abbrev events : DesignDocument
events = record { name = "events"; views = ("by_name", by_name) ∷ [] }

abbrev users : DesignDocument
users = record { name = "users"; views = ("by_name", by_name) ∷ [] }

abbrev Store : Type 0
Store = Dict String Value

abbrev put : (String → Value) → String → Option Argument → Store → Outcome Value × Store
put parse path (some (plain (str text))) s = (returned null, insert path (parse text) s)
put parse path _ s = (raised type_error none, s)

abbrev by_method :
    (String → Value) → String → Block → Option Argument → Store → Outcome Value × Store
by_method parse path args (some (plain null)) s = (found (lookup path s), s)
by_method parse path args (some (plain (bool true))) s = put parse path (lookup "post_data" args) s
by_method parse path args _ s = (returned null, erase path s)

abbrev by_path : (String → Value) → Block → Option Argument → Store → Outcome Value × Store
by_path parse args (some (plain (str path))) s = by_method parse path args (lookup "method" args) s
by_path parse args _ s = (raised type_error none, s)

abbrev store : (String → Value) → World Store
store parse = record {
  http = λ admin args s. by_path parse args (lookup "path" args) s;
  constant = λ k. if k == "LCB_HTTP_METHOD_GET" then null else bool (k == "LCB_HTTP_METHOD_PUT");
  decode = λ b. err unicode_error;
}

store-Keeps : (parse : String → Value) → Keeps (store parse) (λ s. s) parse
unfolding string_eq
store-Keeps parse = record {
  gets = λ args path s (h, k). rw (h, k) refl;
  puts = λ args path text s (h, k) p. (null, insert path (parse text) s, rw (h, k, p) refl, refl);
  deletes = λ args path v s (h, k) p. (null, erase path s, rw (h, k) refl, refl);
}

abbrev text_of : Result String → String
text_of (ok s) = s
text_of (err e) = ""

-- "events" becomes "nts".
unprefix-prefix_example :
    (unprefix ("_design/" <> prefix development "events") ≡ unprefix (prefix development "events"))
    × ((unprefix (prefix development "events") ≡ "events") ↔ (loses development "events" ≡ false))
unprefix-prefix_example = unprefix-prefix development "events"

lost : unprefix (prefix development "events") ≡ "nts"
unfolding unprefix lstrip prefix nat_eq
lost = refl

abbrev users_text : String
unfolding dumps as_dict
users_text = text_of (dumps (as_dict development users))

abbrev reads_users : String → Value
unfolding as_dict
reads_users _ = as_dict development users

upsert-get_example :
    (t : Store) × (upsert_design_document (store reads_users) users development [] [] []
      ≡ (returned tt, t))
    × (get_design_document (store reads_users) "users" development [] [] t
        ≡ (returned (read_back development users), t))
    × ((read_back development users ≡ users) ↔ (loses development "users" ≡ false))
unfolding forward_args dumps as_dict truthy lookup string_eq
upsert-get_example =
    upsert-get (store reads_users) (λ s. s) reads_users (store-Keeps reads_users) [] [] [] refl
      (refl, refl) users development users_text [] ((refl, inr refl), tt) refl refl

abbrev before : Store
unfolding as_dict
before = ("_design/dev_events", as_dict development events) ∷ []

abbrev events_text : String
unfolding dumps as_dict
events_text = text_of (dumps (as_dict production (document "dev_events" (events.views))))

publish_stores_example :
    (t : Store) × (publish_design_document (store str) "events" [] [] before ≡ (returned tt, t))
    × (t ≡ insert ("_design/" <> lstrip (codes "_dev") "events") (str events_text) before)
    × (lookup ("_design/" <> "events") t ≡ (
        if begins_in (codes "_dev") "events"
        then lookup ("_design/" <> "events") before
        else some (str events_text)))
unfolding forward_args dumps as_dict document from_json view_of prefix lookup string_eq truthy
    nat_eq get_field
publish_stores_example =
    publish_stores (store str) (λ s. s) str (store-Keeps str) [] [] [] refl (refl, refl) "events"
      (as_dict development events) (document "dev_events" events.views) events_text before refl refl
      refl refl
