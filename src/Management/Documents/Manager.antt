-- ===== src/Management/Documents/Manager.antt =====
-- couchbase/management/views.py: `ViewIndexManager`, which stores design documents.
use couchbase_python_client.Base.{
  ℕ, String, ◌<>◌, Bool, true, false, Option, none, some, List, [], string_eq, nat_eq,
  if◌then◌else◌, Result, ok, err, type_error, outside_model,
}
use couchbase_python_client.Base.Dict.{lookup, insert, has}
use couchbase_python_client.Base.Value.{Value, str}
use couchbase_python_client.Base.Json.{dumps}
use couchbase_python_client.Options.Forward.{Argument, plain, Block, forward_args}
use couchbase_python_client.Exceptions.{Outcome, returned, raised, view_errors, mgmt_exc_wrap}
use couchbase_python_client.Management.Documents.{
  DesignDocumentNamespace, prefix, DesignDocument, from_json, as_dict, all_documents, production,
  development,
}

-- The two buckets with the server behind them, the one for administration or the other, and the constants of the C
-- extension.
pub record World (S : Type 0) : Type 0 where
  pub http : Bool → Block → S → Outcome Value × S
  pub constant : String → Value
  pub decode : List ℕ → Result String

-- A method, by how it ends and the state after it.
abbrev pub Method : Type 0 → Type 0 → Type 0
Method S A = S → Outcome A × S

abbrev pub of_result : {A : Type 0} → Result A → Outcome A
of_result (ok a) = returned a
of_result (err e) = raised e none

module _ {S : Type 0} where
  abbrev pub lifted : {A : Type 0} → Result A → Method S A
  lifted r s = (of_result r, s)

  abbrev pub resumed : {A B : Type 0} → Outcome A × S → (A → Method S B) → Outcome B × S
  resumed (returned a, s) k = k a s
  resumed (raised e x, s) k = (raised e x, s)

  infixl 5 ◌>->◌
  abbrev pub ◌>->◌ : {A B : Type 0} → Method S A → (A → Method S B) → Method S B
  ◌>->◌ m k s = resumed (m s) k

abbrev pub text_argument : String → Argument
text_argument s = plain (str s)

module _ {S : Type 0} (w : World S) where
  abbrev pub method_or_get : Option Argument → Argument
  method_or_get none = plain (w.constant "LCB_HTTP_METHOD_GET")
  method_or_get (some m) = m

  -- The arguments that `_http_request` makes.
  unfoldable pub request_args : Bool → Block → Block
  unfolding insert lookup
  request_args admin_port kwargs =
      let typed =
        insert "type"
          (plain
            (w.constant (if admin_port then "LCB_HTTP_TYPE_MANAGEMENT" else "LCB_HTTP_TYPE_VIEW")))
          kwargs in
      let formatted =
        insert "response_format" (plain (w.constant "FMT_JSON"))
          (insert "content_type" (text_argument "application/json") typed) in
      insert "method" (method_or_get (lookup "method" formatted)) formatted

  -- `_http_request(False, **kwargs)`
  unfoldable pub view_request : Block → Method S Value
  unfolding request_args lookup
  view_request kwargs s =
      if has "admin_port" kwargs
      then (raised type_error none, s)
      else w.http false (request_args false kwargs) s

  -- `_http_request(**kwargs)`; an option that sets its argument is outside the model.
  unfoldable pub admin_request : Block → Method S Value
  unfolding request_args lookup
  admin_request kwargs s =
      if has "admin_port" kwargs
      then (raised outside_model none, s)
      else w.http true (request_args true kwargs) s

  -- A method under `ViewErrorHandler`.
  unfoldable pub handled : {A : Type 0} → Method S A → Method S A
  unfolding mgmt_exc_wrap
  handled m s = (mgmt_exc_wrap w.decode view_errors (m s).0, (m s).1)

  unfoldable pub get_design_document :
      String → DesignDocumentNamespace → Block → List Block → Method S DesignDocument
  unfolding handled forward_args prefix insert view_request from_json
  get_design_document design_doc_name ns kwargs options = handled (
      lifted (forward_args kwargs [] options) >-> λ args.
      view_request (insert "path" (text_argument ("_design/" <> prefix ns design_doc_name)) args)
      >-> λ v. lifted (from_json (prefix ns design_doc_name) v))

  unfoldable pub get_all_design_documents :
      String → DesignDocumentNamespace → Block → List Block → Method S (List DesignDocument)
  unfolding handled forward_args insert admin_request all_documents
  get_all_design_documents bucketname ns kwargs options = handled (
      lifted (forward_args kwargs [] options) >-> λ args.
      admin_request
        (insert "path" (text_argument ("pools/default/buckets/" <> (bucketname <> "/ddocs"))) args)
      >-> λ v. lifted (all_documents ns v))

  unfoldable pub upsert_design_document :
      DesignDocument → DesignDocumentNamespace → Block → List Block → Method S (Unit {0})
  unfolding handled forward_args prefix insert view_request as_dict dumps
  upsert_design_document doc ns kwargs options = handled (
      lifted (dumps (as_dict ns doc)) >-> λ ddoc.
      lifted (forward_args kwargs [] options) >-> λ args.
      view_request (
        insert "post_data" (text_argument ddoc) (
          insert "method" (plain (w.constant "LCB_HTTP_METHOD_PUT"))
            (insert "path" (text_argument ("_design/" <> prefix ns doc.name)) args)))
      >-> λ _. lifted (ok tt))

  unfoldable pub drop_design_document :
      String → DesignDocumentNamespace → Block → List Block → Method S (Unit {0})
  unfolding handled forward_args prefix insert view_request
  drop_design_document design_doc_name ns kwargs options = handled (
      lifted (forward_args kwargs [] options) >-> λ args.
      view_request (
        insert "path" (text_argument ("_design/" <> prefix ns design_doc_name))
          (insert "method" (plain (w.constant "LCB_HTTP_METHOD_DELETE")) args))
      >-> λ _. lifted (ok tt))

  unfoldable pub publish_design_document : String → Block → List Block → Method S (Unit {0})
  unfolding handled get_design_document upsert_design_document
  publish_design_document design_doc_name kwargs options = handled (
      get_design_document design_doc_name development kwargs options >-> λ doc.
      upsert_design_document doc production kwargs options)
