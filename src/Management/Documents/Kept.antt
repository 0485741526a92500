-- ===== src/Management/Documents/Kept.antt =====
-- couchbase/management/views.py: what the operations of the manager do to a server that keeps design documents.
use couchbase_python_client.Base.{
  String, ◌<>◌, none, some, List, [], string_eq, ok, design_document_not_found, ◌≡◌, refl, ap, ◌∙◌,
}
use couchbase_python_client.Base.Dict.{Dict, lookup, insert, lookup-erase_self}
use couchbase_python_client.Base.Value.{Value}
use couchbase_python_client.Base.Json.{dumps}
use couchbase_python_client.Options.Forward.{Block, forward_args}
use couchbase_python_client.Exceptions.{Outcome, returned, raised, mgmt_exc_wrap}
use couchbase_python_client.Management.Documents.{
  DesignDocumentNamespace, production, development, prefix, DesignDocument, from_json, as_dict,
}
use couchbase_python_client.Management.Documents.Manager.{
  World, handled, resumed, get_design_document, upsert_design_document, publish_design_document,
  drop_design_document,
}
use couchbase_python_client.Management.Documents.Asked.{
  Keeps, Usual, not_found, get_sent, put_sent, drop_sent,
}

module _ {S : Type 0} (w : World S) (docs : S → Dict String Value) (parse : String → Value)
    (server : Keeps w docs parse) (kwargs : Block) (options : List Block) (args : Block)
    (converted : forward_args kwargs [] options ≡ ok args) (usual : Usual w args) where
  -- The document is not there.
  pub get_missing :
      (name : String) (ns : DesignDocumentNamespace) (s : S)
      → lookup ("_design/" <> prefix ns name) (docs s) ≡ none
      → get_design_document w name ns kwargs options s
        ≡ (raised design_document_not_found (some not_found), s)
  unfolding get_design_document handled mgmt_exc_wrap string_eq
  get_missing name ns s h =
      rw (converted, get_sent w docs parse server args usual ("_design/" <> prefix ns name) s, h)
        refl

  pub get_there :
      (name : String) (ns : DesignDocumentNamespace) (v : Value) (doc : DesignDocument) (s : S)
      → lookup ("_design/" <> prefix ns name) (docs s) ≡ some v
      → from_json (prefix ns name) v ≡ ok doc
      → get_design_document w name ns kwargs options s ≡ (returned doc, s)
  unfolding get_design_document handled
  get_there name ns v doc s h read =
      rw
        (
          converted,
          get_sent w docs parse server args usual ("_design/" <> prefix ns name) s,
          h,
          read,
        )
        refl

  pub upsert_done :
      (doc : DesignDocument) (ns : DesignDocumentNamespace) (ddoc : String) (s : S)
      → dumps (as_dict ns doc) ≡ ok ddoc
      → (t : S) × (upsert_design_document w doc ns kwargs options s ≡ (returned tt, t))
        × (docs t ≡ insert ("_design/" <> prefix ns doc.name) (parse ddoc) (docs s))
  unfolding upsert_design_document handled mgmt_exc_wrap
  upsert_done doc ns ddoc s fits =
      let (v, t, e, g) =
        put_sent w docs parse server args usual ("_design/" <> prefix ns doc.name) ddoc s in
      (t, rw (fits, converted, e) refl, g)

  pub published :
      (name : String) (v : Value) (doc : DesignDocument) (ddoc : String) (s : S)
      → lookup ("_design/" <> prefix development name) (docs s) ≡ some v
      → from_json (prefix development name) v ≡ ok doc
      → dumps (as_dict production doc) ≡ ok ddoc
      → (t : S) × (publish_design_document w name kwargs options s ≡ (returned tt, t))
        × (docs t ≡ insert ("_design/" <> prefix production doc.name) (parse ddoc) (docs s))
  unfolding publish_design_document handled mgmt_exc_wrap
  published name v doc ddoc s h read fits =
      let (t, e, g) = upsert_done doc production ddoc s fits in
      (
        t,
        ap
              (λ (p : Outcome DesignDocument × S).
                handled w
                  (λ _. resumed p (λ d. upsert_design_document w d production kwargs options)) s)
              (get_there name development v doc s h read)
            ∙ ap (λ p. handled w (λ _. p) s) e,
        g,
      )

  pub published_missing :
      (name : String) (s : S)
      → lookup ("_design/" <> prefix development name) (docs s) ≡ none
      → publish_design_document w name kwargs options s
        ≡ (raised design_document_not_found (some not_found), s)
  unfolding publish_design_document handled mgmt_exc_wrap string_eq
  published_missing name s h = rw (get_missing name development s h) refl

  -- A document that is dropped is not there afterwards.
  pub drop-get :
      (name : String) (ns : DesignDocumentNamespace) (v : Value) (s : S)
      → lookup ("_design/" <> prefix ns name) (docs s) ≡ some v
      → (t : S) × (drop_design_document w name ns kwargs options s ≡ (returned tt, t))
        × (get_design_document w name ns kwargs options t
            ≡ (raised design_document_not_found (some not_found), t))
  unfolding drop_design_document handled mgmt_exc_wrap
  drop-get name ns v s there =
      let path = "_design/" <> prefix ns name in
      let (r, t, e, g) = drop_sent w docs parse server args usual path v s there in
      (
        t,
        rw (converted, e) refl,
        get_missing name ns t (ap (lookup path) g ∙ lookup-erase_self path (docs s)),
      )
