-- ===== src/Management/Documents/Published.antt =====
-- couchbase/management/views.py: documents that are stored and read back, and publication.
use text.Mathlib.Text.{starts_with}
use text.Mathlib.TextLemmas.{append_cancel_left}
use couchbase_python_client.Base.{
  String, ◌<>◌, Bool, true, false, ◌||◌, none, some, List, [], ◌∷◌, string_eq, if◌then◌else◌,
  Result, ok, err, bind, type_error, design_document_not_found, ◌≡◌, ◌↔◌, ◌⊎◌, inl, inr, refl, ap,
  sym, ◌∙◌, All,
}
use couchbase_python_client.Base.Decimal.{codes}
use couchbase_python_client.Base.Dict.{Dict, lookup, insert, lookup-insert_self, lookup-insert_ne}
use couchbase_python_client.Base.Value.{Value, null, dict, get_field, truthy}
use couchbase_python_client.Base.Json.{dumps}
use couchbase_python_client.Options.Forward.{Block, forward_args}
use couchbase_python_client.Exceptions.{returned, raised}
use couchbase_python_client.Management.Documents.{
  DesignDocumentNamespace, production, development, prefix, unprefix, lstrip, DesignDocument, View,
  view_of, view_dict, only_keys, views_of, view_fields, document, has_field, views_entry, from_json,
  as_dict,
}
use couchbase_python_client.Management.Documents.Manager.{
  World, get_design_document, upsert_design_document, publish_design_document,
}
use couchbase_python_client.Management.Documents.Names.{
  begins_in, loses, lstrip_kept, lstrip_differs, unprefix-prefix, unprefix-prefix_new,
  prefix_production,
}
use couchbase_python_client.Management.Documents.Asked.{Keeps, Usual, not_found}
use couchbase_python_client.Management.Documents.Kept.{
  upsert_done, get_there, published, published_missing,
}

-- A view with a map, and with a reduce that is not empty or is `None`.
abbrev pub Proper : View → Type 0
Proper v = (truthy v.map ≡ true) × ((truthy v.reduce ≡ true) ⊎ (v.reduce ≡ null))

view_of-view_dict : (v : View) → Proper v → view_of (view_dict v) ≡ ok v
unfolding view_of view_dict only_keys get_field string_eq truthy
view_of-view_dict v (m, inl r) = rw (m, r) refl
view_of-view_dict v (m, inr r) = rw (m, r) refl

views_of-view_fields :
    (views : Dict String View)
    → All (λ e. Proper e.1) views
    → views_of (view_fields views) ≡ ok views
unfolding views_of view_fields
views_of-view_fields [] h = refl
views_of-view_fields ((k, v) ∷ views) h =
    rw (view_of-view_dict v h.0, views_of-view_fields views h.1) refl

from_json-as_dict :
    (name : String) (ns : DesignDocumentNamespace) (doc : DesignDocument)
    → All (λ e. Proper e.1) doc.views
    → from_json name (as_dict ns doc) ≡ ok (document name doc.views)
unfolding from_json as_dict get_field string_eq
from_json-as_dict name ns doc h = rw (views_of-view_fields doc.views h) refl

ok_path : {d e : DesignDocument} → ok d ≡ ok e → d.name ≡ e.name
ok_path h = cc

made-name :
    (n : String) (b : Bool) (r : Result (Dict String View)) (doc : DesignDocument)
    → (if b then err type_error else bind r (λ views. ok (document n views))) ≡ ok doc
    → doc.name ≡ unprefix n
unfolding document
made-name n true r doc h = absurd (let g = h in cc)
made-name n false (err e) doc h = absurd (let g = h in cc)
made-name n false (ok views) doc h = ok_path (sym h)

from_json-name :
    (n : String) (v : Value) (doc : DesignDocument) → from_json n v ≡ ok doc → doc.name ≡ unprefix n
unfolding from_json
from_json-name n (dict d) doc h =
    made-name n (has_field "name" d || has_field "cls" d) (views_entry (get_field "views" d)) doc h
from_json-name n _ doc h = absurd (let g = h in cc)

-- A document under the name that is read back for it.
abbrev pub read_back : DesignDocumentNamespace → DesignDocument → DesignDocument
read_back ns doc = record doc { name = unprefix (prefix ns doc.name) }

same_name :
    (ns : DesignDocumentNamespace) (doc : DesignDocument)
    → (read_back ns doc ≡ doc) ↔ (unprefix (prefix ns doc.name) ≡ doc.name)
same_name ns doc =
    ((λ e. ap (λ (d : DesignDocument). d.name) e), (λ e. ap (λ n. record doc { name = n }) e))

module _ {S : Type 0} (w : World S) (docs : S → Dict String Value) (parse : String → Value)
    (server : Keeps w docs parse) (kwargs : Block) (options : List Block) (args : Block)
    (converted : forward_args kwargs [] options ≡ ok args) (usual : Usual w args) where
  -- On a server that keeps design documents, a document that is upserted and then got is the document with
  -- all its views, under the name that `unprefix` reads back; it is the document itself exactly if its name
  -- does not begin with a character that is taken for a part of a prefix. Every view has a map that is not
  -- empty, and no reduce or one that is not empty; the document is JSON that the server reads back.
  pub upsert-get :
      (doc : DesignDocument) (ns : DesignDocumentNamespace) (ddoc : String) (s : S)
      → All (λ e. Proper e.1) doc.views
      → dumps (as_dict ns doc) ≡ ok ddoc
      → parse ddoc ≡ as_dict ns doc
      → (t : S) × (upsert_design_document w doc ns kwargs options s ≡ (returned tt, t))
        × (get_design_document w doc.name ns kwargs options t ≡ (returned (read_back ns doc), t))
        × ((read_back ns doc ≡ doc) ↔ (loses ns doc.name ≡ false))
  unfolding document
  upsert-get doc ns ddoc s proper fits reads =
      let path = "_design/" <> prefix ns doc.name in
      let (t, e, g) =
        upsert_done w docs parse server kwargs options args converted usual doc ns ddoc s fits in
      let named = (unprefix-prefix ns doc.name).1 in
      let same = same_name ns doc in
      (
        t,
        e,
        get_there w docs parse server kwargs options args converted usual doc.name ns
            (as_dict ns doc) (read_back ns doc) t
            (ap (lookup path) g ∙ lookup-insert_self path (parse ddoc) (docs s) ∙ ap some reads)
            (from_json-as_dict (prefix ns doc.name) ns doc proper),
        ((λ h. named.0 (same.0 h)), (λ h. same.1 (named.1 h))),
      )

  -- Publication of `name`, by the entry of `name` itself afterwards.
  published_entry :
      (name : String) (v : Value) (d : Dict String Value) (b : Bool)
      → begins_in (codes "_dev") name ≡ b
      → lookup ("_design/" <> name) (insert ("_design/" <> lstrip (codes "_dev") name) v d)
        ≡ (if b then lookup ("_design/" <> name) d else some v)
  published_entry name v d true h =
      lookup-insert_ne ("_design/" <> name) ("_design/" <> lstrip (codes "_dev") name) v d (λ e.
        lstrip_differs (codes "_dev") name h
          (sym (append_cancel_left "_design/" name (lstrip (codes "_dev") name) e)))
  published_entry name v d false h =
      rw (lstrip_kept (codes "_dev") name h) (lookup-insert_self ("_design/" <> name) v d)

  -- On a server that keeps design documents, publishing a name that does not begin with `dev_` stores the
  -- views of the development document as the production document whose name is the given one without the
  -- leading characters of `_dev`, and changes no other document. So the production document of the name is
  -- the new one only if the name begins with none of these characters, and else stays what it was.
  pub publish_stores :
      (name : String) (v : Value) (doc : DesignDocument) (ddoc : String) (s : S)
      → starts_with name "dev_" ≡ false
      → lookup ("_design/" <> prefix development name) (docs s) ≡ some v
      → from_json (prefix development name) v ≡ ok doc
      → dumps (as_dict production doc) ≡ ok ddoc
      → (t : S) × (publish_design_document w name kwargs options s ≡ (returned tt, t))
        × (docs t ≡ insert ("_design/" <> lstrip (codes "_dev") name) (parse ddoc) (docs s))
        × (lookup ("_design/" <> name) (docs t) ≡ (
            if begins_in (codes "_dev") name
            then lookup ("_design/" <> name) (docs s)
            else some (parse ddoc)))
  publish_stores name v doc ddoc s plain h read fits =
      let (t, e, g) =
        published w docs parse server kwargs options args converted usual name v doc ddoc s h read
          fits in
      let g' =
        g
        ∙ ap (λ n. insert ("_design/" <> n) (parse ddoc) (docs s))
            (prefix_production doc.name
              ∙ (from_json-name (prefix development name) v doc read
                  ∙ unprefix-prefix_new name plain)) in
      (
        t,
        e,
        g',
        ap (lookup ("_design/" <> name)) g'
            ∙ published_entry name (parse ddoc) (docs s) (begins_in (codes "_dev") name) refl,
      )

  pub publish_missing :
      (name : String) (s : S)
      → lookup ("_design/" <> prefix development name) (docs s) ≡ none
      → publish_design_document w name kwargs options s
        ≡ (raised design_document_not_found (some not_found), s)
  publish_missing name s h =
      published_missing w docs parse server kwargs options args converted usual name s h
