-- ===== src/Management/Documents/Asked.antt =====
-- couchbase/management/views.py: a server that keeps design documents, and what it is asked.
use couchbase_python_client.Base.{
  String, true, false, Option, none, some, string_eq, if◌then◌else◌, http_error, type_error, ◌≡◌,
  refl, ap, ◌∙◌,
}
use couchbase_python_client.Base.Dict.{
  Dict, lookup, insert, erase, lookup-insert, lookup-insert_self,
}
use couchbase_python_client.Base.Value.{Value, str, dict, end, field}
use couchbase_python_client.Options.Forward.{Argument, plain, Block}
use couchbase_python_client.Exceptions.{Extra, Outcome, returned, raised}
use couchbase_python_client.Management.Documents.Manager.{
  World, text_argument, request_args, view_request, method_or_get,
}

-- What the server tells where it has no document.
abbrev pub not_found : Extra
not_found = record {
  value = dict (field "error" (str "not_found") (field "reason" (str "missing") end));
  status = 404;
}

abbrev pub found : Option Value → Outcome Value
found none = raised http_error (some not_found)
found (some v) = returned v

module _ {S : Type 0} (w : World S) where
  -- The arguments of a request that its answer depends on.
  abbrev pub Asks : String → String → Block → Type 0
  Asks method path args =
      (lookup "path" args ≡ some (text_argument path))
      × (lookup "method" args ≡ some (plain (w.constant method)))

  -- The documented REST interface for design documents, where `docs` are the documents by path and `parse` is how the
  -- server reads JSON.
  pub record Keeps (docs : S → Dict String Value) (parse : String → Value) : Type 0 where
    pub gets :
        (args : Block) (path : String) (s : S)
        → Asks "LCB_HTTP_METHOD_GET" path args
        → w.http false args s ≡ (found (lookup path (docs s)), s)
    pub puts :
        (args : Block) (path text : String) (s : S)
        → Asks "LCB_HTTP_METHOD_PUT" path args
        → lookup "post_data" args ≡ some (text_argument text)
        → (v : Value) × (t : S) × (w.http false args s ≡ (returned v, t))
          × (docs t ≡ insert path (parse text) (docs s))
    pub deletes :
        (args : Block) (path : String) (v : Value) (s : S)
        → Asks "LCB_HTTP_METHOD_DELETE" path args
        → lookup path (docs s) ≡ some v
        → (v : Value) × (t : S) × (w.http false args s ≡ (returned v, t))
          × (docs t ≡ erase path (docs s))

  -- The options do not say how the request is sent.
  abbrev pub Usual : Block → Type 0
  Usual args = (lookup "admin_port" args ≡ none) × (lookup "method" args ≡ none)

  asked_path : (d : Block) → lookup "path" (request_args w false d) ≡ lookup "path" d
  unfolding request_args string_eq
  asked_path d = rw (lookup-insert, lookup-insert, lookup-insert, lookup-insert) refl

  asked_data : (d : Block) → lookup "post_data" (request_args w false d) ≡ lookup "post_data" d
  unfolding request_args string_eq
  asked_data d = rw (lookup-insert, lookup-insert, lookup-insert, lookup-insert) refl

  asked_method :
      (d : Block)
      → lookup "method" (request_args w false d) ≡ some (method_or_get w (lookup "method" d))
  unfolding request_args string_eq
  asked_method d = rw (lookup-insert, lookup-insert, lookup-insert, lookup-insert) refl

  sent_lem :
      (d : Block) (s : S)
      → lookup "admin_port" d ≡ none
      → view_request w d s ≡ w.http false (request_args w false d) s
  unfolding view_request
  sent_lem d s h =
      ap
        (λ (o : Option Argument).
          if (elim o [ none ↦ false | some _ ↦ true ])
          then (raised type_error none, s)
          else w.http false (request_args w false d) s)
        h

  module _ (docs : S → Dict String Value) (parse : String → Value) (server : Keeps docs parse)
      (args : Block) (usual : Usual args) where
    pub get_sent :
        (path : String) (s : S)
        → view_request w (insert "path" (text_argument path) args) s
          ≡ (found (lookup path (docs s)), s)
    unfolding string_eq
    get_sent path s =
        let d = insert "path" (text_argument path) args in
        sent_lem d s (lookup-insert "admin_port" "path" (text_argument path) args ∙ usual.0)
        ∙ server.gets (request_args w false d) path s (
          asked_path d ∙ lookup-insert_self "path" (text_argument path) args,
          asked_method d
              ∙ ap (λ o. some (method_or_get w o))
                  (lookup-insert "method" "path" (text_argument path) args ∙ usual.1),
        )

    pub put_sent :
        (path ddoc : String) (s : S)
        → (v : Value) × (t : S) × (view_request w
              (insert "post_data" (text_argument ddoc) (
                insert "method"
                  (plain (w.constant "LCB_HTTP_METHOD_PUT"))
                  (insert "path" (text_argument path) args)))
              s
            ≡ (returned v, t))
          × (docs t ≡ insert path (parse ddoc) (docs s))
    unfolding string_eq
    put_sent path ddoc s =
        let placed = insert "path" (text_argument path) args in
        let put = plain (w.constant "LCB_HTTP_METHOD_PUT") in
        let chosen = insert "method" put placed in
        let d = insert "post_data" (text_argument ddoc) chosen in
        let (v, t, e, g) =
          server.puts (request_args w false d) path ddoc s
            (
              asked_path d
                  ∙ lookup-insert "path" "post_data" (text_argument ddoc) chosen
                  ∙ lookup-insert "path" "method" put placed
                  ∙ lookup-insert_self "path" (text_argument path) args,
              asked_method d
                  ∙ ap (λ o. some (method_or_get w o))
                      (lookup-insert "method" "post_data" (text_argument ddoc) chosen
                        ∙ lookup-insert_self "method" put placed),
            )
            (asked_data d ∙ lookup-insert_self "post_data" (text_argument ddoc) chosen) in
        (
          v,
          t,
          sent_lem d s (
                lookup-insert "admin_port" "post_data" (text_argument ddoc) chosen
                ∙ lookup-insert "admin_port" "method" put placed
                ∙ lookup-insert "admin_port" "path" (text_argument path) args
                ∙ usual.0)
              ∙ e,
          g,
        )

    pub drop_sent :
        (path : String) (v : Value) (s : S)
        → lookup path (docs s) ≡ some v
        → (v : Value) × (t : S) × (view_request w
              (insert "path"
                (text_argument path)
                (insert "method" (plain (w.constant "LCB_HTTP_METHOD_DELETE")) args))
              s
            ≡ (returned v, t))
          × (docs t ≡ erase path (docs s))
    unfolding string_eq
    drop_sent path v s there =
        let delete = plain (w.constant "LCB_HTTP_METHOD_DELETE") in
        let chosen = insert "method" delete args in
        let d = insert "path" (text_argument path) chosen in
        let (r, t, e, g) =
          server.deletes (request_args w false d) path v s
            (
              asked_path d ∙ lookup-insert_self "path" (text_argument path) chosen,
              asked_method d
                  ∙ ap (λ o. some (method_or_get w o))
                      (lookup-insert "method" "path" (text_argument path) chosen
                        ∙ lookup-insert_self "method" delete args),
            )
            there in
        (
          r,
          t,
          sent_lem d s (
                lookup-insert "admin_port" "path" (text_argument path) chosen
                ∙ lookup-insert "admin_port" "method" delete args
                ∙ usual.0)
              ∙ e,
          g,
        )
