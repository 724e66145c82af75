-- ===== src/Catalog/Requests.antt =====
-- Which requests a catalog sends, behind any calls.
use uc_catalog.Outcome.{throws, internal, io, ok}
use uc_catalog.Base.{
  ◌≡◌, refl, sym, subst, inl, inr, List, [], ◌∷◌, ◌++◌, Bytes, Bool-cases, ℕ, some, ap, fun_ext,
}
use uc_catalog.Api.Interface.{Yyjson, Server, Request, no_handle, failed, complete}
use uc_catalog.Api.{
  UcCredentials, UcapiSchema, request_of, schemas_url, tables_url, get_tables, get_schemas,
  get_request, perform, write_all,
}
use uc_catalog.Transactions.{AccessMode}
use uc_catalog.CatalogSet.Keys.{KeyEquality}
use uc_catalog.CatalogSet.All.{All}
use uc_catalog.CatalogSet.Plan.{load_of_plan-Rest}
use uc_catalog.CatalogSet.Cache.{marked, ensure_loaded_done, ensure_loaded_first}
use uc_catalog.CatalogSet.{CatalogSet, Entry, ensure_loaded}
use uc_catalog.TableSet.{TableData, Columns, SchemaInfo, load_tables}
use uc_catalog.TableSet.Plan.{planned, load_tables-load_of_plan}
use uc_catalog.SchemaSet.{SchemaData, load_schemas}
use uc_catalog.SchemaSet.Load.{load_schemas-Rest}
use uc_catalog.SchemaSet.Listing.{load_schemas-All}
use uc_catalog.Catalog.{UcCatalog, make_catalog, load_of, clear_cache}
use uc_catalog.Catalog.Pointers.{object_at, put_tables, info_of, load_of_tables}
use uc_catalog.Catalog.Objects.{All-object_at, All-put_tables}
use uc_catalog.Catalog.Keeps.{after_changes, after_changes_keeps, loaded_tables}
use uc_catalog.Catalog.Refines.{Reading}

-- Every request of the list is this one.
abbrev pub AreAll : Request → List Request → Type 0
AreAll request [] = Unit {0}
AreAll request (r ∷ rs) = (r ≡ request) × AreAll request rs

AreAll-concat :
    (request : Request) (rs : List Request)
    → AreAll request rs
    → AreAll request (rs ++ (request ∷ []))
AreAll-concat request [] h = (refl, tt)
AreAll-concat request (r ∷ rs) h = (h.0, AreAll-concat request rs h.1)

module _ (k : KeyEquality) (columns : Columns) (y : Yyjson) (name path : Bytes)
    (credentials : UcCredentials) where
  abbrev schemas_request : Request
  schemas_request = request_of (schemas_url credentials name) credentials.token

  abbrev tables_request : Bytes → Request
  tables_request schema = request_of (tables_url credentials path schema) credentials.token

  abbrev AsksForTables : Entry SchemaData → Type 0
  AsksForTables e = AreAll (tables_request e.name) e.content.tables.requests

  -- The catalog stays attached as it was, and asks for nothing else.
  abbrev AsksFor : UcCatalog → Type 0
  AsksFor c =
      (c.name ≡ name)
      × (c.internal_name ≡ path)
      × (c.credentials ≡ credentials)
      × AreAll schemas_request c.schemas.requests
      × All AsksForTables c.schemas.entries

  -- What the loads do depends on the answer to these requests only.
  perform_agree :
      (server other : Server) (request : Request)
      → server request ≡ other request
      → perform server request ≡ perform other request
  unfolding perform
  perform_agree server other request same =
      ap
        (λ transfer. elim transfer [
          | no_handle ↦ throws internal
          | failed chunks ↦ throws io
          | complete chunks ↦ ok (write_all [] chunks)
        ])
        same

  load_schemas_agree :
      (server other : Server)
      → server schemas_request ≡ other schemas_request
      → load_schemas k y server name credentials ≡ load_schemas k y other name credentials
  unfolding load_schemas get_schemas get_request
  load_schemas_agree server other same =
      fun_ext λ s. rw (perform_agree server other schemas_request same) refl

  load_tables_agree :
      (server other : Server) (schema : SchemaInfo)
      → server (tables_request schema.name) ≡ other (tables_request schema.name)
      → load_tables k columns y server path credentials schema
        ≡ load_tables k columns y other path credentials schema
  unfolding load_tables get_tables get_request
  load_tables_agree server other schema same =
      fun_ext λ s. rw (perform_agree server other (tables_request schema.name) same) refl

  load_tables-AreAll :
      (server : Server) (schema : SchemaInfo) (s : CatalogSet TableData)
      → AreAll (tables_request schema.name) s.requests
      → AreAll
          (tables_request schema.name)
          (ensure_loaded (load_tables k columns y server path credentials schema) s).1.requests
  load_tables-AreAll server schema s h =
      let load = load_tables k columns y server path credentials schema in
      elim (Bool-cases s.is_loaded) [
        | inl done ↦ rw (ensure_loaded_done load s done) h
        | inr fresh ↦
            let request = tables_request schema.name in
            let listing = get_tables y server path schema.name credentials in
            let (mark, sent) =
              load_of_plan-Rest k request (planned columns schema listing) (marked s) in
            rw (ensure_loaded_first load s fresh) (
              rw (load_tables-load_of_plan columns schema k y server path credentials (marked s))
                (rw sent (AreAll-concat request s.requests h)))
      ]

  module _ (default_name : Bytes) (schema_order : List (Entry SchemaData) → List (Entry SchemaData))
      (table_order : List (Entry TableData) → List (Entry TableData)) where
    loads-AsksFor :
        (server : Server) (c : UcCatalog)
        → AsksFor c
        → AsksFor (record c { schemas = (ensure_loaded (load_of k y server c) c.schemas).1 })
    loads-AsksFor server c (n, p, r, asked, all) = elim (Bool-cases c.schemas.is_loaded) [
      | inl done ↦
          rw (ensure_loaded_done (load_of k y server c) c.schemas done) (n, p, r, asked, all)
      | inr fresh ↦
          let (mark, sent) = load_schemas-Rest k y server c.name c.credentials (marked c.schemas) in
          let same : request_of (schemas_url c.credentials c.name) c.credentials.token
              ≡ schemas_request =
            rw (n, r) refl in
          rw (ensure_loaded_first (load_of k y server c) c.schemas fresh) (
            n,
            p,
            r,
            rw (sent, same) (AreAll-concat schemas_request c.schemas.requests asked),
            load_schemas-All k y server c.name c.credentials AsksForTables
                (λ (x : UcapiSchema) (m : ℕ). tt) (marked c.schemas) all,
          )
    ]

    puts-AsksFor :
        (server : Server) (a : ℕ) (x : Entry SchemaData) (c : UcCatalog)
        → AsksFor c
        → object_at a c.schemas.entries ≡ some x
        → AsksFor (record c {
          schemas = record c.schemas {
            entries =
                put_tables a
                  (loaded_tables k columns y default_name schema_order table_order server c x)
                  c.schemas.entries;
          };
        })
    puts-AsksFor server a x c (n, p, r, asked, all) there =
        let before = All-object_at AsksForTables a c.schemas.entries all there in
        (
          n,
          p,
          r,
          asked,
          All-put_tables AsksForTables a _ c.schemas.entries all there (
              subst
                (λ (d : Bytes).
                  AreAll (tables_request x.name)
                    (ensure_loaded (load_tables k columns y server d c.credentials (info_of x))
                      x.content.tables).1.requests)
                (sym p)
                (subst
                  (λ (d : UcCredentials).
                    AreAll (tables_request x.name)
                      (ensure_loaded (load_tables k columns y server path d (info_of x))
                        x.content.tables).1.requests)
                  (sym r) (load_tables-AreAll server (info_of x) x.content.tables before))),
        )

    -- Whatever calls are made on a catalog, and whatever the server answers, the requests that were
    -- noted for its schemas are under the name that it is attached as, which is the alias of the
    -- database, those for the tables of a schema under the path of `ATTACH`, which is the name of
    -- the catalog on the server, and all of them with its own token. They are the requests that the
    -- loads send: at two servers that answer these requests in the same way, and all others as they
    -- like, the load of the schemas and the load of the tables of a schema object do the same.
    pub after_changes-requests :
        (mode : AccessMode) (changes : List (Server × Reading)) (server other : Server)
        (x : Entry SchemaData)
        → server (request_of (schemas_url credentials name) credentials.token)
          ≡ other (request_of (schemas_url credentials name) credentials.token)
        → server (request_of (tables_url credentials path x.name) credentials.token)
          ≡ other (request_of (tables_url credentials path x.name) credentials.token)
        → let c =
            after_changes k columns y default_name schema_order table_order changes
              (make_catalog name path mode credentials) in
          AreAll (request_of (schemas_url credentials name) credentials.token) c.schemas.requests
          × All
              (λ e.
                AreAll
                  (request_of (tables_url credentials path e.name) credentials.token)
                  e.content.tables.requests)
              c.schemas.entries
          × (load_of k y server c ≡ load_of k y other c)
          × (load_of_tables k columns y server c x ≡ load_of_tables k columns y other c x)
    unfolding clear_cache
    after_changes-requests mode changes server other x same_schemas same_tables =
        let h =
          after_changes_keeps k columns y default_name schema_order table_order AsksFor
            loads-AsksFor puts-AsksFor (λ c g. (g.0, g.1, g.2, g.3, tt)) changes
            (make_catalog name path mode credentials) (refl, refl, refl, tt, tt) in
        (
          h.3,
          h.4,
          rw (h.0, h.2) (load_schemas_agree server other same_schemas),
          rw (h.1, h.2) (load_tables_agree server other (info_of x) same_tables),
        )
