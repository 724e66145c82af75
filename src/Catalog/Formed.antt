-- ===== src/Catalog/Formed.antt =====
-- What holds of the sets of a catalog behind any calls, each to a server in another state.
use uc_catalog.SchemaSet.Listing.{load_schemas-All}
use uc_catalog.Base.{
  ℕ, ◌+◌, ◌≡◌, refl, inl, inr, List, [], ◌∷◌, Bytes, length, length-append, Bool-cases,
  if◌then◌else◌, arith, some, ◌∙◌,
}
use uc_catalog.Api.Interface.{Yyjson, Server}
use uc_catalog.Api.{UcapiSchema, UcCredentials, request_of, tables_url, get_tables}
use uc_catalog.CatalogSet.Keys.{KeyEquality}
use uc_catalog.CatalogSet.All.{All}
use uc_catalog.CatalogSet.Plan.{load_of_plan-Rest}
use uc_catalog.CatalogSet.Cache.{marked, ensure_loaded_done, ensure_loaded_first}
use uc_catalog.CatalogSet.Invariant.{IsWellFormed, ensure_loaded-IsWellFormed}
use uc_catalog.CatalogSet.{CatalogSet, Entry, ensure_loaded}
use uc_catalog.TableSet.{TableData, Columns, SchemaInfo, load_tables}
use uc_catalog.TableSet.Plan.{planned, load_tables-load_of_plan}
use uc_catalog.TableSet.Listing.{load_tables-IsWellFormed}
use uc_catalog.SchemaSet.{SchemaData}
use uc_catalog.SchemaSet.Load.{load_schemas-IsWellFormed}
use uc_catalog.Catalog.{UcCatalog, load_of, clear_cache}
use uc_catalog.Catalog.Pointers.{object_at, put_tables, info_of, load_of_tables}
use uc_catalog.Catalog.Objects.{All-put_tables, put_tables-AreFiled, All-object_at}
use uc_catalog.Catalog.Keeps.{after_changes, after_changes_keeps, loaded_tables}
use uc_catalog.Catalog.Refines.{Reading}

-- The requests sent, and the one that is due.
abbrev pub spent : {D : Type 0} → CatalogSet D → ℕ
spent s = length s.requests + (if s.is_loaded then 0 else 1)

module _ (k : KeyEquality) where
  abbrev pub IsSpentOnce : Entry SchemaData → Type 0
  IsSpentOnce e = IsWellFormed k e.content.tables × (spent e.content.tables ≡ 1)

  -- The schemas, and the tables of each, are well formed sets; the tables of a schema are asked for
  -- once if they are marked as loaded, else never.
  abbrev pub IsFormed : UcCatalog → Type 0
  IsFormed c = IsWellFormed k c.schemas × All IsSpentOnce c.schemas.entries

module _ (k : KeyEquality) (columns : Columns) (y : Yyjson) where
  spent-load_tables :
      (server : Server) (path : Bytes) (credentials : UcCredentials) (schema : SchemaInfo)
      (s : CatalogSet TableData)
      → spent (ensure_loaded (load_tables k columns y server path credentials schema) s).1 ≡ spent s
  spent-load_tables server path credentials schema s =
      let load = load_tables k columns y server path credentials schema in
      elim (Bool-cases s.is_loaded) [
        | inl done ↦ rw (ensure_loaded_done load s done)
        | inr fresh ↦
            let request = request_of (tables_url credentials path schema.name) credentials.token in
            let listing = get_tables y server path schema.name credentials in
            let (mark, sent) =
              load_of_plan-Rest k request (planned columns schema listing) (marked s) in
            rw (ensure_loaded_first load s fresh) (
              rw (load_tables-load_of_plan columns schema k y server path credentials (marked s))
                (rw (mark, sent, fresh) (omega (arith, length-append s.requests (request ∷ [])))))
      ]

  module _ (default_name : Bytes) (schema_order : List (Entry SchemaData) → List (Entry SchemaData))
      (table_order : List (Entry TableData) → List (Entry TableData)) where
    loads-IsFormed :
        (server : Server) (c : UcCatalog)
        → IsFormed k c
        → IsFormed k (record c { schemas = (ensure_loaded (load_of k y server c) c.schemas).1 })
    loads-IsFormed server c (formed, all) = (
      ensure_loaded-IsWellFormed k (load_of k y server c)
          (load_schemas-IsWellFormed k y server c.name c.credentials) c.schemas formed,
      elim (Bool-cases c.schemas.is_loaded) [
        | inl done ↦ rw (ensure_loaded_done (load_of k y server c) c.schemas done) all
        | inr fresh ↦ rw (ensure_loaded_first (load_of k y server c) c.schemas fresh) (
            load_schemas-All k y server c.name c.credentials (IsSpentOnce k)
              (λ (x : UcapiSchema) (n : ℕ). (tt, refl)) (marked c.schemas) all)
      ],
    )

    puts-IsFormed :
        (server : Server) (a : ℕ) (x : Entry SchemaData) (c : UcCatalog)
        → IsFormed k c
        → object_at a c.schemas.entries ≡ some x
        → IsFormed k (record c {
          schemas = record c.schemas {
            entries =
                put_tables a
                  (loaded_tables k columns y default_name schema_order table_order server c x)
                  c.schemas.entries;
          };
        })
    puts-IsFormed server a x c (formed, all) there =
        let (unique, once) = All-object_at (IsSpentOnce k) a c.schemas.entries all there in
        (
          put_tables-AreFiled k c.schemas.allocated a _ c.schemas.entries formed,
          All-put_tables (IsSpentOnce k) a _ c.schemas.entries all there (
            ensure_loaded-IsWellFormed k (load_of_tables k columns y server c x)
                (load_tables-IsWellFormed k columns y server c.internal_name c.credentials
                  (info_of x))
                x.content.tables unique,
            spent-load_tables server c.internal_name c.credentials (info_of x) x.content.tables
                ∙ once,
          ),
        )

    -- Lookups and scans of schemas and of tables, and clears, each with the server in any state and
    -- with any outcome, keep all sets of the catalog well formed; and each schema object that is
    -- there asked for its tables exactly once if they are marked as loaded, else never.
    pub after_changes-IsFormed :
        (changes : List (Server × Reading)) (c : UcCatalog)
        → IsFormed k c
        → IsFormed k (after_changes k columns y default_name schema_order table_order changes c)
    unfolding clear_cache
    after_changes-IsFormed =
        after_changes_keeps k columns y default_name schema_order table_order (IsFormed k)
          loads-IsFormed puts-IsFormed (λ c h. (tt, tt))
