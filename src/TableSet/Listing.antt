-- ===== src/TableSet/Listing.antt =====
-- The load of the tables where the server lists tables that can all be read.
use uc_catalog.Base.{◌≡◌, refl, ◌∙◌, true, List, [], ◌∷◌, ◌++◌, Bytes}
use uc_catalog.Outcome.{ok}
use uc_catalog.Api.Interface.{Yyjson, Server}
use uc_catalog.Api.{UcCredentials, UcapiTable, get_tables, request_of, tables_url}
use uc_catalog.CatalogSet.Keys.{KeyEquality}
use uc_catalog.CatalogSet.{CatalogSet, find_entry}
use uc_catalog.CatalogSet.Promise.{Loads}
use uc_catalog.TableSet.{TableData, SchemaInfo, Columns, create_tables, load_tables}
use uc_catalog.TableSet.Load.{create_tables-Loaded, create_tables-IsWellFormed}
use uc_catalog.CatalogSet.Invariant.{IsWellFormed}
use uc_catalog.Action.{continue_keeps}
use uc_catalog.TableSet.Lookup.{seen, AreListed, first_table, create_tables_lookup}

module _ (k : KeyEquality) (c : Columns) (y : Yyjson) (server : Server) (db_path : Bytes)
    (credentials : UcCredentials) (schema : SchemaInfo) where
  -- Each name then finds the first table of the listing with its key.
  pub load_tables-Loads :
      (tables : List UcapiTable)
      → get_tables y server db_path schema.name credentials ≡ ok tables
      → AreListed c tables
      → Loads k seen
          (λ name. first_table k c schema name tables)
          (load_tables k c y server db_path credentials schema)
  unfolding load_tables find_entry
  load_tables-Loads tables listed readable s nothing =
      let t : CatalogSet TableData = record s {
        is_loaded = true;
        requests =
            s.requests
            ++ (request_of (tables_url credentials db_path schema.name) credentials.token ∷ []);
      } in
      let filed = λ (name : Bytes). create_tables_lookup k c schema tables t name readable in
      (
        rw listed (filed []).0,
        rw listed (create_tables-Loaded k c schema tables t refl),
        λ name. rw listed ((filed name).1 ∙ rw (nothing, find_entry)),
      )

  pub load_tables-IsWellFormed :
      (s : CatalogSet TableData)
      → IsWellFormed k s
      → IsWellFormed k (load_tables k c y server db_path credentials schema s).1
  unfolding load_tables
  load_tables-IsWellFormed s f =
      continue_keeps (IsWellFormed k)
        (
          get_tables y server db_path schema.name credentials,
          record s {
            requests =
                s.requests
                ++ (request_of (tables_url credentials db_path schema.name) credentials.token ∷ []);
          },
        )
        (create_tables k c schema) f
        (λ tables t h. create_tables-IsWellFormed k c schema tables t h)
