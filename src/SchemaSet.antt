-- ===== src/SchemaSet.antt =====
-- src/storage/uc_schema_set.cpp and src/include/storage/uc_schema_set.hpp: the schemas of a
-- catalog.
pub mod Load
pub mod Plan
pub mod Threads
pub mod Filled
pub mod Listing
pub mod Calls
pub mod Unlisted
pub mod Unnamed
pub mod Addresses
mod Tests
use uc_catalog.Base.{Bool, true, false, List, [], ◌∷◌, Bytes, codes, equal, if◌then◌else◌}
use uc_catalog.Outcome.{not_implemented}
use uc_catalog.Action.{Action, pure, fail, lift, ◌>>=◌, ◌>>◌}
use uc_catalog.Api.Interface.{Yyjson, Server}
use uc_catalog.Api.{UcCredentials, UcapiSchema, request_of, schemas_url, get_schemas}
use uc_catalog.CatalogSet.Keys.{KeyEquality}
use uc_catalog.CatalogSet.{Entry, CatalogSet, empty_set, make_entry, send, create_entry}
use uc_catalog.TableSet.{TableData}

-- What a `UCSchemaEntry` holds: its `schema_data` and its tables.
pub record SchemaData : Type 0 where
  pub schema_data : UcapiSchema
  pub tables : CatalogSet TableData

unfoldable pub is_internal_table : Bytes → Bytes → Bool
is_internal_table catalog schema = if equal schema (codes "information_schema") then true else false

module _ (k : KeyEquality) where
  -- The loop of `LoadEntries`.
  unfoldable pub create_schemas : List UcapiSchema → Action (CatalogSet SchemaData) (Unit {0})
  unfolding create_entry is_internal_table
  create_schemas [] = pure tt
  create_schemas (schema ∷ schemas) = do
    schema_entry ←
        make_entry schema.schema_name (is_internal_table schema.catalog_name schema.schema_name)
          (record { schema_data = schema; tables = empty_set })
    create_entry k schema_entry
    create_schemas schemas

  -- `UCSchemaSet::LoadEntries`; `catalog` is the name under which the database is attached.
  unfoldable pub load_schemas :
      Yyjson → Server → Bytes → UcCredentials → Action (CatalogSet SchemaData) (Unit {0})
  unfolding create_schemas
  load_schemas y server catalog credentials = do
    send (request_of (schemas_url credentials catalog) credentials.token)
    schemas ← lift (get_schemas y server catalog credentials)
    create_schemas schemas

-- `UCSchemaSet::CreateSchema`
unfoldable pub create_schema : Bytes → Action (CatalogSet SchemaData) (Entry SchemaData)
create_schema name = fail not_implemented
