-- ===== src/Catalog.antt =====
-- src/storage/uc_catalog.cpp and src/include/storage/uc_catalog.hpp: an attached catalog.
pub mod Default
pub mod Pointers
pub mod Objects
pub mod Consistent
pub mod Reads
pub mod Lookups
pub mod Refines
pub mod Keeps
pub mod Formed
pub mod Requests
pub mod Recovers
pub mod Lifetime
pub mod Frame
mod Tests
use uc_catalog.Base.{
  ℕ, zero, suc, Bool, true, false, not, ◌&&◌, Option, none, some, List, [], Bytes, equal, is_empty,
  if◌then◌else◌,
}
use uc_catalog.Outcome.{Outcome, ok, throws, out_of_fuel, invalid_input, binder, not_implemented}
use uc_catalog.Action.{Action, pure, fail, continue, ◌>>=◌, ◌>>◌}
use uc_catalog.Api.Interface.{Yyjson, Server}
use uc_catalog.Api.{UcCredentials}
use uc_catalog.Transactions.{AccessMode}
use uc_catalog.CatalogSet.Keys.{KeyEquality}
use uc_catalog.CatalogSet
use uc_catalog.CatalogSet.{Entry, CatalogSet, empty_set, clear_entries}
use uc_catalog.SchemaSet
use uc_catalog.SchemaSet.{SchemaData, load_schemas}
use uc_catalog.SchemaEntry.{OnCreateConflict, is_replace}

-- `name` is the name under which the database is attached, `internal_name` the path of `ATTACH`.
pub record UcCatalog : Type 0 where
  pub name : Bytes
  pub internal_name : Bytes
  pub access_mode : AccessMode
  pub credentials : UcCredentials
  pub default_schema : Bytes
  pub schemas : CatalogSet SchemaData

-- The constructor.
abbrev pub make_catalog : Bytes → Bytes → AccessMode → UcCredentials → UcCatalog
make_catalog name internal_name access_mode credentials = record {
  name = name;
  internal_name = internal_name;
  access_mode = access_mode;
  credentials = credentials;
  default_schema = [];
  schemas = empty_set;
}

-- A call on the schemas.
abbrev pub on_schemas : {A : Type 0} → Action (CatalogSet SchemaData) A → Action UcCatalog A
on_schemas call c =
    let (result, schemas) = call c.schemas in (result, record c { schemas = schemas })

unfoldable pub create_schema : OnCreateConflict → Bytes → Action UcCatalog (Entry SchemaData)
unfolding SchemaSet.create_schema CatalogSet.drop_entry
create_schema on_conflict name =
    let create = on_schemas (SchemaSet.create_schema name) in
    if is_replace on_conflict then (on_schemas (CatalogSet.drop_entry name) >> create) else create

unfoldable pub drop_schema : Bytes → Action UcCatalog (Unit {0})
unfolding CatalogSet.drop_entry
drop_schema name = on_schemas (CatalogSet.drop_entry name)

unfoldable pub clear_cache : UcCatalog → UcCatalog
unfolding clear_entries
clear_cache c = (on_schemas clear_entries c).1

unfoldable pub get_db_path : UcCatalog → Bytes
get_db_path c = c.internal_name

unfoldable pub in_memory : UcCatalog → Bool
in_memory c = false

-- `GetDatabaseSize`, which fills nothing in.
unfoldable pub get_database_size : Action UcCatalog (Unit {0})
get_database_size c = if is_empty c.default_schema then (throws invalid_input, c) else (ok tt, c)

-- `PlanInsert`, `PlanCreateTableAs`, `PlanDelete`, `PlanUpdate` and `BindCreateIndex`.
unfoldable pub plan : {A : Type 0} → Action UcCatalog A
plan = fail not_implemented

module _ (k : KeyEquality) (y : Yyjson) (server : Server) where
  abbrev pub load_of : UcCatalog → Action (CatalogSet SchemaData) (Unit {0})
  load_of c = load_schemas k y server c.name c.credentials

  unfoldable pub scan_schemas :
      (List (Entry SchemaData) → List (Entry SchemaData))
      → Action UcCatalog (List (Entry SchemaData))
  unfolding CatalogSet.scan
  scan_schemas bucket_order c = on_schemas (CatalogSet.scan bucket_order (load_of c)) c

  -- What `GetSchema` does with the entry that it finds; the flag is
  -- `if_not_found == OnEntryNotFound::RETURN_NULL`.
  abbrev pub or_not_found :
      Bool → Option (Entry SchemaData) → Action UcCatalog (Option (Entry SchemaData))
  or_not_found return_null (some entry) = pure (some entry)
  or_not_found return_null none = if not return_null then fail binder else pure none

  unfoldable pub find_schema : Bytes → Bool → Action UcCatalog (Option (Entry SchemaData))
  unfolding CatalogSet.get_entry
  find_schema schema_name return_null c =
      continue (on_schemas (CatalogSet.get_entry k (load_of c) schema_name) c)
        (or_not_found return_null)

  -- `GetSchema`; `default_name` is DuckDB's `DEFAULT_SCHEMA`. It calls itself for the default schema.
  unfoldable pub get_schema :
      Bytes → ℕ → Bytes → Bool → Action UcCatalog (Option (Entry SchemaData))
  unfolding find_schema
  get_schema default_name zero schema_name return_null c = (out_of_fuel, c)
  get_schema default_name (suc fuel) schema_name return_null c =
      let again = get_schema default_name fuel c.default_schema return_null c in
      if equal schema_name default_name
      then (if is_empty c.default_schema then (throws invalid_input, c) else again)
      else find_schema schema_name return_null c
