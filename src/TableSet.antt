-- ===== src/TableSet.antt =====
-- src/storage/uc_table_set.cpp and src/include/storage/uc_table_set.hpp: the tables of one schema.
pub mod Load
pub mod Plan
pub mod Filled
pub mod Threads
pub mod Lookup
pub mod Listing
mod Tests
use uc_catalog.Base.{ℕ, Bool, false, List, [], ◌∷◌, Bytes}
use uc_catalog.Outcome.{Outcome, ok, not_implemented}
use uc_catalog.Outcome
use uc_catalog.Action.{Action, pure, fail, lift, ◌>>=◌, ◌>>◌}
use uc_catalog.Api.Interface.{Yyjson, Server}
use uc_catalog.Api.{
  UcCredentials, UcapiColumnDefinition, UcapiTable, request_of, tables_url, get_tables,
}
use uc_catalog.TypeText.Types.{LogicalType}
use uc_catalog.TypeText.{type_to_logical_type}
use uc_catalog.CatalogSet.Keys.{KeyEquality}
use uc_catalog.CatalogSet.{Entry, CatalogSet, make_entry, send, create_entry_in_schema}

-- A `ColumnDefinition`.
pub record Column : Type 0 where
  pub name : Bytes
  pub logical_type : LogicalType

-- What a `UCTableEntry` holds: its columns and its `table_data`.
pub record TableData : Type 0 where
  pub columns : List Column
  pub table_data : UcapiTable

-- The schema that the set belongs to, as far as the set reads it.
pub record SchemaInfo : Type 0 where
  pub name : Bytes
  pub is_internal : Bool

-- DuckDB's part: the cast of a numeral, and `ColumnList::AddColumn`, which may refuse a column.
pub record Columns : Type 0 where
  pub cast_uint8 : Bytes → Outcome ℕ
  pub add_column : List Column → Column → Outcome (List Column)

unfoldable pub create_column_definition : Columns → UcapiColumnDefinition → Outcome Column
create_column_definition c coldef =
    Outcome.◌>>=◌ (type_to_logical_type c.cast_uint8 coldef.type_text)
      λ t. ok (record { name = coldef.name; logical_type = t })

-- The inner loop of `LoadEntries`.
unfoldable pub add_columns :
    Columns → List Column → List UcapiColumnDefinition → Outcome (List Column)
unfolding create_column_definition
add_columns c columns [] = ok columns
add_columns c columns (col ∷ cols) =
    Outcome.◌>>=◌ (create_column_definition c col)
      λ definition. Outcome.◌>>=◌ (c.add_column columns definition) λ more. add_columns c more cols

module _ (k : KeyEquality) (c : Columns) where
  -- The outer loop of `LoadEntries`.
  unfoldable pub create_tables :
      SchemaInfo → List UcapiTable → Action (CatalogSet TableData) (Unit {0})
  unfolding add_columns create_entry_in_schema
  create_tables schema [] = pure tt
  create_tables schema (table ∷ tables) = do
    columns ← lift (add_columns c [] table.columns)
    table_entry ← make_entry table.name false (record { columns = columns; table_data = table })
    create_entry_in_schema k schema.is_internal table_entry
    create_tables schema tables

  -- `UCTableSet::LoadEntries`
  unfoldable pub load_tables :
      Yyjson
      → Server
      → Bytes
      → UcCredentials
      → SchemaInfo
      → Action (CatalogSet TableData) (Unit {0})
  unfolding create_tables
  load_tables y server db_path credentials schema = do
    send (request_of (tables_url credentials db_path schema.name) credentials.token)
    tables ← lift (get_tables y server db_path schema.name credentials)
    create_tables schema tables

-- `UCTableSet::GetTableInfo`
unfoldable pub get_table_info : {A : Type 0} → Bytes → Action (CatalogSet TableData) A
get_table_info table_name = fail not_implemented

-- `UCTableSet::RefreshTable`: `GetTableInfo` gives no table information, so the entry that would be
-- made of it is never reached.
unfoldable pub refresh_table : Bytes → Action (CatalogSet TableData) (Entry TableData)
unfolding get_table_info
refresh_table table_name = get_table_info table_name

-- `UCTableSet::CreateTable`
unfoldable pub create_table : Bytes → Action (CatalogSet TableData) (Entry TableData)
create_table table_name = fail not_implemented

-- The five overloads of `UCTableSet::AlterTable`.
unfoldable pub alter_table : Action (CatalogSet TableData) (Unit {0})
alter_table = fail not_implemented
