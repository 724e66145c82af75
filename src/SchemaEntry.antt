-- ===== src/SchemaEntry.antt =====
-- src/storage/uc_schema_entry.cpp and src/include/storage/uc_schema_entry.hpp: one schema, with the
-- set of its tables as the state.
pub mod Views
pub mod Columns
pub mod Unqualified
mod Tests
use uc_catalog.Base.{
  Bool, true, false, not, ◌||◌, Option, none, some, List, [], Bytes, is_empty, if◌then◌else◌,
}
use uc_catalog.Outcome.{Outcome, ok, throws, binder, internal, not_implemented}
use uc_catalog.Action.{Action, pure, fail, lift, ◌>>=◌, ◌>>◌}
use uc_catalog.CatalogSet.Keys.{KeyEquality}
use uc_catalog.CatalogSet
use uc_catalog.CatalogSet.{Entry, CatalogSet}
use uc_catalog.TableSet
use uc_catalog.TableSet.{TableData}

-- DuckDB's `CatalogType`, as far as the source tells the types apart.
pub data CatalogType : Type 0 where
  index_entry table_entry view_entry other_entry : CatalogType

pub data OnCreateConflict : Type 0 where
  error_on_conflict ignore_on_conflict replace_on_conflict alter_on_conflict : OnCreateConflict

abbrev pub is_replace : OnCreateConflict → Bool
is_replace replace_on_conflict = true
is_replace _ = false

abbrev pub is_ignore : OnCreateConflict → Bool
is_ignore ignore_on_conflict = true
is_ignore _ = false

unfoldable pub catalog_type_is_supported : CatalogType → Bool
catalog_type_is_supported index_entry = true
catalog_type_is_supported table_entry = true
catalog_type_is_supported view_entry = true
catalog_type_is_supported other_entry = false

-- `GetCatalogSet`: the tables, or an exception.
unfoldable pub get_catalog_set : CatalogType → Outcome (Unit {0})
get_catalog_set table_entry = ok tt
get_catalog_set view_entry = ok tt
get_catalog_set index_entry = throws internal
get_catalog_set other_entry = throws internal

-- `GetUCTransaction`; the flag says whether the catalog transaction has a transaction.
unfoldable pub get_uc_transaction : Bool → Outcome (Unit {0})
get_uc_transaction has_transaction = if not has_transaction then throws internal else ok tt

-- The calls on a schema that change nothing, and take no part in what follows.
unfoldable pub create_table :
    OnCreateConflict → Bytes → Action (CatalogSet TableData) (Entry TableData)
unfolding TableSet.create_table
create_table on_conflict table_name =
    if is_replace on_conflict then fail not_implemented else TableSet.create_table table_name

unfoldable pub create_function : Action (CatalogSet TableData) (Entry TableData)
create_function = fail binder

unfoldable pub create_index : Action (CatalogSet TableData) (Entry TableData)
create_index = fail not_implemented

unfoldable pub create_type : Action (CatalogSet TableData) (Entry TableData)
create_type = fail binder

unfoldable pub create_sequence : Action (CatalogSet TableData) (Entry TableData)
create_sequence = fail binder

unfoldable pub create_table_function : Action (CatalogSet TableData) (Entry TableData)
create_table_function = fail binder

unfoldable pub create_copy_function : Action (CatalogSet TableData) (Entry TableData)
create_copy_function = fail binder

unfoldable pub create_pragma_function : Action (CatalogSet TableData) (Entry TableData)
create_pragma_function = fail binder

unfoldable pub create_collation : Action (CatalogSet TableData) (Entry TableData)
create_collation = fail binder

-- `Alter`; the flag is `info.type == AlterType::ALTER_TABLE`.
unfoldable pub alter : Bool → Action (CatalogSet TableData) (Unit {0})
unfolding TableSet.alter_table
alter alters_table = if not alters_table then fail binder else TableSet.alter_table

-- `Scan` without a context.
unfoldable pub scan_without_context :
    CatalogType → Action (CatalogSet TableData) (List (Entry TableData))
scan_without_context type = fail not_implemented

unfoldable pub drop_entry : CatalogType → Bytes → Action (CatalogSet TableData) (Unit {0})
unfolding get_catalog_set CatalogSet.drop_entry
drop_entry type name = do lift (get_catalog_set type); CatalogSet.drop_entry name

-- `load` is `LoadEntries` of the tables.
module _ (load : Action (CatalogSet TableData) (Unit {0})) where
  unfoldable pub scan :
      (List (Entry TableData) → List (Entry TableData))
      → CatalogType
      → Action (CatalogSet TableData) (List (Entry TableData))
  unfolding catalog_type_is_supported get_catalog_set CatalogSet.scan
  scan bucket_order type =
      let walk = lift (get_catalog_set type) >> CatalogSet.scan bucket_order load in
      if not (catalog_type_is_supported type) then pure [] else walk

  unfoldable pub get_entry :
      KeyEquality → CatalogType → Bytes → Action (CatalogSet TableData) (Option (Entry TableData))
  unfolding catalog_type_is_supported get_catalog_set CatalogSet.get_entry
  get_entry k type name =
      let find = lift (get_catalog_set type) >> CatalogSet.get_entry k load name in
      if not (catalog_type_is_supported type) then pure none else find

  -- The end of `CreateView`.
  unfoldable pub refresh_view : Bool → Bytes → Action (CatalogSet TableData) (Entry TableData)
  unfolding get_uc_transaction TableSet.refresh_table
  refresh_view has_transaction view_name = do
    lift (get_uc_transaction has_transaction)
    TableSet.refresh_table view_name

  -- What `CreateView` does with the entry that it finds under the name.
  unfoldable pub view_or_refresh :
      OnCreateConflict
      → Bool
      → Bytes
      → Option (Entry TableData)
      → Action (CatalogSet TableData) (Entry TableData)
  view_or_refresh on_conflict has_transaction view_name none =
      refresh_view has_transaction view_name
  view_or_refresh on_conflict has_transaction view_name (some current_entry) =
      if is_ignore on_conflict then pure current_entry else fail not_implemented

  unfoldable pub create_view :
      KeyEquality
      → Bytes
      → OnCreateConflict
      → Bool
      → Bytes
      → Action (CatalogSet TableData) (Entry TableData)
  unfolding get_entry view_or_refresh
  create_view k sql on_conflict has_transaction view_name =
      let checked = do
        current_entry ← get_entry k view_entry view_name
        view_or_refresh on_conflict has_transaction view_name current_entry
      in if is_empty sql
        then fail binder
        else if is_replace on_conflict || is_ignore on_conflict
        then checked
        else refresh_view has_transaction view_name
