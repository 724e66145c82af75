-- ===== src/Catalog/Recovers.antt =====
-- Calls behind a clear of the cache, after calls that may have gone wrong.
use uc_catalog.Base.{◌≡◌, refl, List, [], Bytes, inl}
use uc_catalog.Api.Interface.{Yyjson, Server}
use uc_catalog.Transactions.{AccessMode}
use uc_catalog.CatalogSet.Keys.{KeyEquality}
use uc_catalog.CatalogSet.{Entry}
use uc_catalog.TableSet.{TableData, Columns}
use uc_catalog.SchemaSet.{SchemaData}
use uc_catalog.Catalog.{UcCatalog, make_catalog, clear_cache}
use uc_catalog.Catalog.Pointers.{get_table, walk_tables}
use uc_catalog.Catalog.Consistent.{World, IsServed}
use uc_catalog.Catalog.Lookups.{
  seen_result, promised_table, IsWalked, get_table_consistent, walk_tables_consistent,
}
use uc_catalog.Catalog.Keeps.{after_changes, after_changes_keeps}
use uc_catalog.Catalog.Refines.{Reading, after_all, after_all-IsConsistent}

module _ (k : KeyEquality) (columns : Columns) (y : Yyjson) (default_name : Bytes)
    (schema_order : List (Entry SchemaData) → List (Entry SchemaData))
    (table_order : List (Entry TableData) → List (Entry TableData)) (w : World) where
  -- What no call changes.
  abbrev IsAttached : UcCatalog → Type 0
  IsAttached c =
      (c.name ≡ w.name)
      × (c.internal_name ≡ w.path)
      × (c.credentials ≡ w.credentials)
      × (c.default_schema ≡ [])

  -- Whatever calls were made on a catalog, each of them to a server in another state, one that fails or
  -- sends other listings included: once the cache is cleared and the server lists named schemas and
  -- readable tables again, lookups and scans give what the specification says of these listings,
  -- behind any further calls.
  pub get_table_recovers :
      (server : Server)
      → IsServed k columns y server w
      → (mode : AccessMode) (changes : List (Server × Reading)) (rs : List Reading)
        (schema_name name : Bytes)
      → let before =
          after_changes k columns y default_name schema_order table_order changes
            (make_catalog w.name w.path mode w.credentials) in
        let c =
          after_all k columns y default_name schema_order table_order server rs
            (clear_cache before) in
        (seen_result (get_table k columns y server default_name schema_name name c).0
          ≡ promised_table k columns y server w default_name schema_name name)
        × IsWalked k columns y server w default_name schema_name table_order
            (walk_tables k columns y server default_name table_order schema_name c).0
  unfolding clear_cache
  get_table_recovers server served mode changes rs schema_name name =
      let before =
        after_changes k columns y default_name schema_order table_order changes
          (make_catalog w.name w.path mode w.credentials) in
      let h =
        after_changes_keeps k columns y default_name schema_order table_order IsAttached
          (λ server c h. h) (λ server a x c h there. h) (λ c h. h) changes _
          (refl, refl, refl, refl) in
      let c =
        after_all k columns y default_name schema_order table_order server rs
          (clear_cache before) in
      let consistent =
        after_all-IsConsistent k columns y default_name schema_order table_order server w served rs
          (clear_cache before) (h.0, h.1, h.2, h.3, (tt, inl (refl, refl), tt)) in
      (
        (get_table_consistent k columns y server w default_name served schema_name name c
            consistent).0,
        (walk_tables_consistent k columns y server w default_name served schema_name table_order c
            consistent).0,
      )
