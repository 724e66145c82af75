-- ===== src/Catalog/Refines.antt =====
-- Histories of reading calls on a catalog, against the specification.
use uc_catalog.Base.{
  ◌≡◌, refl, sym, subst, inl, inr, Bool, true, false, Option, none, some, List, [], ◌∷◌, Bytes,
  equal, Bool-cases,
}
use uc_catalog.Outcome.{throws, invalid_input}
use uc_catalog.Action.{continue_keeps}
use uc_catalog.Api.Interface.{Yyjson, Server}
use uc_catalog.Transactions.{AccessMode}
use uc_catalog.CatalogSet
use uc_catalog.CatalogSet.Keys.{KeyEquality}
use uc_catalog.CatalogSet.{Entry, clear_entries}
use uc_catalog.CatalogSet.Cache.{get_entry_state, scan_state}
use uc_catalog.TableSet.{TableData, Columns}
use uc_catalog.SchemaSet.{SchemaData}
use uc_catalog.Catalog.{
  UcCatalog, make_catalog, load_of, on_schemas, or_not_found, find_schema, get_schema, scan_schemas,
  clear_cache,
}
use uc_catalog.Catalog.Pointers.{get_table, walk_tables}
use uc_catalog.Catalog.Consistent.{World, IsServed, IsConsistent, ensure_loaded-IsConsistent}
use uc_catalog.Catalog.Lookups.{
  seen_result, promised_table, IsWalked, get_table_consistent, walk_tables_consistent,
}

-- The calls that read a catalog, and the one that clears its cache.
pub data Reading : Type 0 where
  finds_schema : Bytes → Bool → Reading
  finds_table : Bytes → Bytes → Reading
  walks_schemas clears : Reading
  walks_tables : Bytes → Reading

module _ (k : KeyEquality) (columns : Columns) (y : Yyjson) (default_name : Bytes)
    (schema_order : List (Entry SchemaData) → List (Entry SchemaData))
    (table_order : List (Entry TableData) → List (Entry TableData)) (server : Server) where
  -- The catalog behind a call, whatever it ends with.
  unfoldable pub after : Reading → UcCatalog → UcCatalog
  after (finds_schema name return_null) c =
      (get_schema k y server default_name 2 name return_null c).1
  after (finds_table schema_name name) c =
      (get_table k columns y server default_name schema_name name c).1
  after walks_schemas c = (scan_schemas k y server schema_order c).1
  after (walks_tables schema_name) c =
      (walk_tables k columns y server default_name table_order schema_name c).1
  after clears c = clear_cache c

  pub after_all : List Reading → UcCatalog → UcCatalog
  after_all [] c = c
  after_all (r ∷ rs) c = after_all rs (after r c)

  module _ (w : World) (served : IsServed k columns y server w) where
    abbrev pub Is : UcCatalog → Type 0
    Is = IsConsistent k columns y server w

    find_schema_consistent :
        (name : Bytes) (return_null : Bool) (c : UcCatalog)
        → Is c
        → Is (find_schema k y server name return_null c).1
    unfolding find_schema
    find_schema_consistent name return_null c h =
        let here = (ensure_loaded-IsConsistent k columns y server w served c h).2 in
        continue_keeps Is (on_schemas (CatalogSet.get_entry k (load_of k y server c) name) c)
          (or_not_found k y server return_null)
          (subst (λ s. Is (record c { schemas = s }))
            (sym (get_entry_state k (load_of k y server c) name c.schemas)) here)
          (or_not_found_consistent return_null)
      where
        or_not_found_consistent :
            (null : Bool) (o : Option (Entry SchemaData)) (d : UcCatalog)
            → Is d
            → Is (or_not_found k y server null o d).1
        or_not_found_consistent null (some e) d g = g
        or_not_found_consistent true none d g = g
        or_not_found_consistent false none d g = g

    get_schema_unset :
        (name : Bytes) (return_null : Bool) (c : UcCatalog)
        → equal name default_name ≡ true
        → c.default_schema ≡ []
        → get_schema k y server default_name 2 name return_null c ≡ (throws invalid_input, c)
    unfolding get_schema
    get_schema_unset name return_null c p unset = rw (p, unset)

    get_schema_named :
        (name : Bytes) (return_null : Bool) (c : UcCatalog)
        → equal name default_name ≡ false
        → get_schema k y server default_name 2 name return_null c
          ≡ find_schema k y server name return_null c
    unfolding get_schema
    get_schema_named name return_null c p = rw p

    after-IsConsistent : (r : Reading) (c : UcCatalog) → Is c → Is (after r c)
    unfolding after scan_schemas clear_cache
    after-IsConsistent (finds_schema name return_null) c h =
        elim (Bool-cases (equal name default_name)) [
          | inl p ↦ subst (λ r. Is r.1) (sym (get_schema_unset name return_null c p h.3)) h
          | inr p ↦
              subst (λ r. Is r.1) (sym (get_schema_named name return_null c p))
                (find_schema_consistent name return_null c h)
        ]
    after-IsConsistent (finds_table schema_name name) c h =
        (get_table_consistent k columns y server w default_name served schema_name name c h).1
    after-IsConsistent walks_schemas c h =
        let here = (ensure_loaded-IsConsistent k columns y server w served c h).2 in
        subst (λ s. Is (record c { schemas = s }))
          (sym (scan_state (load_of k y server c) schema_order c.schemas)) here
    after-IsConsistent (walks_tables schema_name) c h =
        (walk_tables_consistent k columns y server w default_name served schema_name table_order c
          h).1
    after-IsConsistent clears c h = (h.0, h.1, h.2, h.3, (tt, inl (refl, refl), tt))

    pub after_all-IsConsistent : (rs : List Reading) (c : UcCatalog) → Is c → Is (after_all rs c)
    unfolding after_all
    after_all-IsConsistent [] c h = h
    after_all-IsConsistent (r ∷ rs) c h =
        after_all-IsConsistent rs (after r c) (after-IsConsistent r c h)

    -- While the server lists the same named schemas and the same readable tables, calls behind any
    -- history of lookups, scans and clears on a freshly attached catalog give what the specification
    -- says of the listings. Both throw for the default schema's name. A lookup gives nothing for a
    -- schema or a table that is not listed, and else the columns and the data of the first listed
    -- table of the key. A scan gives nothing for a schema that is not listed, and else entries with
    -- different keys, in the order of the hash map, among which each name finds just that table.
    pub get_table_refines :
        (mode : AccessMode) (rs : List Reading) (schema_name name : Bytes)
        → let c = after_all rs (make_catalog w.name w.path mode w.credentials) in
          (seen_result (get_table k columns y server default_name schema_name name c).0
            ≡ promised_table k columns y server w default_name schema_name name)
          × IsWalked k columns y server w default_name schema_name table_order
              (walk_tables k columns y server default_name table_order schema_name c).0
    get_table_refines mode rs schema_name name =
        let c = after_all rs (make_catalog w.name w.path mode w.credentials) in
        let h =
          after_all-IsConsistent rs (make_catalog w.name w.path mode w.credentials)
            (refl, refl, refl, refl, (tt, inl (refl, refl), tt)) in
        (
          (get_table_consistent k columns y server w default_name served schema_name name c h).0,
          (walk_tables_consistent k columns y server w default_name served schema_name table_order c
              h).0,
        )
