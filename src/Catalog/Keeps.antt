-- ===== src/Catalog/Keeps.antt =====
-- Histories of calls that each meet the server in another state, and what such calls keep.
use uc_catalog.Base.{
  sym, subst, Bool, true, false, Option, none, some, List, [], ◌∷◌, Bytes, equal, inl, inr,
  Option-cases, ℕ, if◌then◌else◌, is_empty, zero, suc, ◌≡◌,
}
use uc_catalog.Outcome.{Outcome}
use uc_catalog.Action.{Action, pure, continue_keeps}
use uc_catalog.Api.Interface.{Yyjson, Server}
use uc_catalog.CatalogSet
use uc_catalog.CatalogSet.Keys.{KeyEquality}
use uc_catalog.CatalogSet.{Entry, CatalogSet, ensure_loaded}
use uc_catalog.CatalogSet.Cache.{get_entry_state, scan_state}
use uc_catalog.TableSet.{TableData, Columns}
use uc_catalog.SchemaSet.{SchemaData}
use uc_catalog.Catalog.{
  UcCatalog, load_of, on_schemas, or_not_found, find_schema, get_schema, scan_schemas, clear_cache,
}
use uc_catalog.Catalog.Pointers.{
  object_at, put_tables, through, load_of_tables, get_entry_of_schema, scan_schema, in_schema,
  get_table, walk_tables,
}
use uc_catalog.SchemaEntry.{table_entry}
use uc_catalog.SchemaEntry
use uc_catalog.Catalog.Refines.{
  Reading, finds_schema, finds_table, walks_schemas, walks_tables, clears, after,
}

module _ (k : KeyEquality) (columns : Columns) (y : Yyjson) (default_name : Bytes)
    (schema_order : List (Entry SchemaData) → List (Entry SchemaData))
    (table_order : List (Entry TableData) → List (Entry TableData)) where
  -- The catalog behind the calls.
  pub after_changes : List (Server × Reading) → UcCatalog → UcCatalog
  after_changes [] c = c
  after_changes ((server, r) ∷ rs) c =
      after_changes rs (after k columns y default_name schema_order table_order server r c)

  -- The tables of a schema behind the first access.
  abbrev pub loaded_tables : Server → UcCatalog → Entry SchemaData → CatalogSet TableData
  loaded_tables server c x =
      (ensure_loaded (load_of_tables k columns y server c x) x.content.tables).1

  -- A property that a load of the schemas, a load of the tables of a schema, and a clear keep.
  module _ (P : UcCatalog → Type 0)
      (loaded : (server : Server) (c : UcCatalog)
        → P c
        → P (record c { schemas = (ensure_loaded (load_of k y server c) c.schemas).1 }))
      (put : (server : Server) (a : ℕ) (x : Entry SchemaData) (c : UcCatalog)
        → P c
        → object_at a c.schemas.entries ≡ some x
        → P (record c {
          schemas = record c.schemas {
            entries = put_tables a (loaded_tables server c x) c.schemas.entries;
          };
        }))
      (cleared : (c : UcCatalog) → P c → P (clear_cache c)) where
    through_keeps :
        {A : Type 0} (server : Server) (a : ℕ)
        (call : Entry SchemaData → Action (CatalogSet TableData) A) (c : UcCatalog)
        → ((x : Entry SchemaData) → (call x x.content.tables).1 ≡ loaded_tables server c x)
        → P c
        → P (through a call c).1
    through_keeps server a call c loads h = elim (Option-cases (object_at a c.schemas.entries)) [
      | inl e ↦ rw (e, through) h
      | inr (x, e) ↦ rw (e, through) (rw (loads x) (put server a x c h e))
    ]

    if_keeps :
        {A : Type 0} (b : Bool) (r s : Outcome A × UcCatalog)
        → P r.1
        → P s.1
        → P (if b then r else s).1
    if_keeps true r s h g = h
    if_keeps false r s h g = g

    module _ (server : Server) where
      find_schema_keeps :
          (name : Bytes) (null : Bool) (c : UcCatalog)
          → P c
          → P (find_schema k y server name null c).1
      unfolding find_schema
      find_schema_keeps name null c h =
          continue_keeps P (on_schemas (CatalogSet.get_entry k (load_of k y server c) name) c)
            (or_not_found k y server null)
            (subst (λ s. P (record c { schemas = s }))
              (sym (get_entry_state k (load_of k y server c) name c.schemas)) (loaded server c h))
            (or_not_found_keeps null)
        where
          or_not_found_keeps :
              (n : Bool) (o : Option (Entry SchemaData)) (d : UcCatalog)
              → P d
              → P (or_not_found k y server n o d).1
          or_not_found_keeps n (some e) d g = g
          or_not_found_keeps true none d g = g
          or_not_found_keeps false none d g = g

      get_schema_keeps :
          (fuel : ℕ) (name : Bytes) (null : Bool) (c : UcCatalog)
          → P c
          → P (get_schema k y server default_name fuel name null c).1
      unfolding get_schema
      get_schema_keeps zero name null c h = h
      get_schema_keeps (suc fuel) name null c h =
          if_keeps (equal name default_name) _ _
            (if_keeps (is_empty c.default_schema) _ _ h
              (get_schema_keeps fuel c.default_schema null c h))
            (find_schema_keeps name null c h)

      in_schema_keeps :
          {A : Type 0} (name : Bytes) (missing : A) (call : ℕ → Action UcCatalog A) (c : UcCatalog)
          → ((a : ℕ) (d : UcCatalog) → P d → P (call a d).1)
          → P c
          → P (in_schema k columns y server default_name name missing call c).1
      unfolding in_schema
      in_schema_keeps {A} name missing call c keeps h =
          continue_keeps P (get_schema k y server default_name 2 name true c)
            (λ (schema : Option (Entry SchemaData)). elim schema [
              | none ↦ pure missing
              | some e ↦ call e.address
            ])
            (get_schema_keeps 2 name true c h) kept
        where
          kept :
              (o : Option (Entry SchemaData)) (d : UcCatalog)
              → P d
              → P
                  (elim o as (λ _. Action UcCatalog A) [
                    | none ↦ pure missing
                    | some e ↦ call e.address
                  ]
                    d).1
          kept none d g = g
          kept (some e) d g = keeps e.address d g

      after_keeps :
          (r : Reading) (c : UcCatalog)
          → P c
          → P (after k columns y default_name schema_order table_order server r c)
      unfolding after get_table walk_tables scan_schemas get_entry_of_schema scan_schema
      after_keeps (finds_schema name null) c h = get_schema_keeps 2 name null c h
      after_keeps (finds_table schema_name name) c h =
          in_schema_keeps schema_name none (get_entry_of_schema k columns y server table_entry name)
            c
            (λ a d g.
              through_keeps server a
                (λ e.
                  SchemaEntry.get_entry (load_of_tables k columns y server d e) k table_entry name)
                d
                (λ x.
                  get_entry_state k (load_of_tables k columns y server d x) name x.content.tables)
                g)
            h
      after_keeps walks_schemas c h =
          subst (λ s. P (record c { schemas = s }))
            (sym (scan_state (load_of k y server c) schema_order c.schemas)) (loaded server c h)
      after_keeps (walks_tables schema_name) c h =
          in_schema_keeps schema_name [] (scan_schema k columns y server table_order table_entry) c
            (λ a d g.
              through_keeps server a
                (λ e.
                  SchemaEntry.scan (load_of_tables k columns y server d e) table_order table_entry)
                d
                (λ x.
                  scan_state (load_of_tables k columns y server d x) table_order x.content.tables)
                g)
            h
      after_keeps clears c h = cleared c h

    pub after_changes_keeps :
        (rs : List (Server × Reading)) (c : UcCatalog) → P c → P (after_changes rs c)
    unfolding after_changes
    after_changes_keeps [] c h = h
    after_changes_keeps ((server, r) ∷ rs) c h = after_changes_keeps rs _ (after_keeps server r c h)
