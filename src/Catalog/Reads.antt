-- ===== src/Catalog/Reads.antt =====
-- Reading calls on a consistent catalog.
use uc_catalog.Base.{
  ℕ, ◌≡◌, refl, ap, ◌∙◌, inl, inr, true, Option, none, some, List, Bytes, equal, if◌then◌else◌,
  Bool-cases, Option-cases,
}
use uc_catalog.Outcome.{Outcome, ok, throws, invalid_input}
use uc_catalog.Action.{Action, continue}
use uc_catalog.Api.Interface.{Yyjson, Server}
use uc_catalog.CatalogSet.Keys.{KeyEquality}
use uc_catalog.CatalogSet.{CatalogSet, Entry, find_entry, ensure_loaded}
use uc_catalog.CatalogSet.Promise.{Holds, ensure_loaded-Agrees, get_entry-Agrees, scan-Agrees}
use uc_catalog.CatalogSet.Invariant.{IsWellFormed, ensure_loaded-IsWellFormed}
use uc_catalog.TableSet.Listing.{load_tables-IsWellFormed}
use uc_catalog.TableSet.{TableData, Columns}
use uc_catalog.TableSet.Lookup.{seen}
use uc_catalog.SchemaSet.{SchemaData}
use uc_catalog.SchemaSet.Load.{schema_of}
use uc_catalog.SchemaEntry.{table_entry}
use uc_catalog.SchemaEntry
use uc_catalog.SchemaEntry.Views.{get_entry_types}
use uc_catalog.Catalog.{UcCatalog, load_of, or_not_found, find_schema, get_schema}
use uc_catalog.Catalog.Pointers.{
  object_at, put_tables, through, info_of, load_of_tables, get_entry_of_schema, scan_schema,
  in_schema,
}
use uc_catalog.Catalog.Objects.{find_entry-object_at}
use uc_catalog.Catalog.Consistent.{
  World, IsServed, IsConsistent, loaded_catalog, schema_promise, table_promise, schemas-Loads,
  tables-Loads, put_tables-IsConsistent,
}

-- The catalog with other tables in one of its schemas.
abbrev pub placed : UcCatalog → Entry SchemaData → CatalogSet TableData → UcCatalog
placed c e tables = record c {
  schemas = record c.schemas { entries = put_tables e.address tables c.schemas.entries };
}

through_object :
    {A : Type 0} (e : Entry SchemaData) (c : UcCatalog)
    (call : Entry SchemaData → Action (CatalogSet TableData) A) {result : Outcome A}
    {u : CatalogSet TableData}
    → object_at e.address c.schemas.entries ≡ some e
    → call e e.content.tables ≡ (result, u)
    → through e.address call c ≡ (result, placed c e u)
through_object e c call there called = rw (there, through) (rw called)

module _ (k : KeyEquality) (columns : Columns) (y : Yyjson) (server : Server) (w : World)
    (served : IsServed k columns y server w) where
  or_not_found_null :
      (o : Option (Entry SchemaData)) (c : UcCatalog) → or_not_found k y server true o c ≡ (ok o, c)
  or_not_found_null none c = refl
  or_not_found_null (some e) c = refl

  pub find_schema_promised :
      (name : Bytes) (c : UcCatalog)
      → IsConsistent k columns y server w c
      → let t = loaded_catalog k columns y server w c in
        (find_schema k y server name true c ≡ (ok (find_entry k name t.schemas.entries), t))
        × (schema_of k (find_entry k name t.schemas.entries)
            ≡ schema_promise k columns y server w name)
  unfolding find_schema
  find_schema_promised name c h =
      let t = loaded_catalog k columns y server w c in
      let (found, promised, agrees) =
        get_entry-Agrees k (schema_of k) (schema_promise k columns y server w)
          (load_of k y server c) (schemas-Loads k columns y server w served c h) name c.schemas
          h.4.1 in
      (
        ap (λ r. continue (r.0, record c { schemas = r.1 }) (or_not_found k y server true)) found
            ∙ or_not_found_null (find_entry k name t.schemas.entries) t,
        promised,
      )

  module _ (c : UcCatalog) (name : Bytes) {e : Entry SchemaData}
      (h : IsConsistent k columns y server w c) (done : c.schemas.is_loaded ≡ true)
      (found : find_entry k name c.schemas.entries ≡ some e) where
    abbrev tables_load : Action (CatalogSet TableData) (Unit {0})
    tables_load = load_of_tables k columns y server c e

    -- The tables once they are loaded.
    abbrev pub loaded_tables : CatalogSet TableData
    loaded_tables = (ensure_loaded tables_load e.content.tables).1

    -- They hold what the listing promises, each under one key, and may be put in place.
    pub loaded_tables_promised :
        Holds k seen (table_promise k columns y server w (info_of e)) loaded_tables.entries
        × IsWellFormed k loaded_tables
        × IsConsistent k columns y server w (placed c e loaded_tables)
    loaded_tables_promised =
        let (kept, promised, loads) =
          tables-Loads k columns y server w served c name h done found in
        let (returns, full, held) =
          ensure_loaded-Agrees k seen (table_promise k columns y server w (info_of e)) tables_load
            loads e.content.tables kept.1 in
        let unique =
          ensure_loaded-IsWellFormed k tables_load
            (load_tables-IsWellFormed k columns y server c.internal_name c.credentials (info_of e))
            e.content.tables kept.2 in
        (
          held,
          unique,
          put_tables-IsConsistent k columns y server w c name e loaded_tables h found kept
              (inr (full, held)) unique,
        )

    pub get_entry_of_schema_promised :
        (table : Bytes)
        → get_entry_of_schema k columns y server table_entry table e.address c
          ≡ (ok (find_entry k table loaded_tables.entries), placed c e loaded_tables)
    unfolding get_entry_of_schema
    get_entry_of_schema_promised table =
        let (kept, promised, loads) =
          tables-Loads k columns y server w served c name h done found in
        let (read, seen_there, agrees) =
          get_entry-Agrees k seen (table_promise k columns y server w (info_of e)) tables_load loads
            table e.content.tables kept.1 in
        through_object e c
          (λ x. SchemaEntry.get_entry (load_of_tables k columns y server c x) k table_entry table)
          (find_entry-object_at k c.schemas.allocated name c.schemas.entries h.4.0 found)
          ((get_entry_types tables_load k table e.content.tables).3 ∙ read)

    pub scan_schema_promised :
        (order : List (Entry TableData) → List (Entry TableData))
        → scan_schema k columns y server order table_entry e.address c
          ≡ (ok (order loaded_tables.entries), placed c e loaded_tables)
    unfolding scan_schema SchemaEntry.scan
    scan_schema_promised order =
        let (kept, promised, loads) =
          tables-Loads k columns y server w served c name h done found in
        let (walked, agrees) =
          scan-Agrees k seen (table_promise k columns y server w (info_of e)) tables_load loads
            order e.content.tables kept.1 in
        through_object e c
          (λ x. SchemaEntry.scan (load_of_tables k columns y server c x) order table_entry)
          (find_entry-object_at k c.schemas.allocated name c.schemas.entries h.4.0 found) walked

  -- A schema that is not named like the default one is looked up, and the call is made on it.
  pub in_schema_cases :
      {A : Type 0} (default_name name : Bytes) (missing : A) (call : ℕ → Action UcCatalog A)
      (c : UcCatalog)
      → IsConsistent k columns y server w c
      → let t = loaded_catalog k columns y server w c in
        in_schema k columns y server default_name name missing call c ≡ (
          if equal name default_name
          then (throws invalid_input, c)
          else elim (find_entry k name t.schemas.entries) [
            | none ↦ (ok missing, t)
            | some e ↦ call e.address t
          ])
  unfolding in_schema get_schema
  in_schema_cases default_name name missing call c h = elim (Bool-cases (equal name default_name)) [
    | inl p ↦ rw (p, h.3)
    | inr p ↦
        rw (p, (find_schema_promised name c h).0)
          (elim (Option-cases
            (find_entry k name (loaded_catalog k columns y server w c).schemas.entries)) [
              | inl e ↦ rw e
              | inr (x, e) ↦ rw e
            ])
  ]
