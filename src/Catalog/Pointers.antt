-- ===== src/Catalog/Pointers.antt =====
-- Calls through a pointer to a schema. `UCCatalog::GetSchema` gives DuckDB a pointer to an entry that
-- the catalog's set owns; a call on it works on the tables of that entry, in place.
use uc_catalog.Base.{ℕ, Option, none, some, List, [], ◌∷◌, Bytes, ◌==◌, if◌then◌else◌, true}
use uc_catalog.Outcome.{undefined}
use uc_catalog.Action.{Action, pure, ◌>>=◌}
use uc_catalog.Api.Interface.{Yyjson, Server}
use uc_catalog.CatalogSet.Keys.{KeyEquality}
use uc_catalog.CatalogSet.{Entry, CatalogSet}
use uc_catalog.TableSet.{TableData, SchemaInfo, Columns, load_tables}
use uc_catalog.SchemaSet.{SchemaData}
use uc_catalog.SchemaEntry
use uc_catalog.SchemaEntry.{CatalogType, table_entry}
use uc_catalog.Catalog.{UcCatalog, get_schema}

-- The object at an address, among those that the set owns.
abbrev pub object_at : {D : Type 0} → ℕ → List (Entry D) → Option (Entry D)
object_at a [] = none
object_at a (e ∷ es) = if e.address == a then some e else object_at a es

abbrev pub put_tables : ℕ → CatalogSet TableData → List (Entry SchemaData) → List (Entry SchemaData)
put_tables a tables [] = []
put_tables a tables (e ∷ es) =
    if e.address == a
    then record e { content = record e.content { tables = tables } } ∷ es
    else e ∷ put_tables a tables es

-- A call through the pointer; the object may be gone.
abbrev pub through :
    {A : Type 0} → ℕ → (Entry SchemaData → Action (CatalogSet TableData) A) → Action UcCatalog A
through a call c = elim (object_at a c.schemas.entries) [
  | none ↦ (undefined, c)
  | some e ↦
      let (result, tables) = call e e.content.tables in
      (
        result,
        record c { schemas = record c.schemas { entries = put_tables a tables c.schemas.entries } },
      )
]

-- What the set of the tables reads of its schema.
abbrev pub info_of : Entry SchemaData → SchemaInfo
info_of e = record { name = e.name; is_internal = e.is_internal }

module _ (k : KeyEquality) (columns : Columns) (y : Yyjson) (server : Server) where
  -- `UCTableSet::LoadEntries` of a schema in the catalog.
  abbrev pub load_of_tables :
      UcCatalog → Entry SchemaData → Action (CatalogSet TableData) (Unit {0})
  load_of_tables c e = load_tables k columns y server c.internal_name c.credentials (info_of e)

  -- `GetEntry` and `Scan` on the schema at an address.
  unfoldable pub get_entry_of_schema :
      CatalogType → Bytes → ℕ → Action UcCatalog (Option (Entry TableData))
  unfolding SchemaEntry.get_entry
  get_entry_of_schema type name a c =
      through a (λ e. SchemaEntry.get_entry (load_of_tables c e) k type name) c

  unfoldable pub scan_schema :
      (List (Entry TableData) → List (Entry TableData))
      → CatalogType
      → ℕ
      → Action UcCatalog (List (Entry TableData))
  unfolding SchemaEntry.scan
  scan_schema bucket_order type a c =
      through a (λ e. SchemaEntry.scan (load_of_tables c e) bucket_order type) c

  -- The two calls for a name within a schema: `GetSchema`, and a call on what it gives.
  unfoldable pub in_schema :
      {A : Type 0} → Bytes → Bytes → A → (ℕ → Action UcCatalog A) → Action UcCatalog A
  unfolding get_schema
  in_schema default_name schema_name missing call = do
    schema ← get_schema k y server default_name 2 schema_name true
    elim schema [ none ↦ pure missing | some e ↦ call e.address ]

  -- What stands behind `schema.table`.
  unfoldable pub get_table : Bytes → Bytes → Bytes → Action UcCatalog (Option (Entry TableData))
  unfolding in_schema get_entry_of_schema
  get_table default_name schema_name name =
      in_schema default_name schema_name none (get_entry_of_schema table_entry name)

  -- The tables of a schema.
  unfoldable pub walk_tables :
      Bytes
      → (List (Entry TableData) → List (Entry TableData))
      → Bytes
      → Action UcCatalog (List (Entry TableData))
  unfolding in_schema scan_schema
  walk_tables default_name bucket_order schema_name =
      in_schema default_name schema_name [] (scan_schema bucket_order table_entry)
