-- ===== src/TableSet/Lookup.antt =====
-- The tables of a listing that can all be read: what each lookup finds behind the load of them.
use uc_catalog.Base.{
  suc, ◌∙◌, ◌≡◌, Bool, false, Option, none, some, List, [], ◌∷◌, Bytes, is_empty, if◌then◌else◌,
  arith,
}
use uc_catalog.Outcome.{ok}
use uc_catalog.Api.{UcapiTable}
use uc_catalog.CatalogSet.Keys.{KeyEquality}
use uc_catalog.CatalogSet.{
  CatalogSet, Entry, find_entry, insert_entry, create_entry, create_entry_in_schema,
}
use uc_catalog.CatalogSet.Entries.{find_entry-insert_entry}
use uc_catalog.TableSet.{TableData, SchemaInfo, Column, Columns, add_columns, create_tables}

-- What a caller sees behind a pointer to a table.
abbrev pub seen : Option (Entry TableData) → Option (Bool × TableData)
seen none = none
seen (some e) = some (e.is_internal, e.content)

abbrev pub seen_or :
    Option (Entry TableData) → Option (Bool × TableData) → Option (Bool × TableData)
seen_or none other = other
seen_or (some e) other = some (e.is_internal, e.content)

-- Every table has a name, and columns that can be read.
abbrev pub AreListed : Columns → List UcapiTable → Type 0
AreListed c [] = Unit {0}
AreListed c (x ∷ xs) =
    (is_empty x.name ≡ false)
    × ((columns : List Column) × (add_columns c [] x.columns ≡ ok columns))
    × AreListed c xs

-- What a table of the listing is to the catalog.
abbrev pub table_of : Columns → SchemaInfo → UcapiTable → Option (Bool × TableData)
table_of c schema x = elim (add_columns c [] x.columns) [
  | ok columns ↦ some (schema.is_internal, record { columns = columns; table_data = x })
  | _ ↦ none
]

-- The first table of a listing whose name has the key.
abbrev pub first_table :
    KeyEquality → Columns → SchemaInfo → Bytes → List UcapiTable → Option (Bool × TableData)
first_table k c schema name [] = none
first_table k c schema name (x ∷ xs) =
    if k.same_key x.name name then table_of c schema x else first_table k c schema name xs

module _ (k : KeyEquality) (c : Columns) (schema : SchemaInfo) where
  -- Filing a listing whose tables have names and readable columns succeeds. Under each name stands
  -- what stood there before, or else the first table of the listing with that key, with its columns
  -- read, and internal exactly if its schema is.
  pub create_tables_lookup :
      (tables : List UcapiTable) (s : CatalogSet TableData) (name : Bytes)
      → AreListed c tables
      → ((create_tables k c schema tables s).0 ≡ ok tt)
        × (seen (find_entry k name (create_tables k c schema tables s).1.entries)
            ≡ seen_or (find_entry k name s.entries) (first_table k c schema name tables))
  unfolding create_tables create_entry_in_schema create_entry
  create_tables_lookup [] s name listed = ground arith
  create_tables_lookup (x ∷ xs) s name listed =
      let (columns, read) = listed.1 in
      let e : Entry TableData = record {
        address = s.allocated;
        name = x.name;
        is_internal = schema.is_internal;
        content = record { columns = columns; table_data = x };
      } in
      let after = record s { allocated = suc s.allocated; entries = insert_entry k e s.entries } in
      let rest = create_tables_lookup xs after name listed.2 in
      rw (read, listed.0)
        (rest.0, rest.1 ∙ ground (arith, find_entry-insert_entry k name e s.entries))
