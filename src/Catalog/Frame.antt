-- ===== src/Catalog/Frame.antt =====
-- Calls on one schema, and the other schemas.
use uc_catalog.Base.{
  ℕ, ◌≡◌, ◌≢◌, refl, inl, inr, false, List, [], ◌∷◌, Bytes, ◌==◌, Bool-cases, arith, Option-cases,
}
use uc_catalog.Action.{Action}
use uc_catalog.Api.Interface.{Yyjson, Server}
use uc_catalog.CatalogSet.Keys.{KeyEquality}
use uc_catalog.CatalogSet.{Entry, CatalogSet}
use uc_catalog.TableSet.{TableData, Columns}
use uc_catalog.SchemaSet.{SchemaData}
use uc_catalog.SchemaEntry
use uc_catalog.SchemaEntry.{CatalogType}
use uc_catalog.Catalog.{UcCatalog}
use uc_catalog.Catalog.Pointers.{
  object_at, put_tables, through, load_of_tables, get_entry_of_schema, scan_schema,
}

object_at-put_tables :
    (a b : ℕ) (tables : CatalogSet TableData) (es : List (Entry SchemaData))
    → a ≢ b
    → object_at b (put_tables a tables es) ≡ object_at b es
object_at-put_tables a b tables [] apart = refl
object_at-put_tables a b tables (e ∷ es) apart =
    let rest = object_at-put_tables a b tables es apart in
    elim (Bool-cases (e.address == a)) [
      | inl here ↦
          let elsewhere : (e.address == b) ≡ false = ground arith in rw (here, elsewhere) refl
      | inr more ↦ rw (more, rest) refl
    ]

through-object_at :
    {A : Type 0} (a b : ℕ) (call : Entry SchemaData → Action (CatalogSet TableData) A)
    (c : UcCatalog)
    → a ≢ b
    → object_at b (through a call c).1.schemas.entries ≡ object_at b c.schemas.entries
through-object_at a b call c apart = elim (Option-cases (object_at a c.schemas.entries)) [
  | inl gone ↦ rw (gone, through) refl
  | inr (e, there) ↦
      rw (there, through)
        (object_at-put_tables a b (call e e.content.tables).1 c.schemas.entries apart)
]

-- A lookup or a scan in one schema leaves every other schema object of the catalog as it is, with its
-- tables, whatever the call ends with.
pub get_entry_of_schema-object_at :
    (k : KeyEquality) (columns : Columns) (y : Yyjson) (server : Server)
    (order : List (Entry TableData) → List (Entry TableData)) (type : CatalogType) (name : Bytes)
    (a b : ℕ) (c : UcCatalog)
    → a ≢ b
    → let other = object_at b c.schemas.entries in
      (object_at b (get_entry_of_schema k columns y server type name a c).1.schemas.entries ≡ other)
      × (object_at b (scan_schema k columns y server order type a c).1.schemas.entries ≡ other)
unfolding get_entry_of_schema scan_schema
get_entry_of_schema-object_at k columns y server order type name a b c apart = (
  through-object_at a b
      (λ e. SchemaEntry.get_entry (load_of_tables k columns y server c e) k type name) c apart,
  through-object_at a b (λ e. SchemaEntry.scan (load_of_tables k columns y server c e) order type) c
      apart,
)
