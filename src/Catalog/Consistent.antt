-- ===== src/Catalog/Consistent.antt =====
-- A catalog as the cache of a server that does not change.
use uc_catalog.Base.{
  ℕ, ◌≡◌, refl, ap, sym, subst, ◌∙◌, inl, inr, Bool, true, Bool-cases, Option, none, some, List, [],
  ◌∷◌, Bytes,
}
use uc_catalog.Outcome.{ok}
use uc_catalog.Api.Interface.{Yyjson, Server}
use uc_catalog.Api.{UcCredentials, UcapiSchema, UcapiTable, get_schemas, get_tables}
use uc_catalog.CatalogSet.Keys.{KeyEquality}
use uc_catalog.CatalogSet.{CatalogSet, Entry, find_entry, ensure_loaded}
use uc_catalog.CatalogSet.Cache.{marked, ensure_loaded_done, ensure_loaded_first}
use uc_catalog.CatalogSet.Invariant.{IsWellFormed, ensure_loaded-IsWellFormed}
use uc_catalog.CatalogSet.All.{All}
use uc_catalog.CatalogSet.Promise.{Loads, Agrees, ensure_loaded-Agrees}
use uc_catalog.TableSet.{TableData, SchemaInfo, Columns}
use uc_catalog.TableSet.Lookup.{seen, AreListed, first_table}
use uc_catalog.TableSet.Listing.{load_tables-Loads}
use uc_catalog.SchemaSet.{SchemaData, is_internal_table}
use uc_catalog.SchemaSet.Load.{
  schema_of, first_schema, AreNamed, schema_entry, load_schemas-IsWellFormed,
}
use uc_catalog.SchemaSet.Listing.{load_schemas-All, load_schemas-Loads}
use uc_catalog.Catalog.{UcCatalog, load_of}
use uc_catalog.Catalog.Pointers.{put_tables, info_of, load_of_tables}
use uc_catalog.Catalog.Objects.{
  find_entry-object_at, All-find_entry, All-put_tables, schema_of-put_tables, put_tables-AreFiled,
}

-- What the set of the tables reads of a schema in the listing.
abbrev pub listed_info : UcapiSchema → SchemaInfo
listed_info x = record {
  name = x.schema_name;
  is_internal = is_internal_table x.catalog_name x.schema_name;
}

-- The server: what it lists for a catalog and for each schema of it, and to whom.
pub record World : Type 0 where
  pub name : Bytes
  pub path : Bytes
  pub credentials : UcCredentials
  pub schemas : List UcapiSchema
  pub tables : Bytes → List UcapiTable

module _ (k : KeyEquality) (columns : Columns) (y : Yyjson) (server : Server) (w : World) where
  -- The server lists for each of the schemas tables that can all be read.
  abbrev pub AreServed : List UcapiSchema → Type 0
  AreServed [] = Unit {0}
  AreServed (x ∷ xs) =
      (get_tables y server w.path x.schema_name w.credentials ≡ ok (w.tables x.schema_name))
      × AreListed columns (w.tables x.schema_name)
      × AreServed xs

  abbrev pub IsServed : Type 0
  IsServed =
      (get_schemas y server w.name w.credentials ≡ ok w.schemas)
      × AreNamed k w.schemas
      × AreServed w.schemas

  first_schema-Served :
      (name : Bytes) (xs : List UcapiSchema) {x : UcapiSchema}
      → AreServed xs
      → first_schema k name xs ≡ some x
      → (get_tables y server w.path x.schema_name w.credentials ≡ ok (w.tables x.schema_name))
        × AreListed columns (w.tables x.schema_name)
  first_schema-Served name [] served h = cc
  first_schema-Served name (z ∷ xs) {x} served h =
      elim (Bool-cases (k.same_key z.schema_name name)) [
        | inl p ↦
            subst
              (λ o. elim o [
                | some v ↦
                    (get_tables y server w.path v.schema_name w.credentials
                      ≡ ok (w.tables v.schema_name))
                    × AreListed columns (w.tables v.schema_name)
                | none ↦ Unit {0}
              ])
              (rw p at h) (served.0, served.1)
        | inr p ↦ first_schema-Served name xs served.2 (rw p at h)
      ]

  abbrev pub table_promise : SchemaInfo → Bytes → Option (Bool × TableData)
  table_promise info name = first_table k columns info name (w.tables info.name)

  -- An entry of the catalog is what the listing says, and its tables keep their promise, each under
  -- one key.
  abbrev pub Kept : Entry SchemaData → Type 0
  Kept e =
      (info_of e ≡ listed_info e.content.schema_data)
      × Agrees k seen (table_promise (info_of e)) e.content.tables
      × IsWellFormed k e.content.tables

  abbrev pub schema_promise : Bytes → Option UcapiSchema
  schema_promise name = first_schema k name w.schemas

  abbrev SetIsConsistent : CatalogSet SchemaData → Type 0
  SetIsConsistent s =
      IsWellFormed k s × Agrees k (schema_of k) schema_promise s × All Kept s.entries

  -- The catalog is attached to this server, without a default schema, and its sets keep what the
  -- listings of the server promise.
  abbrev pub IsConsistent : UcCatalog → Type 0
  IsConsistent c =
      (c.name ≡ w.name)
      × (c.internal_name ≡ w.path)
      × (c.credentials ≡ w.credentials)
      × (c.default_schema ≡ [])
      × SetIsConsistent c.schemas

  abbrev pub loaded_catalog : UcCatalog → UcCatalog
  loaded_catalog c = record c { schemas = (ensure_loaded (load_of k y server c) c.schemas).1 }

  module _ (served : IsServed) where
    pub schemas-Loads :
        (c : UcCatalog)
        → IsConsistent c
        → Loads k (schema_of k) schema_promise (load_of k y server c)
    schemas-Loads c h =
        load_schemas-Loads k y server c.name c.credentials w.schemas
          (subst (λ n. get_schemas y server n c.credentials ≡ ok w.schemas) (sym h.0)
            (subst (λ r. get_schemas y server w.name r ≡ ok w.schemas) (sym h.2) served.0))
          served.1

    fresh-Kept : (x : UcapiSchema) (n : ℕ) → Kept (schema_entry x n)
    fresh-Kept x n = (refl, inl (refl, refl), tt)

    -- The first access fills the set, and keeps the catalog consistent.
    pub ensure_loaded-IsConsistent :
        (c : UcCatalog)
        → IsConsistent c
        → ((ensure_loaded (load_of k y server c) c.schemas).0 ≡ ok tt)
          × ((loaded_catalog c).schemas.is_loaded ≡ true)
          × IsConsistent (loaded_catalog c)
    ensure_loaded-IsConsistent c h =
        let load = load_of k y server c in
        let (formed, agrees, kept) = h.4 in
        let (returns, done, held) =
          ensure_loaded-Agrees k (schema_of k) schema_promise load (schemas-Loads c h) c.schemas
            agrees in
        let all : All Kept (ensure_loaded load c.schemas).1.entries =
          elim (Bool-cases c.schemas.is_loaded) [
            | inl loaded ↦ rw (ensure_loaded_done load c.schemas loaded) kept
            | inr fresh ↦ rw (ensure_loaded_first load c.schemas fresh) (
                load_schemas-All k y server c.name c.credentials Kept fresh-Kept (marked c.schemas)
                  kept)
          ] in
        (
          returns,
          done,
          (
            h.0,
            h.1,
            h.2,
            h.3,
            (
              ensure_loaded-IsWellFormed k load
                  (load_schemas-IsWellFormed k y server c.name c.credentials) c.schemas formed,
              inr (done, held),
              all,
            ),
          ),
        )

    -- A schema of the catalog has a load that brings in what the server lists for it.
    pub tables-Loads :
        (c : UcCatalog) (name : Bytes) {e : Entry SchemaData}
        → IsConsistent c
        → c.schemas.is_loaded ≡ true
        → find_entry k name c.schemas.entries ≡ some e
        → Kept e
          × (schema_promise name ≡ some e.content.schema_data)
          × Loads k seen (table_promise (info_of e)) (load_of_tables k columns y server c e)
    tables-Loads c name {e} h done found =
        let (formed, agrees, all) = h.4 in
        let kept =
          All-find_entry k Kept c.schemas.allocated name c.schemas.entries formed all found in
        let held : schema_promise name ≡ schema_of k (find_entry k name c.schemas.entries) =
          elim agrees [
            | inl (fresh, nothing) ↦ cc
            | inr (loaded, promised) ↦ sym (promised name)
          ] in
        let promised = held ∙ ap (schema_of k) found in
        let (listed, readable) = first_schema-Served name w.schemas served.2 promised in
        let same : e.content.schema_data.schema_name ≡ e.name = sym (ap (λ i. i.name) kept.0) in
        (
          kept,
          promised,
          load_tables-Loads k columns y server c.internal_name c.credentials (info_of e)
              (w.tables e.name)
              (subst (λ p. get_tables y server p e.name c.credentials ≡ ok (w.tables e.name))
                (sym h.1)
                (subst (λ r. get_tables y server w.path e.name r ≡ ok (w.tables e.name)) (sym h.2)
                  (subst (λ n. get_tables y server w.path n w.credentials ≡ ok (w.tables n)) same
                    listed)))
              (subst (λ n. AreListed columns (w.tables n)) same readable),
        )

  -- Tables that keep the promise of their schema may be put in place.
  pub put_tables-IsConsistent :
      (c : UcCatalog) (name : Bytes) (e : Entry SchemaData) (tables : CatalogSet TableData)
      → IsConsistent c
      → find_entry k name c.schemas.entries ≡ some e
      → Kept e
      → Agrees k seen (table_promise (info_of e)) tables
      → IsWellFormed k tables
      → IsConsistent (record c {
        schemas = record c.schemas { entries = put_tables e.address tables c.schemas.entries };
      })
  put_tables-IsConsistent c name e tables h found kept agrees unique =
      let (formed, promised, all) = h.4 in
      let es = c.schemas.entries in
      (
        h.0,
        h.1,
        h.2,
        h.3,
        (
          put_tables-AreFiled k c.schemas.allocated e.address tables es formed,
          elim promised [
            | inl (fresh, nothing) ↦ inl (fresh, ap (put_tables e.address tables) nothing)
            | inr (done, held) ↦
                inr (done, λ n. schema_of-put_tables k e.address tables n es ∙ held n)
          ],
          All-put_tables Kept e.address tables es all
              (find_entry-object_at k c.schemas.allocated name es formed found)
              (kept.0, agrees, unique),
        ),
      )
