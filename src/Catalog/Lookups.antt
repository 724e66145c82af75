-- ===== src/Catalog/Lookups.antt =====
-- The catalog as a whole against its specification: schemas and tables by name, as a server that does
-- not change lists them.
use uc_catalog.Base.{
  ℕ, ◌≡◌, refl, ap, sym, subst, ◌∙◌, inl, inr, Bool, true, false, Option, none, some, List, [],
  Bytes, equal, if◌then◌else◌, Bool-cases, Option-cases,
}
use uc_catalog.Outcome.{Outcome, ok, throws, undefined, out_of_fuel, invalid_input}
use uc_catalog.Action.{Action}
use uc_catalog.Api.Interface.{Yyjson, Server}
use uc_catalog.CatalogSet.Keys.{KeyEquality}
use uc_catalog.CatalogSet.{Entry, CatalogSet, find_entry}
use uc_catalog.CatalogSet.Invariant.{IsWellFormed}
use uc_catalog.CatalogSet.Promise.{Holds}
use uc_catalog.TableSet.{TableData, Columns}
use uc_catalog.TableSet.Lookup.{seen}
use uc_catalog.SchemaSet.{SchemaData}
use uc_catalog.SchemaSet.Load.{schema_of}
use uc_catalog.SchemaEntry.{table_entry}
use uc_catalog.Catalog.{UcCatalog}
use uc_catalog.Catalog.Pointers.{
  get_entry_of_schema, scan_schema, in_schema, get_table, walk_tables,
}
use uc_catalog.Catalog.Consistent.{
  World, IsServed, IsConsistent, loaded_catalog, listed_info, schema_promise, table_promise,
  ensure_loaded-IsConsistent, tables-Loads,
}
use uc_catalog.Catalog.Reads.{
  find_schema_promised, get_entry_of_schema_promised, loaded_tables, loaded_tables_promised,
  scan_schema_promised, in_schema_cases,
}

-- What a caller sees of a table that was looked up.
abbrev pub seen_result : Outcome (Option (Entry TableData)) → Outcome (Option (Bool × TableData))
seen_result (ok o) = ok (seen o)
seen_result (throws x) = throws x
seen_result undefined = undefined
seen_result out_of_fuel = out_of_fuel

module _ (k : KeyEquality) (columns : Columns) (y : Yyjson) (server : Server) (w : World)
    (default_name : Bytes) where
  -- The specification: no cache, no loading, no pointers. The first schema of the listing with that
  -- key, and in its listing the first table with that key.
  abbrev pub promised_table : Bytes → Bytes → Outcome (Option (Bool × TableData))
  promised_table schema_name name =
      if equal schema_name default_name
      then throws invalid_input
      else elim (schema_promise k columns y server w schema_name) [
        | none ↦ ok none
        | some x ↦ ok (table_promise k columns y server w (listed_info x) name)
      ]

  -- What a scan gives of a schema: entries with different keys, in the order of the hash map, among
  -- which each name finds what the specification says.
  abbrev pub IsWalked :
      Bytes
      → (List (Entry TableData) → List (Entry TableData))
      → Outcome (List (Entry TableData))
      → Type 0
  IsWalked schema_name order r = elim (equal schema_name default_name) [
    | true ↦ r ≡ throws invalid_input
    | false ↦ elim (schema_promise k columns y server w schema_name) [
      | none ↦ r ≡ ok []
      | some x ↦
          (u : CatalogSet TableData) × (r ≡ ok (order u.entries))
          × IsWellFormed k u
          × Holds k seen (table_promise k columns y server w (listed_info x)) u.entries
    ]
  ]

  module _ (served : IsServed k columns y server w) where
    abbrev pub Is : UcCatalog → Type 0
    Is = IsConsistent k columns y server w

    -- The three ways of a call within a schema.
    module _ {A : Type 0} (schema_name : Bytes) (missing : A) (call : ℕ → Action UcCatalog A)
        (c : UcCatalog) (h : Is c) where
      abbrev there : Option (Entry SchemaData)
      there = find_entry k schema_name (loaded_catalog k columns y server w c).schemas.entries

      abbrev made : Outcome A × UcCatalog
      made = in_schema k columns y server default_name schema_name missing call c

      in_schema_default : equal schema_name default_name ≡ true → made ≡ (throws invalid_input, c)
      in_schema_default p =
          in_schema_cases k columns y server w served default_name schema_name missing call c h
          ∙ rw p

      in_schema_missing :
          equal schema_name default_name ≡ false
          → there ≡ none
          → made ≡ (ok missing, loaded_catalog k columns y server w c)
      in_schema_missing p e =
          in_schema_cases k columns y server w served default_name schema_name missing call c h
          ∙ rw p (rw e)

      in_schema_found :
          {e : Entry SchemaData}
          → equal schema_name default_name ≡ false
          → there ≡ some e
          → made ≡ call e.address (loaded_catalog k columns y server w c)
      in_schema_found p e =
          in_schema_cases k columns y server w served default_name schema_name missing call c h
          ∙ rw p (rw e)

    abbrev pub Answers : Bytes → Bytes → Outcome (Option (Entry TableData)) × UcCatalog → Type 0
    Answers schema_name name r = (seen_result r.0 ≡ promised_table schema_name name) × Is r.1

    -- A lookup of a table in a consistent catalog.
    pub get_table_consistent :
        (schema_name name : Bytes) (c : UcCatalog)
        → Is c
        → Answers schema_name name (get_table k columns y server default_name schema_name name c)
    unfolding get_table
    get_table_consistent schema_name name c h =
        let t = loaded_catalog k columns y server w c in
        let (returns, done, here) = ensure_loaded-IsConsistent k columns y server w served c h in
        let promised = (find_schema_promised k columns y server w served schema_name c h).1 in
        let call = get_entry_of_schema k columns y server table_entry name in
        elim (Bool-cases (equal schema_name default_name)) [
          | inl p ↦
              subst (Answers schema_name name) (sym (in_schema_default schema_name none call c h p))
                (rw p, h)
          | inr p ↦ elim (Option-cases (there schema_name none call c h)) [
            | inl e ↦
                let q : schema_promise k columns y server w schema_name ≡ none =
                  sym promised ∙ ap (schema_of k) e in
                subst (Answers schema_name name)
                  (sym (in_schema_missing schema_name none call c h p e)) (rw (p, q), here)
            | inr (e, found) ↦
                let (kept, q, loads) =
                  tables-Loads k columns y server w served t schema_name here done found in
                let read =
                  get_entry_of_schema_promised k columns y server w served t schema_name here done
                    found name in
                let (held, unique, after) =
                  loaded_tables_promised k columns y server w served t schema_name here done
                    found in
                subst (Answers schema_name name)
                  (sym (in_schema_found schema_name none call c h p found ∙ read))
                  (
                    rw (p, q)
                        (ap ok (held name)
                          ∙ ap (λ i. ok (table_promise k columns y server w i name)) kept.0),
                    after,
                  )
          ]
        ]

    -- A scan of a schema in a consistent catalog.
    pub walk_tables_consistent :
        (schema_name : Bytes) (order : List (Entry TableData) → List (Entry TableData))
        (c : UcCatalog)
        → Is c
        → let r = walk_tables k columns y server default_name order schema_name c in
          IsWalked schema_name order r.0 × Is r.1
    unfolding walk_tables
    walk_tables_consistent schema_name order c h =
        let t = loaded_catalog k columns y server w c in
        let (returns, done, here) = ensure_loaded-IsConsistent k columns y server w served c h in
        let promised = (find_schema_promised k columns y server w served schema_name c h).1 in
        let call = scan_schema k columns y server order table_entry in
        elim (Bool-cases (equal schema_name default_name)) [
          | inl p ↦
              subst (λ r. IsWalked schema_name order r.0 × Is r.1)
                (sym (in_schema_default schema_name [] call c h p)) (rw (p, IsWalked) refl, h)
          | inr p ↦ elim (Option-cases (there schema_name [] call c h)) [
            | inl e ↦
                let q : schema_promise k columns y server w schema_name ≡ none =
                  sym promised ∙ ap (schema_of k) e in
                subst (λ r. IsWalked schema_name order r.0 × Is r.1)
                  (sym (in_schema_missing schema_name [] call c h p e))
                  (rw (p, q, IsWalked) refl, here)
            | inr (e, found) ↦
                let (kept, q, loads) =
                  tables-Loads k columns y server w served t schema_name here done found in
                let loaded =
                  loaded_tables k columns y server w served t schema_name here done found in
                let walked =
                  scan_schema_promised k columns y server w served t schema_name here done found
                    order in
                let (held, unique, after) =
                  loaded_tables_promised k columns y server w served t schema_name here done
                    found in
                subst (λ r. IsWalked schema_name order r.0 × Is r.1)
                  (sym (in_schema_found schema_name [] call c h p found ∙ walked))
                  (
                    rw (p, q, IsWalked)
                        (
                          loaded,
                          refl,
                          unique,
                          subst
                              (λ i.
                                Holds k seen (table_promise k columns y server w i) loaded.entries)
                              kept.0 held,
                        ),
                    after,
                  )
          ]
        ]
