-- ===== src/Catalog/Default.antt =====
-- The default schema: the calls that `GetSchema` makes of itself, and histories of calls.
use uc_catalog.Base.{
  ℕ, suc, ◌≡◌, refl, Bool, true, false, Option, none, some, List, [], ◌∷◌, Bytes, equal, is_empty,
  if◌then◌else◌, equal_iff, arith,
}
use uc_catalog.Outcome.{throws, invalid_input}
use uc_catalog.Action.{continue_keeps}
use uc_catalog.Api.Interface.{Yyjson, Server}
use uc_catalog.CatalogSet.Keys.{KeyEquality}
use uc_catalog.CatalogSet.{Entry, get_entry}
use uc_catalog.SchemaSet.{SchemaData}
use uc_catalog.SchemaEntry.{OnCreateConflict}
use uc_catalog.Api.{UcCredentials}
use uc_catalog.Transactions.{AccessMode}
use uc_catalog.Catalog.{
  UcCatalog, make_catalog, on_schemas, load_of, or_not_found, create_schema, drop_schema,
  clear_cache, get_database_size, scan_schemas, find_schema, get_schema,
}

-- The calls on a catalog.
pub data CatalogCall : Type 0 where
  looks_up : Server → Bytes → Bool → CatalogCall
  scans : Server → CatalogCall
  creates : OnCreateConflict → Bytes → CatalogCall
  drops : Bytes → CatalogCall
  clears measures : CatalogCall

module _ (k : KeyEquality) (y : Yyjson) (default_name : Bytes)
    (bucket_order : List (Entry SchemaData) → List (Entry SchemaData)) where
  -- Two units of fuel are enough for `GetSchema`, unless the default schema is itself called
  -- `DEFAULT_SCHEMA`: with two or more, the default name looks up the default schema, or throws
  -- where there is none, and every other name is looked up as it is.
  pub get_schema_fuel :
      (server : Server) (fuel : ℕ) (schema_name : Bytes) (return_null : Bool) (c : UcCatalog)
      → equal c.default_schema default_name ≡ false
      → get_schema k y server default_name (suc (suc fuel)) schema_name return_null c ≡ (
          if equal schema_name default_name
          then (if is_empty c.default_schema
              then (throws invalid_input, c)
              else find_schema k y server c.default_schema return_null c)
          else find_schema k y server schema_name return_null c)
  unfolding get_schema
  get_schema_fuel server fuel schema_name return_null c apart = rw apart

  -- The state behind a call, with two units of fuel for each lookup.
  pub step : CatalogCall → UcCatalog → UcCatalog
  step (looks_up server name return_null) c =
      (get_schema k y server default_name 2 name return_null c).1
  step (scans server) c = (scan_schemas k y server bucket_order c).1
  step (creates on_conflict name) c = (create_schema on_conflict name c).1
  step (drops name) c = (drop_schema name c).1
  step clears c = clear_cache c
  step measures c = (get_database_size c).1

  pub run : List CatalogCall → UcCatalog → UcCatalog
  run [] c = c
  run (call ∷ calls) c = run calls (step call c)

  abbrev HasNoDefault : UcCatalog → Type 0
  HasNoDefault c = c.default_schema ≡ []

  or_not_found-HasNoDefault :
      (server : Server) (return_null : Bool) (o : Option (Entry SchemaData)) (c : UcCatalog)
      → HasNoDefault c
      → HasNoDefault (or_not_found k y server return_null o c).1
  or_not_found-HasNoDefault server return_null (some e) c h = h
  or_not_found-HasNoDefault server true none c h = h
  or_not_found-HasNoDefault server false none c h = h

  find_schema-HasNoDefault :
      (server : Server) (name : Bytes) (return_null : Bool) (c : UcCatalog)
      → HasNoDefault c
      → HasNoDefault (find_schema k y server name return_null c).1
  unfolding find_schema
  find_schema-HasNoDefault server name return_null c h =
      continue_keeps HasNoDefault (on_schemas (get_entry k (load_of k y server c) name) c)
        (or_not_found k y server return_null) h (or_not_found-HasNoDefault server return_null)

  step-HasNoDefault :
      (call : CatalogCall) (c : UcCatalog) → HasNoDefault c → HasNoDefault (step call c)
  unfolding step get_schema scan_schemas create_schema drop_schema clear_cache get_database_size
  step-HasNoDefault (looks_up server name return_null) c h =
      ground (arith, find_schema-HasNoDefault server name return_null c h)
  step-HasNoDefault (scans server) c h = h
  step-HasNoDefault (creates on_conflict name) c h = ground arith
  step-HasNoDefault (drops name) c h = h
  step-HasNoDefault clears c h = h
  step-HasNoDefault measures c h = ground arith

  run-HasNoDefault :
      (calls : List CatalogCall) (c : UcCatalog) → HasNoDefault c → HasNoDefault (run calls c)
  unfolding run
  run-HasNoDefault [] c h = h
  run-HasNoDefault (call ∷ calls) c h =
      run-HasNoDefault calls (step call c) (step-HasNoDefault call c h)

  -- No call sets the default schema: behind any calls on an attached catalog, a lookup of the
  -- default schema's name throws, and so does the size of the database, whatever schemas the
  -- server lists.
  pub get_schema_default :
      (server : Server) (name path : Bytes) (mode : AccessMode) (credentials : UcCredentials)
      (calls : List CatalogCall) (fuel : ℕ) (return_null : Bool)
      → let c = run calls (make_catalog name path mode credentials) in
        (get_schema k y server default_name (suc fuel) default_name return_null c
          ≡ (throws invalid_input, c))
        × (get_database_size c ≡ (throws invalid_input, c))
  unfolding get_schema get_database_size
  get_schema_default server name path mode credentials calls fuel return_null =
      let c = run calls (make_catalog name path mode credentials) in
      let same : equal default_name default_name ≡ true =
        (equal_iff default_name default_name).1 refl in
      let unset : c.default_schema ≡ [] = run-HasNoDefault calls _ refl in
      (rw (same, unset), rw unset)
