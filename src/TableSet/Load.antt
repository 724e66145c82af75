-- ===== src/TableSet/Load.antt =====
-- What the load of the tables does to the set, also where it fails.
use uc_catalog.Base.{
  ℕ, suc, ◌∙◌, ◌≡◌, refl, true, false, List, [], ◌∷◌, ◌++◌, Bytes, arith, sym, subst,
}
use uc_catalog.Outcome.{ok, throws, Exception}
use uc_catalog.Action.{Action, continue, continue_assoc, continue_cong, continue_keeps}
use uc_catalog.Api.Interface.{Yyjson, Server}
use uc_catalog.Api.{UcCredentials, UcapiTable, get_tables, request_of, tables_url}
use uc_catalog.CatalogSet.Keys.{KeyEquality}
use uc_catalog.CatalogSet.Cache.{marked, get_entry_failed_load}
use uc_catalog.CatalogSet.Invariant.{IsWellFormed, add_new-IsWellFormed}
use uc_catalog.CatalogSet.{CatalogSet, Entry, find_entry, get_entry, create_entry_in_schema}
use uc_catalog.TableSet.{
  TableData, SchemaInfo, Column, Columns, add_columns, create_tables, load_tables,
}

module _ (k : KeyEquality) (c : Columns) (schema : SchemaInfo) where
  -- The object that is made for a table, and the set once it is filed.
  abbrev table_entry : UcapiTable → List Column → ℕ → Entry TableData
  table_entry x columns n = record {
    address = n;
    name = x.name;
    is_internal = false;
    content = record { columns = columns; table_data = x };
  }

  abbrev filed : UcapiTable → List Column → Action (CatalogSet TableData) (Entry TableData)
  filed x columns s =
      create_entry_in_schema k schema.is_internal (table_entry x columns s.allocated)
        (record s { allocated = suc s.allocated })

  create_tables-append :
      (before more : List UcapiTable) (s : CatalogSet TableData)
      → create_tables k c schema (before ++ more) s
        ≡ continue (create_tables k c schema before s) (λ _. create_tables k c schema more)
  unfolding create_tables
  create_tables-append [] more s = refl
  create_tables-append (x ∷ xs) more s =
      continue_cong (add_columns c [] x.columns, s) _ _
        (λ columns s'.
          continue_cong (filed x columns s') _ _ (λ _ t. create_tables-append xs more t)
          ∙ sym (
              continue_assoc (filed x columns s') (λ _. create_tables k c schema xs)
                (λ _. create_tables k c schema more)))
      ∙ sym (
          continue_assoc (add_columns c [] x.columns, s)
            (λ columns s'. continue (filed x columns s') (λ _. create_tables k c schema xs))
            (λ _. create_tables k c schema more))

  -- The mark that filing tables leaves alone.
  abbrev pub Loaded : CatalogSet TableData → Type 0
  Loaded s = s.is_loaded ≡ true

  filed-Loaded :
      (x : UcapiTable) (columns : List Column) (s : CatalogSet TableData)
      → Loaded s
      → Loaded (filed x columns s).1
  unfolding create_entry_in_schema
  filed-Loaded x columns s h = ground arith

  pub create_tables-Loaded :
      (tables : List UcapiTable) (s : CatalogSet TableData)
      → Loaded s
      → Loaded (create_tables k c schema tables s).1
  unfolding create_tables
  create_tables-Loaded [] s h = h
  create_tables-Loaded (x ∷ xs) s h =
      continue_keeps Loaded (add_columns c [] x.columns, s)
        (λ columns t. continue (filed x columns t) (λ _. create_tables k c schema xs)) h
        (λ columns t l.
          continue_keeps Loaded (filed x columns t) (λ _. create_tables k c schema xs)
            (filed-Loaded x columns t l) (λ _ u m. create_tables-Loaded xs u m))

  pub create_tables-IsWellFormed :
      (tables : List UcapiTable) (s : CatalogSet TableData)
      → IsWellFormed k s
      → IsWellFormed k (create_tables k c schema tables s).1
  unfolding create_tables create_entry_in_schema
  create_tables-IsWellFormed [] s f = f
  create_tables-IsWellFormed (x ∷ xs) s f =
      continue_keeps (IsWellFormed k) (add_columns c [] x.columns, s)
        (λ columns t. continue (filed x columns t) (λ _. create_tables k c schema xs)) f
        (λ columns t g.
          continue_keeps (IsWellFormed k) (filed x columns t) (λ _. create_tables k c schema xs)
            (add_new-IsWellFormed k x.name schema.is_internal
              (record { columns = columns; table_data = x }) t g)
            (λ _ u h. create_tables-IsWellFormed xs u h))

  create_tables_refused :
      (bad : UcapiTable) (more : List UcapiTable) (x : Exception) (s : CatalogSet TableData)
      → add_columns c [] bad.columns ≡ throws x
      → create_tables k c schema (bad ∷ more) s ≡ (throws x, s)
  unfolding create_tables
  create_tables_refused bad more x s h = rw h

  -- A set is not loaded, and the listing for it has a table whose columns throw, behind tables
  -- that can be filed. Then the lookup that loads the set throws, whichever name it asks for, and
  -- leaves the tables before that one. From then on each lookup, with whatever server, answers
  -- from those tables alone and changes nothing.
  pub get_entry_unreadable :
      (y : Yyjson) (server later : Server) (db_path : Bytes) (credentials : UcCredentials)
      (before more : List UcapiTable) (bad : UcapiTable) (x : Exception) (name other : Bytes)
      (s t : CatalogSet TableData)
      → s.is_loaded ≡ false
      → get_tables y server db_path schema.name credentials ≡ ok (before ++ (bad ∷ more))
      → add_columns c [] bad.columns ≡ throws x
      → create_tables k c schema before (record s {
        is_loaded = true;
        requests =
            s.requests
            ++ (request_of (tables_url credentials db_path schema.name) credentials.token ∷ []);
      })
        ≡ (ok tt, t)
      → let load = load_tables k c y server db_path credentials schema in
        let again = load_tables k c y later db_path credentials schema in
        (get_entry k load name s ≡ (throws x, t))
        × (get_entry k again other t ≡ (ok (find_entry k other t.entries), t))
  unfolding load_tables
  get_entry_unreadable y server later db_path credentials before more bad x name other s t fresh
        listed refused read =
      let u = record s {
        is_loaded = true;
        requests =
            s.requests
            ++ (request_of (tables_url credentials db_path schema.name) credentials.token ∷ []);
      } in
      let load = load_tables k c y server db_path credentials schema in
      let marks : t.is_loaded ≡ true =
        subst (λ r. r.1.is_loaded ≡ true) read (create_tables-Loaded before u refl) in
      let loads : load (marked s) ≡ (throws x, t) = rw listed (
        create_tables-append before (bad ∷ more) u
        ∙ rw read (create_tables_refused bad more x t refused)) in
      get_entry_failed_load k load (load_tables k c y later db_path credentials schema) name other s
        t x fresh marks loads
