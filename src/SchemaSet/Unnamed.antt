-- ===== src/SchemaSet/Unnamed.antt =====
-- A listing with a schema that has no name.
use uc_catalog.Base.{
  ◌∙◌, ◌≡◌, refl, ap, sym, true, false, List, [], ◌∷◌, ◌++◌, Bytes, is_empty, arith,
}
use uc_catalog.Outcome.{ok, throws, internal}
use uc_catalog.Api.Interface.{Yyjson, Server}
use uc_catalog.Api.{UcCredentials, UcapiSchema, get_schemas}
use uc_catalog.CatalogSet.Keys.{KeyEquality}
use uc_catalog.CatalogSet.Cache.{marked, get_entry_failed_load}
use uc_catalog.CatalogSet.Entries.{find_entry-insert_entry}
use uc_catalog.CatalogSet.{CatalogSet, find_entry, get_entry, create_entry, insert_entry}
use uc_catalog.SchemaSet.Load.{
  schema_of, first_schema, or_else, AreNamed, schema_entry, made, load, asked, load_schemas-Rest,
}
use uc_catalog.SchemaSet.{SchemaData, create_schemas, load_schemas}

module _ (k : KeyEquality) (before more : List UcapiSchema) (bad : UcapiSchema)
    (unnamed : is_empty bad.schema_name ≡ true) where
  create_schemas_unnamed :
      (xs : List UcapiSchema) (s : CatalogSet SchemaData) (name : Bytes)
      → AreNamed k xs
      → ((create_schemas k (xs ++ (bad ∷ more)) s).0 ≡ throws internal)
        × (schema_of k (find_entry k name (create_schemas k (xs ++ (bad ∷ more)) s).1.entries)
            ≡ or_else k (schema_of k (find_entry k name s.entries)) (first_schema k name xs))
  unfolding create_schemas create_entry
  create_schemas_unnamed [] s name named = rw unnamed (ground arith)
  create_schemas_unnamed (x ∷ xs) s name named =
      let e = schema_entry x s.allocated in
      let filed = record (made s) { entries = insert_entry k e s.entries } in
      let rest = create_schemas_unnamed xs filed name named.1 in
      rw named.0 (rest.0, rest.1 ∙ ground (arith, find_entry-insert_entry k name e s.entries))

  -- A set is not loaded, and the listing for it has a schema without a name behind named ones. Then
  -- the lookup that loads the set throws an internal error, whichever name it asks for. From then on
  -- each lookup, with whatever server, changes nothing, and gives what was there before the load or
  -- else the first schema of its key among those before the unnamed one: what the server lists
  -- behind it is missing.
  pub get_entry_unnamed :
      (y : Yyjson) (server later : Server) (catalog : Bytes) (credentials : UcCredentials)
      (name other : Bytes) (s : CatalogSet SchemaData)
      → s.is_loaded ≡ false
      → get_schemas y server catalog credentials ≡ ok (before ++ (bad ∷ more))
      → AreNamed k before
      → let first = get_entry k (load k y server catalog credentials) name s in
        let found = find_entry k other first.1.entries in
        (first.0 ≡ throws internal)
        × (get_entry k (load k y later catalog credentials) other first.1 ≡ (ok found, first.1))
        × (schema_of k found
            ≡ or_else k (schema_of k (find_entry k other s.entries)) (first_schema k other before))
  unfolding load_schemas
  get_entry_unnamed y server later catalog credentials name other s fresh listed named =
      let here = load k y server catalog credentials in
      let u = asked k y server catalog credentials (marked s) in
      let t = (create_schemas k (before ++ (bad ∷ more)) u).1 in
      let (thrown, found) = create_schemas_unnamed before u other named in
      let loads : here (marked s) ≡ (throws internal, t) = rw listed (ap (λ r. (r, t)) thrown) in
      let marks : t.is_loaded ≡ true =
        ap (λ r. r.1.is_loaded) (sym loads)
        ∙ (load_schemas-Rest k y server catalog credentials (marked s)).0 in
      let (first, again) =
        get_entry_failed_load k here (load k y later catalog credentials) name other s t internal
          fresh marks loads in
      rw first (refl, again, found)
