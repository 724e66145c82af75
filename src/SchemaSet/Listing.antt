-- ===== src/SchemaSet/Listing.antt =====
-- The load of the schemas where the server lists them: what the set holds behind it.
use uc_catalog.Base.{◌≡◌, refl, ◌∙◌, ℕ, List, [], ◌∷◌, Bytes}
use uc_catalog.Outcome.{ok}
use uc_catalog.Action.{continue_keeps}
use uc_catalog.Api.Interface.{Yyjson, Server}
use uc_catalog.Api.{UcCredentials, UcapiSchema, get_schemas}
use uc_catalog.CatalogSet.Keys.{KeyEquality}
use uc_catalog.CatalogSet.{CatalogSet, Entry, find_entry, create_entry}
use uc_catalog.CatalogSet.Cache.{marked}
use uc_catalog.CatalogSet.All.{All, create_entry-All}
use uc_catalog.CatalogSet.Promise.{Loads}
use uc_catalog.SchemaSet.{SchemaData, create_schemas, load_schemas}
use uc_catalog.SchemaSet.Load.{
  schema_entry, made, schema_of, first_schema, AreNamed, create_schemas_lookup,
  load_schemas-KeepsLoaded, asked,
}

module _ (k : KeyEquality) where
  -- What holds of the new objects and of the old entries holds of all behind the loop.
  create_schemas-All :
      (P : Entry SchemaData → Type 0) (fresh : (x : UcapiSchema) (n : ℕ) → P (schema_entry x n))
      (schemas : List UcapiSchema) (s : CatalogSet SchemaData)
      → All P s.entries
      → All P (create_schemas k schemas s).1.entries
  unfolding create_schemas
  create_schemas-All P fresh [] s all = all
  create_schemas-All P fresh (x ∷ xs) s all =
      continue_keeps (λ t. All P t.entries) (create_entry k (schema_entry x s.allocated) (made s))
        (λ _. create_schemas k xs)
        (create_entry-All P k (schema_entry x s.allocated) (made s) all (fresh x s.allocated))
        (λ _ t h. create_schemas-All P fresh xs t h)

  module _ (y : Yyjson) (server : Server) (catalog : Bytes) (credentials : UcCredentials) where
    pub load_schemas-All :
        (P : Entry SchemaData → Type 0) (fresh : (x : UcapiSchema) (n : ℕ) → P (schema_entry x n))
        (s : CatalogSet SchemaData)
        → All P s.entries
        → All P (load_schemas k y server catalog credentials s).1.entries
    unfolding load_schemas
    load_schemas-All P fresh s all =
        continue_keeps (λ t. All P t.entries)
          (get_schemas y server catalog credentials, asked k y server catalog credentials s)
          (create_schemas k) all (λ xs t h. create_schemas-All P fresh xs t h)

    -- The load returns where the server lists schemas that have names, and each name then finds the
    -- first schema of the listing with its key.
    pub load_schemas-Loads :
        (schemas : List UcapiSchema)
        → get_schemas y server catalog credentials ≡ ok schemas
        → AreNamed k schemas
        → Loads k
            (schema_of k)
            (λ name. first_schema k name schemas)
            (load_schemas k y server catalog credentials)
    unfolding load_schemas find_entry
    load_schemas-Loads schemas listed named s nothing =
        let t = asked k y server catalog credentials (marked s) in
        let filed = λ (name : Bytes). create_schemas_lookup k schemas t name named in
        (
          rw listed (filed []).0,
          load_schemas-KeepsLoaded k y server catalog credentials (marked s) refl,
          λ name. rw listed ((filed name).1 ∙ rw (nothing, find_entry)),
        )
