-- ===== src/SchemaSet/Load.antt =====
-- What the load of the schemas does to the set.
use uc_catalog.Base.{
  ℕ, suc, ◌∙◌, some, ◌≡◌, refl, Bool, false, Option, none, List, [], ◌∷◌, ◌++◌, Bytes, is_empty,
  if◌then◌else◌, arith,
}
use uc_catalog.Outcome.{Outcome, ok}
use uc_catalog.Action.{continue_keeps}
use uc_catalog.Api.Interface.{Yyjson, Server, Request}
use uc_catalog.Api.{UcCredentials, UcapiSchema, get_schemas, request_of, schemas_url}
use uc_catalog.CatalogSet.Keys.{KeyEquality}
use uc_catalog.CatalogSet.Cache.{KeepsLoaded}
use uc_catalog.CatalogSet.Invariant.{IsWellFormed, add_new-IsWellFormed}
use uc_catalog.CatalogSet.{CatalogSet, Entry, empty_set, create_entry, find_entry, insert_entry}
use uc_catalog.CatalogSet.Entries.{find_entry-insert_entry}
use uc_catalog.SchemaSet.{SchemaData, is_internal_table, create_schemas, load_schemas}

-- The object that is made for a schema, and the set once it is made.
abbrev pub schema_entry : UcapiSchema → ℕ → Entry SchemaData
schema_entry x n = record {
  address = n;
  name = x.schema_name;
  is_internal = is_internal_table x.catalog_name x.schema_name;
  content = record { schema_data = x; tables = empty_set };
}

abbrev pub made : CatalogSet SchemaData → CatalogSet SchemaData
made s = record s { allocated = suc s.allocated }

module _ (k : KeyEquality) where
  -- The mark and the log of requests, which filing entries leaves alone.
  abbrev Rest : {D : Type 0} → Bool → List Request → CatalogSet D → Type 0
  Rest loaded sent s = (s.is_loaded ≡ loaded) × (s.requests ≡ sent)

  create_entry-Rest :
      {D : Type 0} (e : Entry D) (s : CatalogSet D) {loaded : Bool} {sent : List Request}
      → Rest loaded sent s
      → Rest loaded sent (create_entry k e s).1
  unfolding create_entry
  create_entry-Rest e s r = ground arith

  create_schemas-Rest :
      (schemas : List UcapiSchema) (s : CatalogSet SchemaData) {loaded : Bool} {sent : List Request}
      → Rest loaded sent s
      → Rest loaded sent (create_schemas k schemas s).1
  unfolding create_schemas
  create_schemas-Rest [] s r = r
  create_schemas-Rest (x ∷ xs) s {loaded} {sent} r =
      continue_keeps (Rest loaded sent) (create_entry k (schema_entry x s.allocated) (made s))
        (λ _. create_schemas k xs) (create_entry-Rest (schema_entry x s.allocated) (made s) r)
        (λ _ t h. create_schemas-Rest xs t h)

  create_schemas-IsWellFormed :
      (schemas : List UcapiSchema) (s : CatalogSet SchemaData)
      → IsWellFormed k s
      → IsWellFormed k (create_schemas k schemas s).1
  unfolding create_schemas
  create_schemas-IsWellFormed [] s f = f
  create_schemas-IsWellFormed (x ∷ xs) s f =
      continue_keeps (IsWellFormed k) (create_entry k (schema_entry x s.allocated) (made s))
        (λ _. create_schemas k xs) (add_new-IsWellFormed k x.schema_name _ _ s f)
        (λ _ t h. create_schemas-IsWellFormed xs t h)

  -- The content that a caller sees behind a pointer.
  abbrev pub schema_of : Option (Entry SchemaData) → Option UcapiSchema
  schema_of none = none
  schema_of (some e) = some e.content.schema_data

  -- The first schema of a listing whose name has the key.
  abbrev pub first_schema : Bytes → List UcapiSchema → Option UcapiSchema
  first_schema name [] = none
  first_schema name (x ∷ xs) =
      if k.same_key x.schema_name name then some x else first_schema name xs

  abbrev pub or_else : {A : Type 0} → Option A → Option A → Option A
  or_else none other = other
  or_else (some a) other = some a

  abbrev pub AreNamed : List UcapiSchema → Type 0
  AreNamed [] = Unit {0}
  AreNamed (x ∷ xs) = (is_empty x.schema_name ≡ false) × AreNamed xs

  -- Filing a listing of named schemas succeeds, and under each name stands what stood there
  -- before, or else the first schema of the listing with that key.
  pub create_schemas_lookup :
      (schemas : List UcapiSchema) (s : CatalogSet SchemaData) (name : Bytes)
      → AreNamed schemas
      → ((create_schemas k schemas s).0 ≡ ok tt)
        × (schema_of (find_entry k name (create_schemas k schemas s).1.entries)
            ≡ or_else (schema_of (find_entry k name s.entries)) (first_schema name schemas))
  unfolding create_schemas create_entry
  create_schemas_lookup [] s name named = ground arith
  create_schemas_lookup (x ∷ xs) s name named =
      let e = schema_entry x s.allocated in
      let filed = record (made s) { entries = insert_entry k e s.entries } in
      let rest = create_schemas_lookup xs filed name named.1 in
      rw named.0 (rest.0, rest.1 ∙ ground (arith, find_entry-insert_entry k name e s.entries))

  module _ (y : Yyjson) (server : Server) (catalog : Bytes) (credentials : UcCredentials) where
    abbrev pub load : CatalogSet SchemaData → Outcome (Unit {0}) × CatalogSet SchemaData
    load = load_schemas k y server catalog credentials

    abbrev pub sent_for : Request
    sent_for = request_of (schemas_url credentials catalog) credentials.token

    abbrev pub asked : CatalogSet SchemaData → CatalogSet SchemaData
    asked s = record s { requests = s.requests ++ (sent_for ∷ []) }

    pub load_schemas-Rest :
        (s : CatalogSet SchemaData)
        → ((load s).1.is_loaded ≡ s.is_loaded)
          × ((load s).1.requests ≡ s.requests ++ (sent_for ∷ []))
    unfolding load_schemas
    load_schemas-Rest s =
        continue_keeps (Rest s.is_loaded (s.requests ++ (sent_for ∷ [])))
          (get_schemas y server catalog credentials, asked s) (create_schemas k) (refl, refl)
          (λ xs t h. create_schemas-Rest xs t h)

    pub load_schemas-KeepsLoaded : KeepsLoaded load
    load_schemas-KeepsLoaded s h = (load_schemas-Rest s).0 ∙ h

    pub load_schemas-IsWellFormed :
        (s : CatalogSet SchemaData) → IsWellFormed k s → IsWellFormed k (load s).1
    unfolding load_schemas
    load_schemas-IsWellFormed s f =
        continue_keeps (IsWellFormed k) (get_schemas y server catalog credentials, asked s)
          (create_schemas k) f (λ xs t h. create_schemas-IsWellFormed xs t h)
