-- ===== src/SchemaSet/Filled.antt =====
-- Threads that look schemas up and scan them, at a server whose listing of the schemas stays the same.
use uc_catalog.Base.{
  ℕ, ◌≡◌, refl, ap, ◌∙◌, true, false, Option, none, some, List, [], ◌∷◌, Bytes, arith,
}
use uc_catalog.Outcome.{ok}
use uc_catalog.Api.Interface.{Yyjson, Server}
use uc_catalog.Api.{UcCredentials, UcapiSchema, request_of, schemas_url, get_schemas}
use uc_catalog.CatalogSet.Keys.{KeyEquality}
use uc_catalog.CatalogSet.Plan.{Item}
use uc_catalog.CatalogSet.{Entry, find_entry, empty_set}
use uc_catalog.CatalogSet.System.{System, Setting, Reach, init}
use uc_catalog.CatalogSet.System.Listing
use uc_catalog.CatalogSet.System.Listing.{all_ok, find_item}
use uc_catalog.CatalogSet.System.Filling.{loading}
use uc_catalog.CatalogSet.System.Complete.{entry_item, Reach-IsComplete}
use uc_catalog.SchemaSet.Load.{schema_of, first_schema, AreNamed}
use uc_catalog.SchemaSet.Plan.{schema_item, schema_plan, planned}
use uc_catalog.SchemaSet.{SchemaData}

abbrev items_of : List UcapiSchema → List (Item SchemaData)
items_of [] = []
items_of (x ∷ xs) = schema_item x ∷ items_of xs

schema_plan-all_ok : (xs : List UcapiSchema) → schema_plan xs ≡ all_ok (items_of xs)
schema_plan-all_ok [] = refl
schema_plan-all_ok (x ∷ xs) = ap (◌∷◌ (ok (schema_item x))) (schema_plan-all_ok xs)

abbrev item_schema : Option (Item SchemaData) → Option UcapiSchema
item_schema none = none
item_schema (some i) = some i.content.schema_data

module _ (k : KeyEquality) where
  items_of-AreNamed : (xs : List UcapiSchema) → AreNamed k xs → Listing.AreNamed (items_of xs)
  items_of-AreNamed [] h = tt
  items_of-AreNamed (x ∷ xs) h = (h.0, items_of-AreNamed xs h.1)

  item_schema-find_item :
      (name : Bytes) (xs : List UcapiSchema)
      → item_schema (find_item k name (items_of xs)) ≡ first_schema k name xs
  item_schema-find_item name [] = refl
  item_schema-find_item name (x ∷ xs) = ground (arith, item_schema-find_item name xs)

  schema_of-item_schema :
      (o : Option (Entry SchemaData)) → schema_of k o ≡ item_schema (entry_item o)
  schema_of-item_schema none = refl
  schema_of-item_schema (some e) = refl

  module _ (y : Yyjson) (catalog : Bytes) (credentials : UcCredentials)
      (bucket_order : List (Entry SchemaData) → List (Entry SchemaData)) (server : Server) where
    -- Every request meets this server, and no thread clears.
    abbrev pub steady_setting : Setting SchemaData
    steady_setting = record {
      keys = k;
      request = request_of (schemas_url credentials catalog) credentials.token;
      Answers = λ r. r ≡ planned (get_schemas y server catalog credentials);
      bucket_order = bucket_order;
      clearing = false;
    }

    -- The server lists schemas that all have names, always the same, and no thread clears. However
    -- many threads look schemas up and scan them, in whatever order their steps come, and also if
    -- several of them load: once the set is marked as loaded and no thread is between the mark and
    -- the end of its load, each name finds the first schema that is listed under it, and a name
    -- that is not listed finds none.
    pub find_entry-first_schema :
        {t : System SchemaData} (schemas : List UcapiSchema) (name : Bytes)
        → get_schemas y server catalog credentials ≡ ok schemas
        → AreNamed k schemas
        → Reach steady_setting (init empty_set) t
        → t.mem.set.is_loaded ≡ true
        → ((i : ℕ) → loading (t.pc i) ≡ false)
        → schema_of k (find_entry k name t.mem.set.entries) ≡ first_schema k name schemas
    find_entry-first_schema {t} schemas name listed named reached done quiet =
        let steady : planned (get_schemas y server catalog credentials)
            ≡ ok (all_ok (items_of schemas)) =
          ap planned listed ∙ ap ok (schema_plan-all_ok schemas) in
        let held =
          Reach-IsComplete steady_setting (items_of schemas) (items_of-AreNamed schemas named)
            (λ r h. h ∙ steady) refl name reached done quiet in
        schema_of-item_schema (find_entry k name t.mem.set.entries)
        ∙ (ap item_schema held ∙ item_schema-find_item name schemas)
