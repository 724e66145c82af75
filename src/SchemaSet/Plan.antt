-- ===== src/SchemaSet/Plan.antt =====
-- The load of the schemas as a plan: the threads of CatalogSet.System run it in steps.
use uc_catalog.Base.{◌≡◌, refl, List, [], ◌∷◌, Bytes}
use uc_catalog.Outcome.{Outcome, ok, throws, undefined, out_of_fuel}
use uc_catalog.Outcome
use uc_catalog.Action.{continue_cong, continue}
use uc_catalog.Api.Interface.{Yyjson, Server}
use uc_catalog.Api.{UcCredentials, UcapiSchema, request_of, schemas_url, get_schemas}
use uc_catalog.CatalogSet.Keys.{KeyEquality}
use uc_catalog.CatalogSet.Plan.{Item, Plan, run_plan, load_of_plan}
use uc_catalog.CatalogSet.{CatalogSet, empty_set, create_entry}
use uc_catalog.SchemaSet.{SchemaData, is_internal_table, create_schemas, load_schemas}

abbrev pub schema_item : UcapiSchema → Item SchemaData
schema_item schema = record {
  name = schema.schema_name;
  is_internal = is_internal_table schema.catalog_name schema.schema_name;
  content = record { schema_data = schema; tables = empty_set };
}

abbrev pub schema_plan : List UcapiSchema → Plan SchemaData
schema_plan [] = []
schema_plan (schema ∷ schemas) = ok (schema_item schema) ∷ schema_plan schemas

abbrev pub planned : Outcome (List UcapiSchema) → Outcome (Plan SchemaData)
planned listing = Outcome.◌>>=◌ listing (λ schemas. ok (schema_plan schemas))

module _ (k : KeyEquality) where
  create_schemas-run_plan :
      (schemas : List UcapiSchema) (s : CatalogSet SchemaData)
      → create_schemas k schemas s ≡ run_plan k (schema_plan schemas) s
  unfolding create_schemas run_plan
  create_schemas-run_plan [] s = refl
  create_schemas-run_plan (schema ∷ schemas) s =
      continue_cong (create_entry k _ _) _ _ (λ e t. create_schemas-run_plan schemas t)

  -- `UCSchemaSet::LoadEntries` sends its request and works on what `GetSchemas` gives of the
  -- answer, item by item, on every outcome.
  pub load_schemas-load_of_plan :
      (y : Yyjson) (server : Server) (catalog : Bytes) (credentials : UcCredentials)
      (s : CatalogSet SchemaData)
      → load_schemas k y server catalog credentials s
        ≡ load_of_plan k
            (request_of (schemas_url credentials catalog) credentials.token)
            (planned (get_schemas y server catalog credentials))
            s
  unfolding load_schemas load_of_plan
  load_schemas-load_of_plan y server catalog credentials s =
      after (get_schemas y server catalog credentials) _
    where
      after :
          (listing : Outcome (List UcapiSchema)) (t : CatalogSet SchemaData)
          → continue (listing, t) (create_schemas k) ≡ continue (planned listing, t) (run_plan k)
      after (ok schemas) t = create_schemas-run_plan schemas t
      after (throws x) t = refl
      after undefined t = refl
      after out_of_fuel t = refl
