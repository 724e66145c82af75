-- ===== src/SchemaSet/Threads.antt =====
-- Threads that look schemas up: CatalogSet.System with the load of the schemas.
use uc_catalog.CatalogSet.System.Alone.{Moves, free}
use uc_catalog.Base.{ℕ, ◌≡◌, refl, Bool, false, List, Bytes, ◌↔◌}
use uc_catalog.Outcome.{Outcome, ok, throws, undefined, out_of_fuel}
use uc_catalog.Outcome
use uc_catalog.Api.Interface.{Yyjson, Server}
use uc_catalog.Api.{UcCredentials, request_of, schemas_url, get_schemas}
use uc_catalog.CatalogSet.Keys.{KeyEquality}
use uc_catalog.CatalogSet.{Entry, get_entry, CatalogSet}
use uc_catalog.CatalogSet.System.{
  found, idle, ended, update, System, Setting, Reach, look_up, asks, Shared, Answer,
}
use uc_catalog.CatalogSet.System.Lookups.{Reach-lookup, Moves-lookup}
use uc_catalog.SchemaSet.Plan.{planned, load_schemas-load_of_plan}
use uc_catalog.SchemaSet.{SchemaData, load_schemas}

module _ (k : KeyEquality) (y : Yyjson) (catalog : Bytes) (credentials : UcCredentials)
    (bucket_order : List (Entry SchemaData) → List (Entry SchemaData)) (clearing : Bool) where
  -- Each request may meet the server in another state.
  abbrev pub schema_setting : Setting SchemaData
  schema_setting = record {
    keys = k;
    request = request_of (schemas_url credentials catalog) credentials.token;
    Answers = λ r. (server : Server) × (r ≡ planned (get_schemas y server catalog credentials));
    bucket_order = bucket_order;
    clearing = clearing;
  }

  -- From every state in which `entry_lock` is free, the steps of a lookup of a schema, with no step
  -- of another thread between them, do what `GetEntry` with the load of the schemas does as one
  -- call: the lookup ends with the same outcome, also where the load throws, and leaves the same
  -- set; the lock is free again, and the other threads stay where they were.
  pub Reach-get_entry :
      (i : ℕ) (name : Bytes) (server : Server) (t : System SchemaData)
      → t.mem.locked ≡ false
      → t.pc i ≡ idle
      → let (result, after) =
          get_entry k (load_schemas k y server catalog credentials) name t.mem.set in
        Reach schema_setting t (record {
          mem = record { set = after; locked = false };
          pc = update t.pc i (ended (Outcome.◌>>=◌ result (λ o. ok (found name o))));
        })
  Reach-get_entry i name server =
      Reach-lookup schema_setting (load_schemas k y server catalog credentials)
        (planned (get_schemas y server catalog credentials))
        (load_schemas-load_of_plan k y server catalog credentials) (server, refl) i name

  -- Each request meets this server.
  abbrev pub at_server : Server → Setting SchemaData
  at_server server = record schema_setting {
    Answers = λ r. r ≡ planned (get_schemas y server catalog credentials);
  }

  -- A lookup of a schema at this server that begins where `entry_lock` is free, with no step of another
  -- thread between its own: a state and an outcome are those at the end of some such run exactly if
  -- they are those of `GetEntry` with the load of the schemas as one call, with the lock free again.
  -- So there is such a run, also where the load throws, and every such run ends in this way.
  pub Moves-get_entry :
      (server : Server) (name : Bytes) (s : CatalogSet SchemaData) {n : Shared SchemaData}
      {x : Outcome (Answer SchemaData)}
      → let g = at_server server in
        let (result, after) = get_entry k (load_schemas k y server catalog credentials) name s in
        Moves g (free g s) (asks (look_up name)) n (ended x)
        ↔ ((n ≡ free g after) × (x ≡ Outcome.◌>>=◌ result (λ o. ok (found name o))))
  Moves-get_entry server name s =
      Moves-lookup (at_server server) (load_schemas k y server catalog credentials)
        (planned (get_schemas y server catalog credentials))
        (load_schemas-load_of_plan k y server catalog credentials) (λ x answered. answered) refl
        name s
