-- ===== src/TableSet/Threads.antt =====
-- Threads that look tables of one schema up: CatalogSet.System with the load of the tables.
use uc_catalog.CatalogSet.System.Alone.{Moves, free}
use uc_catalog.Base.{ℕ, ◌≡◌, refl, Bool, false, List, Bytes, ◌↔◌}
use uc_catalog.Outcome.{Outcome, ok, throws, undefined, out_of_fuel}
use uc_catalog.Outcome
use uc_catalog.Api.Interface.{Yyjson, Server}
use uc_catalog.Api.{UcCredentials, request_of, tables_url, get_tables}
use uc_catalog.CatalogSet.Keys.{KeyEquality}
use uc_catalog.CatalogSet.{Entry, get_entry, CatalogSet}
use uc_catalog.CatalogSet.System.{
  found, idle, ended, update, System, Setting, Reach, look_up, asks, Shared, Answer,
}
use uc_catalog.CatalogSet.System.Lookups.{Reach-lookup, Moves-lookup}
use uc_catalog.TableSet.Plan.{planned, load_tables-load_of_plan}
use uc_catalog.TableSet.{TableData, SchemaInfo, Columns, load_tables}

module _ (k : KeyEquality) (c : Columns) (y : Yyjson) (db_path : Bytes)
    (credentials : UcCredentials) (schema : SchemaInfo)
    (bucket_order : List (Entry TableData) → List (Entry TableData)) (clearing : Bool) where
  -- Each request may meet the server in another state.
  abbrev pub table_setting : Setting TableData
  table_setting = record {
    keys = k;
    request = request_of (tables_url credentials db_path schema.name) credentials.token;
    Answers = λ r.
        (server : Server) × (r
          ≡ planned c schema (get_tables y server db_path schema.name credentials));
    bucket_order = bucket_order;
    clearing = clearing;
  }

  -- From every state in which `entry_lock` is free, the steps of a lookup of a table, with no step
  -- of another thread between them, do what `GetEntry` with the load of the tables does as one
  -- call: the lookup ends with the same outcome, also where the load throws, and leaves the same
  -- set; the lock is free again, and the other threads stay where they were.
  pub Reach-get_entry :
      (i : ℕ) (name : Bytes) (server : Server) (t : System TableData)
      → t.mem.locked ≡ false
      → t.pc i ≡ idle
      → let (result, after) =
          get_entry k (load_tables k c y server db_path credentials schema) name t.mem.set in
        Reach table_setting t (record {
          mem = record { set = after; locked = false };
          pc = update t.pc i (ended (Outcome.◌>>=◌ result (λ o. ok (found name o))));
        })
  Reach-get_entry i name server =
      Reach-lookup table_setting (load_tables k c y server db_path credentials schema)
        (planned c schema (get_tables y server db_path schema.name credentials))
        (load_tables-load_of_plan c schema k y server db_path credentials) (server, refl) i name

  -- Each request meets this server.
  abbrev pub at_server : Server → Setting TableData
  at_server server = record table_setting {
    Answers = λ r. r ≡ planned c schema (get_tables y server db_path schema.name credentials);
  }

  -- A lookup of a table at this server that begins where `entry_lock` is free, with no step of another
  -- thread between its own: a state and an outcome are those at the end of some such run exactly if
  -- they are those of `GetEntry` with the load of the tables as one call, with the lock free again.
  -- So there is such a run, also where the load throws, and every such run ends in this way.
  pub Moves-get_entry :
      (server : Server) (name : Bytes) (s : CatalogSet TableData) {n : Shared TableData}
      {x : Outcome (Answer TableData)}
      → let g = at_server server in
        let (result, after) =
          get_entry k (load_tables k c y server db_path credentials schema) name s in
        Moves g (free g s) (asks (look_up name)) n (ended x)
        ↔ ((n ≡ free g after) × (x ≡ Outcome.◌>>=◌ result (λ o. ok (found name o))))
  Moves-get_entry server name s =
      Moves-lookup (at_server server) (load_tables k c y server db_path credentials schema)
        (planned c schema (get_tables y server db_path schema.name credentials))
        (load_tables-load_of_plan c schema k y server db_path credentials) (λ x answered. answered)
        refl name s
