-- ===== src/SchemaSet/Tests.antt =====
-- The theorems on the schemas of a catalog, at given servers and calls.
use uc_catalog.SchemaSet.Threads.{at_server, Moves-get_entry}
use uc_catalog.SchemaSet.Filled.{steady_setting, find_entry-first_schema}
use uc_catalog.SchemaSet.Plan.{planned}
use uc_catalog.CatalogSet.System.Alone.{serve, Reach-serve, Moves, free}
use uc_catalog.CatalogSet
use uc_catalog.Outcome
use uc_catalog.CatalogSet.System.{asks, Setting, Answer, idle, ended, update, init, Reach, found}
use uc_catalog.CatalogSet.Plan.{Plan, load_of_plan}
use uc_catalog.Base.{
  ◌≡◌, ◌≤◌, refl, [], ◌∷◌, codes, none, length, Bytes, List, arith, false, true, ◌↔◌,
}
use uc_catalog.Outcome.{ok, io, throws, internal, Outcome}
use uc_catalog.Api.{UcapiSchema, get_schemas}
use uc_catalog.Samples.{
  exact_keys, json, uc_credentials, schema_server, no_server, key_server, half_server,
}
use uc_catalog.CatalogSet.{Entry, find_entry, get_entry, empty_set, CatalogSet, create_entry}
use uc_catalog.SchemaSet.{SchemaData, load_schemas}
use uc_catalog.SchemaSet.Load.{load, sent_for, schema_of, first_schema}
use uc_catalog.SchemaSet.Unnamed.{get_entry_unnamed}
use uc_catalog.SchemaSet.Unlisted.{unlisted_sticks}
use uc_catalog.SchemaSet.Calls.{
  SchemaCall, look_up, walk, clear, run, run_requests, failed_load_sticks,
}

abbrev catalog : Bytes
catalog = codes "c"

abbrev in_order : List (Entry SchemaData) → List (Entry SchemaData)
in_order es = es

abbrev calls : List SchemaCall
calls =
    look_up schema_server (codes "main")
    ∷ (clear ∷ (walk no_server ∷ (look_up schema_server (codes "MAIN") ∷ [])))

run_requests_example :
    length (run exact_keys json catalog uc_credentials in_order calls empty_set).requests ≤ 2
run_requests_example = run_requests exact_keys json catalog uc_credentials in_order calls

failed_load_sticks_example :
    let t =
      run exact_keys json catalog uc_credentials in_order
        (look_up no_server (codes "main") ∷ (walk schema_server ∷ []))
        empty_set in
    (t.requests ≡ sent_for exact_keys json no_server catalog uc_credentials ∷ [])
    × (get_entry exact_keys
          (load exact_keys json schema_server catalog uc_credentials)
          (codes "main")
          t
        ≡ (ok none, t))
unfolding get_schemas
failed_load_sticks_example =
    failed_load_sticks exact_keys json catalog uc_credentials in_order no_server schema_server
      (codes "main") (codes "main") (walk schema_server ∷ []) empty_set io refl refl refl refl

-- The server sends credentials where it was asked for schemas.
unlisted_sticks_example :
    let t =
      run exact_keys json catalog uc_credentials in_order
        (look_up key_server (codes "main") ∷ (walk schema_server ∷ []))
        empty_set in
    ((get_entry exact_keys
        (load exact_keys json key_server catalog uc_credentials)
        (codes "main")
        empty_set).0
      ≡ ok none)
    × (t.requests ≡ sent_for exact_keys json key_server catalog uc_credentials ∷ [])
    × (get_entry exact_keys
          (load exact_keys json schema_server catalog uc_credentials)
          (codes "main")
          t
        ≡ (ok none, t))
unlisted_sticks_example =
    unlisted_sticks exact_keys json catalog uc_credentials in_order key_server schema_server
      (codes "main") (codes "main") (codes "keys" ∷ []) (walk schema_server ∷ []) empty_set refl
      refl refl refl refl

abbrev schema_named : Bytes → UcapiSchema
schema_named name = record { schema_name = name; catalog_name = catalog }

get_entry_unnamed_example :
    let first =
      get_entry exact_keys
        (load exact_keys json half_server catalog uc_credentials)
        (codes "main")
        empty_set in
    let found = find_entry exact_keys (codes "late") first.1.entries in
    (first.0 ≡ throws internal)
    × (get_entry exact_keys
          (load exact_keys json schema_server catalog uc_credentials)
          (codes "late")
          first.1
        ≡ (ok found, first.1))
    × (schema_of exact_keys found ≡ none)
unfolding get_schemas find_entry
get_entry_unnamed_example =
    get_entry_unnamed exact_keys (schema_named (codes "main") ∷ [])
      (schema_named (codes "late") ∷ []) (schema_named []) refl json half_server schema_server
      catalog uc_credentials (codes "main") (codes "late") empty_set refl refl (refl, tt)

-- A lookup that has run alone from an empty set on.
abbrev steady : Setting SchemaData
steady = steady_setting exact_keys json catalog uc_credentials in_order schema_server

abbrev listing : Outcome (Plan SchemaData)
listing = planned (get_schemas json schema_server catalog uc_credentials)

abbrev alone : Outcome (Answer SchemaData) × CatalogSet SchemaData
alone = serve steady listing (CatalogSet.System.look_up (codes "main")) empty_set

find_entry-first_schema_example :
    schema_of exact_keys (find_entry exact_keys (codes "MAIN") alone.1.entries)
    ≡ first_schema exact_keys
        (codes "MAIN")
        (schema_named (codes "main") ∷ (schema_named (codes "MAIN") ∷ []))
unfolding get_schemas get_entry load_of_plan create_entry
find_entry-first_schema_example =
    find_entry-first_schema exact_keys json catalog uc_credentials in_order schema_server
      {t = record {
        mem = record { set = alone.1; locked = false };
        pc = update (λ i. idle) 0 (ended alone.0);
      }}
      (schema_named (codes "main") ∷ (schema_named (codes "MAIN") ∷ [])) (codes "MAIN") refl
      (refl, (refl, tt))
      (Reach-serve steady 0 (CatalogSet.System.look_up (codes "main")) listing (init empty_set) refl
        refl refl)
      refl (λ i. ground arith)

-- The first lookup at a server that cannot be reached.
Moves-get_entry_example :
    let g = at_server exact_keys json catalog uc_credentials in_order true no_server in
    let (result, after) =
      get_entry exact_keys
        (load_schemas exact_keys json no_server catalog uc_credentials)
        (codes "main")
        empty_set in
    Moves g
      (free g empty_set)
      (asks (CatalogSet.System.look_up (codes "main")))
      (free g after)
      (ended (throws io))
    ↔ ((free g after ≡ free g after)
        × (throws io ≡ Outcome.◌>>=◌ result (λ o. ok (found (codes "main") o))))
Moves-get_entry_example =
    Moves-get_entry exact_keys json catalog uc_credentials in_order true no_server (codes "main")
      empty_set
