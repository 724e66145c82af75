-- ===== src/Catalog/Tests.antt =====
-- The theorems on a catalog, at given calls.
use uc_catalog.CatalogSet.All.{All}
use uc_catalog.Catalog.Requests.{AreAll, after_changes-requests}
use uc_catalog.Catalog.Formed.{IsFormed, after_changes-IsFormed}
use uc_catalog.Base.{
  ◌≡◌, refl, [], ◌∷◌, codes, List, true, false, some, ℕ, ◌≢◌, arith, equal, if◌then◌else◌,
}
use uc_catalog.Outcome.{ok, throws, invalid_input, undefined}
use uc_catalog.Samples.{exact_keys, json, uc_credentials, schema_server, no_server, catalog_server}
use uc_catalog.Api.{schemas_url, get_schemas, request_of, tables_url}
use uc_catalog.TableSet.{TableData, add_columns}
use uc_catalog.Catalog.Pointers.{
  get_table, object_at, get_entry_of_schema, walk_tables, load_of_tables,
}
use uc_catalog.Catalog.Lookups.{seen_result, IsWalked}
use uc_catalog.Catalog.Refines.{
  Reading, finds_table, walks_schemas, walks_tables, after_all, get_table_refines, finds_schema,
}
use uc_catalog.Api.Interface.{Server, no_handle}
use uc_catalog.SchemaEntry.{table_entry}
use uc_catalog.Catalog.{
  clear_cache, UcCatalog, make_catalog, find_schema, get_schema, get_database_size, load_of,
}
use uc_catalog.Catalog.Keeps.{after_changes}
use uc_catalog.Catalog.Recovers.{get_table_recovers}
use uc_catalog.Catalog.Lifetime.{find_schema_dangles}
use uc_catalog.TypeText.{type_to_logical_type}
use uc_catalog.Samples.Listed.{all_columns, good_table, int_column, world, world-IsServed}
use uc_catalog.Transactions.{automatic}
use uc_catalog.CatalogSet.{Entry, empty_set, find_entry}
use uc_catalog.CatalogSet
use uc_catalog.SchemaSet.{SchemaData, load_schemas, is_internal_table}
use uc_catalog.Catalog.Default.{CatalogCall, looks_up, scans, clears, run, get_schema_default}

abbrev in_order : List (Entry SchemaData) → List (Entry SchemaData)
in_order es = es

abbrev attached : UcCatalog
attached = make_catalog (codes "c") (codes "c") automatic uc_credentials

abbrev calls : List CatalogCall
calls = looks_up schema_server (codes "MAIN") true ∷ (clears ∷ (scans no_server ∷ []))

get_schema_default_example :
    let c = run exact_keys json (codes "main") in_order calls attached in
    (get_schema exact_keys json schema_server (codes "main") 1 (codes "main") true c
      ≡ (throws invalid_input, c))
    × (get_database_size c ≡ (throws invalid_input, c))
get_schema_default_example =
    get_schema_default exact_keys json (codes "main") in_order schema_server (codes "c") (codes "c")
      automatic uc_credentials calls 0 true

abbrev table_order : List (Entry TableData) → List (Entry TableData)
table_order es = es

abbrev readings : List Reading
readings =
    finds_table (codes "main") (codes "good")
    ∷ (walks_schemas ∷ (Reading.clears ∷ (walks_tables (codes "MAIN") ∷ [])))

get_table_refines_example :
    let c =
      after_all exact_keys all_columns json
        (codes "none")
        in_order
        table_order
        catalog_server
        readings
        attached in
    (seen_result
        (get_table exact_keys all_columns json catalog_server
          (codes "none")
          (codes "MAIN")
          (codes "good")
          c).0
      ≡ ok (some (false, record { columns = int_column; table_data = good_table (codes "MAIN") })))
    × IsWalked exact_keys all_columns json catalog_server world
        (codes "none")
        (codes "MAIN")
        table_order
        (walk_tables exact_keys all_columns json catalog_server
          (codes "none")
          table_order
          (codes "MAIN")
          c).0
unfolding add_columns type_to_logical_type is_internal_table
get_table_refines_example =
    get_table_refines exact_keys all_columns json (codes "none") in_order table_order catalog_server
      world world-IsServed automatic readings (codes "MAIN") (codes "good")

-- The server is out of reach at first, and then lists a table that cannot be read.
abbrev changes : List (Server × Reading)
changes =
    (no_server, finds_table (codes "main") (codes "good"))
    ∷ ((schema_server, finds_table (codes "main") (codes "bad")) ∷ [])

get_table_recovers_example :
    let c =
      after_all exact_keys all_columns json
        (codes "none")
        in_order
        table_order
        catalog_server
        readings
        (clear_cache (
          after_changes exact_keys all_columns json
            (codes "none")
            in_order
            table_order
            changes
            attached)) in
    (seen_result
        (get_table exact_keys all_columns json catalog_server
          (codes "none")
          (codes "main")
          (codes "good")
          c).0
      ≡ ok (some (false, record { columns = int_column; table_data = good_table (codes "main") })))
    × IsWalked exact_keys all_columns json catalog_server world
        (codes "none")
        (codes "main")
        table_order
        (walk_tables exact_keys all_columns json catalog_server
          (codes "none")
          table_order
          (codes "main")
          c).0
unfolding clear_cache add_columns type_to_logical_type is_internal_table
get_table_recovers_example =
    get_table_recovers exact_keys all_columns json (codes "none") in_order table_order world
      catalog_server world-IsServed automatic changes readings (codes "main") (codes "good")

-- The first of the two schemas, with no tables yet.
abbrev main_schema : Entry SchemaData
main_schema = record {
  address = 0;
  name = codes "main";
  is_internal = false;
  content = record {
    schema_data = record { schema_name = codes "main"; catalog_name = codes "c" };
    tables = empty_set;
  };
}

abbrev filled : UcCatalog
filled = (find_schema exact_keys json catalog_server (codes "main") false attached).1

find_schema_dangles_example :
    let d =
      after_changes exact_keys all_columns json
        (codes "none")
        in_order
        table_order
        changes
        (clear_cache filled) in
    (object_at 0 filled.schemas.entries ≡ some main_schema)
    × (get_entry_of_schema exact_keys all_columns json no_server table_entry (codes "good") 0 d
        ≡ (undefined, d))
unfolding find_schema CatalogSet.get_entry load_schemas get_schemas find_entry schemas_url
find_schema_dangles_example =
    find_schema_dangles exact_keys all_columns json (codes "none") in_order table_order
      catalog_server no_server (codes "main") false table_entry (codes "good") changes attached
      filled main_schema tt refl

apart : ◌≢◌ {A = ℕ} 0 1
apart = λ h. omega (arith, h)

-- The first lookup meets a server that fails, behind the clear the server lists schemas and tables.
after_changes-IsFormed_example : IsFormed exact_keys (
    after_changes exact_keys all_columns json
      (codes "main")
      in_order
      table_order
      ((no_server, finds_schema (codes "MAIN") true)
        ∷ ((no_server, Reading.clears)
            ∷ ((catalog_server, finds_table (codes "other") (codes "good")) ∷ [])))
      attached)
after_changes-IsFormed_example =
    after_changes-IsFormed exact_keys all_columns json (codes "main") in_order table_order
      ((no_server, finds_schema (codes "MAIN") true)
        ∷ ((no_server, Reading.clears)
            ∷ ((catalog_server, finds_table (codes "other") (codes "good")) ∷ [])))
      attached (tt, tt)

-- It answers the two requests that a catalog sends which is attached as `d`, and nothing else.
abbrev narrow_server : Server
narrow_server r =
    if equal r.url (schemas_url uc_credentials (codes "d"))
    then catalog_server r
    else if equal r.url (tables_url uc_credentials (codes "c") (codes "main"))
    then catalog_server r
    else no_handle

abbrev some_schema : Entry SchemaData
some_schema = record {
  address = 0;
  name = codes "main";
  is_internal = false;
  content = record {
    schema_data = record { schema_name = codes "main"; catalog_name = codes "d" };
    tables = empty_set;
  };
}

-- The catalog `c` of the server, attached as `d`.
after_changes-requests_example :
    let c =
      after_changes exact_keys all_columns json
        (codes "none")
        in_order
        table_order
        ((catalog_server, finds_table (codes "main") (codes "good")) ∷ [])
        (make_catalog (codes "d") (codes "c") automatic uc_credentials) in
    AreAll
      (request_of (schemas_url uc_credentials (codes "d")) uc_credentials.token)
      c.schemas.requests
    × All
        (λ e.
          AreAll
            (request_of (tables_url uc_credentials (codes "c") e.name) uc_credentials.token)
            e.content.tables.requests)
        c.schemas.entries
    × (load_of exact_keys json catalog_server c ≡ load_of exact_keys json narrow_server c)
    × (load_of_tables exact_keys all_columns json catalog_server c some_schema
        ≡ load_of_tables exact_keys all_columns json narrow_server c some_schema)
unfolding schemas_url tables_url
after_changes-requests_example =
    after_changes-requests exact_keys all_columns json (codes "d") (codes "c") uc_credentials
      (codes "none") in_order table_order automatic
      ((catalog_server, finds_table (codes "main") (codes "good")) ∷ []) catalog_server
      narrow_server some_schema refl refl
