-- ===== src/TableSet/Tests.antt =====
-- The theorems on the tables of a schema, for a given answer.
use uc_catalog.Samples.Listed.{good_table, int_column}
use uc_catalog.TableSet.Filled.{steady_setting, find_entry-first_table}
use uc_catalog.TableSet.Plan.{planned}
use uc_catalog.CatalogSet.System.Alone.{serve, Reach-serve}
use uc_catalog.CatalogSet.System.{Setting, Answer, look_up, idle, ended, update, init}
use uc_catalog.CatalogSet.Plan.{Plan, load_of_plan}
use uc_catalog.Base.{◌≡◌, refl, [], ◌∷◌, ◌++◌, codes, Bytes, false, true, none, some, List, arith}
use uc_catalog.Outcome.{ok, throws, not_implemented, Outcome}
use uc_catalog.Samples.{
  exact_keys, json, uc_credentials, table_server, no_server, cast_numeral, catalog_server,
}
use uc_catalog.Api.{
  UcapiTable, UcapiColumnDefinition, get_tables, tables_url, request_of, try_get_str_from_object,
  try_get_num_from_object, schemas_url,
}
use uc_catalog.TypeText.{type_to_logical_type}
use uc_catalog.TypeText.Types.{LogicalType}
use uc_catalog.CatalogSet.{CatalogSet, empty_set, get_entry, find_entry, Entry, create_entry}
use uc_catalog.TableSet.{TableData, SchemaInfo, Columns, add_columns, create_tables, load_tables}
use uc_catalog.TableSet.Lookup.{seen, create_tables_lookup, first_table}
use uc_catalog.TableSet.Load.{get_entry_unreadable}

abbrev all_columns : Columns
all_columns = record {
  cast_uint8 = cast_numeral;
  add_column = λ columns column. ok (columns ++ (column ∷ []));
}

abbrev schema : SchemaInfo
schema = record { name = codes "s"; is_internal = false }

abbrev column_of : Bytes → UcapiColumnDefinition
column_of text = record { name = text; type_text = text; precision = 0; scale = 0; position = 0 }

abbrev table_of : Bytes → Bytes → UcapiTable
table_of n text = record {
  table_id = n;
  name = n;
  catalog_name = codes "c";
  schema_name = codes "s";
  table_type = n;
  data_source_format = n;
  storage_location = n;
  columns = column_of text ∷ [];
}

-- The set in which only the first of two tables was filed.
abbrev half_loaded : CatalogSet TableData
half_loaded = record {
  entries =
      record {
        address = 0;
        name = codes "good";
        is_internal = false;
        content = record {
          columns = record { name = codes "int"; logical_type = LogicalType.integer } ∷ [];
          table_data = table_of (codes "good") (codes "int");
        };
      }
      ∷ [];
  is_loaded = true;
  allocated = 1;
  requests = request_of (tables_url uc_credentials (codes "c") (codes "s")) (codes "t") ∷ [];
}

get_entry_unreadable_example :
    (get_entry exact_keys
        (load_tables exact_keys all_columns json table_server (codes "c") uc_credentials schema)
        (codes "good")
        empty_set
      ≡ (throws not_implemented, half_loaded))
    × (get_entry exact_keys
          (load_tables exact_keys all_columns json no_server (codes "c") uc_credentials schema)
          (codes "bad")
          half_loaded
        ≡ (ok none, half_loaded))
unfolding get_tables try_get_str_from_object try_get_num_from_object create_tables add_columns
    find_entry type_to_logical_type
get_entry_unreadable_example =
    get_entry_unreadable exact_keys all_columns schema json table_server no_server (codes "c")
      uc_credentials (table_of (codes "good") (codes "int") ∷ []) []
      (table_of (codes "bad") (codes "uuid")) not_implemented (codes "good") (codes "bad") empty_set
      half_loaded refl refl refl refl

create_tables_lookup_example :
    let tables =
      table_of (codes "good") (codes "int") ∷ (table_of (codes "good") (codes "date") ∷ []) in
    ((create_tables exact_keys all_columns schema tables empty_set).0 ≡ ok tt)
    × (seen (
          find_entry exact_keys
            (codes "good")
            (create_tables exact_keys all_columns schema tables empty_set).1.entries)
        ≡ some (
          false,
          record {
            columns = record { name = codes "int"; logical_type = LogicalType.integer } ∷ [];
            table_data = table_of (codes "good") (codes "int");
          },
        ))
unfolding add_columns find_entry type_to_logical_type
create_tables_lookup_example =
    create_tables_lookup exact_keys all_columns schema
      (table_of (codes "good") (codes "int") ∷ (table_of (codes "good") (codes "date") ∷ []))
      empty_set (codes "good")
      (
        refl,
        (record { name = codes "int"; logical_type = LogicalType.integer } ∷ [], refl),
        (refl, (record { name = codes "date"; logical_type = LogicalType.date } ∷ [], refl), tt),
      )

-- A lookup that has run alone from an empty set on.
abbrev in_order : List (Entry TableData) → List (Entry TableData)
in_order es = es

abbrev steady : Setting TableData
steady =
    steady_setting all_columns schema exact_keys json (codes "c") uc_credentials in_order
      catalog_server

abbrev listing : Outcome (Plan TableData)
listing =
    planned all_columns schema
      (get_tables json catalog_server (codes "c") (codes "s") uc_credentials)

abbrev alone : Outcome (Answer TableData) × CatalogSet TableData
alone = serve steady listing (look_up (codes "good")) empty_set

find_entry-first_table_example :
    seen (find_entry exact_keys (codes "good") alone.1.entries)
    ≡ first_table exact_keys all_columns schema (codes "good") (good_table (codes "s") ∷ [])
unfolding get_tables get_entry load_of_plan create_entry try_get_str_from_object
    try_get_num_from_object add_columns type_to_logical_type tables_url schemas_url
find_entry-first_table_example =
    find_entry-first_table all_columns schema exact_keys json (codes "c") uc_credentials in_order
      catalog_server
      {t = record {
        mem = record { set = alone.1; locked = false };
        pc = update (λ i. idle) 0 (ended alone.0);
      }}
      (good_table (codes "s") ∷ []) (codes "good") refl (refl, (int_column, refl), tt)
      (Reach-serve steady 0 (look_up (codes "good")) listing (init empty_set) refl refl refl) refl
      (λ i. ground arith)
