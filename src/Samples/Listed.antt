-- ===== src/Samples/Listed.antt =====
-- A server's listings as the tests take them, and DuckDB's calls.
use uc_catalog.Base.{refl, [], ◌∷◌, ◌++◌, codes, List, Option, none, some, Bytes}
use uc_catalog.Outcome.{ok}
use uc_catalog.Api.{
  schemas_url, tables_url, UcapiTable, get_schemas, get_tables, try_get_str_from_object,
  try_get_num_from_object,
}
use uc_catalog.TypeText.Types.{integer}
use uc_catalog.TypeText.{type_to_logical_type}
use uc_catalog.TableSet.{Columns, Column, add_columns}
use uc_catalog.Catalog.Consistent.{World, IsServed}
use uc_catalog.Attach.{Duckdb}
use uc_catalog.Samples.{exact_keys, json, uc_credentials, catalog_server, cast_numeral}

abbrev pub all_columns : Columns
all_columns = record {
  cast_uint8 = cast_numeral;
  add_column = λ columns column. ok (columns ++ (column ∷ []));
}

abbrev pub good_table : Bytes → UcapiTable
good_table schema_name = record {
  table_id = codes "good";
  name = codes "good";
  catalog_name = codes "c";
  schema_name = schema_name;
  table_type = codes "good";
  data_source_format = codes "good";
  storage_location = codes "good";
  columns =
      record { name = codes "int"; type_text = codes "int"; precision = 0; scale = 0; position = 0 }
      ∷ [];
}

abbrev pub int_column : List Column
int_column = record { name = codes "int"; logical_type = integer } ∷ []

-- Two schemas with one table each.
abbrev pub world : World
world = record {
  name = codes "c";
  path = codes "c";
  credentials = uc_credentials;
  schemas =
      record { schema_name = codes "main"; catalog_name = codes "c" }
      ∷ (record { schema_name = codes "MAIN"; catalog_name = codes "c" } ∷ []);
  tables = λ schema_name. good_table schema_name ∷ [];
}

pub world-IsServed : IsServed exact_keys all_columns json catalog_server world
unfolding get_schemas get_tables try_get_str_from_object try_get_num_from_object add_columns
    type_to_logical_type schemas_url tables_url
world-IsServed = (
  refl,
  (refl, (refl, tt)),
  (refl, (refl, (int_column, refl), tt), (refl, (refl, (int_column, refl), tt), tt)),
)

abbrev to_text : Option Bytes → Bytes
to_text none = codes "NULL"
to_text (some s) = s

-- Names in small letters, and endpoints without a slash at the end.
abbrev pub sample_duckdb : Duckdb
sample_duckdb = record {
  lower = λ s. s;
  rtrim = λ s characters. s;
  to_string = to_text;
  to_string_text = λ s. refl;
}
