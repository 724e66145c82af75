-- ===== src/Api/Tests.antt =====
-- The theorem on the listing of the tables, for a given answer.
use uc_catalog.Base.{◌≡◌, ◌++◌, refl, [], ◌∷◌, codes, List}
use uc_catalog.Samples.{json, uc_credentials, table_server}
use uc_catalog.Api.{
  tables_url, UcapiTable, get_tables, try_get_str_from_object, try_get_num_from_object,
}
use uc_catalog.Api.Urls.{tables_url_ambiguous}
use uc_catalog.Api.Answers.{AreTablesOf, get_tables_ok}

abbrev two_tables : List UcapiTable
two_tables =
    record {
      table_id = codes "good";
      name = codes "good";
      catalog_name = codes "c";
      schema_name = codes "s";
      table_type = codes "good";
      data_source_format = codes "good";
      storage_location = codes "good";
      columns =
          record {
            name = codes "int";
            type_text = codes "int";
            precision = 0;
            scale = 0;
            position = 0;
          }
          ∷ [];
    }
    ∷ (record {
      table_id = codes "bad";
      name = codes "bad";
      catalog_name = codes "c";
      schema_name = codes "s";
      table_type = codes "bad";
      data_source_format = codes "bad";
      storage_location = codes "bad";
      columns =
          record {
            name = codes "uuid";
            type_text = codes "uuid";
            precision = 0;
            scale = 0;
            position = 0;
          }
          ∷ [];
    }
        ∷ [])

get_tables_ok_example :
    AreTablesOf json
      (codes "c")
      (codes "s")
      (json.elements (json.obj_get (json.read (codes "tables")) (codes "tables")))
      two_tables
unfolding get_tables try_get_str_from_object try_get_num_from_object
get_tables_ok_example =
    get_tables_ok json (codes "c") (codes "s") table_server uc_credentials
      (codes "tab" ∷ (codes "les" ∷ [])) two_tables refl refl

tables_url_ambiguous_example :
    tables_url uc_credentials (codes "c" ++ (codes "&schema_name=" ++ codes "s")) (codes "t")
    ≡ tables_url uc_credentials (codes "c") (codes "s" ++ (codes "&schema_name=" ++ codes "t"))
tables_url_ambiguous_example =
    tables_url_ambiguous uc_credentials (codes "c") (codes "s") (codes "t")
