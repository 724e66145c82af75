-- ===== src/TableEntry/Tests.antt =====
-- The theorems on the scan of a table, for given tables.
use uc_catalog.TableEntry.Unkeyed.{get_scan_function_unkeyed}
use uc_catalog.Base.{◌≡◌, refl, [], ◌∷◌, codes, Bytes, ◌⊎◌, true, starts_with, List}
use uc_catalog.Outcome.{ok}
use uc_catalog.Samples.{json, uc_credentials, table_server, key_server, no_server}
use uc_catalog.Api.{
  UcapiTable, UcapiTableCredentials, get_table_credentials, try_get_str_from_object,
}
use uc_catalog.TableEntry.{Scanner, CreateSecretInfo, get_scan_function}
use uc_catalog.TableEntry.Scanning.{get_scan_function_local, get_scan_function_ok}

-- The state is the list of the secrets that were made.
abbrev scanner : Scanner (List CreateSecretInfo)
scanner = record {
  Function = Bytes;
  BindData = List Bytes;
  delta_scan = ok (codes "delta_scan");
  create_secret = λ info secrets. (ok tt, info ∷ secrets);
  bind = λ f inputs secrets. (ok inputs, secrets);
  format = λ text id. id;
}

abbrev table_at : Bytes → UcapiTable
table_at path = record {
  table_id = codes "1";
  name = codes "t";
  catalog_name = codes "c";
  schema_name = codes "s";
  table_type = codes "MANAGED";
  data_source_format = codes "DELTA";
  storage_location = path;
  columns = [];
}

get_scan_function_local_example :
    get_scan_function scanner json table_server uc_credentials (table_at (codes "file:///t")) []
    ≡ get_scan_function scanner json no_server uc_credentials (table_at (codes "file:///t")) []
get_scan_function_local_example =
    get_scan_function_local scanner json uc_credentials table_server no_server
      (table_at (codes "file:///t")) [] refl

get_scan_function_ok_example :
    (codes "DELTA" ≡ codes "DELTA")
    × (scanner.delta_scan ≡ ok (codes "delta_scan"))
    × ((starts_with (codes "file://") (codes "s3://t") ≡ true)
        ⊎ ((c : UcapiTableCredentials) × (get_table_credentials json key_server scanner.format
                (codes "1")
                uc_credentials
              ≡ ok c)))
unfolding get_scan_function get_table_credentials try_get_str_from_object
get_scan_function_ok_example =
    get_scan_function_ok scanner json uc_credentials key_server (table_at (codes "s3://t")) []
      (codes "delta_scan") (codes "s3://t" ∷ []) refl

-- The server sends a body that is not read as JSON.
get_scan_function_unkeyed_example :
    get_scan_function scanner json key_server uc_credentials (table_at (codes "s3://t")) [] ≡ (
      ok (codes "delta_scan", codes "s3://t" ∷ []),
      record {
        name = codes "__internal_uc_1";
        secret_type = codes "s3";
        provider = codes "config";
        options =
            (codes "key_id", [])
            ∷ ((codes "secret", [])
                ∷ ((codes "session_token", [])
                    ∷ ((codes "region", uc_credentials.aws_region) ∷ [])));
        scope = codes "s3://t" ∷ [];
      }
          ∷ [],
    )
get_scan_function_unkeyed_example =
    get_scan_function_unkeyed scanner json key_server uc_credentials (table_at (codes "s3://t"))
      (codes "keys" ∷ []) [] (codes "delta_scan") refl refl refl refl refl
