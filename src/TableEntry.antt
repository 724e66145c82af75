-- ===== src/TableEntry.antt =====
-- src/storage/uc_table_entry.cpp: one table, and the function that scans it.
pub mod Scanning
pub mod Unkeyed
mod Tests
use uc_catalog.Base.{
  Bool, not, Option, none, List, [], ◌∷◌, ◌++◌, Bytes, codes, equal, find, found_at_start,
  if◌then◌else◌,
}
use uc_catalog.Outcome.{Outcome, not_implemented}
use uc_catalog.Action.{Action, pure, fail, lift, ◌>>=◌, ◌>>◌}
use uc_catalog.Api.Interface.{Yyjson, Server}
use uc_catalog.Api.{UcCredentials, UcapiTable, UcapiTableCredentials, get_table_credentials}

-- DuckDB's `CreateTableInfo`, as far as the source names its members.
pub record CreateTableInfo : Type 0 where
  pub catalog : Bytes
  pub schema : Bytes
  pub table : Bytes

pub record UcTableInfo : Type 0 where
  pub create_info : CreateTableInfo

-- The constructor for the names of a schema and a table.
unfoldable pub make_table_info : Bytes → Bytes → UcTableInfo
make_table_info schema table = record {
  create_info = record { catalog = []; schema = schema; table = table };
}

unfoldable pub get_table_name : UcTableInfo → Bytes
get_table_name info = info.create_info.table

-- `GetStatistics`: the null pointer.
unfoldable pub get_statistics : {Statistics : Type 0} → Option Statistics
get_statistics = none

-- `GetStorageInfo`, with the `TableStorageInfo` that DuckDB makes by default.
unfoldable pub get_storage_info : {Info : Type 0} → Info → Info
get_storage_info default_info = default_info

-- DuckDB's `CreateSecretInfo`, for a temporary secret that replaces one of its name.
pub record CreateSecretInfo : Type 0 where
  pub name : Bytes
  pub secret_type : Bytes
  pub provider : Bytes
  pub options : List (Bytes × Bytes)
  pub scope : List Bytes

-- `GetScanFunction` names the secret after the table and limits it to the table's path.
unfoldable pub secret_info : UcCredentials → UcapiTable → UcapiTableCredentials → CreateSecretInfo
secret_info credentials table_data table_credentials = record {
  name = codes "__internal_uc_" ++ table_data.table_id;
  secret_type = codes "s3";
  provider = codes "config";
  options =
      (codes "key_id", table_credentials.key_id)
      ∷ ((codes "secret", table_credentials.secret)
          ∷ ((codes "session_token", table_credentials.session_token)
              ∷ ((codes "region", credentials.aws_region) ∷ [])));
  scope = table_data.storage_location ∷ [];
}

-- DuckDB's part: the look-up of `delta_scan`, the secret manager, and the function's `bind`, with the
-- database as the state; and `StringUtil::Format`.
pub record Scanner (S : Type 0) : Type 1 where
  pub Function : Type 0
  pub BindData : Type 0
  pub delta_scan : Outcome Function
  pub create_secret : CreateSecretInfo → Action S (Unit {0})
  pub bind : Function → List Bytes → Action S BindData
  pub format : Bytes → Bytes → Bytes

module _ {S : Type 0} (d : Scanner S) (y : Yyjson) (server : Server)
    (credentials : UcCredentials) where
  -- A path that is not local needs a secret.
  unfoldable pub inject_secret : UcapiTable → Action S (Unit {0})
  unfolding secret_info
  inject_secret table_data =
      let injected = do
        table_credentials ←
            lift (get_table_credentials y server d.format table_data.table_id credentials)
        d.create_secret (secret_info credentials table_data table_credentials)
      in if not (found_at_start (find (codes "file://") table_data.storage_location))
        then injected
        else pure tt

  -- `UCTableEntry::GetScanFunction`: the function and its bind data.
  unfoldable pub get_scan_function : UcapiTable → Action S (d.Function × d.BindData)
  unfolding inject_secret
  get_scan_function table_data = do
    delta_scan_function ← lift d.delta_scan
    let scanned = do
      inject_secret table_data
      bind_data ← d.bind delta_scan_function (table_data.storage_location ∷ [])
      pure (delta_scan_function, bind_data)
    if not (equal table_data.data_source_format (codes "DELTA"))
        then fail not_implemented
        else scanned

-- `BindUpdateConstraints`
unfoldable pub bind_update_constraints : {S : Type 0} → Action S (Unit {0})
bind_update_constraints = fail not_implemented
