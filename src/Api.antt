-- ===== src/Api.antt =====
-- src/uc_api.cpp and src/include/uc_api.hpp: the requests to the Unity Catalog server, and what is
-- read out of its answers.
pub mod Interface
pub mod Answers
pub mod Urls
mod Tests
use uc_catalog.Base.{
  ℕ, Bool, true, false, not, Option, none, some, List, [], ◌∷◌, ◌++◌, Bytes, codes, is_empty,
  if◌then◌else◌,
}
use uc_catalog.Outcome.{Outcome, ok, throws, undefined, ◌>>=◌, io, internal, not_implemented}
use Interface.{
  JsonType, num, bool, str, same_type, Yyjson, Request, Transfer, no_handle, failed, complete,
  Server,
}

pub record UcCredentials : Type 0 where
  pub endpoint : Bytes
  pub token : Bytes
  pub aws_region : Bytes

pub record UcapiColumnDefinition : Type 0 where
  pub name : Bytes
  pub type_text : Bytes
  pub precision : ℕ
  pub scale : ℕ
  pub position : ℕ

-- Without `delta_last_commit_timestamp` and `delta_last_update_version`, which nothing sets.
pub record UcapiTable : Type 0 where
  pub table_id : Bytes
  pub name : Bytes
  pub catalog_name : Bytes
  pub schema_name : Bytes
  pub table_type : Bytes
  pub data_source_format : Bytes
  pub storage_location : Bytes
  pub columns : List UcapiColumnDefinition

pub record UcapiSchema : Type 0 where
  pub schema_name : Bytes
  pub catalog_name : Bytes

pub record UcapiTableCredentials : Type 0 where
  pub key_id : Bytes
  pub secret : Bytes
  pub session_token : Bytes

-- The write callback appends one chunk to the buffer.
unfoldable pub write_callback : Bytes → Bytes → Bytes
write_callback buffer contents = buffer ++ contents

unfoldable pub write_all : Bytes → List Bytes → Bytes
unfolding write_callback
write_all buffer [] = buffer
write_all buffer (chunk ∷ chunks) = write_all (write_callback buffer chunk) chunks

-- What both request functions do with the handle once its options are set.
unfoldable pub perform : Server → Request → Outcome Bytes
unfolding write_all
perform server request = elim (server request) [
  | no_handle ↦ throws internal
  | failed chunks ↦ throws io
  | complete chunks ↦ ok (write_all [] chunks)
]

abbrev pub bearer_of : Bytes → Option Bytes
bearer_of token = if not (is_empty token) then some token else none

-- A request without a body.
abbrev pub request_of : Bytes → Bytes → Request
request_of url token = record { url = url; bearer = bearer_of token; headers = []; body = none }

unfoldable pub get_request : Server → Bytes → Bytes → Outcome Bytes
unfolding perform
get_request server url token = perform server (request_of url token)

-- `StringUtil::Format` is a parameter.
unfoldable pub get_credentials_request :
    Server → (Bytes → Bytes → Bytes) → Bytes → Bytes → Bytes → Outcome Bytes
unfolding perform
get_credentials_request server format url table_id token = perform server (record {
  url = url;
  bearer = bearer_of token;
  headers = codes "Content-Type: application/json" ∷ [];
  body = some (format (codes "{\"table_id\" : \"%s\", \"operation\" : \"READ\"}") table_id);
})

unfoldable pub tables_url : UcCredentials → Bytes → Bytes → Bytes
tables_url credentials catalog schema =
    credentials.endpoint
    ++ (codes "/api/2.1/unity-catalog/tables?catalog_name="
        ++ (catalog ++ (codes "&schema_name=" ++ schema)))

unfoldable pub schemas_url : UcCredentials → Bytes → Bytes
schemas_url credentials catalog =
    credentials.endpoint ++ (codes "/api/2.1/unity-catalog/schemas?catalog_name=" ++ catalog)

unfoldable pub credentials_url : UcCredentials → Bytes
credentials_url credentials =
    credentials.endpoint ++ codes "/api/2.1/unity-catalog/temporary-table-credentials"

-- `UCAPI::GetCatalogs`
unfoldable pub get_catalogs : Bytes → UcCredentials → Outcome (List Bytes)
get_catalogs catalog credentials = throws not_implemented

module _ (y : Yyjson) where
  open y use {Value}

  -- `TemplatedTryGetYYJson`
  unfoldable pub try_get_yyjson :
      {A : Type 0} → JsonType → (Value → Outcome A) → Option Value → Bytes → A → Bool → Outcome A
  try_get_yyjson type_num get_function obj field default_val fail_on_missing =
      let missing = if not fail_on_missing then ok default_val else throws io in
      elim (y.obj_get obj field) [
        | none ↦ missing
        | some val ↦ if same_type (y.get_type val) type_num then get_function val else missing
      ]

  -- A `std::string` made of a `const char *`.
  abbrev pub string_of : Option Bytes → Outcome Bytes
  string_of none = undefined
  string_of (some s) = ok s

  unfoldable pub try_get_num_from_object : Option Value → Bytes → Bool → ℕ → Outcome ℕ
  unfolding try_get_yyjson
  try_get_num_from_object obj field fail_on_missing default_val =
      try_get_yyjson num (λ v. ok (y.get_uint v)) obj field default_val fail_on_missing

  unfoldable pub try_get_bool_from_object : Option Value → Bytes → Bool → Bool → Outcome Bool
  unfolding try_get_yyjson
  try_get_bool_from_object obj field fail_on_missing default_val =
      try_get_yyjson bool (λ v. ok (y.get_bool v)) obj field default_val fail_on_missing

  unfoldable pub try_get_str_from_object : Option Value → Bytes → Bool → Bytes → Outcome Bytes
  unfolding try_get_yyjson
  try_get_str_from_object obj field fail_on_missing default_val =
      try_get_yyjson str (λ v. string_of (y.get_str v)) obj field default_val fail_on_missing

  -- The calls that leave `fail_on_missing` at its default.
  abbrev pub required_str : Option Value → Bytes → Outcome Bytes
  required_str obj field = try_get_str_from_object obj field true []

  abbrev pub required_num : Option Value → Bytes → Outcome ℕ
  required_num obj field = try_get_num_from_object obj field true 0

  unfoldable pub parse_column_definition : Value → Outcome UcapiColumnDefinition
  parse_column_definition v = do
    let column_def = some v
    name ← required_str column_def (codes "name")
    type_text ← required_str column_def (codes "type_text")
    precision ← required_num column_def (codes "type_precision")
    scale ← required_num column_def (codes "type_scale")
    position ← required_num column_def (codes "position")
    ok (record {
      name = name;
      type_text = type_text;
      precision = precision;
      scale = scale;
      position = position;
    })

  -- A `yyjson_arr_foreach` loop that appends to a vector.
  unfoldable pub for_each : {A : Type 0} → (Value → Outcome A) → List Value → Outcome (List A)
  for_each body [] = ok []
  for_each body (v ∷ vs) = do a ← body v; as' ← for_each body vs; ok (a ∷ as')

  -- The body of the loop over the tables.
  unfoldable pub parse_table : Bytes → Bytes → Value → Outcome UcapiTable
  unfolding parse_column_definition for_each
  parse_table catalog schema v = do
    let table = some v
    name ← required_str table (codes "name")
    table_type ← required_str table (codes "table_type")
    data_source_format ← try_get_str_from_object table (codes "data_source_format") false []
    storage_location ← try_get_str_from_object table (codes "storage_location") false []
    table_id ← required_str table (codes "table_id")
    columns ← for_each parse_column_definition (y.elements (y.obj_get table (codes "columns")))
    ok (record {
      table_id = table_id;
      name = name;
      catalog_name = catalog;
      schema_name = schema;
      table_type = table_type;
      data_source_format = data_source_format;
      storage_location = storage_location;
      columns = columns;
    })

  -- `UCAPI::GetTables`
  unfoldable pub get_tables : Server → Bytes → Bytes → UcCredentials → Outcome (List UcapiTable)
  unfolding get_request parse_table for_each
  get_tables server catalog schema credentials = do
    api_result ← get_request server (tables_url credentials catalog schema) credentials.token
    let root = y.read api_result
    for_each (parse_table catalog schema) (y.elements (y.obj_get root (codes "tables")))

  -- The body of the loop over the schemas: a schema without a name keeps the empty one.
  unfoldable pub parse_schema : Bytes → Value → Outcome UcapiSchema
  parse_schema catalog v = do
    name ← elim (y.obj_get (some v) (codes "name")) [
      | none ↦ ok []
      | some name ↦ string_of (y.get_str name)
    ]
    ok (record { schema_name = name; catalog_name = catalog })

  -- `UCAPI::GetSchemas`
  unfoldable pub get_schemas : Server → Bytes → UcCredentials → Outcome (List UcapiSchema)
  unfolding get_request parse_schema for_each
  get_schemas server catalog credentials = do
    api_result ← get_request server (schemas_url credentials catalog) credentials.token
    let root = y.read api_result
    for_each (parse_schema catalog) (y.elements (y.obj_get root (codes "schemas")))

  -- `UCAPI::GetTableCredentials`
  unfoldable pub get_table_credentials :
      Server → (Bytes → Bytes → Bytes) → Bytes → UcCredentials → Outcome UcapiTableCredentials
  unfolding get_credentials_request
  get_table_credentials server format table_id credentials = do
    api_result ←
        get_credentials_request server format (credentials_url credentials) table_id
          credentials.token
    let root = y.read api_result
    let aws = y.obj_get root (codes "aws_temp_credentials")
    elim aws [
      | none ↦ ok (record { key_id = []; secret = []; session_token = [] })
      | some aws_temp_credentials ↦ do
        let obj = some aws_temp_credentials
        key_id ← required_str obj (codes "access_key_id")
        secret ← required_str obj (codes "secret_access_key")
        session_token ← required_str obj (codes "session_token")
        ok (record { key_id = key_id; secret = secret; session_token = session_token })
    ]
