-- ===== src/TableEntry/Unkeyed.antt =====
-- Answers without credentials. The request does not look at the HTTP status, and a missing member
-- `aws_temp_credentials` is passed over.
use uc_catalog.Base.{
  ◌≡◌, refl, true, false, none, some, [], ◌∷◌, ◌++◌, List, Bytes, codes, equal, starts_with,
  found_at_start-find, ◌∙◌,
}
use uc_catalog.Outcome.{ok}
use uc_catalog.Action.{continue}
use uc_catalog.Api.Interface.{Yyjson, Server, Request, complete}
use uc_catalog.Api.Answers.{concat, perform-complete}
use uc_catalog.Api.{UcCredentials, UcapiTable, bearer_of, credentials_url, get_table_credentials}
use uc_catalog.TableEntry.{Scanner, get_scan_function}

-- What `GetCredentialsRequest` sends for a table.
abbrev pub credentials_request : (Bytes → Bytes → Bytes) → UcCredentials → Bytes → Request
credentials_request format credentials table_id = record {
  url = credentials_url credentials;
  bearer = bearer_of credentials.token;
  headers = codes "Content-Type: application/json" ∷ [];
  body = some (format (codes "{\"table_id\" : \"%s\", \"operation\" : \"READ\"}") table_id);
}

module _ {S : Type 0} (d : Scanner S) (y : Yyjson) (server : Server)
    (credentials : UcCredentials) where
  get_table_credentials_missing :
      (table_id : Bytes) (chunks : List Bytes)
      → server (credentials_request d.format credentials table_id) ≡ complete chunks
      → y.obj_get (y.read (concat chunks)) (codes "aws_temp_credentials") ≡ none
      → get_table_credentials y server d.format table_id credentials
        ≡ ok (record { key_id = []; secret = []; session_token = [] })
  unfolding get_table_credentials
  get_table_credentials_missing table_id chunks sent missing = rw (
    perform-complete server (credentials_request d.format credentials table_id) chunks sent,
    missing,
  )

  -- For a Delta table whose path does not begin with `file://`, a transfer that ends well with an
  -- answer without a member `aws_temp_credentials`, such as an error message of the server or
  -- credentials for another cloud, is no error: the scan replaces the secret for the path of the
  -- table by one with an empty key, an empty secret and an empty token, and goes on to bind.
  pub get_scan_function_unkeyed :
      (table_data : UcapiTable) (chunks : List Bytes) (s : S) (f : d.Function)
      → d.delta_scan ≡ ok f
      → equal table_data.data_source_format (codes "DELTA") ≡ true
      → starts_with (codes "file://") table_data.storage_location ≡ false
      → server (credentials_request d.format credentials table_data.table_id) ≡ complete chunks
      → y.obj_get (y.read (concat chunks)) (codes "aws_temp_credentials") ≡ none
      → get_scan_function d y server credentials table_data s
        ≡ continue
            (d.create_secret
              (record {
                name = codes "__internal_uc_" ++ table_data.table_id;
                secret_type = codes "s3";
                provider = codes "config";
                options =
                    (codes "key_id", [])
                    ∷ ((codes "secret", [])
                        ∷ ((codes "session_token", [])
                            ∷ ((codes "region", credentials.aws_region) ∷ [])));
                scope = table_data.storage_location ∷ [];
              })
              s)
            (λ u t.
              continue (d.bind f (table_data.storage_location ∷ []) t) (λ b v. (ok (f, b), v)))
  unfolding get_scan_function
  get_scan_function_unkeyed table_data chunks s f there delta remote sent missing =
      rw
        (
          there,
          delta,
          found_at_start-find (codes "file://") table_data.storage_location ∙ remote,
          get_table_credentials_missing table_data.table_id chunks sent missing,
        )
        refl
