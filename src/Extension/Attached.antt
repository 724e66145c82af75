-- ===== src/Extension/Attached.antt =====
-- From `CREATE SECRET` and `ATTACH` to the tables that lookups give.
use uc_catalog.Base.{◌≡◌, refl, ap, sym, ◌∙◌, false, none, some, List, [], Bytes, codes, is_empty}
use uc_catalog.Outcome.{ok, ◌>>=◌}
use uc_catalog.Api.Interface.{Yyjson, Server}
use uc_catalog.Transactions.{AccessMode}
use uc_catalog.CatalogSet.Keys.{KeyEquality}
use uc_catalog.CatalogSet.{Entry}
use uc_catalog.TableSet.{TableData, Columns}
use uc_catalog.SchemaSet.{SchemaData}
use uc_catalog.Attach.{
  Duckdb, Options, KeyValueSecret, create_uc_secret, attach_options, read_secret, uc_catalog_attach,
}
use uc_catalog.Attach.Secrets.{
  last_value, uc_catalog_attach_branches, text_of, read_secret-create_uc_secret,
}
use uc_catalog.Catalog.{UcCatalog, make_catalog}
use uc_catalog.Catalog.Pointers.{get_table}
use uc_catalog.Catalog.Consistent.{World, IsServed}
use uc_catalog.Catalog.Lookups.{seen_result, promised_table}
use uc_catalog.Catalog.Refines.{Reading, after_all, get_table_refines}
use uc_catalog.Extension.{Secrets, attach_catalog}

module _ (d : Duckdb) (secrets : Secrets) where
  attach_named :
      (options : Options) (given : Bytes) (secret : KeyValueSecret)
      → attach_options d options [] ≡ ok given
      → is_empty given ≡ false
      → secrets given (codes "memory") ≡ some secret
      → uc_catalog_attach d secrets options ≡ ok (read_secret d secret)
  attach_named options given secret read named found =
      uc_catalog_attach_branches d secrets options given read ∙ rw (named, found) refl

  -- Attaching with the name of a secret in memory gives a catalog whose lookups, behind any lookups,
  -- scans and clears, are what the specification says of the listings of the server, where the
  -- server is asked with the token and the endpoint of the statement that made the secret. The
  -- statement gives an endpoint and a region.
  pub attach_catalog_serves :
      (k : KeyEquality) (columns : Columns) (y : Yyjson) (default_name : Bytes)
      (schema_order : List (Entry SchemaData) → List (Entry SchemaData))
      (table_order : List (Entry TableData) → List (Entry TableData)) (server : Server) (w : World)
      (secret_options options : Options) (secret : KeyValueSecret) (given endpoint region : Bytes)
      (mode : AccessMode) (rs : List Reading) (schema_name name : Bytes)
      → create_uc_secret d secret_options ≡ ok secret
      → last_value d (codes "endpoint") secret_options none ≡ some endpoint
      → last_value d (codes "aws_region") secret_options none ≡ some region
      → w.credentials ≡ record {
        token = text_of d (last_value d (codes "token") secret_options none);
        endpoint = d.rtrim endpoint (codes "/");
        aws_region = region;
      }
      → attach_options d options [] ≡ ok given
      → is_empty given ≡ false
      → secrets given (codes "memory") ≡ some secret
      → IsServed k columns y server w
      → (c : UcCatalog) × (attach_catalog d secrets w.name w.path mode options ≡ ok c)
        × (seen_result
              (get_table k columns y server default_name schema_name name
                (after_all k columns y default_name schema_order table_order server rs c)).0
            ≡ promised_table k columns y server w default_name schema_name name)
  unfolding attach_catalog
  attach_catalog_serves k columns y default_name schema_order table_order server w secret_options
        options secret given endpoint region mode rs schema_name name made has_endpoint has_region
        agreed read named found served =
      let credentials =
        read_secret-create_uc_secret d secret_options secret made
        ∙ rw (has_endpoint, has_region) refl in
      (
        make_catalog w.name w.path mode w.credentials,
        ap (λ r. r >>= λ credentials. ok (make_catalog w.name w.path mode credentials))
            (attach_named options given secret read named found ∙ ap ok (credentials ∙ sym agreed)),
        (get_table_refines k columns y default_name schema_order table_order server w served mode rs
            schema_name name).0,
      )
