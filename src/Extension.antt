-- ===== src/Extension.antt =====
-- src/uc_catalog_extension.cpp and src/include/uc_catalog_extension.hpp: what the extension registers
-- with DuckDB when it is loaded.
pub mod Registers
pub mod Attached
mod Tests
use uc_catalog.Base.{Bool, Option, none, some, List, [], Bytes, codes, ◌≡◌}
use uc_catalog.Outcome.{Outcome, ok, ◌>>=◌}
use uc_catalog.Action.{Action, modify, ◌>>◌}
use uc_catalog.TypeText.Types.{LogicalType}
use uc_catalog.Transactions.{AccessMode, UcTransactionManager}
use uc_catalog.Attach.{
  Duckdb, Options, KeyValueSecret, set_uc_secret_parameters, create_uc_secret, uc_catalog_attach,
}
use uc_catalog.Catalog.{UcCatalog, make_catalog}

-- DuckDB's `SecretType`, without its deserializer, which is DuckDB's own.
pub record SecretType : Type 0 where
  pub name : Bytes
  pub default_provider : Bytes

-- DuckDB's `CreateSecretFunction`.
pub record CreateSecretFunction : Type 0 where
  pub secret_type : Bytes
  pub provider : Bytes
  pub function : Options → Outcome KeyValueSecret
  pub named_parameters : List (Bytes × LogicalType)

-- The secrets that the secret manager finds, by name and storage.
abbrev pub Secrets : Type 0
Secrets = Bytes → Bytes → Option KeyValueSecret

-- `attach` takes the name and the path of the database.
pub record StorageExtension : Type 0 where
  pub attach : Secrets → Bytes → Bytes → AccessMode → Options → Outcome UcCatalog
  pub create_transaction_manager : UcCatalog → UcTransactionManager

-- DuckDB's registries, with the database instance as the state: each entry that is registered is
-- found afterwards, and a registration leaves the other registries as they are.
pub record Registry (S : Type 0) : Type 0 where
  pub register_secret_type : SecretType → Action S (Unit {0})
  pub register_function : CreateSecretFunction → Action S (Unit {0})
  pub put_storage_extension : Bytes → StorageExtension → S → S
  pub default_provider : S → Bytes → Option Bytes
  pub secret_function : S → Bytes → Bytes → Option CreateSecretFunction
  pub storage_extension : S → Bytes → Option StorageExtension
  pub register_secret_type_found :
      (t : SecretType) (s u : S)
      → register_secret_type t s ≡ (ok tt, u)
      → default_provider u t.name ≡ some t.default_provider
  pub register_function_found :
      (f : CreateSecretFunction) (s u : S)
      → register_function f s ≡ (ok tt, u)
      → secret_function u f.secret_type f.provider ≡ some f
  pub put_storage_extension_found :
      (name : Bytes) (e : StorageExtension) (s : S)
      → storage_extension (put_storage_extension name e s) name ≡ some e
  pub register_function_keeps :
      (f : CreateSecretFunction) (s : S) (name : Bytes)
      → default_provider (register_function f s).1 name ≡ default_provider s name
  pub put_storage_extension_keeps :
      (n : Bytes) (e : StorageExtension) (s : S) (name provider : Bytes)
      → (default_provider (put_storage_extension n e s) name ≡ default_provider s name)
        × (secret_function (put_storage_extension n e s) name provider
            ≡ secret_function s name provider)

-- `CreateTransactionManager`, with the manager's constructor: of its catalog the manager reads the
-- access mode, which nothing changes.
unfoldable pub create_transaction_manager : UcCatalog → UcTransactionManager
create_transaction_manager catalog = record {
  access_mode = catalog.access_mode;
  transactions = [];
  allocated = 0;
}

-- `UcCatalogExtension::Name`
abbrev pub extension_name : Bytes
extension_name = codes "uc_catalog"

-- `UcCatalogExtension::Version`; the macro `EXT_VERSION_UC_CATALOG` may be undefined.
unfoldable pub version : Option Bytes → Bytes
version none = []
version (some ext_version) = ext_version

module _ (d : Duckdb) where
  -- The end of `UCCatalogAttach`: the catalog is made with the credentials.
  unfoldable pub attach_catalog : Secrets → Bytes → Bytes → AccessMode → Options → Outcome UcCatalog
  unfolding uc_catalog_attach
  attach_catalog secrets name path access_mode options = do
    credentials ← uc_catalog_attach d secrets options
    ok (make_catalog name path access_mode credentials)

  -- `UCCatalogStorageExtension`
  unfoldable pub storage_extension : StorageExtension
  unfolding attach_catalog create_transaction_manager
  storage_extension = record {
    attach = attach_catalog;
    create_transaction_manager = create_transaction_manager;
  }

  unfoldable pub secret_function : CreateSecretFunction
  unfolding create_uc_secret set_uc_secret_parameters
  secret_function = record {
    secret_type = codes "uc";
    provider = codes "config";
    function = create_uc_secret d;
    named_parameters = set_uc_secret_parameters [];
  }

  -- `LoadInternal`
  unfoldable pub load_internal : {S : Type 0} → Registry S → Action S (Unit {0})
  unfolding storage_extension secret_function
  load_internal r = do
    r.register_secret_type (record { name = codes "uc"; default_provider = codes "config" })
    r.register_function secret_function
    modify (r.put_storage_extension (codes "uc_catalog") storage_extension)

  -- `UcCatalogExtension::Load`
  unfoldable pub load : {S : Type 0} → Registry S → Action S (Unit {0})
  unfolding load_internal
  load r = load_internal r
