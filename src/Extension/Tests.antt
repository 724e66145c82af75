-- ===== src/Extension/Tests.antt =====
-- The theorems on the extension, for a given registry, secret and server.
use uc_catalog.TypeText.Types.{varchar}
use uc_catalog.Base.{
  ◌≡◌, refl, ap, subst, false, Option, none, some, [], ◌∷◌, Bytes, codes, equal, if◌then◌else◌,
}
use uc_catalog.Outcome.{ok}
use uc_catalog.Samples.{equal_refl, exact_keys, json, catalog_server}
use uc_catalog.Samples.Listed.{
  world, world-IsServed, all_columns, good_table, int_column, sample_duckdb,
}
use uc_catalog.Transactions.{automatic}
use uc_catalog.TableSet.{add_columns}
use uc_catalog.TypeText.{type_to_logical_type}
use uc_catalog.SchemaSet.{is_internal_table}
use uc_catalog.Attach.{Options, KeyValueSecret, create_uc_secret, attach_options}
use uc_catalog.Catalog.{UcCatalog}
use uc_catalog.Catalog.Pointers.{get_table}
use uc_catalog.Catalog.Lookups.{seen_result}
use uc_catalog.Catalog.Refines.{Reading, after_all}
use uc_catalog.Extension.{
  CreateSecretFunction, StorageExtension, Registry, Secrets, attach_catalog, load,
}
use uc_catalog.Extension.Registers.{load_lem}
use uc_catalog.Extension.Attached.{attach_catalog_serves}

record Instance : Type 0 where
  providers : Bytes → Option Bytes
  functions : Bytes → Bytes → Option CreateSecretFunction
  storages : Bytes → Option StorageExtension

abbrev set_at : {A : Type 0} → Bytes → A → (Bytes → A) → Bytes → A
set_at key a f name = if equal key name then a else f name

set_at_found : {A : Type 0} (key : Bytes) (a : A) (f : Bytes → A) → set_at key a f key ≡ a
set_at_found key a f = rw (equal_refl key) refl

abbrev registry : Registry Instance
registry = record {
  register_secret_type =
      λ t s. (ok tt, record s { providers = set_at t.name (some t.default_provider) s.providers });
  register_function = λ f s. (
    ok tt,
    record s {
      functions =
          set_at f.secret_type (set_at f.provider (some f) (s.functions f.secret_type)) s.functions;
    },
  );
  put_storage_extension = λ name e s. record s { storages = set_at name (some e) s.storages };
  default_provider = λ s. s.providers;
  secret_function = λ s. s.functions;
  storage_extension = λ s. s.storages;
  register_secret_type_found = λ t s u h.
      subst (λ v. v.providers t.name ≡ some t.default_provider) (ap (λ r. r.1) h)
        (set_at_found t.name (some t.default_provider) s.providers);
  register_function_found = λ f s u h.
      subst (λ v. v.functions f.secret_type f.provider ≡ some f) (ap (λ r. r.1) h)
        (rw (equal_refl f.secret_type, equal_refl f.provider) refl);
  put_storage_extension_found = λ name e s. set_at_found name (some e) s.storages;
  register_function_keeps = λ f s name. refl;
  put_storage_extension_keeps = λ n e s name provider. (refl, refl);
}

abbrev fresh : Instance
fresh = record {
  providers = λ name. none;
  functions = λ type provider. none;
  storages = λ name. none;
}

abbrev loaded : Instance
loaded = (load sample_duckdb registry fresh).1

load_lem_example :
    (loaded.providers (codes "uc") ≡ some (codes "config"))
    × ((f : CreateSecretFunction) × (loaded.functions (codes "uc") (codes "config") ≡ some f)
        × (f.function ≡ create_uc_secret sample_duckdb)
        × (f.named_parameters
            ≡ (codes "token", varchar)
              ∷ ((codes "endpoint", varchar) ∷ ((codes "aws_region", varchar) ∷ []))))
    × ((e : StorageExtension) × (loaded.storages (codes "uc_catalog") ≡ some e)
        × (e.attach ≡ attach_catalog sample_duckdb)
        × ((c : UcCatalog)
            → e.create_transaction_manager c
              ≡ record { access_mode = c.access_mode; transactions = []; allocated = 0 }))
unfolding load
load_lem_example = load_lem sample_duckdb registry fresh loaded refl

abbrev secret_options : Options
secret_options =
    (codes "token", some (codes "t"))
    ∷ ((codes "aws_region", some []) ∷ ((codes "endpoint", some (codes "http://uc")) ∷ []))

abbrev secret : KeyValueSecret
secret = record {
  secret_map =
      (codes "token", codes "t")
      ∷ ((codes "aws_region", []) ∷ ((codes "endpoint", codes "http://uc") ∷ []));
  redact_keys = codes "token" ∷ [];
}

abbrev secrets : Secrets
secrets name storage = some secret

attach_catalog_serves_example :
    (c : UcCatalog) × (attach_catalog sample_duckdb secrets
        (codes "c")
        (codes "c")
        automatic
        ((codes "secret", some (codes "s")) ∷ [])
      ≡ ok c)
    × (seen_result
          (get_table exact_keys all_columns json catalog_server
            (codes "none")
            (codes "main")
            (codes "good")
            (after_all exact_keys all_columns json
              (codes "none")
              (λ es. es)
              (λ es. es)
              catalog_server
              (Reading.walks_schemas ∷ [])
              c)).0
        ≡ ok
            (some (false, record { columns = int_column; table_data = good_table (codes "main") })))
unfolding create_uc_secret attach_options add_columns type_to_logical_type is_internal_table
attach_catalog_serves_example =
    attach_catalog_serves sample_duckdb secrets exact_keys all_columns json (codes "none")
      (λ es. es) (λ es. es) catalog_server world secret_options
      ((codes "secret", some (codes "s")) ∷ []) secret (codes "s") (codes "http://uc") [] automatic
      (Reading.walks_schemas ∷ []) (codes "main") (codes "good") refl refl refl refl refl refl refl
      world-IsServed
