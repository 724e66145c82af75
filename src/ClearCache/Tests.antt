-- ===== src/ClearCache/Tests.antt =====
-- The theorem on the clearing of the caches, at given databases.
use uc_catalog.Base.{◌≡◌, refl, [], ◌∷◌, codes, List, true}
use uc_catalog.Outcome.{ok}
use uc_catalog.Samples.{uc_credentials}
use uc_catalog.Transactions.{automatic}
use uc_catalog.Catalog.{UcCatalog, make_catalog}
use uc_catalog.ClearCache.{
  Database, uc_database, other_database, clear_cache_bind, clear_cache_function,
  clear_cache_on_setting,
}
use uc_catalog.ClearCache.Sweep.{emptied, clear_cache_function_lem}

abbrev loaded : UcCatalog
loaded =
    let c = make_catalog (codes "c") (codes "c") automatic uc_credentials in
    record c { schemas = record c.schemas { is_loaded = true } }

abbrev databases : List Database
databases = other_database (codes "duckdb") ∷ (uc_database loaded ∷ [])

clear_cache_function_lem_example :
    (clear_cache_function clear_cache_bind databases
      ≡ ok (record { finished = true }, emptied databases))
    × (clear_cache_function (record { finished = true }) databases
        ≡ ok (record { finished = true }, databases))
    × (clear_cache_on_setting databases ≡ ok (emptied databases))
clear_cache_function_lem_example = clear_cache_function_lem databases databases (refl, tt)
