-- ===== src/ClearCache.antt =====
-- src/storage/uc_clear_cache.cpp: the function and the setting that clear the caches of every
-- attached catalog.
pub mod Sweep
mod Tests
use uc_catalog.Base.{Bool, true, false, not, List, [], ◌∷◌, Bytes, codes, equal, if◌then◌else◌}
use uc_catalog.Outcome.{Outcome, ok, undefined, ◌>>=◌}
use uc_catalog.Catalog.{UcCatalog, clear_cache}

-- An attached database, with the catalog that stands behind it: one of this extension, or another
-- with the type that it gives.
pub data Database : Type 0 where
  uc_database : UcCatalog → Database
  other_database : Bytes → Database

-- `GetCatalogType`
unfoldable pub get_catalog_type : Database → Bytes
get_catalog_type (uc_database c) = codes "uc"
get_catalog_type (other_database type) = type

-- `catalog.Cast<UCCatalog>().ClearCache()`
unfoldable pub cast_and_clear : Database → Outcome Database
unfolding clear_cache
cast_and_clear (uc_database c) = ok (uc_database (clear_cache c))
cast_and_clear (other_database type) = undefined

-- The databases behind the loop of `ClearUCCaches`.
unfoldable pub clear_uc_caches : List Database → Outcome (List Database)
unfolding get_catalog_type cast_and_clear
clear_uc_caches [] = ok []
clear_uc_caches (db ∷ databases) = do
  db' ← if not (equal (get_catalog_type db) (codes "uc")) then ok db else cast_and_clear db
  databases' ← clear_uc_caches databases
  ok (db' ∷ databases')

pub record ClearCacheFunctionData : Type 0 where
  pub finished : Bool

unfoldable pub clear_cache_bind : ClearCacheFunctionData
clear_cache_bind = record { finished = false }

unfoldable pub clear_cache_function :
    ClearCacheFunctionData → List Database → Outcome (ClearCacheFunctionData × List Database)
unfolding clear_uc_caches
clear_cache_function data' databases =
    let swept = do
      databases' ← clear_uc_caches databases
      ok (record { finished = true }, databases')
    in if data'.finished then ok (data', databases) else swept

unfoldable pub clear_cache_on_setting : List Database → Outcome (List Database)
unfolding clear_uc_caches
clear_cache_on_setting databases = clear_uc_caches databases

-- The constructor names the table function.
abbrev pub function_name : Bytes
function_name = codes "uc_clear_cache"
