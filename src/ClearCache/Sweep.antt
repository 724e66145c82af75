-- ===== src/ClearCache/Sweep.antt =====
-- What the clearing of the caches does to the attached databases.
use uc_catalog.Base.{◌≡◌, refl, true, false, List, [], ◌∷◌, codes, equal}
use uc_catalog.Outcome.{ok}
use uc_catalog.ClearCache.{
  Database, uc_database, other_database, clear_uc_caches, clear_cache_bind, clear_cache_function,
  clear_cache_on_setting, ClearCacheFunctionData,
}

-- No other catalog says that it is of the type of this extension.
abbrev pub AreForeign : List Database → Type 0
AreForeign [] = Unit {0}
AreForeign (uc_database c ∷ databases) = AreForeign databases
AreForeign (other_database type ∷ databases) =
    (equal type (codes "uc") ≡ false) × AreForeign databases

-- Each catalog of the extension without its schemas, the other databases as they are.
abbrev pub emptied : List Database → List Database
emptied [] = []
emptied (uc_database c ∷ databases) =
    uc_database (record c { schemas = record c.schemas { entries = []; is_loaded = false } })
    ∷ emptied databases
emptied (other_database type ∷ databases) = other_database type ∷ emptied databases

clear_uc_caches_lem :
    (databases : List Database)
    → AreForeign databases
    → clear_uc_caches databases ≡ ok (emptied databases)
unfolding clear_uc_caches
clear_uc_caches_lem [] foreign = refl
clear_uc_caches_lem (uc_database c ∷ databases) foreign = rw (clear_uc_caches_lem databases foreign)
clear_uc_caches_lem (other_database type ∷ databases) foreign =
    rw (foreign.0, clear_uc_caches_lem databases foreign.1)

-- Where no other catalog says that it is of the type `uc`, one run of `uc_clear_cache` empties
-- the schemas of every catalog of the extension and takes their marks back, and touches nothing
-- else. A later call of the same run clears nothing, whatever the caches hold by then, and the
-- setting does the same as the function.
pub clear_cache_function_lem :
    (databases later : List Database)
    → AreForeign databases
    → let done : ClearCacheFunctionData = record { finished = true } in
      (clear_cache_function clear_cache_bind databases ≡ ok (done, emptied databases))
      × (clear_cache_function done later ≡ ok (done, later))
      × (clear_cache_on_setting databases ≡ ok (emptied databases))
unfolding clear_cache_function clear_cache_bind clear_cache_on_setting
clear_cache_function_lem databases later foreign =
    (rw (clear_uc_caches_lem databases foreign), refl, clear_uc_caches_lem databases foreign)
