-- ===== src/CatalogSet/Keys.antt =====
-- The keys of DuckDB's `case_insensitive_map_t`: two names are one key if they differ in the case
-- of letters only. DuckDB is not part of the repository, so the test is a parameter.
use uc_catalog.Base.{Bool, true, ◌≡◌, Bytes}

pub record KeyEquality : Type 0 where
  pub same_key : Bytes → Bytes → Bool
  pub same_key_refl : (a : Bytes) → same_key a a ≡ true
  pub same_key_symm : (a b : Bytes) → same_key a b ≡ true → same_key b a ≡ true
  pub same_key_trans :
      (a b c : Bytes) → same_key a b ≡ true → same_key b c ≡ true → same_key a c ≡ true
