-- ===== src/SchemaSet/Addresses.antt =====
-- The addresses of the objects that a load makes.
use uc_catalog.Base.{ℕ, ◌≤◌, ◌≡◌, List, [], ◌∷◌, Bytes, arith}
use uc_catalog.Action.{continue_keeps}
use uc_catalog.Api.Interface.{Yyjson, Server}
use uc_catalog.Api.{UcCredentials, UcapiSchema, get_schemas}
use uc_catalog.CatalogSet.Keys.{KeyEquality}
use uc_catalog.CatalogSet.{CatalogSet, Entry, create_entry}
use uc_catalog.CatalogSet.All.{All, create_entry-All}
use uc_catalog.SchemaSet.Load.{schema_entry, made, load, asked}
use uc_catalog.SchemaSet.{SchemaData, create_schemas, load_schemas}

-- The object was made behind the first `n`.
abbrev pub IsLater : ℕ → Entry SchemaData → Type 0
IsLater n e = n ≤ e.address

abbrev pub AreLater : ℕ → CatalogSet SchemaData → Type 0
AreLater n s = (n ≤ s.allocated) × All (IsLater n) s.entries

module _ (k : KeyEquality) (n : ℕ) where
  create_entry-allocated :
      (e : Entry SchemaData) (s : CatalogSet SchemaData)
      → (create_entry k e s).1.allocated ≡ s.allocated
  unfolding create_entry
  create_entry-allocated e s = ground arith

  create_entry-AreLater :
      (e : Entry SchemaData) (s : CatalogSet SchemaData)
      → AreLater n s
      → IsLater n e
      → AreLater n (create_entry k e s).1
  create_entry-AreLater e s h later =
      (rw (create_entry-allocated e s) h.0, create_entry-All (IsLater n) k e s h.1 later)

  create_schemas-AreLater :
      (xs : List UcapiSchema) (s : CatalogSet SchemaData)
      → AreLater n s
      → AreLater n (create_schemas k xs s).1
  unfolding create_schemas
  create_schemas-AreLater [] s h = h
  create_schemas-AreLater (x ∷ xs) s h =
      continue_keeps (AreLater n) (create_entry k (schema_entry x s.allocated) (made s))
        (λ _. create_schemas k xs)
        (create_entry-AreLater (schema_entry x s.allocated) (made s) (omega (arith, h.0), h.1) h.0)
        (λ _ t g. create_schemas-AreLater xs t g)

  -- A load gives out new addresses only.
  pub load_schemas-AreLater :
      (y : Yyjson) (server : Server) (catalog : Bytes) (credentials : UcCredentials)
      (s : CatalogSet SchemaData)
      → AreLater n s
      → AreLater n (load k y server catalog credentials s).1
  unfolding load_schemas
  load_schemas-AreLater y server catalog credentials s h =
      continue_keeps (AreLater n)
        (get_schemas y server catalog credentials, asked k y server catalog credentials s)
        (create_schemas k) h (λ xs t g. create_schemas-AreLater xs t g)
