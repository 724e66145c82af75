-- ===== src/Catalog/Lifetime.antt =====
-- How long a pointer to a schema is good.
use uc_catalog.Base.{
  ℕ, ◌<◌, ◌==◌, inl, inr, Bool-cases, List, [], ◌∷◌, arith, ◌≡◌, refl, ap, subst, ◌∙◌, Bool, true,
  false, Option, none, some, Bytes,
}
use uc_catalog.Outcome.{ok, undefined}
use uc_catalog.Action.{Action, continue-eq-pair}
use uc_catalog.Api.Interface.{Yyjson, Server}
use uc_catalog.CatalogSet
use uc_catalog.CatalogSet.Keys.{KeyEquality}
use uc_catalog.CatalogSet.{Entry, CatalogSet, find_entry, ensure_loaded}
use uc_catalog.CatalogSet.Invariant.{AreFiled, IsWellFormed, get_entry-IsWellFormed}
use uc_catalog.SchemaSet.{SchemaData}
use uc_catalog.SchemaSet.Load.{load_schemas-IsWellFormed}
use uc_catalog.TableSet.{Columns, TableData}
use uc_catalog.SchemaEntry.{CatalogType}
use uc_catalog.Catalog.{UcCatalog, load_of, on_schemas, or_not_found, find_schema, clear_cache}
use uc_catalog.Catalog.Pointers.{object_at, put_tables, through, get_entry_of_schema}
use uc_catalog.Catalog.Objects.{find_entry-object_at, All-object_at}
use uc_catalog.Catalog.Keeps.{after_changes, after_changes_keeps}
use uc_catalog.Catalog.Refines.{Reading}
use uc_catalog.CatalogSet.All.{All}
use uc_catalog.CatalogSet.Cache.{marked, ensure_loaded_done, ensure_loaded_first}
use uc_catalog.SchemaSet.Addresses.{IsLater, AreLater, load_schemas-AreLater}

module _ (k : KeyEquality) (y : Yyjson) (server : Server) where
  or_not_found-some :
      (null : Bool) (o : Option (Entry SchemaData)) (c t : UcCatalog) {e : Entry SchemaData}
      → or_not_found k y server null o c ≡ (ok (some e), t)
      → (o ≡ some e) × (c ≡ t)
  or_not_found-some null (some x) c t h = (
    ap (λ r. elim r.0 as (λ _. Option (Entry SchemaData)) [ ok o ↦ o | _ ↦ none ]) h,
    ap (λ r. r.1) h,
  )
  or_not_found-some true none c t h = cc
  or_not_found-some false none c t h = cc

  found_entry :
      (load : Action (CatalogSet SchemaData) (Unit {0})) (name : Bytes)
      (s t : CatalogSet SchemaData) {e : Entry SchemaData}
      → CatalogSet.get_entry k load name s ≡ (ok (some e), t)
      → find_entry k name t.entries ≡ some e
  unfolding CatalogSet.get_entry
  found_entry load name s t {e} h =
      let (value, u, first, found) = continue-eq-pair (ensure_loaded load s) _ h in
      let same : u ≡ t = ap (λ r. r.1) found in
      subst (λ v. find_entry k name v.entries ≡ some e) same
        (ap (λ r. elim r.0 as (λ _. Option (Entry SchemaData)) [ ok o ↦ o | _ ↦ none ]) found)

  AreFiled-address :
      (n : ℕ) (es : List (Entry SchemaData)) → AreFiled k n es → All (λ x. x.address < n) es
  AreFiled-address n [] filed = tt
  AreFiled-address n (x ∷ es) filed = (filed.1, AreFiled-address n es filed.4)

-- Nothing stands at an address that was given out before.
object_at_later :
    (a n : ℕ) (es : List (Entry SchemaData)) → a < n → All (IsLater n) es → object_at a es ≡ none
object_at_later a n [] older all = refl
object_at_later a n (x ∷ es) older all =
    let apart : (x.address == a) ≡ false = ground (arith, all.0) in
    rw apart (object_at_later a n es older all.1)

put_tables-AreLater :
    (n a : ℕ) (tables : CatalogSet TableData) (es : List (Entry SchemaData))
    → All (IsLater n) es
    → All (IsLater n) (put_tables a tables es)
put_tables-AreLater n a tables [] all = tt
put_tables-AreLater n a tables (x ∷ es) all = elim (Bool-cases (x.address == a)) [
  | inl here ↦ rw here all
  | inr more ↦ rw more (all.0, put_tables-AreLater n a tables es all.1)
]

module _ (k : KeyEquality) (columns : Columns) (y : Yyjson) (default_name : Bytes)
    (schema_order : List (Entry SchemaData) → List (Entry SchemaData))
    (table_order : List (Entry TableData) → List (Entry TableData)) where
  after_changes-AreLater :
      (n : ℕ) (rs : List (Server × Reading)) (c : UcCatalog)
      → AreLater n c.schemas
      → AreLater n (after_changes k columns y default_name schema_order table_order rs c).schemas
  unfolding clear_cache
  after_changes-AreLater n =
      after_changes_keeps k columns y default_name schema_order table_order
        (λ c. AreLater n c.schemas) load_keeps
        (λ server a x c h there. (h.0, put_tables-AreLater n a _ c.schemas.entries h.1))
        (λ c h. (h.0, tt))
    where
      load_keeps :
          (server : Server) (c : UcCatalog)
          → AreLater n c.schemas
          → AreLater n (ensure_loaded (load_of k y server c) c.schemas).1
      load_keeps server c h = elim (Bool-cases c.schemas.is_loaded) [
        | inl done ↦ rw (ensure_loaded_done (load_of k y server c) c.schemas done) h
        | inr fresh ↦
            rw (ensure_loaded_first (load_of k y server c) c.schemas fresh)
              (load_schemas-AreLater k n y server c.name c.credentials (marked c.schemas) h)
      ]

  -- A pointer that `GetSchema` gives out of a well formed catalog is to an object that the catalog
  -- owns. Once the cache is cleared, and behind any further lookups, scans and clears, which may meet
  -- the server in any state, every call through it is on an object that is gone, whatever the call
  -- asks for: no load makes the pointer good again.
  pub find_schema_dangles :
      (server later : Server) (name : Bytes) (null : Bool) (type : CatalogType) (table : Bytes)
      (rs : List (Server × Reading)) (c t : UcCatalog) (e : Entry SchemaData)
      → IsWellFormed k c.schemas
      → find_schema k y server name null c ≡ (ok (some e), t)
      → let d =
          after_changes k columns y default_name schema_order table_order rs (clear_cache t) in
        (object_at e.address t.schemas.entries ≡ some e)
        × (get_entry_of_schema k columns y later type table e.address d ≡ (undefined, d))
  unfolding find_schema clear_cache get_entry_of_schema
  find_schema_dangles server later name null type table rs c t e formed h =
      let load = load_of k y server c in
      let (value, u, first, result) =
        continue-eq-pair (on_schemas (CatalogSet.get_entry k load name) c)
          (or_not_found k y server null) h in
      let (is_found, is_after) = or_not_found-some k y server null value u t result in
      let got : CatalogSet.get_entry k load name c.schemas ≡ (ok (some e), t.schemas) =
        ap (λ r. (r.0, r.1.schemas)) first
        ∙ ap (λ o. (ok o, u.schemas)) is_found
        ∙ ap (λ v. (ok (some e), v.schemas)) is_after in
      let filed : IsWellFormed k t.schemas = subst (IsWellFormed k) (ap (λ r. r.1) got) (
        get_entry-IsWellFormed k load (load_schemas-IsWellFormed k y server c.name c.credentials)
          name c.schemas formed) in
      let there =
        find_entry-object_at k t.schemas.allocated name t.schemas.entries filed
          (found_entry k y server load name c.schemas t.schemas got) in
      let older : e.address < t.schemas.allocated =
        All-object_at (λ x. x.address < t.schemas.allocated) e.address t.schemas.entries
          (AreFiled-address k y server t.schemas.allocated t.schemas.entries filed) there in
      let d = after_changes k columns y default_name schema_order table_order rs (clear_cache t) in
      let gone =
        object_at_later e.address t.schemas.allocated d.schemas.entries older
          (after_changes-AreLater t.schemas.allocated rs (clear_cache t) (omega arith, tt)).1 in
      (there, rw (gone, through) refl)
