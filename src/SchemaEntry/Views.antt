-- ===== src/SchemaEntry/Views.antt =====
-- The branches of the calls on a schema.
use uc_catalog.Base.{
  ◌∷◌, ◌≡◌, ◌≢◌, refl, Bool, true, false, Option, none, some, [], Bytes, is_empty, arith,
}
use uc_catalog.Outcome.{Outcome, ok, throws, undefined, out_of_fuel, internal}
use uc_catalog.Action.{Action, continue}
use uc_catalog.CatalogSet.Keys.{KeyEquality}
use uc_catalog.CatalogSet
use uc_catalog.CatalogSet.{Entry, CatalogSet, find_entry, ensure_loaded}
use uc_catalog.TableSet.{TableData}
use uc_catalog.SchemaEntry.{
  index_entry, table_entry, view_entry, other_entry, OnCreateConflict, error_on_conflict,
  alter_on_conflict, is_ignore, get_entry, create_view, refresh_view, view_or_refresh,
}

module _ (load : Action (CatalogSet TableData) (Unit {0})) (k : KeyEquality) where
  -- Indexes are said to be supported, but a lookup of one throws; a lookup of a type that is not
  -- supported gives nothing; tables and views are looked up in one set.
  pub get_entry_types :
      (name : Bytes) (s : CatalogSet TableData)
      → (get_entry load k index_entry name s ≡ (throws internal, s))
        × (get_entry load k other_entry name s ≡ (ok none, s))
        × (get_entry load k view_entry name s ≡ CatalogSet.get_entry k load name s)
        × (get_entry load k table_entry name s ≡ CatalogSet.get_entry k load name s)
  unfolding get_entry
  get_entry_types name s = (refl, refl, refl, refl)

  refresh_view-ne-ok :
      (has_transaction : Bool) (name : Bytes) (s : CatalogSet TableData) {e : Entry TableData}
      → (refresh_view load has_transaction name s).0 ≢ ok e
  unfolding refresh_view
  refresh_view-ne-ok has_transaction name s = ground arith

  view_or_refresh_ok :
      (on_conflict : OnCreateConflict) (has_transaction : Bool) (name : Bytes)
      (r : Outcome (Option (Entry TableData)) × CatalogSet TableData) {e : Entry TableData}
      → let done = continue r (view_or_refresh load on_conflict has_transaction name) in
        done.0 ≡ ok e → (is_ignore on_conflict ≡ true) × (r.0 ≡ ok (some e)) × (done.1 ≡ r.1)
  unfolding view_or_refresh
  view_or_refresh_ok on_conflict has_transaction name (ok none, s) {e} h =
      absurd (refresh_view-ne-ok has_transaction name s h)
  view_or_refresh_ok on_conflict has_transaction name (ok (some x), s) h = ground arith
  view_or_refresh_ok on_conflict has_transaction name (throws x, s) h = cc
  view_or_refresh_ok on_conflict has_transaction name (undefined, s) h = cc
  view_or_refresh_ok on_conflict has_transaction name (out_of_fuel, s) h = cc

  -- `CreateView` never makes a view. It returns an entry only where the statement has a text,
  -- says `IF NOT EXISTS`, and an entry of that name is found; it returns that entry, and leaves
  -- the state as the lookup does.
  pub create_view_ok :
      (sql : Bytes) (on_conflict : OnCreateConflict) (has_transaction : Bool) (name : Bytes)
      (s : CatalogSet TableData) {e : Entry TableData}
      → (create_view load k sql on_conflict has_transaction name s).0 ≡ ok e
      → (is_empty sql ≡ false)
        × (is_ignore on_conflict ≡ true)
        × ((CatalogSet.get_entry k load name s).0 ≡ ok (some e))
        × ((create_view load k sql on_conflict has_transaction name s).1
            ≡ (CatalogSet.get_entry k load name s).1)
  unfolding create_view get_entry
  create_view_ok [] on_conflict has_transaction name s h = cc
  create_view_ok (c ∷ sql) error_on_conflict has_transaction name s h =
      absurd (refresh_view-ne-ok has_transaction name s h)
  create_view_ok (c ∷ sql) alter_on_conflict has_transaction name s h =
      absurd (refresh_view-ne-ok has_transaction name s h)
  create_view_ok (c ∷ sql) on_conflict has_transaction name s {e} h =
      let found =
        view_or_refresh_ok on_conflict has_transaction name (CatalogSet.get_entry k load name s)
          {e = e} h in
      (refl, found.0, found.1, found.2)
