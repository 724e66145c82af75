-- ===== src/CatalogSet/Promise.antt =====
-- A set as the cache of a listing that does not change: what the catalog promises for a name, and
-- that the set keeps the promise, whichever calls fill it.
use uc_catalog.Base.{◌≡◌, refl, ap, ◌⊎◌, inl, inr, true, false, Option, List, [], Bytes}
use uc_catalog.Outcome.{Outcome, ok}
use uc_catalog.Action.{Action, continue}
use uc_catalog.CatalogSet.Keys.{KeyEquality}
use uc_catalog.CatalogSet.Cache.{marked, ensure_loaded_done, ensure_loaded_first}
use uc_catalog.CatalogSet.{CatalogSet, Entry, find_entry, ensure_loaded, get_entry, scan}

module _ (k : KeyEquality) {D V : Type 0} (view : Option (Entry D) → Option V)
    (promise : Bytes → Option V) where
  -- Every name finds what is promised.
  abbrev pub Holds : List (Entry D) → Type 0
  Holds es = (name : Bytes) → view (find_entry k name es) ≡ promise name

  -- The set is empty and still to be loaded, or it is loaded and holds what is promised.
  abbrev pub Agrees : CatalogSet D → Type 0
  Agrees s = ((s.is_loaded ≡ false) × (s.entries ≡ [])) ⊎ ((s.is_loaded ≡ true) × Holds s.entries)

  -- The load of an empty set returns, and the set then holds what is promised.
  abbrev pub Loads : Action (CatalogSet D) (Unit {0}) → Type 0
  Loads load =
      (s : CatalogSet D)
      → s.entries ≡ []
      → ((load (marked s)).0 ≡ ok tt)
        × ((load (marked s)).1.is_loaded ≡ true)
        × Holds (load (marked s)).1.entries

  module _ (load : Action (CatalogSet D) (Unit {0})) (loads : Loads load) where
    pub ensure_loaded-Agrees :
        (s : CatalogSet D)
        → Agrees s
        → let (result, t) = ensure_loaded load s in
          (result ≡ ok tt) × (t.is_loaded ≡ true) × Holds t.entries
    ensure_loaded-Agrees s (inl (fresh, nothing)) =
        rw (ensure_loaded_first load s fresh) (loads s nothing)
    ensure_loaded-Agrees s (inr (done, held)) =
        rw (ensure_loaded_done load s done) (refl, done, held)

    pub get_entry-Agrees :
        (name : Bytes) (s : CatalogSet D)
        → Agrees s
        → let t = (ensure_loaded load s).1 in
          (get_entry k load name s ≡ (ok (find_entry k name t.entries), t))
          × (view (find_entry k name t.entries) ≡ promise name)
          × Agrees t
    unfolding get_entry
    get_entry-Agrees name s agrees =
        let (returns, done, held) = ensure_loaded-Agrees s agrees in
        let t = (ensure_loaded load s).1 in
        (
          ap {A = Outcome (Unit {0})}
              (λ r. continue (r, t) (λ _ u. (ok (find_entry k name u.entries), u))) returns,
          held name,
          inr (done, held),
        )

    pub scan-Agrees :
        (order : List (Entry D) → List (Entry D)) (s : CatalogSet D)
        → Agrees s
        → let t = (ensure_loaded load s).1 in
          (scan order load s ≡ (ok (order t.entries), t)) × Agrees t
    unfolding scan
    scan-Agrees order s agrees =
        let (returns, done, held) = ensure_loaded-Agrees s agrees in
        let t = (ensure_loaded load s).1 in
        (
          ap {A = Outcome (Unit {0})} (λ r. continue (r, t) (λ _ u. (ok (order u.entries), u)))
              returns,
          inr (done, held),
        )
