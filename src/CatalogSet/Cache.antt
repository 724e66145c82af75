-- ===== src/CatalogSet/Cache.antt =====
-- The set as a cache: one load between two calls of `ClearEntries`.
use uc_catalog.Base.{◌≡◌, refl, inl, inr, true, false, List, [], Bytes, Bool-cases}
use uc_catalog.Outcome.{Outcome, ok, throws, undefined, out_of_fuel, Exception}
use uc_catalog.Action.{Action, continue}
use uc_catalog.CatalogSet.Keys.{KeyEquality}
use uc_catalog.CatalogSet.{
  Entry, CatalogSet, find_entry, ensure_loaded, get_entry, scan, clear_entries,
}

-- A load does not take the mark back.
abbrev pub KeepsLoaded : {D : Type 0} → Action (CatalogSet D) (Unit {0}) → Type 0
KeepsLoaded load = (s : CatalogSet _) → s.is_loaded ≡ true → (load s).1.is_loaded ≡ true

module _ {D : Type 0} where
  -- The state in which `LoadEntries` is called.
  abbrev pub marked : CatalogSet D → CatalogSet D
  marked s = record s { is_loaded = true }

  pub ensure_loaded_done :
      (load : Action (CatalogSet D) (Unit {0})) (s : CatalogSet D)
      → s.is_loaded ≡ true
      → ensure_loaded load s ≡ (ok tt, s)
  unfolding ensure_loaded
  ensure_loaded_done load s h = rw h

  pub ensure_loaded_first :
      (load : Action (CatalogSet D) (Unit {0})) (s : CatalogSet D)
      → s.is_loaded ≡ false
      → ensure_loaded load s ≡ load (marked s)
  unfolding ensure_loaded
  ensure_loaded_first load s h = rw h

  ensure_loaded-IsLoaded :
      (load : Action (CatalogSet D) (Unit {0})) (s : CatalogSet D)
      → KeepsLoaded load
      → (ensure_loaded load s).1.is_loaded ≡ true
  ensure_loaded-IsLoaded load s keeps = elim (Bool-cases s.is_loaded) [
    | inl loaded ↦ rw (ensure_loaded_done load s loaded) loaded
    | inr fresh ↦ rw (ensure_loaded_first load s fresh) (keeps (marked s) refl)
  ]

continue_state :
    {S A : Type 0} (r : Outcome (Unit {0}) × S) (f : S → A)
    → (continue r (λ _ s. (ok (f s), s))).1 ≡ r.1
continue_state (ok a, s) f = refl
continue_state (throws e, s) f = refl
continue_state (undefined, s) f = refl
continue_state (out_of_fuel, s) f = refl

pub scan_state :
    {D : Type 0} (load : Action (CatalogSet D) (Unit {0})) (order : List (Entry D) → List (Entry D))
    (s : CatalogSet D)
    → (scan order load s).1 ≡ (ensure_loaded load s).1
unfolding scan
scan_state load order s = continue_state (ensure_loaded load s) (λ t. order t.entries)

module _ (k : KeyEquality) {D : Type 0} where
  pub get_entry_state :
      (load : Action (CatalogSet D) (Unit {0})) (name : Bytes) (s : CatalogSet D)
      → (get_entry k load name s).1 ≡ (ensure_loaded load s).1
  unfolding get_entry
  get_entry_state load name s =
      continue_state (ensure_loaded load s) (λ t. find_entry k name t.entries)

  -- Once the set is marked as loaded, a lookup neither loads nor changes anything.
  pub get_entry_loaded :
      (load : Action (CatalogSet D) (Unit {0})) (name : Bytes) (s : CatalogSet D)
      → s.is_loaded ≡ true
      → get_entry k load name s ≡ (ok (find_entry k name s.entries), s)
  unfolding get_entry
  get_entry_loaded load name s h = rw h

  -- However the first lookup ends, also by an exception of the load, a second one answers from the
  -- entries that are there, and loads nothing.
  pub get_entry_twice :
      (load again : Action (CatalogSet D) (Unit {0})) (name other : Bytes) (s : CatalogSet D)
      → KeepsLoaded load
      → let s' = (get_entry k load name s).1 in
        get_entry k again other s' ≡ (ok (find_entry k other s'.entries), s')
  get_entry_twice load again name other s keeps =
      get_entry_loaded again other (get_entry k load name s).1
        (rw (get_entry_state load name s) (ensure_loaded-IsLoaded load s keeps))

  -- A load that throws is not repeated: the exception is seen once, and from then on the set looks
  -- as far as it was filled.
  pub get_entry_failed_load :
      (load again : Action (CatalogSet D) (Unit {0})) (name other : Bytes) (s t : CatalogSet D)
      (x : Exception)
      → s.is_loaded ≡ false
      → t.is_loaded ≡ true
      → load (marked s) ≡ (throws x, t)
      → (get_entry k load name s ≡ (throws x, t))
        × (get_entry k again other t ≡ (ok (find_entry k other t.entries), t))
  unfolding get_entry
  get_entry_failed_load load again name other s t x fresh loaded thrown =
      (rw fresh (rw thrown), rw loaded)

  -- After `ClearEntries` the next lookup loads again, into an empty set.
  pub get_entry_cleared :
      (load : Action (CatalogSet D) (Unit {0})) (name : Bytes) (s : CatalogSet D)
      → get_entry k load name (clear_entries s).1
        ≡ continue
            (load (record s { entries = []; is_loaded = true }))
            (λ _ t. (ok (find_entry k name t.entries), t))
  unfolding get_entry clear_entries
  get_entry_cleared load name s = refl
