-- ===== src/CatalogSet/Threads.antt =====
-- Lookups of two threads. `GetEntry` tests the mark, sets it, and loads, before it takes
-- `entry_lock`: a lookup has four steps, between which the other thread may run.
use uc_catalog.Base.{
  ◌≡◌, refl, ap, inl, inr, Bool, true, false, not, Option, none, some, List, [], ◌∷◌, Bytes,
  if◌then◌else◌, Bool-cases,
}
use uc_catalog.Outcome.{Outcome, ok, throws, undefined, out_of_fuel}
use uc_catalog.Action.{Action, continue}
use uc_catalog.CatalogSet.Keys.{KeyEquality}
use uc_catalog.CatalogSet.Cache.{marked}
use uc_catalog.CatalogSet.{Entry, CatalogSet, find_entry, get_entry}

-- Where a lookup of a name stands: before the test of the mark, before it is set, before the load,
-- before the search, or at its end.
pub data Lookup (D : Type 0) : Type 0 where
  asks marks loads finds : Bytes → Lookup D
  ended : Outcome (Option (Entry D)) → Lookup D

-- A load that does not return ends the lookup in the same way.
abbrev pub loaded : {D : Type 0} → Bytes → Outcome (Unit {0}) → Lookup D
loaded name (ok u) = finds name
loaded name (throws x) = ended (throws x)
loaded name undefined = ended undefined
loaded name out_of_fuel = ended out_of_fuel

module _ (k : KeyEquality) {D : Type 0} (load_entries : Action (CatalogSet D) (Unit {0})) where
  unfoldable pub advance : Lookup D → CatalogSet D → Lookup D × CatalogSet D
  unfolding find_entry
  advance (asks name) s = if not s.is_loaded then (marks name, s) else (finds name, s)
  advance (marks name) s = (loads name, record s { is_loaded = true })
  advance (loads name) s = let (result, t) = load_entries s in (loaded name result, t)
  advance (finds name) s = (ended (ok (find_entry k name s.entries)), s)
  advance (ended result) s = (ended result, s)

  -- Which thread moves next: the first where the flag is true.
  unfoldable pub interleave :
      List Bool → Lookup D → Lookup D → CatalogSet D → Lookup D × Lookup D × CatalogSet D
  unfolding advance
  interleave [] a b s = (a, b, s)
  interleave (true ∷ moves) a b s = let (a', t) = advance a s in interleave moves a' b t
  interleave (false ∷ moves) a b s = let (b', t) = advance b s in interleave moves a b' t

  finish :
      (name : Bytes) (r : Outcome (Unit {0}) × CatalogSet D)
      → advance (loaded name r.0) r.1 ≡ (
        ended (continue r (λ _ t. (ok (find_entry k name t.entries), t))).0,
        (continue r (λ _ t. (ok (find_entry k name t.entries), t))).1,
      )
  unfolding advance
  finish name (ok u, s) = refl
  finish name (throws x, s) = refl
  finish name (undefined, s) = refl
  finish name (out_of_fuel, s) = refl

  -- A lookup whose four steps are not interrupted does what `get_entry` does in one: it ends with
  -- the same result and leaves the same set, also where the set is loaded or the load does not
  -- return. The other thread stays where it was.
  pub interleave_alone :
      (name : Bytes) (b : Lookup D) (s : CatalogSet D)
      → interleave (true ∷ (true ∷ (true ∷ (true ∷ [])))) (asks name) b s
        ≡ (ended (get_entry k load_entries name s).0, b, (get_entry k load_entries name s).1)
  unfolding interleave get_entry
  interleave_alone name b s = elim (Bool-cases s.is_loaded) [
    | inl done ↦ rw done
    | inr fresh ↦ rw fresh (ap (λ r. (r.0, b, r.1)) (finish name (load_entries (marked s))))
  ]

  -- The races on the mark: a set is not loaded and has no entry under a name, and the load of it
  -- returns and files one. A second lookup of the name that runs between the mark and the load of
  -- the first one ends with the null pointer, and behind both lookups the entry is there. If both
  -- lookups test the mark before one of them sets it, both load: the second load works on the set
  -- that the first one left.
  pub interleave_race :
      (first name : Bytes) (s t : CatalogSet D) (e : Entry D)
      → s.is_loaded ≡ false
      → find_entry k name s.entries ≡ none
      → load_entries (marked s) ≡ (ok tt, t)
      → find_entry k name t.entries ≡ some e
      → let (a, b, after) =
          interleave
            (true ∷ (true ∷ (false ∷ (false ∷ (true ∷ (true ∷ []))))))
            (asks first)
            (asks name)
            s in
        let (c, d, loaded_twice) =
          interleave
            (true ∷ (false ∷ (true ∷ (false ∷ (true ∷ (false ∷ []))))))
            (asks first)
            (asks name)
            s in
        (b ≡ ended (ok none))
        × (after ≡ t)
        × (find_entry k name after.entries ≡ some e)
        × (loaded_twice ≡ (load_entries t).1)
  unfolding interleave
  interleave_race first name s t e fresh missing fills filed =
      rw fresh (rw fills (ap (λ o. ended (ok o)) missing, refl, filed, refl))
