-- ===== src/CatalogSet/System/Complete.antt =====
-- Threads that look up and scan, with a server whose listing stays the same: what they find while
-- the set is being filled, and once no thread fills it.
use uc_catalog.Base.{
  ℕ, ◌≡◌, sym, inl, inr, true, false, none, some, List, subst, Option-cases, Option, Bytes, refl,
}
use uc_catalog.Outcome.{Outcome, ok}
use uc_catalog.CatalogSet.Plan.{Item, Plan, item_of}
use uc_catalog.CatalogSet.{Entry, find_entry, empty_set, create_entry, send}
use uc_catalog.CatalogSet.System.{
  Answer, ended, Setting, System, Reach, Pc, files, Shared, update, start, later, Move, pick, calls,
  test_fresh, test_done, mark, reply, make, lock_file, file, load_done, lock_read, read,
  calls_clear, clear, unmark, again, look_up, walk, passed, init,
}
use uc_catalog.CatalogSet.System.Listing.{all_ok, AreNamed, find_item}
use uc_catalog.CatalogSet.System.Filling.{
  loading, IsAnswered, InStep, Filling, nothing_left, answered,
}
use uc_catalog.CatalogSet.System.FillingSteps.{quiet, marking, complete, filed, making}

abbrev pub entry_item : {D : Type 0} → Option (Entry D) → Option (Item D)
entry_item none = none
entry_item (some e) = some (item_of e)

module _ {D : Type 0} (g : Setting D) (listing : List (Item D)) (named : AreNamed listing)
    (steady : (r : Outcome (Plan D)) → g.Answers r → r ≡ ok (all_ok listing))
    (no_clear : g.clearing ≡ false) where
  Move-Filling :
      {m m' : Shared D} {pc : ℕ → Pc D} {p p' : Pc D} (i : ℕ)
      → Move g m p m' p'
      → Filling g listing m pc
      → pc i ≡ p
      → InStep g listing m.set.entries p
      → Filling g listing m' (update pc i p')
  unfolding create_entry
  Move-Filling i calls inv here h = quiet g listing inv i _ _ _ here refl refl (λ b. b) tt
  Move-Filling i (test_fresh t) inv here h = quiet g listing inv i _ _ _ here refl refl (λ b. b) tt
  Move-Filling i (test_done t) inv here h = quiet g listing inv i _ _ _ here refl refl (λ b. b) tt
  Move-Filling i mark inv here h = marking g listing inv i _ refl tt
  Move-Filling {m} {pc} i (reply {c = c} {r = r} may) inv here h =
      subst
        (λ o.
          Filling g listing (record m { set = (send g.request m.set).1 })
            (update pc i (passed o (files c))))
        (sym (steady r may))
        (quiet g listing inv i _ _ _ here refl refl (λ b. refl)
          (record { items = listing; planned = refl; named = named; remains = λ n q. refl }))
  Move-Filling i (make {c = c} {item = item} {rest = plan}) inv here h =
      making g listing inv i c item plan here h
  Move-Filling i (lock_file free) inv here h =
      quiet g listing inv i _ _ _ here refl refl (λ b. refl) h
  Move-Filling i (file {c = c} {e = e} {rest = plan}) inv here h =
      rw (h.named.0) (filed g listing inv i (files c plan) e plan h refl (λ es q. q))
  Move-Filling i load_done inv here h = complete g listing inv i _ (nothing_left g listing h) tt
  Move-Filling i (lock_read free) inv here h =
      quiet g listing inv i _ _ _ here refl refl (λ b. b) tt
  Move-Filling {m} i (read {c = look_up name}) inv here h =
      quiet g listing inv i _ _ _ here refl refl (λ b. b)
        (answered g listing name m.set.entries inv.sound)
  Move-Filling i (read {c = walk}) inv here h =
      quiet g listing inv i _ _ _ here refl refl (λ b. b) tt
  Move-Filling i (calls_clear q) inv here h = cc
  Move-Filling i clear inv here h = absurd h
  Move-Filling i unmark inv here h = absurd h
  Move-Filling i again inv here h = quiet g listing inv i _ _ _ here refl refl (λ b. b) tt

  Reach-Filling : {t : System D} → Reach g (init empty_set) t → Filling g listing t.mem t.pc
  unfolding find_entry
  Reach-Filling start = record { sound = λ name e h. cc; in_step = λ i. tt; covered = λ done. cc }
  Reach-Filling (later r (pick i mv)) =
      let inv = Reach-Filling r in Move-Filling i mv inv refl (inv.in_step i)

  -- While the server lists the same, each item with a name and none that cannot be made, and no
  -- thread clears: however lookups and scans are interleaved from an empty set on, a call that
  -- ended did not throw, and a lookup gave the null pointer or an entry made of the first item
  -- that is listed under its name.
  pub Reach-IsAnswered :
      {t : System D} (i : ℕ) {r : Outcome (Answer D)}
      → Reach g (init empty_set) t
      → t.pc i ≡ ended r
      → IsAnswered g listing r
  Reach-IsAnswered i reached here =
      subst (InStep g listing _) here ((Reach-Filling reached).in_step i)

  -- Under the same conditions: once the set is marked as loaded and no thread is between the mark
  -- and the end of its load, each name finds an entry made of the first item that is listed
  -- under it, and a name that is not listed finds none.
  pub Reach-IsComplete :
      {t : System D} (name : Bytes)
      → Reach g (init empty_set) t
      → t.mem.set.is_loaded ≡ true
      → ((i : ℕ) → loading (t.pc i) ≡ false)
      → entry_item (find_entry g.keys name t.mem.set.entries) ≡ find_item g.keys name listing
  Reach-IsComplete {t} name reached done quiet =
      let inv = Reach-Filling reached in
      elim (Option-cases (find_entry g.keys name t.mem.set.entries)) [
        | inl missing ↦ elim (inv.covered done) [
          | inl (i, busy) ↦ let still = quiet i in cc
          | inr complete ↦ rw missing (sym (complete name missing))
        ]
        | inr (e, there) ↦ rw there (sym (inv.sound name e there))
      ]
