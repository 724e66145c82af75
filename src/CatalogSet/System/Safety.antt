-- ===== src/CatalogSet/System/Safety.antt =====
-- Who is inside of `entry_lock`, and the form of the set, at every step of any threads.
use uc_catalog.CatalogSet.System.Races.{touches-inside, Reach-clearing}
use uc_catalog.Base.{ℕ, ◌≡◌, refl, false, arith, is_empty, Bool-cases, inl, inr, ◌&&◌, ◌==◌}
use uc_catalog.Outcome.{ok, throws, undefined, out_of_fuel}
use uc_catalog.CatalogSet.Invariant.{IsWellFormed}
use uc_catalog.CatalogSet.{create_entry, CatalogSet}
use uc_catalog.CatalogSet.System.{
  Pc, Shared, inside, update, Setting, System, Reach, start, later, Move, pick, calls, test_fresh,
  test_done, mark, reply, make, lock_file, file, load_done, lock_read, read, calls_clear, clear,
  unmark, again, files, init, touches,
}
use uc_catalog.CatalogSet.System.Locking.{
  Inv, passed-inside, passed-carried, quiet, emptied, taken, released, carrying, handed,
}

module _ {D : Type 0} (g : Setting D) {m : Shared D} {pc : ℕ → Pc D} (inv : Inv g m pc)
    (i : ℕ) where
  Move-Inv : {p p' : Pc D} {m' : Shared D} → Move g m p m' p' → pc i ≡ p → Inv g m' (update pc i p')
  unfolding create_entry
  Move-Inv calls here = quiet g inv i _ _ refl refl refl refl refl
  Move-Inv (test_fresh h) here = quiet g inv i _ _ refl refl refl refl refl
  Move-Inv (test_done h) here = quiet g inv i _ _ refl refl refl refl refl
  Move-Inv mark here = quiet g inv i _ _ refl refl refl refl refl
  Move-Inv (reply {c = c} {r = r} h) here =
      quiet g inv i _ _ refl refl refl (passed-inside r (files c) (λ a. refl))
        (passed-carried r (files c) (λ a. refl))
  Move-Inv (make {item = ok item}) here = carrying g inv i _ _ refl refl refl
  Move-Inv (make {item = throws x}) here = quiet g inv i _ _ refl refl refl refl refl
  Move-Inv (make {item = undefined}) here = quiet g inv i _ _ refl refl refl refl refl
  Move-Inv (make {item = out_of_fuel}) here = quiet g inv i _ _ refl refl refl refl refl
  Move-Inv (lock_file free) here = taken g inv i _ _ here free refl
  Move-Inv (file {e = e}) here = elim (Bool-cases (is_empty e.name)) [
    | inl unnamed ↦ rw unnamed (released g inv i _ _ here refl refl refl)
    | inr named ↦ rw named (handed g inv i _ _ e here refl refl named refl refl)
  ]
  Move-Inv load_done here = quiet g inv i _ _ refl refl refl refl refl
  Move-Inv (lock_read free) here = taken g inv i _ _ here free refl
  Move-Inv read here = released g inv i _ _ here refl refl refl
  Move-Inv (calls_clear h) here = quiet g inv i _ _ refl refl refl refl refl
  Move-Inv clear here = emptied g inv i _ _ refl refl refl refl refl
  Move-Inv unmark here = quiet g inv i _ _ refl refl refl refl refl
  Move-Inv again here = quiet g inv i _ _ refl refl refl refl refl

module _ {D : Type 0} (g : Setting D) {s : CatalogSet D} (formed : IsWellFormed g.keys s) where
  Reach-Inv : {t : System D} → Reach g (init s) t → Inv g t.mem t.pc
  Reach-Inv start = record {
    formed = formed;
    held = λ i h. cc;
    alone = λ i j h q. cc;
    unfiled = λ i e h. cc;
    apart = λ i j e f h q r. cc;
  }
  Reach-Inv (later r (pick i mv)) = Move-Inv g (Reach-Inv r) i mv refl

  -- However threads that look up and scan are interleaved, and whatever the server answers, if clears
  -- are not among the calls: if the set was well formed before the first call, it is at every step,
  -- two threads are never inside of `entry_lock` together, and two threads never stand before an
  -- access to `entries` together.
  pub Reach-IsWellFormed :
      {t : System D} (i j : ℕ)
      → g.clearing ≡ false
      → Reach g (init s) t
      → (i == j) ≡ false
      → IsWellFormed g.keys t.mem.set
        × ((inside (t.pc i) && inside (t.pc j)) ≡ false)
        × ((touches (t.pc i) && touches (t.pc j)) ≡ false)
  Reach-IsWellFormed {t} i j never r apart =
      let inv = Reach-Inv r in
      let held : (inside (t.pc i) && inside (t.pc j)) ≡ false = ground (arith, inv.alone i j) in
      (
        inv.formed,
        held,
        rw
            (
              touches-inside (t.pc i) (Reach-clearing g never r i),
              touches-inside (t.pc j) (Reach-clearing g never r j),
            )
            held,
      )
