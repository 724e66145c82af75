-- ===== src/CatalogSet/System/Races.antt =====
-- Which threads can stand before an access to `entries` together. `ClearEntries` takes no lock.
use uc_catalog.Base.{ℕ, ◌≡◌, refl, inl, inr, Bool, true, false, ◌==◌, Bool-cases}
use uc_catalog.Outcome.{Outcome, ok, throws, undefined, out_of_fuel}
use uc_catalog.CatalogSet.Plan.{make_item}
use uc_catalog.CatalogSet.{CatalogSet, create_entry}
use uc_catalog.CatalogSet.System.{
  Call, Pc, idle, asks, marks, sends, files, made, filing, enters, reading, clears, unmarks, ended,
  Shared, inside, touches, passed, System, init, Setting, Move, calls, test_fresh, test_done, mark,
  reply, make, lock_file, file, load_done, lock_read, read, calls_clear, clear, unmark, again, pick,
  Reach, start, later,
}

-- The thread is in `ClearEntries`.
abbrev pub clearing : {D : Type 0} → Pc D → Bool
clearing clears = true
clearing unmarks = true
clearing _ = false

passed-clearing :
    {A D : Type 0} (r : Outcome A) (next : A → Pc D)
    → ((a : A) → clearing (next a) ≡ false)
    → clearing (passed r next) ≡ false
passed-clearing (ok a) next h = h a
passed-clearing (throws x) next h = refl
passed-clearing undefined next h = refl
passed-clearing out_of_fuel next h = refl

pub touches-inside : {D : Type 0} (p : Pc D) → clearing p ≡ false → touches p ≡ inside p
touches-inside clears h = cc
touches-inside unmarks h = refl
touches-inside idle h = refl
touches-inside (asks c) h = refl
touches-inside (marks c) h = refl
touches-inside (sends c) h = refl
touches-inside (files c plan) h = refl
touches-inside (made c e plan) h = refl
touches-inside (filing c e plan) h = refl
touches-inside (enters c) h = refl
touches-inside (reading c) h = refl
touches-inside (ended r) h = refl

module _ {D : Type 0} (g : Setting D) where
  Move-clearing :
      {m n : Shared D} {p q : Pc D}
      → g.clearing ≡ false
      → Move g m p n q
      → clearing p ≡ false
      → clearing q ≡ false
  Move-clearing never calls h = refl
  Move-clearing never (test_fresh t) h = refl
  Move-clearing never (test_done t) h = refl
  Move-clearing never mark h = refl
  Move-clearing never (reply {c = c} {r = r} may) h = passed-clearing r (files c) (λ a. refl)
  Move-clearing {m} never (make {c = c} {item = item} {rest = plan}) h =
      passed-clearing (make_item item m.set).0 (λ e. made c e plan) (λ a. refl)
  Move-clearing never (lock_file free) h = refl
  Move-clearing {m} never (file {c = c} {e = e} {rest = plan}) h =
      passed-clearing (create_entry g.keys e m.set).0 (λ x. files c plan) (λ a. refl)
  Move-clearing never load_done h = refl
  Move-clearing never (lock_read free) h = refl
  Move-clearing never read h = refl
  Move-clearing never (calls_clear may) h = cc
  Move-clearing never clear h = h
  Move-clearing never unmark h = refl
  Move-clearing never again h = refl

  pub Reach-clearing :
      {s : CatalogSet D} {t : System D}
      → g.clearing ≡ false
      → Reach g (init s) t
      → (i : ℕ) → clearing (t.pc i) ≡ false
  Reach-clearing never start i = refl
  Reach-clearing never (later r (pick j mv)) i =
      let before = Reach-clearing never r in
      let moved = Move-clearing never mv (before j) in
      elim (Bool-cases (j == i)) [ inl here ↦ rw here moved | inr apart ↦ rw apart (before i) ]

  -- If threads clear, the map can be cleared while another thread walks it or looks a name up in
  -- it: in every set that is loaded, a call can be behind the lock while `ClearEntries` is before
  -- its first access.
  pub clear_races :
      (c : Call) (s : CatalogSet D)
      → g.clearing ≡ true
      → s.is_loaded ≡ true
      → (t : System D) × Reach g (init s) t
        × (t.mem.set ≡ s)
        × (t.pc 0 ≡ reading c)
        × (t.pc 1 ≡ clears)
  clear_races c s may done = (
    _,
    later
        (later (later (later start (pick 0 calls)) (pick 0 (test_done done)))
          (pick 0 (lock_read refl)))
        (pick 1 (calls_clear may)),
    refl,
    refl,
    refl,
  )
