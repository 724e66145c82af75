-- ===== src/CatalogSet/System/Bound.antt =====
-- How many steps of its own a call takes.
use uc_catalog.Base.{ℕ, zero, suc, ◌+◌, ◌*◌, ◌≤◌, ◌<◌, ◌≡◌, false, ◌==◌, length, arith}
use uc_catalog.Outcome.{Outcome, ok, throws, undefined, out_of_fuel}
use uc_catalog.CatalogSet.Plan.{Plan, make_item}
use uc_catalog.CatalogSet.{create_entry}
use uc_catalog.CatalogSet.System.Alone.{done}
use uc_catalog.CatalogSet.System.{
  Call, Pc, idle, asks, marks, sends, files, made, filing, enters, reading, clears, unmarks, ended,
  Shared, passed, update, System, Setting, Move, calls, test_fresh, test_done, mark, reply, make,
  lock_file, file, load_done, lock_read, read, calls_clear, clear, unmark, again,
}

-- The steps that are left to a call, if listings have `n` items at most.
abbrev pub steps_left : {D : Type 0} → ℕ → Pc D → ℕ
steps_left n idle = 0
steps_left n (asks c) = 3 * n + 6
steps_left n (marks c) = 3 * n + 5
steps_left n (sends c) = 3 * n + 4
steps_left n (files c plan) = 3 * length plan + 3
steps_left n (made c e plan) = 3 * length plan + 5
steps_left n (filing c e plan) = 3 * length plan + 4
steps_left n (enters c) = 2
steps_left n (reading c) = 1
steps_left n clears = 2
steps_left n unmarks = 1
steps_left n (ended r) = 0

module _ {D : Type 0} (g : Setting D) (i : ℕ) where
  -- Steps of a system, of which `k` are steps of thread `i` within a call.
  pub data Own (s : System D) : ℕ → System D → Type 0 where
    stay : Own s zero s
    own :
        {k : ℕ} {t : System D} {m : Shared D} {p : Pc D}
        → Own s k t
        → done (t.pc i) ≡ false
        → Move g t.mem (t.pc i) m p
        → Own s (suc k) (record { mem = m; pc = update t.pc i p })
    foreign :
        {k : ℕ} {t : System D} {m : Shared D} {p : Pc D} (j : ℕ)
        → Own s k t
        → (j == i) ≡ false
        → Move g t.mem (t.pc j) m p
        → Own s k (record { mem = m; pc = update t.pc j p })

module _ {D : Type 0} (g : Setting D) (n : ℕ)
    (bounded : (plan : Plan D) → g.Answers (ok plan) → length plan ≤ n) where
  passed_le :
      {A : Type 0} (r : Outcome A) (next : A → Pc D) (k : ℕ)
      → ((a : A) → steps_left n (next a) ≤ k)
      → steps_left n (passed r next) ≤ k
  passed_le (ok a) next k h = h a
  passed_le (throws x) next k h = omega arith
  passed_le undefined next k h = omega arith
  passed_le out_of_fuel next k h = omega arith

  -- Each step within a call brings its end nearer.
  Move-steps_left :
      {m m' : Shared D} {p p' : Pc D}
      → Move g m p m' p'
      → done p ≡ false
      → steps_left n p' < steps_left n p
  Move-steps_left calls h = cc
  Move-steps_left (test_fresh t) h = omega arith
  Move-steps_left (test_done t) h = omega arith
  Move-steps_left mark h = omega arith
  Move-steps_left (reply {c = c} {r = ok plan} may) h = omega (arith, bounded plan may)
  Move-steps_left (reply {c = c} {r = throws x} may) h = omega arith
  Move-steps_left (reply {c = c} {r = undefined} may) h = omega arith
  Move-steps_left (reply {c = c} {r = out_of_fuel} may) h = omega arith
  Move-steps_left {m} (make {c = c} {item = item} {rest = plan}) h = omega (
    arith,
    passed_le (make_item item m.set).0 (λ e. made c e plan) (3 * length plan + 5)
        (λ e. omega arith),
  )
  Move-steps_left (lock_file free) h = omega arith
  Move-steps_left {m} (file {c = c} {e = e} {rest = plan}) h = omega (
    arith,
    passed_le (create_entry g.keys e m.set).0 (λ x. files c plan) (3 * length plan + 3)
        (λ x. omega arith),
  )
  Move-steps_left load_done h = omega arith
  Move-steps_left (lock_read free) h = omega arith
  Move-steps_left read h = omega arith
  Move-steps_left (calls_clear may) h = cc
  Move-steps_left clear h = omega arith
  Move-steps_left unmark h = omega arith
  Move-steps_left again h = cc

  Own-steps_left :
      (i : ℕ) {s t : System D} {k : ℕ}
      → Own g i s k t
      → k + steps_left n (t.pc i) ≤ steps_left n (s.pc i)
  Own-steps_left i stay = omega arith
  Own-steps_left i (own {k} {t} {m} {p} before busy mv) =
      let here : update t.pc i p i ≡ p = ground arith in
      rw here (omega (arith, Own-steps_left i before, Move-steps_left mv busy))
  Own-steps_left i (foreign {k} {t} {m} {p} j before apart mv) =
      let there : update t.pc j p i ≡ t.pc i = rw apart in rw there (Own-steps_left i before)

  -- If no listing has more than `n` items: however the steps of a lookup or a scan are interleaved
  -- with those of other threads, which may load, fail and clear as they like, it takes at most
  -- `3 * n + 6` steps of its own.
  pub Own-asks :
      (i : ℕ) (c : Call) {s t : System D} {k : ℕ} → s.pc i ≡ asks c → Own g i s k t → k ≤ 3 * n + 6
  Own-asks i c {s} {t} {k} here steps = let h = rw here at (Own-steps_left i steps) in omega arith
