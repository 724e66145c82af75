-- ===== src/CatalogSet/System/Uninterrupted.antt =====
-- A call that is not interrupted ends in one way only, where the server has one answer.
use uc_catalog.Base.{◌≡◌, refl, ap, sym, subst, ◌∙◌, true, false, [], ◌∷◌, if◌then◌else◌, ◌↔◌}
use uc_catalog.Outcome.{Outcome, ok, undefined}
use uc_catalog.CatalogSet.Plan.{Plan, make_item}
use uc_catalog.CatalogSet.Cache.{marked}
use uc_catalog.CatalogSet.{CatalogSet, create_entry, send}
use uc_catalog.CatalogSet.System.Alone.{Moves, rest, next, done, free, serve, serve-Moves}
use uc_catalog.CatalogSet.System.{
  Call, Answer, Pc, idle, asks, marks, sends, files, made, filing, enters, reading, clears, unmarks,
  ended, cleared, Shared, passed, answer, Setting, Move, calls, test_fresh, test_done, mark, reply,
  make, lock_file, file, load_done, lock_read, read, calls_clear, clear, unmark, again,
}

module _ {D : Type 0} (g : Setting D) (r : Outcome (Plan D)) where
  -- The step that a thread within a call takes next, if the server answers with `r`.
  abbrev step_of : Shared D → Pc D → Shared D × Pc D
  step_of m idle = (m, idle)
  step_of m (asks c) = (m, if m.set.is_loaded then enters c else marks c)
  step_of m (marks c) = (record m { set = marked m.set }, sends c)
  step_of m (sends c) = (record m { set = (send g.request m.set).1 }, passed r (files c))
  step_of m (files c []) = (m, enters c)
  step_of m (files c (item ∷ plan)) = (
    record m { set = (make_item item m.set).1 },
    passed (make_item item m.set).0 (λ e. made c e plan),
  )
  step_of m (made c e plan) = (record m { locked = true }, filing c e plan)
  step_of m (filing c e plan) = (
    record { set = (create_entry g.keys e m.set).1; locked = false },
    passed (create_entry g.keys e m.set).0 (λ x. files c plan),
  )
  step_of m (enters c) = (record m { locked = true }, reading c)
  step_of m (reading c) = (record m { locked = false }, ended (ok (answer g c m.set)))
  step_of m clears = (record m { set = record m.set { entries = [] } }, unmarks)
  step_of m unmarks = (record m { set = record m.set { is_loaded = false } }, ended (ok cleared))
  step_of m (ended x) = (m, ended x)

  module _ (steady : (x : Outcome (Plan D)) → g.Answers x → x ≡ r) where
    Move-step_of :
        {m n : Shared D} {p q : Pc D} → Move g m p n q → done p ≡ false → step_of m p ≡ (n, q)
    Move-step_of calls h = cc
    Move-step_of {m} (test_fresh {c = c} t) h = ap (λ b. (m, if b then enters c else marks c)) t
    Move-step_of {m} (test_done {c = c} t) h = ap (λ b. (m, if b then enters c else marks c)) t
    Move-step_of mark h = refl
    Move-step_of {m} (reply {c = c} {r = x} may) h =
        ap (λ y. (record m { set = (send g.request m.set).1 }, passed y (files c)))
          (sym (steady x may))
    Move-step_of make h = refl
    Move-step_of (lock_file free) h = refl
    Move-step_of file h = refl
    Move-step_of load_done h = refl
    Move-step_of (lock_read free) h = refl
    Move-step_of read h = refl
    Move-step_of (calls_clear may) h = cc
    Move-step_of clear h = refl
    Move-step_of unmark h = refl
    Move-step_of again h = cc

    -- Two runs from one place to the end of the call end in the same way.
    Moves-same :
        {m n o : Shared D} {p q s : Pc D}
        → Moves g m p n q
        → Moves g m p o s
        → done q ≡ true
        → done s ≡ true
        → ◌≡◌ {A = Shared D × Pc D} (n, q) (o, s)
    Moves-same rest rest hq hs = refl
    Moves-same rest (next h mv more) hq hs = cc
    Moves-same (next h mv more) rest hq hs = cc
    Moves-same {o = o} {s = s} (next h mv more) (next h' mv' more') hq hs =
        let same = sym (Move-step_of mv' h') ∙ Move-step_of mv h in
        Moves-same more (subst (λ x. Moves g x.0 x.1 o s) same more') hq hs

    abbrev outcome_of : Pc D → Outcome (Answer D)
    outcome_of (ended x) = x
    outcome_of _ = undefined

    -- The runs of a call that is not interrupted are those that end with the outcome of the atomic
    -- call, and with the set that it leaves.
    pub Moves-serve :
        (c : Call) (s : CatalogSet D) {n : Shared D} {x : Outcome (Answer D)}
        → g.Answers r
        → Moves g (free g s) (asks c) n (ended x)
          ↔ ((n ≡ free g (serve g r c s).1) × (x ≡ (serve g r c s).0))
    Moves-serve c s {n} {x} may =
        let run = serve-Moves g c r s may in
        (
          λ other.
              let same = Moves-same other run refl refl in
              (ap (λ y. y.0) same, ap (λ y. outcome_of y.1) same),
          λ (at, with).
              subst (λ y. Moves g (free g s) (asks c) y (ended x)) (sym at)
                (subst (λ y. Moves g (free g s) (asks c) (free g (serve g r c s).1) (ended y))
                  (sym with) run),
        )
