-- ===== src/CatalogSet/System/Progress.antt =====
-- Whether a call can get stuck: steps with `entry_lock`, and threads that are left alone.
use uc_catalog.Base.{
  ℕ, ◌≡◌, refl, sym, subst, ◌∙◌, inl, inr, true, false, ◌==◌, ==_iff, Bool-cases, arith, ap,
}
use uc_catalog.Outcome.{Outcome, ok, throws, undefined, out_of_fuel}
use uc_catalog.CatalogSet.Plan.{Plan, run_plan}
use uc_catalog.CatalogSet.{CatalogSet, Entry, create_entry}
use uc_catalog.CatalogSet.System.Alone.{
  Moves, rest, next, Moves-append, Moves-Reach, done, run_plan-Moves, finish-Moves, Reach-append,
  free,
}
use uc_catalog.CatalogSet.System.{
  Call, Pc, idle, asks, marks, sends, files, made, filing, enters, reading, clears, unmarks, ended,
  Shared, inside, passed, update, System, init, Setting, Move, calls, test_fresh, test_done, mark,
  reply, make, lock_file, file, load_done, lock_read, read, calls_clear, clear, unmark, again, pick,
  Reach, start, later,
}

module _ {D : Type 0} (g : Setting D) where
  -- Some thread is inside if the lock is taken.
  abbrev IsOwned : Shared D → (ℕ → Pc D) → Type 0
  IsOwned m pc = m.locked ≡ true → (j : ℕ) × (inside (pc j) ≡ true)

  module _ (m : Shared D) (pc : ℕ → Pc D) (owned : IsOwned m pc) (i : ℕ) where
    same_lock : (p p' : Pc D) → pc i ≡ p → inside p ≡ false → IsOwned m (update pc i p')
    same_lock p p' here out locked = let (j, h) = owned locked in (j, ground arith)

    Move-IsOwned :
        {p p' : Pc D} {m' : Shared D} → Move g m p m' p' → pc i ≡ p → IsOwned m' (update pc i p')
    Move-IsOwned calls here = same_lock _ _ here refl
    Move-IsOwned (test_fresh h) here = same_lock _ _ here refl
    Move-IsOwned (test_done h) here = same_lock _ _ here refl
    Move-IsOwned mark here = same_lock _ _ here refl
    Move-IsOwned (reply may) here = same_lock _ _ here refl
    Move-IsOwned make here = same_lock _ _ here refl
    Move-IsOwned (lock_file h) here = λ locked. (i, ground arith)
    Move-IsOwned file here = λ locked. cc
    Move-IsOwned load_done here = same_lock _ _ here refl
    Move-IsOwned (lock_read h) here = λ locked. (i, ground arith)
    Move-IsOwned read here = λ locked. cc
    Move-IsOwned (calls_clear h) here = same_lock _ _ here refl
    Move-IsOwned clear here = same_lock _ _ here refl
    Move-IsOwned unmark here = same_lock _ _ here refl
    Move-IsOwned again here = same_lock _ _ here refl

  Reach-IsOwned : {s : CatalogSet D} {t : System D} → Reach g (init s) t → IsOwned t.mem t.pc
  Reach-IsOwned start = λ locked. cc
  Reach-IsOwned (later r (pick i mv)) = Move-IsOwned _ _ (Reach-IsOwned r) i mv refl

  -- Steps of one thread that end its call.
  Ends : Shared D → Pc D → Type 0
  Ends m p = (n : Shared D) × (q : Pc D) × Moves g m p n q × (done q ≡ true)

  Ends-append : {m n : Shared D} {p q : Pc D} → Moves g m p n q → Ends n q → Ends m p
  unfolding Ends
  Ends-append a (o, r, b, end) = (o, r, Moves-append g a b, end)

  enters-Ends : (c : Call) (s : CatalogSet D) → Ends (free g s) (enters c)
  unfolding Ends
  enters-Ends c s = (_, _, finish-Moves g c s, refl)

  passed-Ends :
      {A : Type 0} (r : Outcome A) (s : CatalogSet D) (after : A → Pc D)
      → ((a : A) → Ends (free g s) (after a))
      → Ends (free g s) (passed r after)
  unfolding Ends
  passed-Ends (ok a) s after h = h a
  passed-Ends (throws x) s after h = (_, _, rest, refl)
  passed-Ends undefined s after h = (_, _, rest, refl)
  passed-Ends out_of_fuel s after h = (_, _, rest, refl)

  files-Ends : (c : Call) (plan : Plan D) (s : CatalogSet D) → Ends (free g s) (files c plan)
  files-Ends c plan s =
      Ends-append (run_plan-Moves g c plan s)
        (passed-Ends (run_plan g.keys plan s).0 _ _ (λ u. enters-Ends c _))

  filing-Ends : (c : Call) (e : Entry D) (plan : Plan D) (m : Shared D) → Ends m (filing c e plan)
  filing-Ends c e plan m =
      Ends-append (next refl file rest)
        (passed-Ends (create_entry g.keys e m.set).0 _ _ (λ x. files-Ends c plan _))

  module _ {r : Outcome (Plan D)} (may : g.Answers r) where
    sends-Ends : (c : Call) (s : CatalogSet D) → Ends (free g s) (sends c)
    sends-Ends c s =
        Ends-append (next refl (reply may) rest) (passed-Ends r _ _ (λ plan. files-Ends c plan _))

    -- A thread with the lock free, or in its own hands.
    free-Ends : (p : Pc D) (s : CatalogSet D) → Ends (free g s) p
    unfolding Ends
    free-Ends idle s = (_, _, rest, refl)
    free-Ends (ended x) s = (_, _, rest, refl)
    free-Ends (asks c) s = elim (Bool-cases s.is_loaded) [
      | inl full ↦ Ends-append (next refl (test_done full) rest) (enters-Ends c s)
      | inr fresh ↦
          Ends-append (next refl (test_fresh fresh) (next refl mark rest)) (sends-Ends c _)
    ]
    free-Ends (marks c) s = Ends-append (next refl mark rest) (sends-Ends c _)
    free-Ends (sends c) s = sends-Ends c s
    free-Ends (files c plan) s = files-Ends c plan s
    free-Ends (made c e plan) s =
        Ends-append (next refl (lock_file refl) rest) (filing-Ends c e plan _)
    free-Ends (filing c e plan) s = filing-Ends c e plan _
    free-Ends (enters c) s = enters-Ends c s
    free-Ends (reading c) s = (_, _, next refl read rest, refl)
    free-Ends clears s = (_, _, next refl clear (next refl unmark rest), refl)
    free-Ends unmarks s = (_, _, next refl unmark rest, refl)

  -- A thread inside of the lock.
  inside-Ends : (p : Pc D) (m : Shared D) → inside p ≡ true → Ends m p
  unfolding Ends
  inside-Ends (filing c e plan) m h = filing-Ends c e plan m
  inside-Ends (reading c) m h = (_, _, next refl read rest, refl)
  inside-Ends idle m h = cc
  inside-Ends (asks c) m h = cc
  inside-Ends (marks c) m h = cc
  inside-Ends (sends c) m h = cc
  inside-Ends (files c plan) m h = cc
  inside-Ends (made c e plan) m h = cc
  inside-Ends (enters c) m h = cc
  inside-Ends clears m h = cc
  inside-Ends unmarks m h = cc
  inside-Ends (ended r) m h = cc

  -- Its next step gives the lock back.
  inside_step :
      (p : Pc D) (m : Shared D)
      → inside p ≡ true
      → (n : Shared D) × (q : Pc D) × Move g m p n q × (n.locked ≡ false)
  inside_step (filing c e plan) m h = (_, _, file, refl)
  inside_step (reading c) m h = (_, _, read, refl)
  inside_step idle m h = cc
  inside_step (asks c) m h = cc
  inside_step (marks c) m h = cc
  inside_step (sends c) m h = cc
  inside_step (files c plan) m h = cc
  inside_step (made c e plan) m h = cc
  inside_step (enters c) m h = cc
  inside_step clears m h = cc
  inside_step unmarks m h = cc
  inside_step (ended r) m h = cc

  Ends-Reach :
      (i : ℕ) (t : System D)
      → Ends t.mem (t.pc i)
      → (u : System D) × Reach g t u × (done (u.pc i) ≡ true)
  unfolding Ends
  Ends-Reach i t (n, q, moves, end) =
      let begin : Reach g t t = start in
      (
        record { mem = n; pc = update t.pc i q },
        Moves-Reach g i t.pc begin refl moves,
        ground arith,
      )

  free_lock : (t : System D) → t.mem.locked ≡ false → free g t.mem.set ≡ t.mem
  free_lock t unlocked = ap (λ b. record { set = t.mem.set; locked = b }) (sym unlocked)

  -- If the server has some answer, one that throws included, then from every state that threads can
  -- reach, whichever of them holds the lock, and for each thread, further steps lead to a state in
  -- which that thread's call is at its end.
  pub Reach-done :
      {s : CatalogSet D} {t : System D} (i : ℕ) {r : Outcome (Plan D)}
      → g.Answers r
      → Reach g (init s) t
      → (u : System D) × Reach g t u × (done (u.pc i) ≡ true)
  Reach-done {s} {t} i may reached = elim (Bool-cases t.mem.locked) [
    | inr unlocked ↦
        Ends-Reach i t
          (subst (λ m. Ends m (t.pc i)) (free_lock t unlocked) (free-Ends may (t.pc i) t.mem.set))
    | inl locked ↦
        let (j, h) = Reach-IsOwned reached locked in
        elim (Bool-cases (j == i)) [
          | inl same ↦
              let mine : inside (t.pc i) ≡ true =
                ap (λ n. inside (t.pc n)) (sym ((==_iff j i).0 same)) ∙ h in
              Ends-Reach i t (inside-Ends (t.pc i) t.mem mine)
          | inr apart ↦
              let (n, q, mv, unlocked) = inside_step (t.pc j) t.mem h in
              let v : System D = record { mem = n; pc = update t.pc j q } in
              let begin : Reach g t t = start in
              let (u, more, end) = Ends-Reach i v (
                subst (λ m. Ends m (v.pc i)) (free_lock v unlocked)
                  (free-Ends may (v.pc i) n.set)) in
              (u, Reach-append g (later begin (pick j mv)) more, end)
        ]
  ]
