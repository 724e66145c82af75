-- ===== src/CatalogSet/System/Alone.antt =====
-- A thread that is not interrupted: its steps do what the atomic call does.
use uc_catalog.Base.{
  ℕ, ◌≡◌, refl, ap, subst, inl, inr, false, ◌==◌, [], ◌∷◌, Bool-cases, arith, sym, ==_iff, fun_ext,
  Bool, true,
}
use uc_catalog.Outcome.{Outcome, ok, throws, undefined, out_of_fuel}
use uc_catalog.Action.{Action, pure, continue, ◌>>=◌, continue_assoc}
use uc_catalog.CatalogSet.Cache.{marked, ensure_loaded_done, ensure_loaded_first}
use uc_catalog.CatalogSet.Plan.{Plan, make_item, run_plan, load_of_plan}
use uc_catalog.CatalogSet.{CatalogSet, create_entry, ensure_loaded, get_entry, scan, send}
use uc_catalog.CatalogSet.System.{
  Call, look_up, walk, Answer, found, seen, Pc, idle, asks, sends, files, made, enters, ended,
  Shared, passed, update, System, Setting, Move, calls, test_fresh, test_done, mark, reply, make,
  lock_file, file, load_done, lock_read, read, pick, Reach, later, answer, start,
}

-- The thread is in no call, or its call has ended.
abbrev pub done : {D : Type 0} → Pc D → Bool
done idle = true
done (ended r) = true
done _ = false

module _ {D : Type 0} (g : Setting D) where
  -- Steps of one thread within a call, with none of another thread between them.
  pub data Moves : Shared D → Pc D → Shared D → Pc D → Type 0 where
    rest : {m : Shared D} {p : Pc D} → Moves m p m p
    next :
        {m n o : Shared D} {p q r : Pc D}
        → done p ≡ false
        → Move g m p n q
        → Moves n q o r
        → Moves m p o r

  pub Moves-append :
      {m n o : Shared D} {p q r : Pc D} → Moves m p n q → Moves n q o r → Moves m p o r
  Moves-append rest b = b
  Moves-append (next h mv a) b = next h mv (Moves-append a b)

  -- The calls, each in one step.
  abbrev pub serve : Outcome (Plan D) → Call → Action (CatalogSet D) (Answer D)
  serve r (look_up name) = do
    o ← get_entry g.keys (load_of_plan g.keys g.request r) name
    pure (found name o)
  serve r walk = do es ← scan g.bucket_order (load_of_plan g.keys g.request r); pure (seen es)

  abbrev pub free : CatalogSet D → Shared D
  free s = record { set = s; locked = false }

  -- A chain of calls: the steps of the first call, then those of what follows its value.
  continue-Moves :
      {A B : Type 0} (r : Outcome A × CatalogSet D) (after : A → Pc D)
      (f : A → Action (CatalogSet D) B) (last : B → Pc D)
      → ((a : A) (s : CatalogSet D)
          → Moves (free s) (after a) (free (f a s).1) (passed (f a s).0 last))
      → Moves (free r.1) (passed r.0 after) (free (continue r f).1) (passed (continue r f).0 last)
  continue-Moves (ok a, s) after f last h = h a s
  continue-Moves (throws x, s) after f last h = rest
  continue-Moves (undefined, s) after f last h = rest
  continue-Moves (out_of_fuel, s) after f last h = rest

  pub run_plan-Moves :
      (c : Call) (plan : Plan D) (s : CatalogSet D)
      → Moves
          (free s)
          (files c plan)
          (free (run_plan g.keys plan s).1)
          (passed (run_plan g.keys plan s).0 (λ u. enters c))
  unfolding run_plan
  run_plan-Moves c [] s = next refl load_done rest
  run_plan-Moves c (item ∷ items) s = next refl make (
      continue-Moves (make_item item s) (λ e. made c e items) _ (λ u. enters c)
        (λ e t. next refl (lock_file refl) (
          next refl file (
            continue-Moves (create_entry g.keys e t) (λ x. files c items)
              (λ x. run_plan g.keys items) (λ u. enters c) (λ x u. run_plan-Moves c items u)))))

  pub finish-Moves :
      (c : Call) (s : CatalogSet D) → Moves (free s) (enters c) (free s) (ended (ok (answer g c s)))
  finish-Moves c s = next refl (lock_read refl) (next refl read rest)

  load-Moves :
      (c : Call) (r : Outcome (Plan D)) (s : CatalogSet D)
      → g.Answers r
      → Moves
          (free s)
          (sends c)
          (free (load_of_plan g.keys g.request r s).1)
          (passed (load_of_plan g.keys g.request r s).0 (λ u. enters c))
  unfolding load_of_plan
  load-Moves c r s may = next refl (reply may) (
      continue-Moves (r, (send g.request s).1) (files c) (run_plan g.keys) (λ u. enters c)
        (run_plan-Moves c))

  ensure_loaded-Moves :
      (c : Call) (r : Outcome (Plan D)) (s : CatalogSet D)
      → g.Answers r
      → let load = ensure_loaded (load_of_plan g.keys g.request r) s in
        Moves (free s) (asks c) (free load.1) (passed load.0 (λ u. enters c))
  ensure_loaded-Moves c r s may = elim (Bool-cases s.is_loaded) [
    | inl done ↦
        rw (ensure_loaded_done (load_of_plan g.keys g.request r) s done)
          (next refl (test_done done) rest)
    | inr fresh ↦
        rw (ensure_loaded_first (load_of_plan g.keys g.request r) s fresh)
          (next refl (test_fresh fresh) (next refl mark (load-Moves c r (marked s) may)))
  ]

  serve-eq-continue :
      (c : Call) (r : Outcome (Plan D)) (s : CatalogSet D)
      → serve r c s
        ≡ continue
            (ensure_loaded (load_of_plan g.keys g.request r) s)
            (λ u t. (ok (answer g c t), t))
  unfolding get_entry scan
  serve-eq-continue (look_up name) r s =
      continue_assoc (ensure_loaded (load_of_plan g.keys g.request r) s) _ _
  serve-eq-continue walk r s =
      continue_assoc (ensure_loaded (load_of_plan g.keys g.request r) s) _ _

  passed-ended : (r : Outcome (Answer D)) → passed r (λ a. ended (ok a)) ≡ ended r
  passed-ended (ok a) = refl
  passed-ended (throws x) = refl
  passed-ended undefined = refl
  passed-ended out_of_fuel = refl

  -- An undisturbed call ends as the atomic one does, and leaves the same set.
  pub serve-Moves :
      (c : Call) (r : Outcome (Plan D)) (s : CatalogSet D)
      → g.Answers r
      → Moves (free s) (asks c) (free (serve r c s).1) (ended (serve r c s).0)
  serve-Moves c r s may =
      subst (λ q. Moves (free s) (asks c) (free (serve r c s).1) q) (passed-ended (serve r c s).0)
        (rw (serve-eq-continue c r s) (
          Moves-append (ensure_loaded-Moves c r s may) (
            continue-Moves (ensure_loaded (load_of_plan g.keys g.request r) s) (λ u. enters c) _
              (λ a. ended (ok a)) (λ u. finish-Moves c))))

  pub Reach-append : {s t u : System D} → Reach g s t → Reach g t u → Reach g s u
  Reach-append a start = a
  Reach-append a (later b step) = later (Reach-append a b) step

  update_same : (pc : ℕ → Pc D) (i : ℕ) {p : Pc D} → pc i ≡ p → update pc i p ≡ pc
  update_same pc i here = fun_ext λ j. elim (Bool-cases (i == j)) [
    | inl same ↦ ground (arith, ==_iff i j)
    | inr apart ↦ rw apart
  ]

  update_twice : (pc : ℕ → Pc D) (i : ℕ) (p q : Pc D) → update (update pc i p) i q ≡ update pc i q
  update_twice pc i p q = fun_ext λ j. ground arith

  -- The steps of one thread are steps of the system, in which the other threads stay.
  pub Moves-Reach :
      (i : ℕ) {s : System D} {m n : Shared D} {p q : Pc D} (pc : ℕ → Pc D)
      → Reach g s (record { mem = m; pc = pc })
      → pc i ≡ p
      → Moves m p n q
      → Reach g s (record { mem = n; pc = update pc i q })
  Moves-Reach i {s} {m} pc reached here rest =
      subst (λ f. Reach g s (record { mem = m; pc = f })) (sym (update_same pc i here)) reached
  Moves-Reach i {s} {m} pc reached here (next {n} {o} {q} {r} h mv moves) =
      let step = pick i (subst (λ x. Move g m x n q) (sym here) mv) in
      subst (λ f. Reach g s (record { mem = o; pc = f })) (update_twice pc i q r)
        (Moves-Reach i (update pc i q) (later reached step) (ground arith) moves)

  -- From every state in which the lock is free: a thread that calls and is not interrupted ends
  -- with the outcome of the atomic call, a load that does not return included, and leaves the
  -- set that the atomic call leaves; the other threads stay where they were.
  pub Reach-serve :
      (i : ℕ) (c : Call) (r : Outcome (Plan D)) (t : System D)
      → g.Answers r
      → t.mem.locked ≡ false
      → t.pc i ≡ idle
      → let (result, after) = serve r c t.mem.set in
        Reach g t (record {
          mem = record { set = after; locked = false };
          pc = update t.pc i (ended result);
        })
  Reach-serve i c r t may unlocked here =
      let unlocked' : t.mem ≡ free t.mem.set =
        ap (λ b. record { set = t.mem.set; locked = b }) unlocked in
      let begin = subst (λ m. Reach g t (record { mem = m; pc = t.pc })) unlocked' start in
      let asked : Reach g t (record { mem = free t.mem.set; pc = update t.pc i (asks c) }) =
        later begin (
          pick i
            (subst (λ p. Move g (free t.mem.set) p (free t.mem.set) (asks c)) (sym here) calls)) in
      let moves = serve-Moves c r t.mem.set may in
      subst (λ f. Reach g t (record { mem = free (serve r c t.mem.set).1; pc = f }))
        (update_twice t.pc i (asks c) (ended (serve r c t.mem.set).0))
        (Moves-Reach i (update t.pc i (asks c)) asked (ground arith) moves)
