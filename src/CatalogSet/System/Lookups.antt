-- ===== src/CatalogSet/System/Lookups.antt =====
-- A lookup that is not interrupted, with a load that does what a plan does.
use uc_catalog.CatalogSet.System.Uninterrupted.{Moves-serve}
use uc_catalog.Base.{ℕ, ◌≡◌, refl, subst, fun_ext, false, Option, Bytes, ◌↔◌}
use uc_catalog.Outcome.{Outcome, ok, throws, undefined, out_of_fuel}
use uc_catalog.Outcome
use uc_catalog.Action.{Action, continue}
use uc_catalog.CatalogSet.Plan.{Plan, load_of_plan}
use uc_catalog.CatalogSet.{Entry, CatalogSet, get_entry}
use uc_catalog.CatalogSet.System.{
  look_up, found, Answer, idle, ended, update, System, Setting, Reach, asks, Shared,
}
use uc_catalog.CatalogSet.System.Alone.{serve, Reach-serve, Moves, free}

module _ {D : Type 0} (g : Setting D) where
  abbrev named :
      Bytes → Outcome (Option (Entry D)) × CatalogSet D → Outcome (Answer D) × CatalogSet D
  named name r = continue r (λ o t. (ok (found name o), t))

  named-found :
      (name : Bytes) (r : Outcome (Option (Entry D)) × CatalogSet D)
      → named name r ≡ (Outcome.◌>>=◌ r.0 (λ o. ok (found name o)), r.1)
  named-found name (ok o, t) = refl
  named-found name (throws x, t) = refl
  named-found name (undefined, t) = refl
  named-found name (out_of_fuel, t) = refl

  serve-get_entry :
      (load : Action (CatalogSet D) Unit) (r : Outcome (Plan D))
      → ((s : CatalogSet D) → load s ≡ load_of_plan g.keys g.request r s)
      → (name : Bytes) (s : CatalogSet D)
      → let (result, after) = get_entry g.keys load name s in
        serve g r (look_up name) s ≡ (Outcome.◌>>=◌ result (λ o. ok (found name o)), after)
  serve-get_entry load r same name s =
      subst
        (λ l. named name (get_entry g.keys l name s) ≡ (
          Outcome.◌>>=◌ (get_entry g.keys load name s).0 (λ o. ok (found name o)),
          (get_entry g.keys load name s).1,
        ))
        (fun_ext same) (named-found name (get_entry g.keys load name s))

  -- From every state in which `entry_lock` is free: where a load does what the plan of an answer
  -- does, the steps of a lookup on that answer, with none of another thread between them, do what
  -- `GetEntry` with that load does as one call.
  pub Reach-lookup :
      (load : Action (CatalogSet D) Unit) (r : Outcome (Plan D))
      → ((s : CatalogSet D) → load s ≡ load_of_plan g.keys g.request r s)
      → g.Answers r
      → (i : ℕ) (name : Bytes) (t : System D) → t.mem.locked ≡ false
      → t.pc i ≡ idle
      → let (result, after) = get_entry g.keys load name t.mem.set in
        Reach g t (record {
          mem = record { set = after; locked = false };
          pc = update t.pc i (ended (Outcome.◌>>=◌ result (λ o. ok (found name o))));
        })
  Reach-lookup load r same may i name t unlocked here =
      subst
        (λ q.
          Reach g t
            (record { mem = record { set = q.1; locked = false }; pc = update t.pc i (ended q.0) }))
        (serve-get_entry load r same name t.mem.set)
        (Reach-serve g i (look_up name) r t may unlocked here)

  -- The runs of a lookup that is not interrupted, at a server with one answer, whose plan the load
  -- does: they are those that end as `GetEntry` with that load does.
  pub Moves-lookup :
      (load : Action (CatalogSet D) Unit) (r : Outcome (Plan D))
      → ((s : CatalogSet D) → load s ≡ load_of_plan g.keys g.request r s)
      → ((x : Outcome (Plan D)) → g.Answers x → x ≡ r)
      → g.Answers r
      → (name : Bytes) (s : CatalogSet D) {n : Shared D} {x : Outcome (Answer D)}
      → let (result, after) = get_entry g.keys load name s in
        Moves g (free g s) (asks (look_up name)) n (ended x)
        ↔ ((n ≡ free g after) × (x ≡ Outcome.◌>>=◌ result (λ o. ok (found name o))))
  Moves-lookup load r same steady may name s {n} {x} =
      subst
        (λ q. Moves g (free g s) (asks (look_up name)) n (ended x) ↔ ((n ≡ free g q.1) × (x ≡ q.0)))
        (serve-get_entry load r same name s) (Moves-serve g r steady (look_up name) s may)
