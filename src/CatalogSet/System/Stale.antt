-- ===== src/CatalogSet/System/Stale.antt =====
-- A load that is under way while another thread clears the set.
use uc_catalog.CatalogSet.Entries.{find_entry-insert_entry}
use uc_catalog.Base.{ℕ, ◌≡◌, refl, ap, sym, subst, true, false, some, [], ◌∷◌, is_empty}
use uc_catalog.Outcome.{ok}
use uc_catalog.CatalogSet.Plan.{Item, item_of, run_plan, load_of_plan}
use uc_catalog.CatalogSet.{
  Entry, CatalogSet, find_entry, insert_entry, create_entry, empty_set, get_entry,
}
use uc_catalog.CatalogSet.System.Alone.{
  Moves-Reach, run_plan-Moves, serve, free, Reach-serve, Reach-append,
}
use uc_catalog.CatalogSet.System.{
  look_up, found, cleared, Pc, idle, files, ended, update, System, init, Setting, Move, calls,
  test_fresh, mark, reply, calls_clear, clear, unmark, again, pick, Reach, start, later, enters,
  passed,
}

module _ {D : Type 0} (g : Setting D) (old new : Item D) where
  abbrev first_of : Item D → Entry D
  first_of i = record {
    address = 0;
    name = i.name;
    is_internal = i.is_internal;
    content = i.content;
  }

  -- The set behind the clear, and the set in which the load that was under way has filed its entry.
  abbrev behind : CatalogSet D
  behind = record { entries = []; is_loaded = false; allocated = 0; requests = g.request ∷ [] }

  abbrev late : CatalogSet D
  late = record {
    entries = first_of old ∷ [];
    is_loaded = false;
    allocated = 1;
    requests = g.request ∷ [];
  }

  file_late : is_empty old.name ≡ false → run_plan g.keys (ok old ∷ []) behind ≡ (ok tt, late)
  unfolding run_plan create_entry insert_entry find_entry
  file_late named = rw named

  serve-late :
      is_empty new.name ≡ false
      → let (result, after) = serve g (ok (ok new ∷ [])) (look_up old.name) late in
        (result ≡ ok (found old.name (some (first_of old))))
        × (after.requests ≡ g.request ∷ (g.request ∷ []))
  unfolding get_entry load_of_plan run_plan create_entry insert_entry find_entry
  serve-late named =
      let e : Entry D = record {
        address = 1;
        name = new.name;
        is_internal = new.is_internal;
        content = new.content;
      } in
      rw
        (
          named,
          find_entry-insert_entry g.keys old.name e (first_of old ∷ []),
          g.keys.same_key_refl old.name,
        )
        (refl, refl)

  cleared_while :
      g.clearing ≡ true
      → g.Answers (ok (ok old ∷ []))
      → (pc : ℕ → Pc D) × Reach g (init empty_set) (record { mem = free g behind; pc = pc })
        × (pc 0 ≡ files (look_up old.name) (ok old ∷ []))
        × (pc 1 ≡ ended (ok cleared))
  cleared_while may first = (
    _,
    later
        (later
          (later
            (later
              (later (later (later start (pick 0 calls)) (pick 0 (test_fresh refl))) (pick 0 mark))
              (pick 0 (reply first)))
            (pick 1 (calls_clear may)))
          (pick 1 clear))
        (pick 1 unmark),
    refl,
    refl,
  )

  -- A clear is forgotten. With clears among the calls, and a server that can list one item and can
  -- list another, both with a name that is not empty: from the empty set, threads reach a state in
  -- which thread 1 has cleared the set, which has no entries and is not loaded, and the server was
  -- asked once. From there they reach a state in which a lookup of thread 1 by the first item's name
  -- is answered by an entry with that item, and the server was asked a second time.
  pub clear_forgotten :
      g.clearing ≡ true
      → g.Answers (ok (ok old ∷ []))
      → g.Answers (ok (ok new ∷ []))
      → is_empty old.name ≡ false
      → is_empty new.name ≡ false
      → (t u : System D) × (e : Entry D) × Reach g (init empty_set) t
        × (t.pc 1 ≡ ended (ok cleared))
        × (t.mem.set.entries ≡ [])
        × (t.mem.set.is_loaded ≡ false)
        × (t.mem.set.requests ≡ g.request ∷ [])
        × Reach g t u
        × (u.pc 1 ≡ ended (ok (found old.name (some e))))
        × (item_of e ≡ old)
        × (u.mem.set.requests ≡ g.request ∷ (g.request ∷ []))
  clear_forgotten may first second named_old named_new =
      let call = look_up old.name in
      let (pc, reached, files_old, done) = cleared_while may first in
      let t : System D = record { mem = free g behind; pc = pc } in
      let begin : Reach g t t = start in
      let filed : Reach g t (record { mem = free g late; pc = update pc 0 (enters call) }) =
        subst
          (λ r.
            Reach g t
              (record { mem = free g r.1; pc = update pc 0 (passed r.0 (λ u. enters call)) }))
          (file_late named_old)
          (Moves-Reach g 0 pc begin files_old (run_plan-Moves g call (ok old ∷ []) behind)) in
      let ready =
        later filed
          (pick 1 (subst (λ p. Move g (free g late) p (free g late) idle) (sym done) again)) in
      let last = Reach-serve g 1 call (ok (ok new ∷ [])) _ second refl refl in
      let (result, asked) = serve-late named_new in
      (
        t,
        _,
        first_of old,
        reached,
        done,
        refl,
        refl,
        refl,
        Reach-append g ready last,
        ap ended result,
        refl,
        asked,
      )
