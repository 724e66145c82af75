-- ===== src/CatalogSet/System/Tests.antt =====
-- The theorems on threads, at given runs.
use uc_catalog.CatalogSet.System.Filling.{IsAnswered}
use uc_catalog.CatalogSet.System.Complete.{Reach-IsAnswered}
use uc_catalog.CatalogSet.System.Bound.{Own-asks, own, foreign, stay}
use uc_catalog.CatalogSet.System.Progress.{Reach-done}
use uc_catalog.Base.{
  ℕ, ◌≡◌, refl, true, false, ◌&&◌, none, some, [], ◌∷◌, List, codes, length, ◌≤◌, ◌+◌, ◌*◌, arith,
}
use uc_catalog.Outcome.{Outcome, ok}
use uc_catalog.Api.Interface.{Request}
use uc_catalog.Samples.{exact_keys}
use uc_catalog.CatalogSet.Plan.{Item, item_of, load_of_plan, Plan}
use uc_catalog.CatalogSet.Invariant.{IsWellFormed}
use uc_catalog.CatalogSet.{
  Entry, CatalogSet, find_entry, empty_set, get_entry, create_entry, insert_entry,
}
use uc_catalog.CatalogSet.System.Safety.{Reach-IsWellFormed}
use uc_catalog.CatalogSet.System.Stale.{clear_forgotten}
use uc_catalog.CatalogSet.System.Alone.{serve, done, Reach-serve}
use uc_catalog.CatalogSet.System.{
  look_up, found, cleared, ended, inside, System, init, Setting, calls, test_fresh, test_done, mark,
  reply, make, lock_file, pick, Reach, start, later, Answer, asks, update, idle, touches,
}

abbrev item : Item ℕ
item = record { name = codes "a"; is_internal = false; content = 1 }

abbrev newer : Item ℕ
newer = record { name = codes "a"; is_internal = false; content = 2 }

abbrev listing : List (Item ℕ)
listing = item ∷ []

abbrev request : Request
request = record { url = codes "u"; bearer = none; headers = []; body = none }

-- The server always lists the same.
abbrev steady : Setting ℕ
steady = record {
  keys = exact_keys;
  request = request;
  Answers = λ r. r ≡ ok (ok item ∷ []);
  bucket_order = λ es. es;
  clearing = false;
}

-- The server may answer anything, and threads clear.
abbrev changing : Setting ℕ
changing = record {
  keys = exact_keys;
  request = request;
  Answers = λ r. Unit {0};
  bucket_order = λ es. es;
  clearing = true;
}

-- The first thread is inside of the lock with an entry, and the second one waits for the lock.
abbrev contended : (t : System ℕ) × Reach steady (init empty_set) t
contended = (
  _,
  later
      (later
        (later
          (later
            (later
              (later
                (later (later start (pick 0 (calls {c = look_up (codes "a")})))
                  (pick 0 (test_fresh refl)))
                (pick 0 mark))
              (pick 0 (reply refl)))
            (pick 0 make))
          (pick 1 (calls {c = look_up (codes "a")})))
        (pick 1 (test_done refl)))
      (pick 0 (lock_file refl)),
)

Reach-IsWellFormed_example :
    IsWellFormed exact_keys contended.0.mem.set
    × ((inside (contended.0.pc 0) && inside (contended.0.pc 1)) ≡ false)
    × ((touches (contended.0.pc 0) && touches (contended.0.pc 1)) ≡ false)
Reach-IsWellFormed_example = Reach-IsWellFormed steady {s = empty_set} tt 0 1 refl contended.1 refl

-- One lookup has run alone, and ended.
abbrev alone : Outcome (Answer ℕ) × CatalogSet ℕ
alone = serve steady (ok (ok item ∷ [])) (look_up (codes "a")) empty_set

alone_found :
    alone.0
    ≡ ok (
        found
          (codes "a")
          (some (record { address = 0; name = codes "a"; is_internal = false; content = 1 })))
unfolding get_entry load_of_plan create_entry insert_entry find_entry
alone_found = refl

clear_forgotten_example :
    (t u : System ℕ) × (e : Entry ℕ) × Reach changing (init empty_set) t
    × (t.pc 1 ≡ ended (ok cleared))
    × (t.mem.set.entries ≡ [])
    × (t.mem.set.is_loaded ≡ false)
    × (t.mem.set.requests ≡ request ∷ [])
    × Reach changing t u
    × (u.pc 1 ≡ ended (ok (found (codes "a") (some e))))
    × (item_of e ≡ item)
    × (u.mem.set.requests ≡ request ∷ (request ∷ []))
clear_forgotten_example = clear_forgotten changing item newer refl tt tt refl refl

-- The first thread holds the lock; the second one can come to its end all the same.
Reach-done_example : (u : System ℕ) × Reach steady contended.0 u × (done (u.pc 1) ≡ true)
Reach-done_example = Reach-done steady {s = empty_set} 1 {r = ok (ok item ∷ [])} refl contended.1

one_item :
    (plan : Plan ℕ) → ◌≡◌ {A = Outcome (Plan ℕ)} (ok plan) (ok (ok item ∷ [])) → length plan ≤ 1
one_item plan h = let same : plan ≡ ok item ∷ [] = cc in rw same (omega arith)

-- The first thread has called; it sets the mark, the second thread calls, and the first one asks.
abbrev asked : System ℕ
asked = record {
  mem = record { set = empty_set; locked = false };
  pc = update (λ i. idle) 0 (asks (look_up (codes "a")));
}

Own-asks_example : 3 ≤ 3 * 1 + 6
Own-asks_example = Own-asks steady 1 one_item 0 (look_up (codes "a")) {s = asked} refl (
    own
      (foreign 1 (own (own stay refl (test_fresh refl)) refl mark) refl
        (calls {c = look_up (codes "a")}))
      refl (reply {r = ok (ok item ∷ [])} refl))

-- The lookup that has run alone was answered.
Reach-IsAnswered_example : IsAnswered steady listing alone.0
Reach-IsAnswered_example =
    Reach-IsAnswered steady listing (refl, tt) (λ r h. h) refl
      {t = record {
        mem = record { set = alone.1; locked = false };
        pc = update (λ i. idle) 0 (ended alone.0);
      }}
      0
      (Reach-serve steady 0 (look_up (codes "a")) (ok (ok item ∷ [])) (init empty_set) refl refl
        refl)
      refl
