-- ===== src/CatalogSet/System.antt =====
-- Any number of threads that use one set, interleaved in any order. `GetEntry` and `Scan` test and
-- set `is_loaded` and load outside of `entry_lock`; `CreateEntry` files an entry, `GetEntry` finds
-- one, and `Scan` walks the map, inside of it; `ClearEntries` does not take it. `DropEntry`, which
-- only throws, and `EraseEntryInternal`, which nothing calls, have no steps.
pub mod Locking
pub mod Safety
pub mod Races
pub mod Stale
pub mod Progress
pub mod Bound
pub mod Listing
pub mod Filling
pub mod FillingSteps
pub mod Complete
pub mod Alone
pub mod Lookups
pub mod Uninterrupted
mod Tests
use uc_catalog.Base.{ℕ, ◌≡◌, Bool, true, false, ◌==◌, Option, List, [], ◌∷◌, Bytes, if◌then◌else◌}
use uc_catalog.Outcome.{Outcome, ok, throws, undefined, out_of_fuel}
use uc_catalog.Api.Interface.{Request}
use uc_catalog.CatalogSet.Keys.{KeyEquality}
use uc_catalog.CatalogSet.Plan.{Item, Plan, make_item}
use uc_catalog.CatalogSet.Cache.{marked}
use uc_catalog.CatalogSet.{Entry, CatalogSet, find_entry, create_entry, send}

-- The calls that load: `GetEntry` of a name and `Scan`.
pub data Call : Type 0 where
  look_up : Bytes → Call
  walk : Call

-- What a call gives: a lookup the pointer, a scan the entries that the callback is handed.
pub data Answer (D : Type 0) : Type 0 where
  found : Bytes → Option (Entry D) → Answer D
  seen : List (Entry D) → Answer D
  cleared : Answer D

-- Where a thread stands, with the local variables that are live there.
pub data Pc (D : Type 0) : Type 0 where
  idle : Pc D
  -- Before the test of `is_loaded`, before it is set, before the request.
  asks marks sends : Call → Pc D
  -- At the head of the loop over the listing, with the items that are left.
  files : Call → Plan D → Pc D
  -- An entry is made: before `entry_lock` is taken in `CreateEntry`, and behind that.
  made filing : Call → Entry D → Plan D → Pc D
  -- Before `entry_lock` is taken for the lookup or the walk, and behind that.
  enters reading : Call → Pc D
  -- In `ClearEntries`: before the entries are cleared, and before the mark is.
  clears unmarks : Pc D
  ended : Outcome (Answer D) → Pc D

-- The memory that the threads share.
pub record Shared (D : Type 0) : Type 0 where
  pub set : CatalogSet D
  pub locked : Bool

-- A step that does not return ends the call in the same way.
abbrev pub passed : {A D : Type 0} → Outcome A → (A → Pc D) → Pc D
passed (ok a) next = next a
passed (throws x) next = ended (throws x)
passed undefined next = ended undefined
passed out_of_fuel next = ended out_of_fuel

-- The thread owns `entry_lock`.
abbrev pub inside : {D : Type 0} → Pc D → Bool
inside (filing c e rest) = true
inside (reading c) = true
inside _ = false

-- The next step of the thread reads or writes `entries`.
abbrev pub touches : {D : Type 0} → Pc D → Bool
touches clears = true
touches (filing c e rest) = true
touches (reading c) = true
touches _ = false

abbrev pub update : {A : Type 0} → (ℕ → A) → ℕ → A → ℕ → A
update f i a j = if i == j then a else f j

pub record System (D : Type 0) : Type 0 where
  pub mem : Shared D
  pub pc : ℕ → Pc D

-- No thread has called, and no one owns the lock.
abbrev pub init : {D : Type 0} → CatalogSet D → System D
init s = record { mem = record { set = s; locked = false }; pc = λ i. idle }

-- The answers that the server may give, the request, the order of the hash map, and whether
-- `ClearEntries` is among the calls.
pub record Setting (D : Type 0) : Type 1 where
  pub keys : KeyEquality
  pub request : Request
  pub Answers : Outcome (Plan D) → Type 0
  pub bucket_order : List (Entry D) → List (Entry D)
  pub clearing : Bool

module _ {D : Type 0} (g : Setting D) where
  abbrev pub answer : Call → CatalogSet D → Answer D
  answer (look_up name) s = found name (find_entry g.keys name s.entries)
  answer walk s = seen (g.bucket_order s.entries)

  -- One step of one thread. `clear` takes no lock: where a thread is at `clears` while another one
  -- stands before an access to `entries`, the program has a data race, which is undefined, and the
  -- steps from there on only say what happens if the two accesses fall one behind the other.
  pub data Move (m : Shared D) : Pc D → Shared D → Pc D → Type 0 where
    calls : {c : Call} → Move m idle m (asks c)
    test_fresh : {c : Call} → m.set.is_loaded ≡ false → Move m (asks c) m (marks c)
    test_done : {c : Call} → m.set.is_loaded ≡ true → Move m (asks c) m (enters c)
    mark : {c : Call} → Move m (marks c) (record m { set = marked m.set }) (sends c)
    reply :
        {c : Call} {r : Outcome (Plan D)}
        → g.Answers r
        → Move m (sends c) (record m { set = (send g.request m.set).1 }) (passed r (files c))
    make :
        {c : Call} {item : Outcome (Item D)} {rest : Plan D}
        → Move m
            (files c (item ∷ rest))
            (record m { set = (make_item item m.set).1 })
            (passed (make_item item m.set).0 (λ e. made c e rest))
    lock_file :
        {c : Call} {e : Entry D} {rest : Plan D}
        → m.locked ≡ false
        → Move m (made c e rest) (record m { locked = true }) (filing c e rest)
    file :
        {c : Call} {e : Entry D} {rest : Plan D}
        → Move m
            (filing c e rest)
            (record { set = (create_entry g.keys e m.set).1; locked = false })
            (passed (create_entry g.keys e m.set).0 (λ x. files c rest))
    load_done : {c : Call} → Move m (files c []) m (enters c)
    lock_read :
        {c : Call} → m.locked ≡ false → Move m (enters c) (record m { locked = true }) (reading c)
    read :
        {c : Call} → Move m (reading c) (record m { locked = false }) (ended (ok (answer c m.set)))
    calls_clear : g.clearing ≡ true → Move m idle m clears
    clear : Move m clears (record m { set = record m.set { entries = [] } }) unmarks
    unmark :
        Move m unmarks (record m { set = record m.set { is_loaded = false } }) (ended (ok cleared))
    again : {r : Outcome (Answer D)} → Move m (ended r) m idle

  pub data Step (s : System D) : System D → Type 0 where
    pick :
        (i : ℕ) {m : Shared D} {p : Pc D}
        → Move s.mem (s.pc i) m p
        → Step s (record { mem = m; pc = update s.pc i p })

  pub data Reach (s : System D) : System D → Type 0 where
    start : Reach s s
    later : {t u : System D} → Reach s t → Step t u → Reach s u
