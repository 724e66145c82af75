-- ===== src/CatalogSet/Tests.antt =====
-- The theorems on a set, at given sets.
use uc_catalog.Base.{ℕ, ◌≡◌, refl, [], ◌∷◌, codes, some, none, false, true}
use uc_catalog.Outcome.{ok}
use uc_catalog.Samples.{exact_keys}
use uc_catalog.CatalogSet.{Entry, CatalogSet, find_entry, insert_entry, create_entry, empty_set}
use uc_catalog.Action.{Action}
use uc_catalog.CatalogSet.Threads.{asks, ended, interleave, interleave_race}
use uc_catalog.CatalogSet.Entries.{owns, is_none, create_entry_owned}

abbrev entry_a : Entry ℕ
entry_a = record { address = 0; name = codes "a"; is_internal = false; content = 1 }

abbrev other_a : Entry ℕ
other_a = record { address = 1; name = codes "a"; is_internal = false; content = 2 }

abbrev set_a : CatalogSet ℕ
set_a = record { entries = entry_a ∷ []; is_loaded = true; allocated = 2; requests = [] }

create_entry_owned_example :
    ((create_entry exact_keys other_a set_a).0 ≡ ok other_a)
    × (owns 1 (create_entry exact_keys other_a set_a).1.entries
        ≡ is_none (find_entry exact_keys (codes "a") (entry_a ∷ [])))
create_entry_owned_example = create_entry_owned exact_keys other_a set_a refl refl

dangles : owns 1 (create_entry exact_keys other_a set_a).1.entries ≡ false
unfolding create_entry insert_entry find_entry
dangles = refl

-- A load that files one entry.
abbrev load_a : Action (CatalogSet ℕ) (Unit {0})
load_a s = (ok tt, record s { entries = entry_a ∷ s.entries })

interleave_race_example :
    let (a, b, after) =
      interleave exact_keys load_a
        (true ∷ (true ∷ (false ∷ (false ∷ (true ∷ (true ∷ []))))))
        (asks (codes "a"))
        (asks (codes "a"))
        empty_set in
    let (c, d, loaded_twice) =
      interleave exact_keys load_a
        (true ∷ (false ∷ (true ∷ (false ∷ (true ∷ (false ∷ []))))))
        (asks (codes "a"))
        (asks (codes "a"))
        empty_set in
    (b ≡ ended (ok none))
    × (after ≡ record empty_set { entries = entry_a ∷ []; is_loaded = true })
    × (find_entry exact_keys (codes "a") after.entries ≡ some entry_a)
    × (loaded_twice ≡ record empty_set { entries = entry_a ∷ (entry_a ∷ []); is_loaded = true })
unfolding find_entry
interleave_race_example =
    interleave_race exact_keys load_a (codes "a") (codes "a") empty_set
      (record empty_set { entries = entry_a ∷ []; is_loaded = true }) entry_a refl refl refl refl
