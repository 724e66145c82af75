-- ===== src/CatalogSet/System/Listing.antt =====
-- A listing that does not change, and a set that is being filled from it.
use uc_catalog.Base.{
  ◌≡◌, inl, inr, false, Option, none, some, List, [], ◌∷◌, Bytes, is_empty, Option-cases,
  if◌then◌else◌, arith,
}
use uc_catalog.Outcome.{ok}
use uc_catalog.CatalogSet.Keys.{KeyEquality}
use uc_catalog.CatalogSet.Plan.{Item, Plan, item_of}
use uc_catalog.CatalogSet.Entries.{find_entry-insert_entry}
use uc_catalog.CatalogSet.{Entry, find_entry, insert_entry}

-- Every item can be made.
abbrev pub all_ok : {D : Type 0} → List (Item D) → Plan D
all_ok [] = []
all_ok (item ∷ items) = ok item ∷ all_ok items

-- Every item has a name.
abbrev pub AreNamed : {D : Type 0} → List (Item D) → Type 0
AreNamed [] = Unit {0}
AreNamed (item ∷ items) = (is_empty item.name ≡ false) × AreNamed items

module _ (k : KeyEquality) {D : Type 0} where
  open k use {same_key}

  -- The first item under a name.
  abbrev pub find_item : Bytes → List (Item D) → Option (Item D)
  find_item name [] = none
  find_item name (item ∷ items) =
      if same_key item.name name then some item else find_item name items

  module _ (listing : List (Item D)) where
    -- What is found is what the listing has first.
    abbrev pub IsSound : List (Entry D) → Type 0
    IsSound es =
        (name : Bytes) (e : Entry D)
        → find_entry k name es ≡ some e
        → find_item name listing ≡ some (item_of e)

    -- What is not found yet is still to be filed.
    abbrev pub Remains : List (Item D) → List (Entry D) → Type 0
    Remains items es =
        (name : Bytes) → find_entry k name es ≡ none → find_item name listing ≡ find_item name items

    -- Every name finds what the listing has first.
    abbrev pub IsComplete : List (Entry D) → Type 0
    IsComplete es = Remains [] es

    pub insert_entry-IsSound :
        (e : Entry D) (items : List (Item D)) (es : List (Entry D))
        → IsSound es
        → Remains (item_of e ∷ items) es
        → IsSound (insert_entry k e es)
    insert_entry-IsSound e items es sound left name x found =
        elim (Option-cases (find_entry k name es)) [
          | inl missing ↦ ground (arith, find_entry-insert_entry k name e es, left name missing)
          | inr (old, there) ↦
              ground (arith, find_entry-insert_entry k name e es, sound name old there)
        ]

    -- The new entry is what the listing has next.
    pub insert_entry-Remains :
        (e : Entry D) (items : List (Item D)) (es : List (Entry D))
        → Remains (item_of e ∷ items) es
        → Remains items (insert_entry k e es)
    insert_entry-Remains e items es left name missing = elim (Option-cases (find_entry k name es)) [
      | inl fresh ↦ ground (arith, find_entry-insert_entry k name e es, left name fresh)
      | inr (old, there) ↦ ground (arith, find_entry-insert_entry k name e es)
    ]

    -- An insertion by another thread.
    pub insert_entry-Remains_other :
        (e : Entry D) (items : List (Item D)) (es : List (Entry D))
        → Remains items es
        → Remains items (insert_entry k e es)
    insert_entry-Remains_other e items es left name missing =
        elim (Option-cases (find_entry k name es)) [
          | inl fresh ↦ left name fresh
          | inr (old, there) ↦ ground (arith, find_entry-insert_entry k name e es)
        ]
