-- ===== src/CatalogSet/System/Filling.antt =====
-- Threads that look up and scan while the server's listing stays the same: what holds of the set
-- while it is filled, and what each thread still has to file.
use uc_catalog.Base.{
  ℕ, ◌≡◌, ◌⊎◌, inl, inr, Bool, true, false, ◌==◌, none, some, List, ◌∷◌, Bool-cases, [],
  Option-cases, Bytes,
}
use uc_catalog.Outcome.{Outcome, ok, throws, undefined, out_of_fuel}
use uc_catalog.CatalogSet.Plan.{Item, Plan, item_of}
use uc_catalog.CatalogSet.{Entry, insert_entry, find_entry}
use uc_catalog.CatalogSet.System.{
  Answer, found, seen, cleared, Pc, idle, asks, marks, sends, files, made, filing, enters, reading,
  clears, unmarks, ended, Shared, update, Setting,
}
use uc_catalog.CatalogSet.System.Listing.{
  all_ok, AreNamed, find_item, IsSound, Remains, IsComplete, insert_entry-Remains_other,
}

-- The thread is between the mark and the end of its load.
abbrev pub loading : {D : Type 0} → Pc D → Bool
loading (sends c) = true
loading (files c items) = true
loading (made c e items) = true
loading (filing c e items) = true
loading _ = false

module _ {D : Type 0} (g : Setting D) (listing : List (Item D)) where
  -- The items of the plan are the last ones of the listing; those before them are filed.
  pub record Rest (plan : Plan D) (es : List (Entry D)) : Type 0 where
    pub items : List (Item D)
    pub planned : plan ≡ all_ok items
    pub named : AreNamed items
    pub remains : Remains g.keys listing items es

  -- The same with one entry in hand.
  pub record InHand (e : Entry D) (plan : Plan D) (es : List (Entry D)) : Type 0 where
    pub items : List (Item D)
    pub planned : plan ≡ all_ok items
    pub named : AreNamed (item_of e ∷ items)
    pub remains : Remains g.keys listing (item_of e ∷ items) es

  -- A call that ended returned, and a lookup found nothing or what the listing has first.
  abbrev pub IsAnswered : Outcome (Answer D) → Type 0
  IsAnswered (ok (found name none)) = Unit {0}
  IsAnswered (ok (found name (some e))) = find_item g.keys name listing ≡ some (item_of e)
  IsAnswered (ok (seen es)) = Unit {0}
  IsAnswered (ok cleared) = Unit {0}
  IsAnswered (throws x) = ⊥
  IsAnswered undefined = ⊥
  IsAnswered out_of_fuel = ⊥

  abbrev pub InStep : List (Entry D) → Pc D → Type 0
  InStep es (files c plan) = Rest plan es
  InStep es (made c e plan) = InHand e plan es
  InStep es (filing c e plan) = InHand e plan es
  InStep es clears = ⊥
  InStep es unmarks = ⊥
  InStep es (ended r) = IsAnswered r
  InStep es _ = Unit {0}

  pub record Filling (m : Shared D) (pc : ℕ → Pc D) : Type 0 where
    pub sound : IsSound g.keys listing m.set.entries
    pub in_step : (i : ℕ) → InStep m.set.entries (pc i)
    pub covered :
        m.set.is_loaded ≡ true
        → ((i : ℕ) × (loading (pc i) ≡ true)) ⊎ IsComplete g.keys listing m.set.entries

  -- An insertion by another thread.
  pub insert_entry-InStep :
      (x : Entry D) (es : List (Entry D)) (p : Pc D)
      → InStep es p
      → InStep (insert_entry g.keys x es) p
  insert_entry-InStep x es (files c plan) h = record {
    items = h.items;
    planned = h.planned;
    named = h.named;
    remains = insert_entry-Remains_other g.keys listing x h.items es h.remains;
  }
  insert_entry-InStep x es (made c e plan) h = record {
    items = h.items;
    planned = h.planned;
    named = h.named;
    remains = insert_entry-Remains_other g.keys listing x (item_of e ∷ h.items) es h.remains;
  }
  insert_entry-InStep x es (filing c e plan) h = record {
    items = h.items;
    planned = h.planned;
    named = h.named;
    remains = insert_entry-Remains_other g.keys listing x (item_of e ∷ h.items) es h.remains;
  }
  insert_entry-InStep x es clears h = h
  insert_entry-InStep x es unmarks h = h
  insert_entry-InStep x es (ended r) h = h
  insert_entry-InStep x es idle h = h
  insert_entry-InStep x es (asks c) h = h
  insert_entry-InStep x es (marks c) h = h
  insert_entry-InStep x es (sends c) h = h
  insert_entry-InStep x es (enters c) h = h
  insert_entry-InStep x es (reading c) h = h

  pub update-InStep :
      (es : List (Entry D)) (pc : ℕ → Pc D) (i : ℕ) (p : Pc D)
      → ((j : ℕ) → InStep es (pc j))
      → InStep es p
      → (j : ℕ) → InStep es (update pc i p j)
  update-InStep es pc i p others h j = elim (Bool-cases (i == j)) [
    | inl here ↦ rw here h
    | inr apart ↦ rw apart (others j)
  ]

  pub nothing_left : {es : List (Entry D)} → Rest [] es → IsComplete g.keys listing es
  nothing_left {es} h =
      elim h.items
          as (λ items.
            ([] ≡ all_ok items) → Remains g.keys listing items es → IsComplete g.keys listing es) [
              | [] ↦ λ q r. r
              | x ∷ items ↦ λ q r. cc
            ]
        h.planned h.remains

  pub answered :
      (name : Bytes) (es : List (Entry D))
      → IsSound g.keys listing es
      → IsAnswered (ok (found name (find_entry g.keys name es)))
  answered name es sound = elim (Option-cases (find_entry g.keys name es)) [
    | inl missing ↦ rw missing tt
    | inr (e, there) ↦ rw there (sound name e there)
  ]
