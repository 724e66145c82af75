-- ===== src/CatalogSet/All.antt =====
-- A property of every entry of a set.
use uc_catalog.Base.{inl, inr, List, [], ◌∷◌, ◌++◌, is_empty, Option-cases, Bool-cases}
use uc_catalog.CatalogSet.Keys.{KeyEquality}
use uc_catalog.CatalogSet.{CatalogSet, Entry, find_entry, insert_entry, create_entry}

abbrev pub All : {D : Type 0} → (Entry D → Type 0) → List (Entry D) → Type 0
All P [] = Unit {0}
All P (e ∷ es) = P e × All P es

module _ {D : Type 0} (P : Entry D → Type 0) where
  All-concat : (es : List (Entry D)) (e : Entry D) → All P es → P e → All P (es ++ (e ∷ []))
  All-concat [] e all p = (p, tt)
  All-concat (x ∷ es) e all p = (all.0, All-concat es e all.1 p)

  -- `CreateEntry` keeps what holds of the entries, if it holds of the new one.
  pub create_entry-All :
      (k : KeyEquality) (e : Entry D) (s : CatalogSet D)
      → All P s.entries
      → P e
      → All P (create_entry k e s).1.entries
  unfolding create_entry
  create_entry-All k e s all p = elim (Bool-cases (is_empty e.name)) [
    | inl unnamed ↦ rw unnamed all
    | inr named ↦ rw named (elim (Option-cases (find_entry k e.name s.entries)) [
      | inl fresh ↦ rw (fresh, insert_entry) (All-concat s.entries e all p)
      | inr (x, there) ↦ rw (there, insert_entry) all
    ])
  ]
