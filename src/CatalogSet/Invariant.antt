-- ===== src/CatalogSet/Invariant.antt =====
-- What holds of a set after any calls: one entry for each key, no unnamed entry, and one owner for
-- each object.
use uc_catalog.Base.{
  ℕ, suc, ◌≤◌, ◌<◌, ◌≡◌, refl, inl, inr, Bool, false, ◌==◌, none, List, [], ◌∷◌, ◌++◌, Bytes,
  is_empty, Bool-cases, Option-cases, Bool_false, arith,
}
use uc_catalog.Action.{Action, continue}
use uc_catalog.CatalogSet.Keys.{KeyEquality}
use uc_catalog.CatalogSet.Entries.{owns, find_entry-erase_entry}
use uc_catalog.CatalogSet.Cache.{
  marked, ensure_loaded_done, ensure_loaded_first, get_entry_state, scan_state,
}
use uc_catalog.CatalogSet.{
  Entry, CatalogSet, make_entry, find_entry, insert_entry, erase_entry, create_entry,
  erase_entry_internal, ensure_loaded, get_entry, scan,
}

module _ (k : KeyEquality) {D : Type 0} where
  open k use {same_key, same_key_refl, same_key_symm, same_key_trans}

  -- Each entry is named, has a key and an address of its own, and was made before.
  abbrev pub AreFiled : ℕ → List (Entry D) → Type 0
  AreFiled n [] = Unit {0}
  AreFiled n (e ∷ es) =
      (is_empty e.name ≡ false)
      × (e.address < n)
      × (owns e.address es ≡ false)
      × (find_entry k e.name es ≡ none)
      × AreFiled n es

  abbrev pub IsWellFormed : CatalogSet D → Type 0
  IsWellFormed s = AreFiled s.allocated s.entries

  pub AreFiled-mono : (n m : ℕ) (es : List (Entry D)) → n ≤ m → AreFiled n es → AreFiled m es
  AreFiled-mono n m [] h f = tt
  AreFiled-mono n m (e ∷ es) h f = (f.0, omega arith, f.2, f.3, AreFiled-mono n m es h f.4)

  find_entry-concat_none :
      (name : Bytes) (es : List (Entry D)) (e : Entry D)
      → find_entry k name es ≡ none
      → same_key e.name name ≡ false
      → find_entry k name (es ++ (e ∷ [])) ≡ none
  unfolding find_entry
  find_entry-concat_none name [] e h d = rw d
  find_entry-concat_none name (x ∷ es) e h d = ground (arith, find_entry-concat_none name es e)

  owns-concat_false :
      (a : ℕ) (es : List (Entry D)) (e : Entry D)
      → owns a es ≡ false
      → (e.address == a) ≡ false
      → owns a (es ++ (e ∷ [])) ≡ false
  owns-concat_false a [] e h d = rw d
  owns-concat_false a (x ∷ es) e h d = ground (arith, owns-concat_false a es e)

  find_entry_cons_none :
      (x : Entry D) (es : List (Entry D)) (name : Bytes)
      → find_entry k name (x ∷ es) ≡ none
      → (same_key x.name name ≡ false) × (find_entry k name es ≡ none)
  unfolding find_entry
  find_entry_cons_none x es name h = ground arith

  owns_cons_false :
      (x : Entry D) (es : List (Entry D)) (a : ℕ)
      → owns a (x ∷ es) ≡ false
      → ((a == x.address) ≡ false) × (owns a es ≡ false)
  owns_cons_false x es a h = ground arith

  -- A new object under a new key.
  AreFiled-concat :
      (n : ℕ) (es : List (Entry D)) (e : Entry D)
      → AreFiled n es
      → is_empty e.name ≡ false
      → e.address < n
      → owns e.address es ≡ false
      → find_entry k e.name es ≡ none
      → AreFiled n (es ++ (e ∷ []))
  unfolding find_entry
  AreFiled-concat n [] e f named old alone fresh = (named, old, refl, refl, tt)
  AreFiled-concat n (x ∷ es) e f named old alone fresh =
      let (apart, missing) = find_entry_cons_none x es e.name fresh in
      let (distinct, unowned) = owns_cons_false x es e.address alone in
      let apart' : same_key e.name x.name ≡ false =
        Bool_false (same_key e.name x.name) (λ p. cc (apart, same_key_symm e.name x.name p)) in
      (
        f.0,
        f.1,
        owns-concat_false x.address es e f.2 distinct,
        find_entry-concat_none x.name es e f.3 apart',
        AreFiled-concat n es e f.4 named old unowned missing,
      )

  pub insert_entry-AreFiled :
      (n : ℕ) (es : List (Entry D)) (e : Entry D)
      → AreFiled n es
      → is_empty e.name ≡ false
      → e.address < n
      → owns e.address es ≡ false
      → AreFiled n (insert_entry k e es)
  unfolding insert_entry
  insert_entry-AreFiled n es e f named old alone = elim (Option-cases (find_entry k e.name es)) [
    | inl fresh ↦ rw (fresh, insert_entry) (AreFiled-concat n es e f named old alone fresh)
    | inr (x, there) ↦ rw (there, insert_entry) f
  ]

  -- Another object than the new one is owned if it was before.
  pub owns-insert_entry :
      (a : ℕ) (e : Entry D) (es : List (Entry D))
      → owns a es ≡ false
      → (e.address == a) ≡ false
      → owns a (insert_entry k e es) ≡ false
  unfolding insert_entry
  owns-insert_entry a e es h d = elim (Option-cases (find_entry k e.name es)) [
    | inl fresh ↦ rw (fresh, insert_entry) (owns-concat_false a es e h d)
    | inr (x, there) ↦ rw (there, insert_entry) h
  ]

  owns-erase_entry :
      (a : ℕ) (name : Bytes) (es : List (Entry D))
      → owns a es ≡ false
      → owns a (erase_entry k name es) ≡ false
  unfolding erase_entry
  owns-erase_entry a name [] h = refl
  owns-erase_entry a name (e ∷ es) h = ground (arith, owns-erase_entry a name es)

  erase_entry-AreFiled :
      (n : ℕ) (name : Bytes) (es : List (Entry D))
      → AreFiled n es
      → AreFiled n (erase_entry k name es)
  unfolding erase_entry
  erase_entry-AreFiled n name [] f = tt
  erase_entry-AreFiled n name (e ∷ es) f =
      let rest = erase_entry-AreFiled n name es f.4 in
      elim (Bool-cases (same_key e.name name)) [
        | inl erased ↦ rw erased rest
        | inr kept ↦ rw kept (
          f.0,
          f.1,
          owns-erase_entry e.address name es f.2,
          ground (arith, find_entry-erase_entry k name e.name es),
          rest,
        )
      ]

  -- The address of a new object is owned by no entry.
  pub owns_fresh : (n : ℕ) (es : List (Entry D)) → AreFiled n es → owns n es ≡ false
  owns_fresh n [] f = refl
  owns_fresh n (e ∷ es) f = ground (arith, owns_fresh n es f.4)

  -- A new entry is made and handed to `CreateEntry`, as both `LoadEntries` do for each item.
  abbrev pub add_new : Bytes → Bool → D → Action (CatalogSet D) (Entry D)
  add_new name is_internal content s =
      continue (make_entry name is_internal content s) (create_entry k)

  pub add_new-IsWellFormed :
      (name : Bytes) (is_internal : Bool) (content : D) (s : CatalogSet D)
      → IsWellFormed s
      → IsWellFormed (add_new name is_internal content s).1
  unfolding create_entry
  add_new-IsWellFormed name is_internal content s f =
      let older = AreFiled-mono s.allocated (suc s.allocated) s.entries (omega arith) f in
      elim (Bool-cases (is_empty name)) [
        | inl unnamed ↦ rw unnamed older
        | inr named ↦ rw named (
            insert_entry-AreFiled (suc s.allocated) s.entries _ older named (omega arith)
              (owns_fresh s.allocated s.entries f))
      ]

  pub erase_entry_internal-IsWellFormed :
      (name : Bytes) (s : CatalogSet D)
      → IsWellFormed s
      → IsWellFormed (erase_entry_internal k name s).1
  unfolding erase_entry_internal
  erase_entry_internal-IsWellFormed name s f = erase_entry-AreFiled s.allocated name s.entries f

module _ (k : KeyEquality) {D : Type 0} (load : Action (CatalogSet D) (Unit {0}))
    (keeps : (s : CatalogSet D) → IsWellFormed k s → IsWellFormed k (load s).1) where
  pub ensure_loaded-IsWellFormed :
      (s : CatalogSet D) → IsWellFormed k s → IsWellFormed k (ensure_loaded load s).1
  ensure_loaded-IsWellFormed s f = elim (Bool-cases s.is_loaded) [
    | inl loaded ↦ rw (ensure_loaded_done load s loaded) f
    | inr fresh ↦ rw (ensure_loaded_first load s fresh) (keeps (marked s) f)
  ]

  -- A lookup keeps the set well formed, on every outcome, if the load does.
  pub get_entry-IsWellFormed :
      (name : Bytes) (s : CatalogSet D)
      → IsWellFormed k s
      → IsWellFormed k (get_entry k load name s).1
  get_entry-IsWellFormed name s f =
      rw (get_entry_state k load name s) (ensure_loaded-IsWellFormed s f)

  pub scan-IsWellFormed :
      (order : List (Entry D) → List (Entry D)) (s : CatalogSet D)
      → IsWellFormed k s
      → IsWellFormed k (scan order load s).1
  scan-IsWellFormed order s f = rw (scan_state load order s) (ensure_loaded-IsWellFormed s f)
