-- ===== src/CatalogSet/Entries.antt =====
-- The entries of a set as a map: lookups after each change, and what `CreateEntry` returns.
use uc_catalog.Base.{
  ℕ, ◌≡◌, refl, ◌∙◌, inl, inr, Bool, true, false, ◌||◌, ◌==◌, Option, none, some, List, [], ◌∷◌,
  ◌++◌, Bytes, is_empty, if◌then◌else◌, Bool-cases, Option-cases, Bool_ext, Bool_false, arith,
}
use uc_catalog.Outcome.{ok}
use uc_catalog.CatalogSet.Keys.{KeyEquality}
use uc_catalog.CatalogSet.{Entry, CatalogSet, find_entry, insert_entry, erase_entry, create_entry}

-- Some entry of the list is the object at `a`.
abbrev pub owns : {D : Type 0} → ℕ → List (Entry D) → Bool
owns a [] = false
owns a (e ∷ es) = e.address == a || owns a es

abbrev pub is_none : {A : Type 0} → Option A → Bool
is_none none = true
is_none (some a) = false

module _ (k : KeyEquality) {D : Type 0} where
  open k use {same_key, same_key_refl, same_key_symm, same_key_trans}

  find_entry-append :
      (name : Bytes) (es fs : List (Entry D))
      → find_entry k name es ≡ none
      → find_entry k name (es ++ fs) ≡ find_entry k name fs
  unfolding find_entry
  find_entry-append name [] fs h = refl
  find_entry-append name (e ∷ es) fs h = ground (arith, find_entry-append name es fs)

  find_entry-append_some :
      (name : Bytes) (es fs : List (Entry D)) {x : Entry D}
      → find_entry k name es ≡ some x
      → find_entry k name (es ++ fs) ≡ some x
  unfolding find_entry
  find_entry-append_some name [] fs h = cc
  find_entry-append_some name (e ∷ es) fs {x} h =
      ground (arith, find_entry-append_some name es fs {x = x})

  -- Equal keys find the same entry.
  find_entry_cong :
      (a b : Bytes) (es : List (Entry D))
      → same_key a b ≡ true
      → find_entry k a es ≡ find_entry k b es
  unfolding find_entry
  find_entry_cong a b [] h = refl
  find_entry_cong a b (e ∷ es) h =
      let same : same_key e.name a ≡ same_key e.name b =
        Bool_ext _ _ (λ p. same_key_trans e.name a b p h)
          (λ p. same_key_trans e.name b a p (same_key_symm a b h)) in
      rw (same, find_entry_cong a b es h)

  -- A lookup after an insertion: an entry that was there stays, else the new one is found under
  -- its key, and the other keys are untouched.
  pub find_entry-insert_entry :
      (name : Bytes) (e : Entry D) (es : List (Entry D))
      → find_entry k name (insert_entry k e es) ≡ elim (find_entry k name es) [
        | none ↦ if same_key e.name name then some e else none
        | some old ↦ some old
      ]
  unfolding insert_entry find_entry
  find_entry-insert_entry name e es = elim (Option-cases (find_entry k e.name es)) [
    | inl fresh ↦
        rw (fresh, insert_entry)
          (elim (Option-cases (find_entry k name es)) [
            | inl missing ↦ find_entry-append name es (e ∷ []) missing ∙ rw missing
            | inr (x, found) ↦ find_entry-append_some name es (e ∷ []) found ∙ rw found
          ])
    | inr (old, there) ↦
        rw (there, insert_entry)
          (elim (Option-cases (find_entry k name es)) [
            | inl missing ↦ rw (missing, other name old there missing)
            | inr (x, found) ↦ rw found
          ])
  ]
    where
      other :
          (n : Bytes) (old : Entry D)
          → find_entry k e.name es ≡ some old
          → find_entry k n es ≡ none
          → same_key e.name n ≡ false
      other n old there missing =
          Bool_false (same_key e.name n) (λ p. let eq = find_entry_cong e.name n es p in cc)

  find_entry-erase_entry_other :
      (n name : Bytes) (e : Entry D) (es : List (Entry D))
      → same_key e.name n ≡ true
      → find_entry k name (e ∷ es) ≡ (if same_key n name then some e else find_entry k name es)
  unfolding find_entry
  find_entry-erase_entry_other n name e es h =
      let same : same_key e.name name ≡ same_key n name =
        Bool_ext _ _ (λ p. same_key_trans n e.name name (same_key_symm e.name n h) p)
          (λ p. same_key_trans e.name n name h p) in
      rw same

  -- A lookup after an erasure, under any spelling of a name: the erased key is gone, the other
  -- keys find what they found.
  pub find_entry-erase_entry :
      (n name : Bytes) (es : List (Entry D))
      → find_entry k name (erase_entry k n es)
        ≡ (if same_key n name then none else find_entry k name es)
  unfolding find_entry erase_entry
  find_entry-erase_entry n name [] = ground arith
  find_entry-erase_entry n name (e ∷ es) = ground (
    arith,
    find_entry-erase_entry n name es,
    find_entry-erase_entry_other n name e es,
    same_key_trans n e.name name,
    same_key_trans e.name name n,
    same_key_symm n name,
    same_key_symm name n,
  )

  owns-append : (a : ℕ) (es fs : List (Entry D)) → owns a (es ++ fs) ≡ (owns a es || owns a fs)
  owns-append a [] fs = refl
  owns-append a (e ∷ es) fs = ground (arith, owns-append a es fs)

  -- `CreateEntry` of a named object that the set does not own yet returns the pointer to it, and
  -- behind the call the set owns the object exactly when its key is new: otherwise the pointer
  -- dangles.
  pub create_entry_owned :
      (e : Entry D) (s : CatalogSet D)
      → is_empty e.name ≡ false
      → owns e.address s.entries ≡ false
      → let (result, after) = create_entry k e s in
        (result ≡ ok e) × (owns e.address after.entries ≡ is_none (find_entry k e.name s.entries))
  unfolding create_entry
  create_entry_owned e s named new = elim (Option-cases (find_entry k e.name s.entries)) [
    | inl fresh ↦ (
      rw named,
      rw named
          (rw (fresh, insert_entry) (ground (arith, owns-append e.address s.entries (e ∷ [])))),
    )
    | inr (old, there) ↦ (rw named, rw named (rw (there, insert_entry) new))
  ]

  -- What a lookup under any name finds behind `CreateEntry`: what was there before, or else the
  -- new entry if its key is that name's. An unnamed entry changes nothing.
  pub create_entry_lookup :
      (e : Entry D) (s : CatalogSet D) (name : Bytes)
      → let (result, after) = create_entry k e s in
        find_entry k name after.entries ≡ (
          if is_empty e.name
          then find_entry k name s.entries
          else elim (find_entry k name s.entries) [
            | none ↦ if same_key e.name name then some e else none
            | some old ↦ some old
          ])
  unfolding create_entry
  create_entry_lookup e s name = elim (Bool-cases (is_empty e.name)) [
    | inl unnamed ↦ rw unnamed
    | inr named ↦ rw named (find_entry-insert_entry name e s.entries)
  ]
