-- ===== src/Catalog/Objects.antt =====
-- The objects of the catalog's set: lookups by name and by address meet in one object, and a change
-- of its tables leaves the rest alone.
use uc_catalog.Base.{
  ℕ, ◌≡◌, refl, ap, sym, subst, ◌∙◌, inl, inr, true, Bool-cases, none, some, List, [], ◌∷◌, Bytes,
  ◌==◌, ==_iff, arith,
}
use uc_catalog.CatalogSet.Keys.{KeyEquality}
use uc_catalog.CatalogSet.{Entry, CatalogSet, find_entry}
use uc_catalog.CatalogSet.Entries.{owns}
use uc_catalog.CatalogSet.All.{All}
use uc_catalog.CatalogSet.Invariant.{AreFiled}
use uc_catalog.TableSet.{TableData}
use uc_catalog.SchemaSet.{SchemaData}
use uc_catalog.SchemaSet.Load.{schema_of}
use uc_catalog.Catalog.Pointers.{object_at, put_tables}

pub All-object_at :
    {D : Type 0} (P : Entry D → Type 0) (a : ℕ) (es : List (Entry D)) {e : Entry D}
    → All P es
    → object_at a es ≡ some e
    → P e
All-object_at P a [] all h = cc
All-object_at P a (x ∷ es) {e} all h = elim (Bool-cases (x.address == a)) [
  | inl p ↦ subst (λ o. elim o [ some y ↦ P y | none ↦ Unit {0} ]) (rw p at h) all.0
  | inr p ↦ All-object_at P a es all.1 (rw p at h)
]

object_at-owns :
    {D : Type 0} (a : ℕ) (es : List (Entry D)) {e : Entry D}
    → object_at a es ≡ some e
    → owns a es ≡ true
object_at-owns a [] h = cc
object_at-owns a (x ∷ es) {e} h = ground (arith, object_at-owns a es {e = e})

abbrev pub with_tables : CatalogSet TableData → Entry SchemaData → Entry SchemaData
with_tables tables e = record e { content = record e.content { tables = tables } }

pub All-put_tables :
    (P : Entry SchemaData → Type 0) (a : ℕ) (tables : CatalogSet TableData)
    (es : List (Entry SchemaData)) {e : Entry SchemaData}
    → All P es
    → object_at a es ≡ some e
    → P (with_tables tables e)
    → All P (put_tables a tables es)
All-put_tables P a tables [] all h p = tt
All-put_tables P a tables (x ∷ es) {e} all h p = elim (Bool-cases (x.address == a)) [
  | inl q ↦ rw q (
    subst (λ o. elim o [ some y ↦ P (with_tables tables y) | none ↦ Unit {0} ]) (sym (rw q at h)) p,
    all.1,
  )
  | inr q ↦ rw q (all.0, All-put_tables P a tables es all.1 (rw q at h) p)
]

module _ (k : KeyEquality) where
  pub find_entry-object_at :
      (n : ℕ) (name : Bytes) (es : List (Entry SchemaData)) {e : Entry SchemaData}
      → AreFiled k n es
      → find_entry k name es ≡ some e
      → object_at e.address es ≡ some e
  unfolding find_entry
  find_entry-object_at n name [] filed h = cc
  find_entry-object_at n name (x ∷ es) {e} filed h = elim (Bool-cases (k.same_key x.name name)) [
    | inl p ↦
        subst (λ o. elim o [ some y ↦ object_at y.address (x ∷ es) ≡ some y | none ↦ Unit {0} ])
          (rw p at h) (rw ((==_iff x.address x.address).1 refl))
    | inr p ↦
        let there = find_entry-object_at n name es {e = e} filed.4 (rw p at h) in
        elim (Bool-cases (x.address == e.address)) [
          | inl q ↦
              let same = (==_iff x.address e.address).0 q in
              let owned = object_at-owns e.address es {e = e} there in
              absurd (cc (filed.2, owned, ap (λ b. owns b es) same))
          | inr q ↦ rw q there
        ]
  ]

  pub All-find_entry :
      (P : Entry SchemaData → Type 0) (n : ℕ) (name : Bytes) (es : List (Entry SchemaData))
      {e : Entry SchemaData}
      → AreFiled k n es
      → All P es
      → find_entry k name es ≡ some e
      → P e
  All-find_entry P n name es {e} filed all h =
      All-object_at P e.address es all (find_entry-object_at n name es filed h)

  pub schema_of-put_tables :
      (a : ℕ) (tables : CatalogSet TableData) (name : Bytes) (es : List (Entry SchemaData))
      → schema_of k (find_entry k name (put_tables a tables es))
        ≡ schema_of k (find_entry k name es)
  unfolding find_entry
  schema_of-put_tables a tables name [] = refl
  schema_of-put_tables a tables name (x ∷ es) =
      ground (arith, schema_of-put_tables a tables name es)

  owns-put_tables :
      (a b : ℕ) (tables : CatalogSet TableData) (es : List (Entry SchemaData))
      → owns b (put_tables a tables es) ≡ owns b es
  owns-put_tables a b tables [] = refl
  owns-put_tables a b tables (x ∷ es) = ground (arith, owns-put_tables a b tables es)

  find_entry-put_tables_none :
      (a : ℕ) (tables : CatalogSet TableData) (name : Bytes) (es : List (Entry SchemaData))
      → find_entry k name es ≡ none
      → find_entry k name (put_tables a tables es) ≡ none
  unfolding find_entry
  find_entry-put_tables_none a tables name [] h = refl
  find_entry-put_tables_none a tables name (x ∷ es) h =
      ground (arith, find_entry-put_tables_none a tables name es)

  pub put_tables-AreFiled :
      (n a : ℕ) (tables : CatalogSet TableData) (es : List (Entry SchemaData))
      → AreFiled k n es
      → AreFiled k n (put_tables a tables es)
  put_tables-AreFiled n a tables [] filed = tt
  put_tables-AreFiled n a tables (x ∷ es) filed = elim (Bool-cases (x.address == a)) [
    | inl p ↦ rw p filed
    | inr p ↦ rw p (
      filed.0,
      filed.1,
      owns-put_tables a x.address tables es ∙ filed.2,
      find_entry-put_tables_none a tables x.name es filed.3,
      put_tables-AreFiled n a tables es filed.4,
    )
  ]
