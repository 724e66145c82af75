-- ===== src/CatalogSet/System/Locking.antt =====
-- What holds of the lock, of the set, and of the objects that threads have made and not handed over.
use uc_catalog.Base.{
  ℕ, suc, ◌<◌, ◌≡◌, refl, true, false, Option, none, some, [], arith, is_empty, ◌∙◌, ap,
}
use uc_catalog.Outcome.{Outcome, ok, throws, undefined, out_of_fuel}
use uc_catalog.CatalogSet.Entries.{owns}
use uc_catalog.CatalogSet.Invariant.{
  IsWellFormed, AreFiled-mono, owns_fresh, insert_entry-AreFiled, owns-insert_entry,
}
use uc_catalog.CatalogSet.{Entry, insert_entry}
use uc_catalog.CatalogSet.System.{Pc, made, filing, Shared, passed, inside, update, Setting}

-- The object that a thread has made and not handed over yet.
abbrev pub carried : {D : Type 0} → Pc D → Option (Entry D)
carried (made c e rest) = some e
carried (filing c e rest) = some e
carried _ = none

module _ {D : Type 0} (g : Setting D) where
  pub record Inv (m : Shared D) (pc : ℕ → Pc D) : Type 0 where
    pub formed : IsWellFormed g.keys m.set
    pub held : (i : ℕ) → inside (pc i) ≡ true → m.locked ≡ true
    pub alone : (i j : ℕ) → inside (pc i) ≡ true → inside (pc j) ≡ true → i ≡ j
    pub unfiled :
        (i : ℕ) (e : Entry D)
        → carried (pc i) ≡ some e
        → (e.address < m.set.allocated) × (owns e.address m.set.entries ≡ false)
    pub apart :
        (i j : ℕ) (e f : Entry D)
        → carried (pc i) ≡ some e
        → carried (pc j) ≡ some f
        → e.address ≡ f.address
        → i ≡ j

-- A step that ends the call, or goes on with what it returned, is neither inside nor carries.
pub passed-inside :
    {A D : Type 0} (r : Outcome A) (next : A → Pc D)
    → ((a : A) → inside (next a) ≡ false)
    → inside (passed r next) ≡ false
passed-inside (ok a) next h = h a
passed-inside (throws x) next h = refl
passed-inside undefined next h = refl
passed-inside out_of_fuel next h = refl

pub passed-carried :
    {A D : Type 0} (r : Outcome A) (next : A → Pc D)
    → ((a : A) → carried (next a) ≡ none)
    → carried (passed r next) ≡ none
passed-carried (ok a) next h = h a
passed-carried (throws x) next h = refl
passed-carried undefined next h = refl
passed-carried out_of_fuel next h = refl

module _ {D : Type 0} (g : Setting D) {m : Shared D} {pc : ℕ → Pc D} (inv : Inv g m pc)
    (i : ℕ) where
  open inv use {formed, held, alone, unfiled, apart}

  -- A thread that is not inside and carries nothing behind its step, which changes neither the
  -- lock, nor what the set owns, nor the objects made.
  pub quiet :
      (m' : Shared D) (p' : Pc D)
      → m'.set.entries ≡ m.set.entries
      → m'.set.allocated ≡ m.set.allocated
      → m'.locked ≡ m.locked
      → inside p' ≡ false
      → carried p' ≡ none
      → Inv g m' (update pc i p')
  quiet m' p' es n l out none_carried = record {
    formed = rw (es, n) formed;
    held = λ j h. ground (arith, held j);
    alone = λ a b ha hb. ground (arith, alone a b);
    unfiled = λ j e h. ground (arith, unfiled j e);
    apart = λ a b e f ha hb q. ground (arith, apart a b e f);
  }

  -- The entries are cleared.
  pub emptied :
      (m' : Shared D) (p' : Pc D)
      → m'.set.entries ≡ []
      → m'.set.allocated ≡ m.set.allocated
      → m'.locked ≡ m.locked
      → inside p' ≡ false
      → carried p' ≡ none
      → Inv g m' (update pc i p')
  emptied m' p' es n l out none_carried = record {
    formed = rw es tt;
    held = λ j h. ground (arith, held j);
    alone = λ a b ha hb. ground (arith, alone a b);
    unfiled = λ j e h. rw es (ground (arith, unfiled j e));
    apart = λ a b e f ha hb q. ground (arith, apart a b e f);
  }

  -- The thread takes the lock, which is free.
  pub taken :
      (p p' : Pc D)
      → pc i ≡ p
      → m.locked ≡ false
      → carried p' ≡ carried p
      → Inv g (record m { locked = true }) (update pc i p')
  taken p p' here free same = record {
    formed = formed;
    held = λ j h. refl;
    alone = λ a b ha hb. ground (arith, held a, held b);
    unfiled = λ j e h. ground (arith, unfiled j e, unfiled i e);
    apart = λ a b e f ha hb q. ground (arith, apart a b e f, apart i b e f, apart a i e f);
  }

  -- A thread that is inside releases the lock, with the set as it was.
  pub released :
      (p p' : Pc D)
      → pc i ≡ p
      → inside p ≡ true
      → inside p' ≡ false
      → carried p' ≡ none
      → Inv g (record m { locked = false }) (update pc i p')
  released p p' here owner out none_carried = record {
    formed = formed;
    held = λ j h. ground (arith, alone i j);
    alone = λ a b ha hb. ground (arith, alone a b);
    unfiled = λ j e h. ground (arith, unfiled j e);
    apart = λ a b e f ha hb q. ground (arith, apart a b e f);
  }

  -- A new object is made, under the next address.
  pub carrying :
      (p' : Pc D) (e : Entry D)
      → e.address ≡ m.set.allocated
      → carried p' ≡ some e
      → inside p' ≡ false
      → Inv g (record m { set = record m.set { allocated = suc m.set.allocated } }) (update pc i p')
  carrying p' e new has out = record {
    formed = AreFiled-mono g.keys m.set.allocated _ m.set.entries (omega arith) formed;
    held = λ j h. ground (arith, held j);
    alone = λ a b ha hb. ground (arith, alone a b);
    unfiled = λ j f h.
        ground (arith, unfiled j f, owns_fresh g.keys m.set.allocated m.set.entries formed);
    apart = λ a b x y ha hb q. ground (arith, apart a b x y, unfiled a x, unfiled b y);
  }

  -- The object that the thread carries is filed, or destroyed, and the lock released.
  pub handed :
      (p p' : Pc D) (e : Entry D)
      → pc i ≡ p
      → inside p ≡ true
      → carried p ≡ some e
      → is_empty e.name ≡ false
      → inside p' ≡ false
      → carried p' ≡ none
      → Inv g
          (record {
            set = record m.set { entries = insert_entry g.keys e m.set.entries };
            locked = false;
          })
          (update pc i p')
  handed p p' e here owner has named out none_carried =
      let (old, new) = unfiled i e (ap carried here ∙ has) in
      record {
        formed = insert_entry-AreFiled g.keys m.set.allocated m.set.entries e formed named old new;
        held = λ j h. ground (arith, alone i j);
        alone = λ a b ha hb. ground (arith, alone a b);
        unfiled = λ j f h. other old new j f h;
        apart = λ a b x y ha hb q. ground (arith, apart a b x y);
      }
    where
      other :
          e.address < m.set.allocated
          → owns e.address m.set.entries ≡ false
          → (j : ℕ) (f : Entry D) → carried (update pc i p' j) ≡ some f
          → (f.address < m.set.allocated)
            × (owns f.address (insert_entry g.keys e m.set.entries) ≡ false)
      other old new j f h =
          ground
            (arith, unfiled j f, apart i j e f, owns-insert_entry g.keys f.address e m.set.entries)
