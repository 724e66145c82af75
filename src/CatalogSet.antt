-- ===== src/CatalogSet.antt =====
-- src/storage/uc_catalog_set.cpp and src/include/storage/uc_catalog_set.hpp: the cache of catalog
-- entries, which is filled on the first access. The calls are atomic in this module. The source
-- tests and sets `is_loaded`, loads and clears outside of `entry_lock`: System has the steps of any
-- number of threads, Threads those of two lookups.
pub mod Keys
pub mod Entries
pub mod Cache
pub mod Invariant
pub mod Threads
pub mod Plan
pub mod System
pub mod Promise
pub mod All
mod Tests
use uc_catalog.Base.{
  ℕ, suc, Bool, true, false, not, Option, none, some, List, [], ◌∷◌, ◌++◌, Bytes, is_empty,
  if◌then◌else◌,
}
use uc_catalog.Outcome.{Outcome, internal, not_implemented}
use uc_catalog.Action.{Action, pure, fail, get, modify, ◌>>=◌, ◌>>◌}
use uc_catalog.Api.Interface.{Request}
use Keys.{KeyEquality}

-- A `CatalogEntry`; `content` is what the derived class adds. The address tells objects apart.
pub record Entry (D : Type 0) : Type 0 where
  pub address : ℕ
  pub name : Bytes
  pub is_internal : Bool
  pub content : D

-- A `UCCatalogSet`, with the number of objects that were made so far and the requests that were
-- asked for, also where no handle was given for them. `entries` holds the nodes of the hash map;
-- each is filed under its name.
pub record CatalogSet (D : Type 0) : Type 0 where
  pub entries : List (Entry D)
  pub is_loaded : Bool
  pub allocated : ℕ
  pub requests : List Request

module _ {D : Type 0} where
  -- `make_uniq`
  abbrev pub make_entry : Bytes → Bool → D → Action (CatalogSet D) (Entry D)
  make_entry name is_internal content = do
    s ← get
    modify (λ t. record t { allocated = suc t.allocated })
    pure (record {
      address = s.allocated;
      name = name;
      is_internal = is_internal;
      content = content;
    })

  -- One more transfer is asked for.
  abbrev pub send : Request → Action (CatalogSet D) (Unit {0})
  send request = modify λ t. record t { requests = t.requests ++ (request ∷ []) }

  -- The head of `GetEntry` and of `Scan`.
  unfoldable pub ensure_loaded : Action (CatalogSet D) (Unit {0}) → Action (CatalogSet D) (Unit {0})
  ensure_loaded load_entries = do
    s ← get
    let load = modify (λ t. record t { is_loaded = true }) >> load_entries
    if not s.is_loaded then load else pure tt

  -- `UCCatalogSet::Scan`: the entries that the callback is given. `bucket_order` is the order in
  -- which the hash map is walked.
  unfoldable pub scan :
      (List (Entry D) → List (Entry D))
      → Action (CatalogSet D) (Unit {0})
      → Action (CatalogSet D) (List (Entry D))
  unfolding ensure_loaded
  scan bucket_order load_entries = do
    ensure_loaded load_entries
    s ← get
    pure (bucket_order s.entries)

  -- `UCCatalogSet::DropEntry`
  unfoldable pub drop_entry : Bytes → Action (CatalogSet D) (Unit {0})
  drop_entry name = fail not_implemented

  -- `UCCatalogSet::ClearEntries`
  unfoldable pub clear_entries : Action (CatalogSet D) (Unit {0})
  clear_entries = modify λ s. record s { entries = []; is_loaded = false }

module _ (k : KeyEquality) {D : Type 0} where
  open k use {same_key}

  -- `entries.find(name)`
  unfoldable pub find_entry : Bytes → List (Entry D) → Option (Entry D)
  find_entry name [] = none
  find_entry name (e ∷ es) = if same_key e.name name then some e else find_entry name es

  -- `entries.insert(make_pair(entry->name, entry))`: an entry that is there stays.
  unfoldable pub insert_entry : Entry D → List (Entry D) → List (Entry D)
  unfolding find_entry
  insert_entry e es = elim (find_entry e.name es) [ none ↦ es ++ (e ∷ []) | some old ↦ es ]

  -- `entries.erase(name)`
  unfoldable pub erase_entry : Bytes → List (Entry D) → List (Entry D)
  erase_entry name [] = []
  erase_entry name (e ∷ es) =
      if same_key e.name name then erase_entry name es else e ∷ erase_entry name es

  -- `UCCatalogSet::GetEntry`; `none` is the null pointer.
  unfoldable pub get_entry :
      Action (CatalogSet D) (Unit {0}) → Bytes → Action (CatalogSet D) (Option (Entry D))
  unfolding ensure_loaded find_entry
  get_entry load_entries name = do
    ensure_loaded load_entries
    s ← get
    pure (find_entry name s.entries)

  -- `UCCatalogSet::EraseEntryInternal`
  unfoldable pub erase_entry_internal : Bytes → Action (CatalogSet D) (Unit {0})
  unfolding erase_entry
  erase_entry_internal name = modify λ s. record s { entries = erase_entry name s.entries }

  -- `UCCatalogSet::CreateEntry`: the pointer that it returns is to the entry it was given, also if
  -- the map did not take it and it was destroyed.
  unfoldable pub create_entry : Entry D → Action (CatalogSet D) (Entry D)
  unfolding insert_entry
  create_entry e =
      if is_empty e.name
      then fail internal
      else do modify (λ s. record s { entries = insert_entry e s.entries }); pure e

  -- `UCInSchemaSet::CreateEntry`
  unfoldable pub create_entry_in_schema : Bool → Entry D → Action (CatalogSet D) (Entry D)
  unfolding create_entry
  create_entry_in_schema schema_is_internal e =
      create_entry (if not e.is_internal then record e { is_internal = schema_is_internal } else e)

-- The constructor.
abbrev pub empty_set : {D : Type 0} → CatalogSet D
empty_set = record { entries = []; is_loaded = false; allocated = 0; requests = [] }
