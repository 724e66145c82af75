-- ===== src/TableSet/Filled.antt =====
-- Threads that look tables up and scan them, at a server whose listing of the tables stays the same.
use uc_catalog.Base.{
  ℕ, ◌≡◌, refl, ap, ◌∙◌, inl, inr, Bool, true, false, Option, none, some, List, [], ◌∷◌, Bytes,
  Bool-cases,
}
use uc_catalog.Outcome.{ok}
use uc_catalog.Api.Interface.{Yyjson, Server}
use uc_catalog.Api.{UcCredentials, UcapiTable, request_of, tables_url, get_tables}
use uc_catalog.CatalogSet.Keys.{KeyEquality}
use uc_catalog.CatalogSet.Plan.{Item}
use uc_catalog.CatalogSet.{Entry, find_entry, empty_set}
use uc_catalog.CatalogSet.System.{System, Setting, Reach, init}
use uc_catalog.CatalogSet.System.Listing.{all_ok, find_item, AreNamed}
use uc_catalog.CatalogSet.System.Filling.{loading}
use uc_catalog.CatalogSet.System.Complete.{entry_item, Reach-IsComplete}
use uc_catalog.TableSet.Lookup.{seen, AreListed, first_table, table_of}
use uc_catalog.TableSet.Plan.{item_with, table_plan, planned}
use uc_catalog.TableSet.{TableData, SchemaInfo, Columns}

module _ (c : Columns) (schema : SchemaInfo) where
  abbrev items_of : (xs : List UcapiTable) → AreListed c xs → List (Item TableData)
  items_of [] h = []
  items_of (x ∷ xs) h = item_with c schema x h.1.0 ∷ items_of xs h.2

  table_plan-all_ok :
      (xs : List UcapiTable) (h : AreListed c xs) → table_plan c schema xs ≡ all_ok (items_of xs h)
  table_plan-all_ok [] h = refl
  table_plan-all_ok (x ∷ xs) h = rw (h.1.1, table_plan-all_ok xs h.2) refl

  items_of-AreNamed : (xs : List UcapiTable) (h : AreListed c xs) → AreNamed (items_of xs h)
  items_of-AreNamed [] h = tt
  items_of-AreNamed (x ∷ xs) h = (h.0, items_of-AreNamed xs h.2)

  abbrev item_seen : Option (Item TableData) → Option (Bool × TableData)
  item_seen none = none
  item_seen (some i) = some (i.is_internal, i.content)

  seen-item_seen : (o : Option (Entry TableData)) → seen o ≡ item_seen (entry_item o)
  seen-item_seen none = refl
  seen-item_seen (some e) = refl

  module _ (k : KeyEquality) where
    item_seen-find_item :
        (name : Bytes) (xs : List UcapiTable) (h : AreListed c xs)
        → item_seen (find_item k name (items_of xs h)) ≡ first_table k c schema name xs
    item_seen-find_item name [] h = refl
    item_seen-find_item name (x ∷ xs) h = elim (Bool-cases (k.same_key x.name name)) [
      | inl same ↦ rw same (rw (h.1.1, table_of) refl)
      | inr apart ↦ rw apart (item_seen-find_item name xs h.2)
    ]

    module _ (y : Yyjson) (db_path : Bytes) (credentials : UcCredentials)
        (bucket_order : List (Entry TableData) → List (Entry TableData)) (server : Server) where
      -- Every request meets this server, and no thread clears.
      abbrev pub steady_setting : Setting TableData
      steady_setting = record {
        keys = k;
        request = request_of (tables_url credentials db_path schema.name) credentials.token;
        Answers = λ r. r ≡ planned c schema (get_tables y server db_path schema.name credentials);
        bucket_order = bucket_order;
        clearing = false;
      }

      -- The server lists tables that all have names and columns that can be read, always the same,
      -- and no thread clears. However many threads look tables up and scan them, in whatever order
      -- their steps come: once the set is marked as loaded and no thread is between the mark and the
      -- end of its load, each name finds the first table that is listed under it, with its columns
      -- and with the mark of its schema, and a name that is not listed finds none.
      pub find_entry-first_table :
          {t : System TableData} (tables : List UcapiTable) (name : Bytes)
          → get_tables y server db_path schema.name credentials ≡ ok tables
          → AreListed c tables
          → Reach steady_setting (init empty_set) t
          → t.mem.set.is_loaded ≡ true
          → ((i : ℕ) → loading (t.pc i) ≡ false)
          → seen (find_entry k name t.mem.set.entries) ≡ first_table k c schema name tables
      find_entry-first_table {t} tables name listed readable reached done quiet =
          let items = items_of tables readable in
          let steady : planned c schema (get_tables y server db_path schema.name credentials)
              ≡ ok (all_ok items) =
            ap (planned c schema) listed ∙ ap ok (table_plan-all_ok tables readable) in
          let held =
            Reach-IsComplete steady_setting items (items_of-AreNamed tables readable)
              (λ r h. h ∙ steady) refl name reached done quiet in
          seen-item_seen (find_entry k name t.mem.set.entries)
          ∙ (ap item_seen held ∙ item_seen-find_item name tables readable)
