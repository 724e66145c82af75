-- ===== src/TableSet/Plan.antt =====
-- The load of the tables as a plan: the threads of CatalogSet.System run it in steps. A table
-- whose columns are not read is an item that cannot be made.
use uc_catalog.Base.{◌≡◌, refl, false, List, [], ◌∷◌, Bytes, suc}
use uc_catalog.Outcome.{Outcome, ok, throws, undefined, out_of_fuel}
use uc_catalog.Outcome
use uc_catalog.Action.{continue_cong, continue}
use uc_catalog.Api.Interface.{Yyjson, Server}
use uc_catalog.Api.{UcCredentials, UcapiTable, request_of, tables_url, get_tables}
use uc_catalog.CatalogSet.Keys.{KeyEquality}
use uc_catalog.CatalogSet.Plan.{Item, Plan, make_item, run_plan, load_of_plan}
use uc_catalog.CatalogSet.{CatalogSet, create_entry, create_entry_in_schema}
use uc_catalog.TableSet.{
  Column, TableData, SchemaInfo, Columns, add_columns, create_tables, load_tables,
}

module _ (c : Columns) (schema : SchemaInfo) where
  abbrev pub item_with : UcapiTable → List Column → Item TableData
  item_with table columns = record {
    name = table.name;
    is_internal = schema.is_internal;
    content = record { columns = columns; table_data = table };
  }

  abbrev pub table_item : UcapiTable → Outcome (Item TableData)
  table_item table =
      Outcome.◌>>=◌ (add_columns c [] table.columns) (λ columns. ok (item_with table columns))

  abbrev pub table_plan : List UcapiTable → Plan TableData
  table_plan [] = []
  table_plan (table ∷ tables) = table_item table ∷ table_plan tables

  abbrev pub planned : Outcome (List UcapiTable) → Outcome (Plan TableData)
  planned listing = Outcome.◌>>=◌ listing (λ tables. ok (table_plan tables))

  module _ (k : KeyEquality) where
    create_tables-run_plan :
        (tables : List UcapiTable) (s : CatalogSet TableData)
        → create_tables k c schema tables s ≡ run_plan k (table_plan tables) s
    unfolding create_tables run_plan create_entry_in_schema
    create_tables-run_plan [] s = refl
    create_tables-run_plan (table ∷ tables) s =
        first (add_columns c [] table.columns) (create_tables-run_plan tables)
      where
        first :
            (columns : Outcome (List Column))
            → ((t : CatalogSet TableData)
                → create_tables k c schema tables t ≡ run_plan k (table_plan tables) t)
            → continue
                (columns, s)
                (λ cs t.
                  continue
                    (create_entry_in_schema k schema.is_internal
                      (record {
                        address = t.allocated;
                        name = table.name;
                        is_internal = false;
                        content = record { columns = cs; table_data = table };
                      })
                      (record t { allocated = suc t.allocated }))
                    (λ e. create_tables k c schema tables))
              ≡ continue
                  (make_item (Outcome.◌>>=◌ columns (λ cs. ok (item_with table cs))) s)
                  (λ e t. continue (create_entry k e t) (λ x. run_plan k (table_plan tables)))
        first (ok cs) others = continue_cong (create_entry k _ _) _ _ (λ e. others)
        first (throws x) others = refl
        first undefined others = refl
        first out_of_fuel others = refl

    -- `UCTableSet::LoadEntries` sends its request and works on what `GetTables` gives of the
    -- answer, item by item: the columns of a table are read, its entry is made with the mark of
    -- its schema, and filed, up to the first table whose columns are not read.
    pub load_tables-load_of_plan :
        (y : Yyjson) (server : Server) (db_path : Bytes) (credentials : UcCredentials)
        (s : CatalogSet TableData)
        → load_tables k c y server db_path credentials schema s
          ≡ load_of_plan k
              (request_of (tables_url credentials db_path schema.name) credentials.token)
              (planned (get_tables y server db_path schema.name credentials))
              s
    unfolding load_tables load_of_plan
    load_tables-load_of_plan y server db_path credentials s =
        after (get_tables y server db_path schema.name credentials) _
      where
        after :
            (listing : Outcome (List UcapiTable)) (t : CatalogSet TableData)
            → continue (listing, t) (create_tables k c schema)
              ≡ continue (planned listing, t) (run_plan k)
        after (ok tables) t = create_tables-run_plan tables t
        after (throws x) t = refl
        after undefined t = refl
        after out_of_fuel t = refl
