-- ===== src/SchemaEntry/Tests.antt =====
-- The theorems on a schema, at given calls.
use uc_catalog.Base.{◌≡◌, [], ◌∷◌, codes, false, true, ◌⊎◌}
use uc_catalog.Outcome.{ok, throws, internal}
use uc_catalog.Action.{Action, pure}
use uc_catalog.CatalogSet.{Entry, CatalogSet}
use uc_catalog.TableSet.{TableData}
use uc_catalog.SchemaEntry.Columns.{
  ParsedExpression, column_ref, other, end, operand, unqualify_column_ref,
}
use uc_catalog.SchemaEntry.Unqualified.{
  columns, all_named, last_parts, unqualify_column_ref-columns,
}

abbrev no_load : Action (CatalogSet TableData) (Unit {0})
no_load = pure tt

abbrev table_t : Entry TableData
table_t = record {
  address = 0;
  name = codes "t";
  is_internal = false;
  content = record {
    columns = [];
    table_data = record {
      table_id = codes "1";
      name = codes "t";
      catalog_name = codes "c";
      schema_name = codes "s";
      table_type = codes "MANAGED";
      data_source_format = codes "DELTA";
      storage_location = [];
      columns = [];
    };
  };
}

abbrev one_table : CatalogSet TableData
one_table = record { entries = table_t ∷ []; is_loaded = true; allocated = 1; requests = [] }

-- f(s.t.a, b)
abbrev expression : ParsedExpression
expression = other 0 (
    operand (column_ref (codes "s" ∷ (codes "t" ∷ (codes "a" ∷ []))))
      (operand (column_ref (codes "b" ∷ [])) end))

unqualify_column_ref-columns_example :
    ((all_named (columns expression) ≡ true)
      × ((e' : ParsedExpression) × (unqualify_column_ref expression ≡ ok e')
          × (unqualify_column_ref e' ≡ ok e')
          × (columns e' ≡ last_parts (columns expression))))
    ⊎ ((all_named (columns expression) ≡ false)
        × (unqualify_column_ref expression ≡ throws internal))
unqualify_column_ref-columns_example = unqualify_column_ref-columns expression
