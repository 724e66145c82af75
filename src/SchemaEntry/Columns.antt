-- ===== src/SchemaEntry/Columns.antt =====
-- src/storage/uc_schema_entry.cpp, `UCUnqualifyColumnRef`: an expression is left with the last part of
-- each column's name. `EnumerateChildren` is DuckDB's walk over the children of an expression, which
-- stand here in the order in which it gives them.
use uc_catalog.Base.{ℕ, List, [], ◌∷◌, Bytes}
use uc_catalog.Outcome.{Outcome, ok, throws, ◌>>=◌, not_implemented, internal}

mutual
  -- `column_ref` holds `column_names`; `other` an expression of another class.
  pub data ParsedExpression : Type 0 where
    column_ref : List Bytes → ParsedExpression
    other : ℕ → Operands → ParsedExpression

  pub data Operands : Type 0 where
    end : Operands
    operand : ParsedExpression → Operands → Operands

-- `column_names.back()`: an empty `duckdb::vector` throws an `InternalException`.
unfoldable pub back : List Bytes → Outcome Bytes
back [] = throws internal
back (name ∷ []) = ok name
back (name ∷ next ∷ names) = back (next ∷ names)

unfoldable mutual
  unfolding back

  pub unqualify_column_ref : ParsedExpression → Outcome ParsedExpression
  unqualify_column_ref (column_ref column_names) = do
    name ← back column_names
    ok (column_ref (name ∷ []))
  unqualify_column_ref (other kind operands) = do
    operands' ← unqualify_operands operands
    ok (other kind operands')

  pub unqualify_operands : Operands → Outcome Operands
  unqualify_operands end = ok end
  unqualify_operands (operand e es) = do
    e' ← unqualify_column_ref e
    es' ← unqualify_operands es
    ok (operand e' es')

-- `GetUCCreateView`
unfoldable pub get_uc_create_view : {A : Type 0} → Outcome A
get_uc_create_view = throws not_implemented
