-- ===== src/TypeText/Types.antt =====
-- The values of DuckDB's `LogicalType` that the source names or builds.
use uc_catalog.Base.{ℕ, List, [], ◌∷◌, Bytes, ltb, if◌then◌else◌}
use uc_catalog.Outcome.{Outcome, ok, throws, internal}

-- `other` stands for the types that the source does not name.
mutual
  pub data LogicalType : Type 0 where
    boolean tinyint smallint integer bigint : LogicalType
    utinyint usmallint uinteger ubigint hugeint : LogicalType
    float double varchar blob date : LogicalType
    timestamp timestamp_tz timestamp_sec timestamp_ms timestamp_ns : LogicalType
    decimal : ℕ → ℕ → LogicalType
    list : LogicalType → LogicalType
    map : LogicalType → LogicalType → LogicalType
    struct : Children → LogicalType
    union : LogicalType
    other : LogicalType

  -- `child_list_t<LogicalType>`
  pub data Children : Type 0 where
    none : Children
    child : Bytes → LogicalType → Children → Children

abbrev pub to_children : List (Bytes × LogicalType) → Children
to_children [] = Children.none
to_children ((name, t) ∷ rest) = child name t (to_children rest)

-- `LogicalType::DECIMAL`: DuckDB has no decimals wider than 38, and throws an `InternalException` for
-- them.
unfoldable pub decimal_of : ℕ → ℕ → Outcome LogicalType
decimal_of width scale = if ltb 38 width then throws internal else ok (decimal width scale)
