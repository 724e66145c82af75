-- ===== src/TypeText/Names.antt =====
-- `UCUtils::TypeToString` and `UCUtils::ToUCType`, which nothing calls.
use uc_catalog.Base.{ℕ, ◌≡◌, refl, Bool, true, Bytes, codes, arith}
use uc_catalog.Outcome.{Outcome, throws, not_implemented, ok, ◌>>◌}
use uc_catalog.TypeText.Types.{LogicalType}
use uc_catalog.TypeText.{type_to_logical_type}

-- `LogicalType::ToString` is a parameter.
unfoldable pub type_to_string : (LogicalType → Bytes) → LogicalType → Bytes
type_to_string to_string LogicalType.varchar = codes "TEXT"
type_to_string to_string LogicalType.utinyint = codes "TINYINT UNSIGNED"
type_to_string to_string LogicalType.usmallint = codes "SMALLINT UNSIGNED"
type_to_string to_string LogicalType.uinteger = codes "INTEGER UNSIGNED"
type_to_string to_string LogicalType.ubigint = codes "BIGINT UNSIGNED"
type_to_string to_string LogicalType.timestamp = codes "DATETIME"
type_to_string to_string LogicalType.timestamp_tz = codes "TIMESTAMP"
type_to_string to_string input = to_string input

-- The `switch` of `ToUCType`, which stands behind a `throw`.
unfoldable pub mapped_type : LogicalType → Outcome LogicalType
mapped_type LogicalType.boolean = ok LogicalType.boolean
mapped_type LogicalType.smallint = ok LogicalType.smallint
mapped_type LogicalType.integer = ok LogicalType.integer
mapped_type LogicalType.bigint = ok LogicalType.bigint
mapped_type LogicalType.tinyint = ok LogicalType.tinyint
mapped_type LogicalType.utinyint = ok LogicalType.utinyint
mapped_type LogicalType.usmallint = ok LogicalType.usmallint
mapped_type LogicalType.uinteger = ok LogicalType.uinteger
mapped_type LogicalType.ubigint = ok LogicalType.ubigint
mapped_type LogicalType.float = ok LogicalType.float
mapped_type LogicalType.double = ok LogicalType.double
mapped_type LogicalType.blob = ok LogicalType.blob
mapped_type LogicalType.date = ok LogicalType.date
mapped_type (LogicalType.decimal width scale) = ok (LogicalType.decimal width scale)
mapped_type LogicalType.timestamp = ok LogicalType.timestamp
mapped_type LogicalType.timestamp_tz = ok LogicalType.timestamp_tz
mapped_type LogicalType.varchar = ok LogicalType.varchar
mapped_type (LogicalType.list child) = throws not_implemented
mapped_type (LogicalType.struct children) = throws not_implemented
mapped_type (LogicalType.map key value) = throws not_implemented
mapped_type LogicalType.union = throws not_implemented
mapped_type LogicalType.timestamp_sec = ok LogicalType.timestamp
mapped_type LogicalType.timestamp_ms = ok LogicalType.timestamp
mapped_type LogicalType.timestamp_ns = ok LogicalType.timestamp
mapped_type LogicalType.hugeint = ok LogicalType.double
mapped_type LogicalType.other = ok LogicalType.varchar

unfoldable pub to_uc_type : LogicalType → Outcome LogicalType
unfolding mapped_type
to_uc_type input =
    let unimplemented : Outcome (Unit {0}) = throws not_implemented in
    unimplemented >> mapped_type input

-- The types that have a text of their own.
abbrev has_own_text : LogicalType → Bool
has_own_text LogicalType.varchar = true
has_own_text LogicalType.utinyint = true
has_own_text LogicalType.usmallint = true
has_own_text LogicalType.uinteger = true
has_own_text LogicalType.ubigint = true
has_own_text LogicalType.timestamp = true
has_own_text LogicalType.timestamp_tz = true
has_own_text _ = Bool.false

-- `TypeToLogicalType` reads none of these texts.
type_to_string-refused :
    (cast : Bytes → Outcome ℕ) (to_string : LogicalType → Bytes) (t : LogicalType)
    → has_own_text t ≡ true
    → type_to_logical_type cast (type_to_string to_string t) ≡ throws not_implemented
unfolding type_to_string type_to_logical_type
type_to_string-refused cast to_string LogicalType.varchar h = refl
type_to_string-refused cast to_string LogicalType.utinyint h = refl
type_to_string-refused cast to_string LogicalType.usmallint h = refl
type_to_string-refused cast to_string LogicalType.uinteger h = refl
type_to_string-refused cast to_string LogicalType.ubigint h = refl
type_to_string-refused cast to_string LogicalType.timestamp h = refl
type_to_string-refused cast to_string LogicalType.timestamp_tz h = refl
type_to_string-refused cast to_string _ h = cc

-- The `switch` would map each type that it accepts to one that it leaves alone: it is idempotent.
mapped_type-idempotent :
    (t : LogicalType) {u : LogicalType} → mapped_type t ≡ ok u → mapped_type u ≡ ok u
unfolding mapped_type
mapped_type-idempotent t {u} h = ground arith
