-- ===== src/TypeText.antt =====
-- src/uc_utils.cpp: `UCUtils::TypeToLogicalType`, which reads the text of a column's type, with
-- `TypeToString` and `ToUCType`.
pub mod Types
pub mod Scan
pub mod Termination
pub mod Print
pub mod Split
pub mod Pieces
pub mod Branches
pub mod Decimals
pub mod RoundTrip
pub mod Rejects
pub mod Trailing
pub mod Names
mod Tests
use uc_catalog.Base.{
  ℕ, zero, suc, ◌+◌, ◌-◌, ◌%◌, ◌^◌, Bool, true, false, not, ◌&&◌, Option, none, some, List, [], ◌∷◌,
  Bytes, codes, ltb, ◌==◌, if◌then◌else◌, length, take, drop, equal, find, found_at_start,
  find_byte, rfind_byte,
}
use uc_catalog.Outcome.{
  Outcome, ok, throws, undefined, out_of_fuel, ◌>>=◌, not_implemented, out_of_range,
}
use Prim.Native.String.{String}
use Types.{LogicalType, Children, to_children, decimal_of}
use Scan.{ℤ, pos, next_separator}

-- `text.substr(start, count)`
unfoldable pub substr : Bytes → ℕ → ℕ → Outcome Bytes
substr text start count =
    if ltb (length text) start then throws out_of_range else ok (take count (drop start text))

-- The names of primitive types; `none` where the chain of comparisons goes on to the prefixes.
unfoldable pub primitive : Bytes → Option LogicalType
primitive text =
    if equal text (codes "tinyint")
    then some LogicalType.tinyint
    else if equal text (codes "smallint")
    then some LogicalType.smallint
    else if equal text (codes "bigint")
    then some LogicalType.bigint
    else if equal text (codes "int")
    then some LogicalType.integer
    else if equal text (codes "long")
    then some LogicalType.bigint
    else if equal text (codes "string")
    then some LogicalType.varchar
    else if equal text (codes "double")
    then some LogicalType.double
    else if equal text (codes "float")
    then some LogicalType.float
    else if equal text (codes "boolean")
    then some LogicalType.boolean
    else if equal text (codes "timestamp")
    then some LogicalType.timestamp
    else if equal text (codes "binary")
    then some LogicalType.blob
    else if equal text (codes "date")
    then some LogicalType.date
    else if equal text (codes "timestamp")
    then some LogicalType.timestamp
    else none

-- `std::string::npos`, and `a - b` and `a + b` on `size_t`.
abbrev pub npos : ℕ
npos = 2 ^ 64 - 1

unfoldable pub sub_size : ℕ → ℕ → ℕ
sub_size a b = (a + 2 ^ 64 - b) % 2 ^ 64

unfoldable pub add_size : ℕ → ℕ → ℕ
add_size a b = (a + b) % 2 ^ 64

abbrev pub or_npos : Option ℕ → ℕ
or_npos (some i) = i
or_npos none = npos

-- The end of every branch: `throw NotImplementedException("Tried to fallback to unknown type …")`.
abbrev pub unknown_type : Outcome LogicalType
unknown_type = throws not_implemented

-- `Cast::Operation<string_t, uint8_t>` is a parameter.
unfoldable pub decimal_type : (Bytes → Outcome ℕ) → Bytes → Outcome LogicalType
unfolding substr sub_size add_size decimal_of
decimal_type cast_uint8 text = elim (find_byte b')' text) [
  | none ↦ unknown_type
  | some spec_end ↦ do
    let sep = or_npos (find_byte b',' text)
    prec_str ← substr text 8 (sub_size sep 8)
    scale_str ← substr text (add_size sep 1) (sub_size (sub_size spec_end sep) 1)
    prec ← cast_uint8 prec_str
    scale ← cast_uint8 scale_str
    decimal_of prec scale
]

-- The loop `for (;;)` over the ','-separated children, which the map and the struct branch both
-- write out: `item` is what they do with `child_str`. `next_sep - cur` does not go below 0.
unfoldable pub children :
    {A : Type 0} → (Bytes → Outcome A) → ℕ → Bytes → ℕ → ℕ → ℤ → Outcome (List A)
unfolding substr next_separator
children item zero text type_end cur nested_opens = out_of_fuel
children item (suc fuel) text type_end cur nested_opens = do
  (next_sep, nested_opens') ← next_separator (length text + 2) text type_end cur nested_opens
  child_str ← substr text cur (next_sep - cur)
  child ← item child_str
  let rest = children item fuel text type_end (next_sep + 1) nested_opens'
  if next_sep == type_end then ok (child ∷ []) else do more ← rest; ok (child ∷ more)

abbrev pub map_of : List LogicalType → Outcome LogicalType
map_of (key ∷ value ∷ []) = ok (LogicalType.map key value)
map_of _ = throws not_implemented

-- One child of a struct, `name:type`.
unfoldable pub struct_child : (Bytes → Outcome LogicalType) → Bytes → Outcome (Bytes × LogicalType)
unfolding substr
struct_child type_of child_str = elim (find_byte b':' child_str) [
  | none ↦ throws not_implemented
  | some type_sep ↦ do
    child_name ← substr child_str 0 type_sep
    type_text ← substr child_str (type_sep + 1) npos
    child_type ← type_of type_text
    ok (child_name, child_type)
]

-- `text.find(prefix) == 0`
abbrev pub begins : String → Bytes → Bool
begins prefix text = found_at_start (find (codes prefix) text)

-- The branches behind the primitive names, with `type_of` for the recursive call.
unfoldable pub compound :
    (Bytes → Outcome ℕ) → (Bytes → Outcome LogicalType) → Bytes → Outcome LogicalType
unfolding decimal_type children struct_child substr
compound cast_uint8 type_of text =
    if begins "decimal(" text
    then decimal_type cast_uint8 text
    else if begins "array<" text
    then elim (rfind_byte b'>' text) [
      | none ↦ unknown_type
      | some type_end ↦ do
        child_type_str ← substr text 6 (type_end - 6)
        child_type ← type_of child_type_str
        ok (LogicalType.list child_type)
    ]
    else if begins "map<" text
    then elim (rfind_byte b'>' text) [
      | none ↦ unknown_type
      | some type_end ↦ do
        key_val ← children type_of (length text + 2) text type_end 4 (pos 0)
        map_of key_val
    ]
    else if begins "struct<" text
    then elim (rfind_byte b'>' text) [
      | none ↦ unknown_type
      | some type_end ↦ do
        fields ← children (struct_child type_of) (length text + 2) text type_end 7 (pos 0)
        ok (LogicalType.struct (to_children fields))
    ]
    else unknown_type

-- The recursion, on fuel.
unfoldable pub logical_type : (Bytes → Outcome ℕ) → ℕ → Bytes → Outcome LogicalType
unfolding primitive compound
logical_type cast_uint8 zero text = out_of_fuel
logical_type cast_uint8 (suc fuel) text = elim (primitive text) [
  | some t ↦ ok t
  | none ↦ compound cast_uint8 (logical_type cast_uint8 fuel) text
]

-- Every recursive call is on a shorter text.
unfoldable pub type_to_logical_type : (Bytes → Outcome ℕ) → Bytes → Outcome LogicalType
unfolding logical_type
type_to_logical_type cast_uint8 text = logical_type cast_uint8 (suc (length text)) text
