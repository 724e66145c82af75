-- ===== src/TypeText/Print.antt =====
-- The type language of Unity Catalog, as the texts that `TypeToLogicalType` is meant to read: an
-- independent description, by a grammar with its print and its meaning.
use uc_catalog.Base.{
  ℕ, ◌+◌, ◌≤◌, ◌≡◌, Bool, true, false, [], ◌∷◌, ◌++◌, Bytes, codes, ltb, ◌==◌, if◌then◌else◌,
}
use uc_catalog.TypeText.Types.{LogicalType, Children}
use Prim.Native.Nat.{◌/◌, ◌%◌}

pub data Name : Type 0 where
  tinyint smallint bigint int long string double float boolean timestamp binary date : Name

mutual
  pub data UcType : Type 0 where
    named : Name → UcType
    decimal : ℕ → ℕ → UcType
    array : UcType → UcType
    map : UcType → UcType → UcType
    struct : Fields → UcType

  -- A struct has one field at least.
  pub data Fields : Type 0 where
    last : Bytes → UcType → Fields
    field : Bytes → UcType → Fields → Fields

unfoldable pub name_text : Name → Bytes
name_text tinyint = codes "tinyint"
name_text smallint = codes "smallint"
name_text bigint = codes "bigint"
name_text int = codes "int"
name_text long = codes "long"
name_text string = codes "string"
name_text double = codes "double"
name_text float = codes "float"
name_text boolean = codes "boolean"
name_text timestamp = codes "timestamp"
name_text binary = codes "binary"
name_text date = codes "date"

unfoldable pub name_meaning : Name → LogicalType
name_meaning tinyint = LogicalType.tinyint
name_meaning smallint = LogicalType.smallint
name_meaning bigint = LogicalType.bigint
name_meaning int = LogicalType.integer
name_meaning long = LogicalType.bigint
name_meaning string = LogicalType.varchar
name_meaning double = LogicalType.double
name_meaning float = LogicalType.float
name_meaning boolean = LogicalType.boolean
name_meaning timestamp = LogicalType.timestamp
name_meaning binary = LogicalType.blob
name_meaning date = LogicalType.date

-- The decimal numeral of a number below 1000.
unfoldable pub digits : ℕ → Bytes
digits n =
    if ltb n 10
    then (48 + n) ∷ []
    else if ltb n 100
    then (48 + n / 10) ∷ (48 + n % 10) ∷ []
    else (48 + n / 100) ∷ (48 + n / 10 % 10) ∷ (48 + n % 10) ∷ []

unfoldable pub decimal_text : ℕ → ℕ → Bytes
decimal_text p s = codes "decimal(" ++ (digits p ++ (b',' ∷ (digits s ++ (b')' ∷ []))))

unfoldable mutual
  unfolding name_text decimal_text

  pub type_text : UcType → Bytes
  type_text (named n) = name_text n
  type_text (decimal p s) = decimal_text p s
  type_text (array t) = codes "array<" ++ (type_text t ++ (b'>' ∷ []))
  type_text (map k v) = codes "map<" ++ ((type_text k ++ (b',' ∷ type_text v)) ++ (b'>' ∷ []))
  type_text (struct fs) = codes "struct<" ++ (fields_text fs ++ (b'>' ∷ []))

  pub fields_text : Fields → Bytes
  fields_text (last n t) = n ++ (b':' ∷ type_text t)
  fields_text (field n t fs) = (n ++ (b':' ∷ type_text t)) ++ (b',' ∷ fields_text fs)

unfoldable mutual
  unfolding name_meaning

  pub meaning : UcType → LogicalType
  meaning (named n) = name_meaning n
  meaning (decimal p s) = LogicalType.decimal p s
  meaning (array t) = LogicalType.list (meaning t)
  meaning (map k v) = LogicalType.map (meaning k) (meaning v)
  meaning (struct fs) = LogicalType.struct (fields_meaning fs)

  pub fields_meaning : Fields → Children
  fields_meaning (last n t) = Children.child n (meaning t) Children.none
  fields_meaning (field n t fs) = Children.child n (meaning t) (fields_meaning fs)

-- The bytes that the reader gives a meaning to may not stand in a field's name.
abbrev pub IsPlain : Bytes → Type 0
IsPlain [] = Unit {0}
IsPlain (c ∷ cs) =
    ((c == b',') ≡ false)
    × ((c == b'<') ≡ false)
    × ((c == b'>') ≡ false)
    × ((c == b':') ≡ false)
    × IsPlain cs

abbrev pub is_decimal : UcType → Bool
is_decimal (decimal p s) = true
is_decimal _ = false

-- What the reader reads: a decimal type has a width of 38 at most and no larger scale, field names
-- are plain, and no decimal type stands directly in a map or a struct.
abbrev mutual
  pub IsReadable : UcType → Type 0
  IsReadable (named n) = Unit {0}
  IsReadable (decimal p s) = (p ≤ 38) × (s ≤ p)
  IsReadable (array t) = IsReadable t
  IsReadable (map k v) =
      IsReadable k × (is_decimal k ≡ false) × IsReadable v × (is_decimal v ≡ false)
  IsReadable (struct fs) = AreReadable fs

  pub AreReadable : Fields → Type 0
  AreReadable (last n t) = IsPlain n × IsReadable t × (is_decimal t ≡ false)
  AreReadable (field n t fs) = IsPlain n × IsReadable t × (is_decimal t ≡ false) × AreReadable fs
