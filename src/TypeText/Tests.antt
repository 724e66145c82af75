-- ===== src/TypeText/Tests.antt =====
-- Runs of the reader, and the theorems on it at given types.
use uc_catalog.Base.{◌≡◌, ◌≢◌, refl, ◌++◌, [], ◌∷◌, codes, arith}
use uc_catalog.Outcome.{ok, throws, undefined, out_of_fuel, not_implemented, internal}
use uc_catalog.Samples.{cast_numeral, cast_numeral-digits, cast_numeral-ne-out_of_fuel}
use uc_catalog.TypeText.Types.{LogicalType}
use uc_catalog.TypeText.{type_to_logical_type}
use uc_catalog.TypeText.Print.{
  UcType, Fields, string, int, type_text, fields_text, name_text, decimal_text, digits, meaning,
}
use uc_catalog.TypeText.RoundTrip.{type_to_logical_type-type_text}
use uc_catalog.TypeText.Termination.{type_to_logical_type_total}
use uc_catalog.TypeText.Rejects.{map_decimal_rejected, map_no_value_undefined}

nested :
    type_to_logical_type cast_numeral (codes "map<string,array<decimal(10,2)>>")
    ≡ ok (LogicalType.map LogicalType.varchar (LogicalType.list (LogicalType.decimal 10 2)))
unfolding type_to_logical_type
nested = refl

runs_off : type_to_logical_type cast_numeral (codes "map<>") ≡ undefined
unfolding type_to_logical_type
runs_off = refl

too_wide : type_to_logical_type cast_numeral (codes "decimal(200,3)") ≡ throws internal
unfolding type_to_logical_type
too_wide = refl

bad_struct :
    type_to_logical_type cast_numeral (codes "struct<a:decimal(10,2)>") ≡ throws not_implemented
unfolding type_to_logical_type
bad_struct = refl

-- struct<a:map<string,array<decimal(10,2)>>,b:int>
abbrev sample_type : UcType
sample_type = UcType.struct (
    Fields.field (codes "a") (UcType.map (UcType.named string) (UcType.array (UcType.decimal 10 2)))
      (Fields.last (codes "b") (UcType.named int)))

type_to_logical_type-type_text_example :
    type_to_logical_type cast_numeral (type_text sample_type) ≡ ok (meaning sample_type)
unfolding type_text fields_text name_text decimal_text digits
type_to_logical_type-type_text_example =
    type_to_logical_type-type_text cast_numeral cast_numeral-digits sample_type
      (
        (refl, refl, refl, refl, tt),
        (tt, refl, (omega arith, omega arith), refl),
        refl,
        ((refl, refl, refl, refl, tt), tt, refl),
      )
      (omega arith)

type_to_logical_type_total_example :
    type_to_logical_type cast_numeral (codes "struct<a:int,,>") ≢ out_of_fuel
type_to_logical_type_total_example =
    type_to_logical_type_total cast_numeral (codes "struct<a:int,,>") cast_numeral-ne-out_of_fuel

map_decimal_rejected_example :
    type_to_logical_type cast_numeral
      (type_text (UcType.map (UcType.decimal 10 2) (UcType.named int)))
    ≡ throws not_implemented
map_decimal_rejected_example =
    map_decimal_rejected cast_numeral 10 2 (UcType.named int) (omega arith)

map_no_value_undefined_example :
    type_to_logical_type cast_numeral
      (codes "map<" ++ ((type_text (UcType.named int) ++ (b',' ∷ [])) ++ (b'>' ∷ [])))
    ≡ undefined
unfolding type_text name_text
map_no_value_undefined_example =
    map_no_value_undefined cast_numeral (UcType.named int) cast_numeral-digits tt refl (omega arith)
