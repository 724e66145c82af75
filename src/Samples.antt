-- ===== src/Samples.antt =====
-- Concrete instances of the parameters, for the tests.
pub mod Listed
use uc_catalog.Base.{
  ℕ, ◌+◌, ◌-◌, ◌*◌, ◌<◌, ◌≡◌, ◌≢◌, refl, ◌∙◌, sym, Bool, true, Option, some, none, List, [], ◌∷◌,
  Bytes, codes, equal, equal_iff, if◌then◌else◌, arith,
}
use uc_catalog.Outcome.{Outcome, ok, throws, out_of_fuel, conversion}
use uc_catalog.TypeText.Print.{digits}
use uc_catalog.Api.Interface.{JsonType, Yyjson, Server, complete, failed}
use uc_catalog.Api.{UcCredentials, schemas_url}
use uc_catalog.CatalogSet.Keys.{KeyEquality}

-- Keys that differ where the texts differ.
pub equal_refl : (a : Bytes) → equal a a ≡ true
equal_refl a = (equal_iff a a).1 refl

pub equal_symm : (a b : Bytes) → equal a b ≡ true → equal b a ≡ true
equal_symm a b h = (equal_iff b a).1 (sym ((equal_iff a b).0 h))

pub equal_trans : (a b c : Bytes) → equal a b ≡ true → equal b c ≡ true → equal a c ≡ true
equal_trans a b c h g = (equal_iff a c).1 ((equal_iff a b).0 h ∙ (equal_iff b c).0 g)

abbrev pub exact_keys : KeyEquality
exact_keys = record {
  same_key = equal;
  same_key_refl = equal_refl;
  same_key_symm = equal_symm;
  same_key_trans = equal_trans;
}

-- The number of a decimal numeral.
abbrev pub numeral : ℕ → Bytes → ℕ
numeral n [] = n
numeral n (c ∷ cs) = numeral (n * 10 + (c - 48)) cs

abbrev pub cast_numeral : Bytes → Outcome ℕ
cast_numeral [] = throws conversion
cast_numeral (c ∷ cs) = ok (numeral 0 (c ∷ cs))

pub cast_numeral-digits : (n : ℕ) → n < 256 → cast_numeral (digits n) ≡ ok n
unfolding digits
cast_numeral-digits n h = ground arith

pub cast_numeral-ne-out_of_fuel : (s : Bytes) → cast_numeral s ≢ out_of_fuel
cast_numeral-ne-out_of_fuel [] = λ p. cc
cast_numeral-ne-out_of_fuel (c ∷ cs) = λ p. cc

-- Documents with two schemas, with two tables that have one column each, with one table, with
-- a schema without a name between two others, and with temporary credentials.
pub data Json : Type 0 where
  schemas_root tables_root goods_root half_root credentials_root : Json
  schema_list table_list goods_list half_list column_list : Json
  named : Bytes → Json
  table : Bytes → Bytes → Json
  column : Bytes → Json
  text : Bytes → Json
  number : ℕ → Json

abbrev json_read : Bytes → Option Json
json_read body = elim (equal body (codes "schemas")) [
  | true ↦ some schemas_root
  | Bool.false ↦ elim (equal body (codes "tables")) [
    | true ↦ some tables_root
    | Bool.false ↦ elim (equal body (codes "goods")) [
      | true ↦ some goods_root
      | Bool.false ↦ elim (equal body (codes "half")) [ true ↦ some half_root | Bool.false ↦ none ]
    ]
  ]
]

abbrev member : Json → Bytes → Option Json
member schemas_root key = some schema_list
member tables_root key = some table_list
member goods_root key = some goods_list
member half_root key = some half_list
member credentials_root key = some (named (codes "k"))
member (named n) key = some (text n)
member (table n t) key = elim (equal key (codes "columns")) [
  | true ↦ some (column t)
  | Bool.false ↦ some (text n)
]
member (column t) key = elim (equal key (codes "name")) [
  | true ↦ some (text t)
  | Bool.false ↦ elim (equal key (codes "type_text")) [
    | true ↦ some (text t)
    | Bool.false ↦ some (number 0)
  ]
]
member _ key = none

abbrev json_obj_get : Option Json → Bytes → Option Json
json_obj_get none key = none
json_obj_get (some v) key = member v key

abbrev json_type : Json → JsonType
json_type (text s) = JsonType.str
json_type (number n) = JsonType.num
json_type _ = JsonType.other

abbrev json_uint : Json → ℕ
json_uint (number n) = n
json_uint _ = 0

abbrev json_str : Json → Option Bytes
json_str (text s) = some s
json_str _ = none

abbrev json_elements : Option Json → List Json
json_elements (some schema_list) = named (codes "main") ∷ (named (codes "MAIN") ∷ [])
json_elements (some table_list) =
    table (codes "good") (codes "int") ∷ (table (codes "bad") (codes "uuid") ∷ [])
json_elements (some half_list) = named (codes "main") ∷ (named [] ∷ (named (codes "late") ∷ []))
json_elements (some goods_list) = table (codes "good") (codes "int") ∷ []
json_elements (some (column t)) = column t ∷ []
json_elements _ = []

pub json_str_lem : (v : Json) → json_type v ≡ JsonType.str → (s : Bytes) × (json_str v ≡ some s)
json_str_lem (text s) h = (s, refl)
json_str_lem schemas_root h = cc
json_str_lem tables_root h = cc
json_str_lem credentials_root h = cc
json_str_lem goods_root h = cc
json_str_lem half_root h = cc
json_str_lem half_list h = cc
json_str_lem goods_list h = cc
json_str_lem schema_list h = cc
json_str_lem table_list h = cc
json_str_lem column_list h = cc
json_str_lem (named n) h = cc
json_str_lem (table n t) h = cc
json_str_lem (column t) h = cc
json_str_lem (number n) h = cc

abbrev pub json : Yyjson
json = record {
  Value = Json;
  read = json_read;
  obj_get = json_obj_get;
  get_type = json_type;
  get_uint = json_uint;
  get_bool = λ v. true;
  get_str = json_str;
  elements = json_elements;
  obj_get_null = λ key. refl;
  elements_null = refl;
  get_str_of_str = json_str_lem;
}

abbrev pub uc_credentials : UcCredentials
uc_credentials = record { endpoint = codes "http://uc"; token = codes "t"; aws_region = [] }

-- A server that sends the listing of the schemas in two chunks, one that sends the tables, one that
-- sends temporary credentials, and one that cannot be reached.
abbrev pub schema_server : Server
schema_server request = complete (codes "sche" ∷ (codes "mas" ∷ []))

abbrev pub table_server : Server
table_server request = complete (codes "tab" ∷ (codes "les" ∷ []))

abbrev pub key_server : Server
key_server request = complete (codes "keys" ∷ [])

abbrev pub half_server : Server
half_server request = complete (codes "half" ∷ [])

-- A server that tells the two listings apart.
abbrev pub catalog_server : Server
catalog_server request =
    if equal request.url (schemas_url uc_credentials (codes "c"))
    then complete (codes "schemas" ∷ [])
    else complete (codes "goods" ∷ [])

abbrev pub no_server : Server
no_server request = failed []
