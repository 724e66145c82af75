-- ===== src/Attach.antt =====
-- src/uc_catalog_extension.cpp: the secret of the extension, and `ATTACH`.
pub mod Secrets
pub mod Parameters
mod Tests
use uc_catalog.Base.{
  ◌≡◌, Bool, not, ◌||◌, Option, none, some, List, [], ◌∷◌, Bytes, codes, equal, is_empty,
  if◌then◌else◌,
}
use uc_catalog.Outcome.{Outcome, ok, throws, ◌>>=◌, internal, binder}
use uc_catalog.Api.{UcCredentials}
use uc_catalog.TypeText.Types.{LogicalType, varchar}

-- What the source uses of DuckDB: `StringUtil::Lower`, `StringUtil::RTrim` with a set of
-- characters, and `Value::ToString`, where `none` is the null value.
pub record Duckdb : Type 0 where
  pub lower : Bytes → Bytes
  pub rtrim : Bytes → Bytes → Bytes
  pub to_string : Option Bytes → Bytes
  pub to_string_text : (s : Bytes) → to_string (some s) ≡ s

-- An option of `ATTACH` or `CREATE SECRET`: its name and its value.
abbrev pub Options : Type 0
Options = List (Bytes × Option Bytes)

-- `KeyValueSecret`; `secret_map` files each value under one key.
pub record KeyValueSecret : Type 0 where
  pub secret_map : List (Bytes × Bytes)
  pub redact_keys : List Bytes

-- `secret_map[key] = value`
unfoldable pub put_value : {A : Type 0} → Bytes → A → List (Bytes × A) → List (Bytes × A)
put_value key value [] = (key, value) ∷ []
put_value key value ((j, v) ∷ rest) =
    if equal j key then (key, value) ∷ rest else (j, v) ∷ put_value key value rest

-- `TryGetValue(key)`: null for a missing key.
unfoldable pub try_get_value : {A : Type 0} → Bytes → List (Bytes × A) → Option A
try_get_value key [] = none
try_get_value key ((j, v) ∷ rest) = if equal j key then some v else try_get_value key rest

-- `SetUCSecretParameters`: the named parameters that DuckDB lets through, with their types.
unfoldable pub set_uc_secret_parameters : List (Bytes × LogicalType) → List (Bytes × LogicalType)
unfolding put_value
set_uc_secret_parameters named_parameters =
    put_value (codes "aws_region") varchar
      (put_value (codes "endpoint") varchar (put_value (codes "token") varchar named_parameters))

module _ (d : Duckdb) where
  open d use {lower, rtrim, to_string}

  -- The loop of `CreateUCSecretFunction`.
  unfoldable pub read_options : Options → List (Bytes × Bytes) → Outcome (List (Bytes × Bytes))
  unfolding put_value
  read_options [] secret_map = ok secret_map
  read_options ((name, value) ∷ options) secret_map =
      let lower_name = lower name in
      let text = to_string value in
      let token = read_options options (put_value (codes "token") text secret_map) in
      let endpoint = read_options options (put_value (codes "endpoint") text secret_map) in
      let region = read_options options (put_value (codes "aws_region") text secret_map) in
      if equal lower_name (codes "token")
      then token
      else if equal lower_name (codes "endpoint")
      then endpoint
      else if equal lower_name (codes "aws_region")
      then region
      else throws internal

  -- `CreateUCSecretFunction`
  unfoldable pub create_uc_secret : Options → Outcome KeyValueSecret
  unfolding read_options
  create_uc_secret options = do
    secret_map ← read_options options []
    ok (record { secret_map = secret_map; redact_keys = codes "token" ∷ [] })

  -- The loop of `UCCatalogAttach` over the options.
  unfoldable pub attach_options : Options → Bytes → Outcome Bytes
  attach_options [] secret_name = ok secret_name
  attach_options ((name, value) ∷ options) secret_name =
      let lower_name = lower name in
      let handled = attach_options options secret_name in
      let given = attach_options options (to_string value) in
      if equal lower_name (codes "type") || equal lower_name (codes "read_only")
      then handled
      else if equal lower_name (codes "secret")
      then given
      else throws binder

  -- `GetSecret`: the secret manager is asked for a name in one storage after the other.
  unfoldable pub get_secret :
      (Bytes → Bytes → Option KeyValueSecret) → Bytes → Option KeyValueSecret
  get_secret get_secret_by_name secret_name =
      elim (get_secret_by_name secret_name (codes "memory")) [
        | some secret_entry ↦ some secret_entry
        | none ↦ get_secret_by_name secret_name (codes "local_file")
      ]

  abbrev pub or_empty : Option Bytes → Option Bytes → Bytes
  or_empty none value = []
  or_empty (some s) value = to_string value

  -- The credentials that a secret holds. The region is taken where the endpoint is not null.
  unfoldable pub read_secret : KeyValueSecret → UcCredentials
  unfolding try_get_value
  read_secret kv_secret =
      let input_val = try_get_value (codes "token") kv_secret.secret_map in
      let endpoint_val = try_get_value (codes "endpoint") kv_secret.secret_map in
      let aws_region_val = try_get_value (codes "aws_region") kv_secret.secret_map in
      record {
        token = or_empty input_val input_val;
        endpoint = rtrim (or_empty endpoint_val endpoint_val) (codes "/");
        aws_region = or_empty endpoint_val aws_region_val;
      }

  -- `UCCatalogAttach`, up to the credentials that the catalog is made with.
  unfoldable pub uc_catalog_attach :
      (Bytes → Bytes → Option KeyValueSecret) → Options → Outcome UcCredentials
  unfolding attach_options get_secret read_secret
  uc_catalog_attach get_secret_by_name options = do
    given ← attach_options options []
    let explicit_secret = not (is_empty given)
    let secret_name = if not explicit_secret then codes "__default_uc" else given
    elim (get_secret get_secret_by_name secret_name) [
      | some kv_secret ↦ ok (read_secret kv_secret)
      | none ↦
          if explicit_secret
          then throws binder
          else ok (record { endpoint = []; token = []; aws_region = [] })
    ]
