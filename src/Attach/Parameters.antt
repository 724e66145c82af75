-- ===== src/Attach/Parameters.antt =====
-- The named parameters of the secret against the options that its function reads.
use uc_catalog.Base.{
  ◌≡◌, refl, inl, inr, ◌⊎◌, ◌&&◌, Bool, true, false, Option, none, some, List, [], ◌∷◌, Bytes,
  codes, equal, equal_comm, if◌then◌else◌, arith,
}
use uc_catalog.Outcome.{ok, throws, internal}
use uc_catalog.TypeText.Types.{varchar}
use uc_catalog.Attach.{
  Duckdb, Options, KeyValueSecret, put_value, try_get_value, set_uc_secret_parameters, read_options,
  create_uc_secret,
}

abbrev is_some : {A : Type 0} → Option A → Bool
is_some none = false
is_some (some a) = true

one_of :
    {A : Type 0} (a b c : Bool) (x : A)
    → is_some (if a then some x else if b then some x else if c then some x else none)
      ≡ (if a then true else if b then true else c)
one_of true b c x = refl
one_of false true c x = refl
one_of false false true x = refl
one_of false false false x = refl

-- Whether the function has a parameter of this name.
abbrev pub is_parameter : Bytes → Bool
is_parameter name = is_some (try_get_value name (set_uc_secret_parameters []))

module _ (d : Duckdb) where
  -- Whether all options are parameters, whatever letters their names are written with.
  pub are_parameters : Options → Bool
  are_parameters [] = true
  are_parameters ((name, value) ∷ options) = is_parameter (d.lower name) && are_parameters options

  is_parameter_cases :
      (name : Bytes)
      → is_parameter name ≡ (
          if equal name (codes "token")
          then true
          else if equal name (codes "endpoint")
          then true
          else equal name (codes "aws_region"))
  unfolding try_get_value set_uc_secret_parameters
  is_parameter_cases name =
      rw
        (
          equal_comm name (codes "token"),
          equal_comm name (codes "endpoint"),
          equal_comm name (codes "aws_region"),
        )
        (one_of (equal (codes "token") name) (equal (codes "endpoint") name)
          (equal (codes "aws_region") name) varchar)

  read_options_accepts :
      (options : Options) (m : List (Bytes × Bytes))
      → ((are_parameters options ≡ true)
          × ((filled : List (Bytes × Bytes)) × (read_options d options m ≡ ok filled)))
        ⊎ ((are_parameters options ≡ false) × (read_options d options m ≡ throws internal))
  unfolding read_options are_parameters
  read_options_accepts [] m = inl (refl, (m, refl))
  read_options_accepts ((name, value) ∷ options) m = rw (is_parameter_cases (d.lower name)) (
      ground (
        arith,
        read_options_accepts options (put_value (codes "token") (d.to_string value) m),
        read_options_accepts options (put_value (codes "endpoint") (d.to_string value) m),
        read_options_accepts options (put_value (codes "aws_region") (d.to_string value) m),
      ))

  -- `CreateUCSecretFunction` makes a secret exactly if each option is one of the parameters that
  -- `SetUCSecretParameters` names, and throws an internal error otherwise.
  pub create_uc_secret-are_parameters :
      (options : Options)
      → ((are_parameters options ≡ true)
          × ((secret : KeyValueSecret) × (create_uc_secret d options ≡ ok secret)))
        ⊎ ((are_parameters options ≡ false) × (create_uc_secret d options ≡ throws internal))
  unfolding create_uc_secret
  create_uc_secret-are_parameters options = elim (read_options_accepts options []) [
    | inl (all, (filled, read)) ↦
        inl (all, (record { secret_map = filled; redact_keys = codes "token" ∷ [] }, rw read refl))
    | inr (not_all, refused) ↦ inr (not_all, rw refused refl)
  ]
