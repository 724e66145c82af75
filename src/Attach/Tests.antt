-- ===== src/Attach/Tests.antt =====
-- The theorems on secrets and `ATTACH`, at given options.
use uc_catalog.Base.{◌≡◌, refl, [], ◌∷◌, codes, Option, none, some, Bytes}
use uc_catalog.Samples.Listed.{sample_duckdb}
use uc_catalog.Attach.{Options, KeyValueSecret, create_uc_secret, read_secret}
use uc_catalog.Attach.Secrets.{read_secret-create_uc_secret}

abbrev secret_options : Options
secret_options =
    (codes "token", some (codes "t1"))
    ∷ ((codes "aws_region", some (codes "eu")) ∷ ((codes "token", some (codes "t2")) ∷ []))

abbrev sample_secret : KeyValueSecret
sample_secret = record {
  secret_map = (codes "token", codes "t2") ∷ ((codes "aws_region", codes "eu") ∷ []);
  redact_keys = codes "token" ∷ [];
}

read_secret-create_uc_secret_example :
    read_secret sample_duckdb sample_secret
    ≡ record { endpoint = []; token = codes "t2"; aws_region = [] }
unfolding create_uc_secret
read_secret-create_uc_secret_example =
    read_secret-create_uc_secret sample_duckdb secret_options sample_secret refl

abbrev no_secret : Bytes → Bytes → Option KeyValueSecret
no_secret name storage = none

-- `SECRET` is no parameter of the secret.
abbrev refused_options : Options
refused_options = (codes "token", none) ∷ ((codes "secret", none) ∷ [])
