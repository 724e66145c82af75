-- ===== src/Attach/Secrets.antt =====
-- From `CREATE SECRET` to the credentials of an attached catalog.
use uc_catalog.Base.{
  ◌≡◌, refl, sym, ap, ◌∙◌, inl, inr, true, Option, none, some, List, [], ◌∷◌, Bytes, codes, equal,
  equal_iff, is_empty, if◌then◌else◌, Bool-cases, arith,
}
use uc_catalog.Outcome.{ok, throws, binder, >>=-eq-ok}
use uc_catalog.Attach.{
  Duckdb, Options, KeyValueSecret, put_value, try_get_value, read_options, or_empty,
  create_uc_secret, attach_options, get_secret, read_secret, uc_catalog_attach,
}

-- A value that was put is found, and the other keys are untouched.
try_get_value-put_value :
    (key j value : Bytes) (m : List (Bytes × Bytes))
    → try_get_value j (put_value key value m)
      ≡ (if equal key j then some value else try_get_value j m)
unfolding try_get_value put_value
try_get_value-put_value key j value [] = refl
try_get_value-put_value key j value ((i, v) ∷ m) =
    ground (
      arith,
      equal_iff i key,
      equal_iff i j,
      equal_iff key j,
      try_get_value-put_value key j value m,
    )

module _ (d : Duckdb) where
  open d use {lower, rtrim, to_string}

  -- The value of the last option whose name is the key in small letters, or else `before`.
  abbrev pub last_value : Bytes → Options → Option Bytes → Option Bytes
  last_value key [] before = before
  last_value key ((name, value) ∷ options) before =
      last_value key options (if equal (lower name) key then some (to_string value) else before)

  read_options_value :
      (options : Options) (m n : List (Bytes × Bytes)) (key : Bytes)
      → read_options d options m ≡ ok n
      → try_get_value key n ≡ last_value key options (try_get_value key m)
  unfolding read_options
  read_options_value [] m n key h = cc
  read_options_value ((name, value) ∷ options) m n key h =
      elim (Bool-cases (equal (lower name) (codes "token"))) [
        | inl p ↦ filed (λ w. read_options_value options w n key) (codes "token") p (rw p at h)
        | inr p ↦ elim (Bool-cases (equal (lower name) (codes "endpoint"))) [
          | inl q ↦
              filed (λ w. read_options_value options w n key) (codes "endpoint") q (rw (p, q) at h)
          | inr q ↦ elim (Bool-cases (equal (lower name) (codes "aws_region"))) [
            | inl r ↦
                filed (λ w. read_options_value options w n key) (codes "aws_region") r
                  (rw (p, q, r) at h)
            | inr r ↦ cc (rw (p, q, r) at h)
          ]
        ]
      ]
    where
      filed :
          ((w : List (Bytes × Bytes))
            → read_options d options w ≡ ok n
            → try_get_value key n ≡ last_value key options (try_get_value key w))
          → (field : Bytes) → equal (lower name) field ≡ true
          → read_options d options (put_value field (to_string value) m) ≡ ok n
          → try_get_value key n
            ≡ last_value key options
                (if equal (lower name) key then some (to_string value) else try_get_value key m)
      filed rest field p g =
          rest (put_value field (to_string value) m) g
          ∙ ap (last_value key options) (
              try_get_value-put_value field key (to_string value) m
              ∙ ap (λ x. if equal x key then some (to_string value) else try_get_value key m)
                  (sym ((equal_iff (lower name) field).0 p)))

  -- A secret that `CREATE SECRET` makes holds under each key the value of the last option with
  -- that name, whatever the case of its letters, and nothing under the other keys.
  pub create_uc_secret_value :
      (options : Options) (secret : KeyValueSecret) (key : Bytes)
      → create_uc_secret d options ≡ ok secret
      → try_get_value key secret.secret_map ≡ last_value key options none
  unfolding create_uc_secret try_get_value
  create_uc_secret_value options secret key h =
      let (m, read, made) = >>=-eq-ok (read_options d options []) _ h in
      ap (λ o. elim o [ ok x ↦ try_get_value key x.secret_map | _ ↦ none ]) (sym made)
      ∙ read_options_value options [] m key read

  -- `ATTACH`, whose options are accepted and name a secret or none, takes the credentials of the
  -- secret of that name, `__default_uc` if none is named: from the memory storage, or else from
  -- the local file. Without such a secret a name that was given is an error, and otherwise the
  -- credentials are empty.
  pub uc_catalog_attach_branches :
      (find : Bytes → Bytes → Option KeyValueSecret) (options : Options) (given : Bytes)
      → attach_options d options [] ≡ ok given
      → let wanted = if is_empty given then codes "__default_uc" else given in
        uc_catalog_attach d find options ≡ elim (find wanted (codes "memory")) [
          | some secret ↦ ok (read_secret d secret)
          | none ↦ elim (find wanted (codes "local_file")) [
            | some secret ↦ ok (read_secret d secret)
            | none ↦
                if is_empty given
                then ok (record { endpoint = []; token = []; aws_region = [] })
                else throws binder
          ]
        ]
  unfolding uc_catalog_attach get_secret
  uc_catalog_attach_branches find options given h = rw h (ground arith)

  abbrev pub text_of : Option Bytes → Bytes
  text_of none = []
  text_of (some s) = s

  -- The credentials that an attached catalog gets from a secret, in terms of the options of the
  -- statement that made the secret. The region depends on the endpoint: without an endpoint a
  -- region that was given is dropped, and with one a region that was not given is the text of the
  -- null value.
  pub read_secret-create_uc_secret :
      (options : Options) (secret : KeyValueSecret)
      → create_uc_secret d options ≡ ok secret
      → let endpoint = last_value (codes "endpoint") options none in
        read_secret d secret ≡ record {
          token = text_of (last_value (codes "token") options none);
          endpoint = rtrim (text_of endpoint) (codes "/");
          aws_region = elim endpoint [
            | none ↦ []
            | some s ↦ elim (last_value (codes "aws_region") options none) [
              | none ↦ to_string none
              | some region ↦ region
            ]
          ];
        }
  unfolding read_secret
  read_secret-create_uc_secret options secret h =
      rw
        (
          create_uc_secret_value options secret (codes "token") h,
          create_uc_secret_value options secret (codes "endpoint") h,
          create_uc_secret_value options secret (codes "aws_region") h,
        )
        (rw (
          read_text (last_value (codes "token") options none),
          read_text (last_value (codes "endpoint") options none),
          read_region (last_value (codes "endpoint") options none)
              (last_value (codes "aws_region") options none),
        ))
    where
      read_text : (o : Option Bytes) → or_empty d o o ≡ text_of o
      read_text none = refl
      read_text (some x) = d.to_string_text x

      read_region :
          (endpoint region : Option Bytes)
          → or_empty d endpoint region ≡ elim endpoint [
            | none ↦ []
            | some s ↦ elim region [ none ↦ to_string none | some r ↦ r ]
          ]
      read_region none region = refl
      read_region (some x) none = refl
      read_region (some x) (some r) = d.to_string_text r
