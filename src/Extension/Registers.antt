-- ===== src/Extension/Registers.antt =====
-- What is registered once the extension is loaded.
use uc_catalog.Catalog.{UcCatalog}
use uc_catalog.TypeText.Types.{varchar}
use uc_catalog.Base.{◌≡◌, ap, subst, sym, ◌∙◌, some, codes, refl, [], ◌∷◌}
use uc_catalog.Outcome.{ok}
use uc_catalog.Action.{continue-eq-pair, ◌>>◌, modify}
use uc_catalog.Attach.{Duckdb, create_uc_secret, set_uc_secret_parameters}
use uc_catalog.Extension.{
  Registry, SecretType, load, load_internal, storage_extension, secret_function,
  CreateSecretFunction, StorageExtension, attach_catalog, create_transaction_manager,
}

-- After a load that returns, the secret type `uc` has the default provider `config`. The function
-- found for it is `CreateUCSecretFunction`, with the named parameters `token`, `endpoint` and
-- `aws_region`, all of them VARCHAR. The storage extension found for `uc_catalog`
-- attaches a database as `UCCatalogAttach` and gives it a transaction manager with its access mode
-- and without transactions.
pub load_lem :
    (d : Duckdb) {S : Type 0} (r : Registry S) (s t : S)
    → load d r s ≡ (ok tt, t)
    → (r.default_provider t (codes "uc") ≡ some (codes "config"))
      × ((f : CreateSecretFunction) × (r.secret_function t (codes "uc") (codes "config") ≡ some f)
          × (f.function ≡ create_uc_secret d)
          × (f.named_parameters
              ≡ (codes "token", varchar)
                ∷ ((codes "endpoint", varchar) ∷ ((codes "aws_region", varchar) ∷ []))))
      × ((e : StorageExtension) × (r.storage_extension t (codes "uc_catalog") ≡ some e)
          × (e.attach ≡ attach_catalog d)
          × ((c : UcCatalog)
              → e.create_transaction_manager c
                ≡ record { access_mode = c.access_mode; transactions = []; allocated = 0 }))
unfolding load load_internal secret_function storage_extension create_transaction_manager
    set_uc_secret_parameters
load_lem d r s t h =
    let type : SecretType = record { name = codes "uc"; default_provider = codes "config" } in
    let f = secret_function d in
    let e = storage_extension d in
    let put = r.put_storage_extension (codes "uc_catalog") e in
    let (v, u, first, rest) =
      continue-eq-pair (r.register_secret_type type s) (λ _. r.register_function f >> modify put)
        h in
    let (w, x, second, last) = continue-eq-pair (r.register_function f u) (λ _. modify put) rest in
    let end : put x ≡ t = ap (λ p. p.1) last in
    let there : (r.register_function f u).1 ≡ x = ap (λ p. p.1) second in
    let (same_provider, same_function) =
      r.put_storage_extension_keeps (codes "uc_catalog") e x (codes "uc") (codes "config") in
    let provider : r.default_provider t (codes "uc") ≡ some (codes "config") =
      subst (λ t. r.default_provider t (codes "uc") ≡ some (codes "config")) end
        (same_provider
          ∙ sym (ap (λ s. r.default_provider s (codes "uc")) there)
          ∙ r.register_function_keeps f u (codes "uc")
          ∙ r.register_secret_type_found type s u first) in
    let function : r.secret_function t (codes "uc") (codes "config") ≡ some f =
      subst (λ t. r.secret_function t (codes "uc") (codes "config") ≡ some f) end
        (same_function ∙ r.register_function_found f u x second) in
    let storage : r.storage_extension t (codes "uc_catalog") ≡ some e =
      subst (λ t. r.storage_extension t (codes "uc_catalog") ≡ some e) end
        (r.put_storage_extension_found (codes "uc_catalog") e x) in
    (provider, (f, function, refl, refl), (e, storage, refl, λ c. refl))
