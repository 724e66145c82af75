-- ===== src/TableEntry/Scanning.antt =====
-- Which tables are scanned, and what is asked of the server for them.
use uc_catalog.Base.{
  ◌≡◌, ap, ◌∙◌, true, false, inl, inr, [], ◌∷◌, codes, equal, equal_iff, starts_with,
  found_at_start-find, Bool-cases, ◌⊎◌,
}
use uc_catalog.Outcome.{ok, undefined}
use uc_catalog.Action.{continue-eq-ok}
use uc_catalog.Api.Interface.{Yyjson, Server}
use uc_catalog.Api.{UcCredentials, UcapiTable, UcapiTableCredentials, get_table_credentials}
use uc_catalog.TableEntry.{Scanner, inject_secret, get_scan_function}

module _ {S : Type 0} (d : Scanner S) (y : Yyjson) (credentials : UcCredentials) where
  inject_secret_local :
      (server : Server) (table_data : UcapiTable) (s : S)
      → starts_with (codes "file://") table_data.storage_location ≡ true
      → inject_secret d y server credentials table_data s ≡ (ok tt, s)
  unfolding inject_secret
  inject_secret_local server table_data s is_local =
      rw (found_at_start-find (codes "file://") table_data.storage_location ∙ is_local)

  -- A table whose path begins with `file://` is scanned without the server: the outcome and the
  -- state are the same with any other server, also with one that cannot be reached.
  pub get_scan_function_local :
      (server other : Server) (table_data : UcapiTable) (s : S)
      → starts_with (codes "file://") table_data.storage_location ≡ true
      → get_scan_function d y server credentials table_data s
        ≡ get_scan_function d y other credentials table_data s
  unfolding get_scan_function
  get_scan_function_local server other table_data s is_local =
      rw (found_at_start-find (codes "file://") table_data.storage_location ∙ is_local)

  inject_secret_remote :
      (server : Server) (table_data : UcapiTable) (s : S)
      → starts_with (codes "file://") table_data.storage_location ≡ false
      → (inject_secret d y server credentials table_data s).0 ≡ ok tt
      → (c : UcapiTableCredentials) × (get_table_credentials y server d.format table_data.table_id
            credentials
          ≡ ok c)
  unfolding inject_secret
  inject_secret_remote server table_data s remote h =
      let h' =
        rw (found_at_start-find (codes "file://") table_data.storage_location ∙ remote) at h in
      let (c, t, given, created) =
        continue-eq-ok (get_table_credentials y server d.format table_data.table_id credentials, s)
          _ h' in
      (c, ap (λ r. r.0) given)

  -- A scan function is only returned for a table in the Delta format, and is `delta_scan`. For a
  -- path that does not begin with `file://`, `GetTableCredentials` has returned at this server, as
  -- it also does on an answer without credentials.
  pub get_scan_function_ok :
      (server : Server) (table_data : UcapiTable) (s : S) (f : d.Function) (b : d.BindData)
      → (get_scan_function d y server credentials table_data s).0 ≡ ok (f, b)
      → (table_data.data_source_format ≡ codes "DELTA")
        × (d.delta_scan ≡ ok f)
        × ((starts_with (codes "file://") table_data.storage_location ≡ true)
            ⊎ ((c : UcapiTableCredentials) × (get_table_credentials y server d.format
                    table_data.table_id credentials
                  ≡ ok c)))
  unfolding get_scan_function
  get_scan_function_ok server table_data s f b h =
      let (f', t, found, h1) = continue-eq-ok (d.delta_scan, s) _ h in
      elim (Bool-cases (equal table_data.data_source_format (codes "DELTA"))) [
        | inr refused ↦ absurd (cc (rw refused at h1))
        | inl delta ↦
            let h2 = rw delta at h1 in
            let (u, v, injected, h3) =
              continue-eq-ok (inject_secret d y server credentials table_data t) _ h2 in
            let (bind_data, w, bound, h4) =
              continue-eq-ok (d.bind f' (table_data.storage_location ∷ []) v) _ h3 in
            (
              (equal_iff table_data.data_source_format (codes "DELTA")).0 delta,
              ap (λ r. r.0) found ∙ ap (λ r. elim r [ ok x ↦ ok x.0 | _ ↦ undefined ]) h4,
              elim (Bool-cases (starts_with (codes "file://") table_data.storage_location)) [
                | inl is_local ↦ inl is_local
                | inr remote ↦
                    inr (inject_secret_remote server table_data t remote (ap (λ r. r.0) injected))
              ],
            )
      ]
