-- ===== src/Api/Urls.antt =====
-- The URLs of the requests.
use uc_catalog.Base.{◌≡◌, ap, ◌∙◌, ◌++◌, Bytes, codes, append_assoc}
use uc_catalog.Api.{UcCredentials, tables_url}

-- The names in the URL of a listing of tables are not escaped, so that different names give one URL:
-- the text `&schema_name=` within the catalog's name ends it, and within the schema's name begins
-- another parameter.
pub tables_url_ambiguous :
    (credentials : UcCredentials) (a b c : Bytes)
    → let separator = codes "&schema_name=" in
      tables_url credentials (a ++ (separator ++ b)) c
      ≡ tables_url credentials a (b ++ (separator ++ c))
unfolding tables_url
tables_url_ambiguous credentials a b c =
    let separator = codes "&schema_name=" in
    ap
      (λ rest.
        credentials.endpoint ++ (codes "/api/2.1/unity-catalog/tables?catalog_name=" ++ rest))
      (append_assoc a (separator ++ b) (separator ++ c)
        ∙ ap (λ rest. a ++ rest) (append_assoc separator b (separator ++ c)))
