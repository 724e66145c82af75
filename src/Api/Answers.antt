-- ===== src/Api/Answers.antt =====
-- What is read out of an answer of the server.
use uc_catalog.Base.{
  ◌≡◌, subst, false, sym, ap, ◌∙◌, some, List, [], ◌∷◌, ◌++◌, Bytes, codes, append_assoc,
  append-nil,
}
use uc_catalog.Outcome.{ok, >>=-eq-ok}
use uc_catalog.Api.Interface.{Yyjson, Server, complete, Request}
use uc_catalog.Api.{
  UcCredentials, UcapiTable, write_all, perform, get_request, request_of, tables_url, for_each,
  parse_table, get_tables, write_callback, required_str, try_get_str_from_object,
  parse_column_definition,
}

-- The chunks of a body, put together.
abbrev pub concat : List Bytes → Bytes
concat [] = []
concat (chunk ∷ chunks) = chunk ++ concat chunks

write_all-concat :
    (buffer : Bytes) (chunks : List Bytes) → write_all buffer chunks ≡ buffer ++ concat chunks
unfolding write_all write_callback
write_all-concat buffer [] = sym (append-nil buffer)
write_all-concat buffer (chunk ∷ chunks) =
    write_all-concat (buffer ++ chunk) chunks ∙ append_assoc buffer chunk (concat chunks)

-- A transfer that ends well gives all chunks.
pub perform-complete :
    (server : Server) (request : Request) (chunks : List Bytes)
    → server request ≡ complete chunks
    → perform server request ≡ ok (concat chunks)
unfolding perform
perform-complete server request chunks sent =
    rw (sent, perform) (ap ok (write_all-concat [] chunks))

-- A table of the listing stems from its element: it has the names that were asked for.
abbrev pub AreTablesOf : (y : Yyjson) → Bytes → Bytes → List y.Value → List UcapiTable → Type 0
AreTablesOf y catalog schema [] [] = Unit {0}
AreTablesOf y catalog schema (v ∷ vs) (t ∷ ts) =
    (t.catalog_name ≡ catalog)
    × (t.schema_name ≡ schema)
    × (parse_table y catalog schema v ≡ ok t)
    × AreTablesOf y catalog schema vs ts
AreTablesOf y catalog schema _ _ = ⊥

module _ (y : Yyjson) (catalog schema : Bytes) where
  parse_table_names :
      (v : y.Value) (t : UcapiTable)
      → parse_table y catalog schema v ≡ ok t
      → (t.catalog_name ≡ catalog) × (t.schema_name ≡ schema)
  unfolding parse_table
  parse_table_names v t h =
      let table = some v in
      let (name, a, h1) = >>=-eq-ok (required_str y table (codes "name")) _ h in
      let (type, b, h2) = >>=-eq-ok (required_str y table (codes "table_type")) _ h1 in
      let (format, c, h3) =
        >>=-eq-ok (try_get_str_from_object y table (codes "data_source_format") false []) _ h2 in
      let (location, d, h4) =
        >>=-eq-ok (try_get_str_from_object y table (codes "storage_location") false []) _ h3 in
      let (table_id, e, h5) = >>=-eq-ok (required_str y table (codes "table_id")) _ h4 in
      let (columns, f, h6) =
        >>=-eq-ok
          (for_each y (parse_column_definition y) (y.elements (y.obj_get table (codes "columns"))))
          _ h5 in
      (
        sym (ap (λ o. elim o [ ok x ↦ x.catalog_name | _ ↦ catalog ]) h6),
        sym (ap (λ o. elim o [ ok x ↦ x.schema_name | _ ↦ schema ]) h6),
      )

  for_each_tables :
      (vs : List y.Value) {ts : List UcapiTable}
      → for_each y (parse_table y catalog schema) vs ≡ ok ts
      → AreTablesOf y catalog schema vs ts
  unfolding for_each
  for_each_tables [] {ts = []} h = tt
  for_each_tables [] {ts = t ∷ ts} h = cc
  for_each_tables (v ∷ vs) {ts} h =
      let (t, a, h1) = >>=-eq-ok (parse_table y catalog schema v) _ h in
      let (us, b, h2) = >>=-eq-ok (for_each y (parse_table y catalog schema) vs) _ h1 in
      let names = parse_table_names v t a in
      subst (λ o. elim o [ ok us ↦ AreTablesOf y catalog schema (v ∷ vs) us | _ ↦ Unit {0} ]) h2
        (names.0, names.1, a, for_each_tables vs b)

  pub get_request-complete :
      (server : Server) (url token : Bytes) (chunks : List Bytes)
      → server (request_of url token) ≡ complete chunks
      → get_request server url token ≡ ok (concat chunks)
  unfolding get_request
  get_request-complete server url token chunks sent =
      perform-complete server (request_of url token) chunks sent

  -- Where the transfer ends well and `GetTables` returns, the tables stem one for one, in order,
  -- from the elements of `tables` in the answer, which is the concatenation of the chunks
  -- received, and each has the names of the catalog and the schema that were asked for.
  pub get_tables_ok :
      (server : Server) (credentials : UcCredentials) (chunks : List Bytes) (ts : List UcapiTable)
      → server (request_of (tables_url credentials catalog schema) credentials.token)
        ≡ complete chunks
      → get_tables y server catalog schema credentials ≡ ok ts
      → AreTablesOf y catalog schema
          (y.elements (y.obj_get (y.read (concat chunks)) (codes "tables")))
          ts
  unfolding get_tables
  get_tables_ok server credentials chunks ts sent h = for_each_tables _ (
      rw
        (get_request-complete server (tables_url credentials catalog schema) credentials.token
          chunks sent)
        at h)
