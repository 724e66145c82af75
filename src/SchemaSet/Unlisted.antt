-- ===== src/SchemaSet/Unlisted.antt =====
-- Answers without a listing. The requests do not look at the HTTP status: a body that is not JSON, or
-- that says what went wrong, is read like any other.
use uc_catalog.Base.{◌≡◌, refl, ap, ◌∙◌, false, none, List, [], ◌∷◌, ◌++◌, Bytes, codes}
use uc_catalog.Outcome.{ok}
use uc_catalog.Api.Interface.{Yyjson, Server, complete}
use uc_catalog.Api.{UcCredentials, get_schemas, request_of, schemas_url, for_each}
use uc_catalog.Api.Answers.{concat, get_request-complete}
use uc_catalog.CatalogSet.Keys.{KeyEquality}
use uc_catalog.CatalogSet.Cache.{marked, ensure_loaded_first}
use uc_catalog.CatalogSet.{CatalogSet, Entry, find_entry, ensure_loaded, get_entry}
use uc_catalog.SchemaSet.Load.{load, sent_for, asked}
use uc_catalog.SchemaSet.Calls.{SchemaCall, look_up, clears, run, step-look_up, asked_sticks}
use uc_catalog.SchemaSet.{SchemaData, load_schemas, create_schemas}

module _ (k : KeyEquality) (y : Yyjson) (catalog : Bytes) (credentials : UcCredentials)
    (bucket_order : List (Entry SchemaData) → List (Entry SchemaData)) where
  get_schemas_unlisted :
      (server : Server) (chunks : List Bytes)
      → server (request_of (schemas_url credentials catalog) credentials.token) ≡ complete chunks
      → y.obj_get (y.read (concat chunks)) (codes "schemas") ≡ none
      → get_schemas y server catalog credentials ≡ ok []
  unfolding get_schemas for_each
  get_schemas_unlisted server chunks sent unlisted =
      rw
        (
          get_request-complete y catalog [] server (schemas_url credentials catalog)
              credentials.token chunks sent,
          unlisted,
          y.elements_null,
        )
        refl

  ensure_loaded_unlisted :
      (server : Server) (s : CatalogSet SchemaData)
      → s.is_loaded ≡ false
      → get_schemas y server catalog credentials ≡ ok []
      → ensure_loaded (load k y server catalog credentials) s
        ≡ (ok tt, asked k y server catalog credentials (marked s))
  unfolding load_schemas create_schemas
  ensure_loaded_unlisted server s fresh nothing =
      ensure_loaded_first (load k y server catalog credentials) s fresh ∙ rw nothing refl

  -- On a set without entries that is not marked as loaded, a transfer that ends well with an answer
  -- without a member `schemas`, such as an error message of the server, makes the lookup give the
  -- null pointer, without an exception. Behind it, and behind any calls that do not clear the cache,
  -- every lookup, with whatever server, gives the null pointer, and nothing is asked again.
  pub unlisted_sticks :
      (server later : Server) (name other : Bytes) (chunks : List Bytes) (cs : List SchemaCall)
      (s : CatalogSet SchemaData)
      → s.is_loaded ≡ false
      → s.entries ≡ []
      → server (request_of (schemas_url credentials catalog) credentials.token) ≡ complete chunks
      → y.obj_get (y.read (concat chunks)) (codes "schemas") ≡ none
      → clears cs ≡ 0
      → let t = run k y catalog credentials bucket_order (look_up server name ∷ cs) s in
        ((get_entry k (load k y server catalog credentials) name s).0 ≡ ok none)
        × (t.requests ≡ s.requests ++ (sent_for k y server catalog credentials ∷ []))
        × (get_entry k (load k y later catalog credentials) other t ≡ (ok none, t))
  unfolding get_entry find_entry
  unlisted_sticks server later name other chunks cs s fresh nothing sent unlisted none_cleared =
      let loaded =
        ensure_loaded_unlisted server s fresh (get_schemas_unlisted server chunks sent unlisted) in
      let first =
        step-look_up k y catalog credentials bucket_order server name s ∙ ap (λ r. r.1) loaded in
      let (requests, again) =
        asked_sticks k y catalog credentials bucket_order server later name other cs s nothing first
          none_cleared in
      (rw (loaded, nothing) refl, requests, again)
