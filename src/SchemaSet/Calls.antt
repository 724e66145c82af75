-- ===== src/SchemaSet/Calls.antt =====
-- Histories of calls on the schemas of a catalog. Each call has the server as it is at that time.
use uc_catalog.Base.{
  sym, subst, ℕ, suc, ◌+◌, ◌≤◌, ◌≡◌, refl, ap, ◌∙◌, true, false, none, List, [], ◌∷◌, ◌++◌, Bytes,
  length, length-append, Bool-cases, if◌then◌else◌, inl, inr, arith,
}
use uc_catalog.Outcome.{ok, throws, Exception}
use uc_catalog.Api.Interface.{Yyjson, Server}
use uc_catalog.Api.{UcCredentials, get_schemas}
use uc_catalog.CatalogSet.Keys.{KeyEquality}
use uc_catalog.CatalogSet.Cache.{
  marked, ensure_loaded_done, ensure_loaded_first, get_entry_state, scan_state, get_entry_loaded,
}
use uc_catalog.CatalogSet.Invariant.{IsWellFormed, get_entry-IsWellFormed, scan-IsWellFormed}
use uc_catalog.CatalogSet.{
  CatalogSet, Entry, empty_set, find_entry, ensure_loaded, get_entry, scan, clear_entries,
}
use uc_catalog.SchemaSet.Load.{load, sent_for, asked, load_schemas-Rest, load_schemas-IsWellFormed}
use uc_catalog.SchemaSet.{SchemaData, load_schemas}

pub data SchemaCall : Type 0 where
  look_up : Server → Bytes → SchemaCall
  walk : Server → SchemaCall
  clear : SchemaCall

abbrev pub clears : List SchemaCall → ℕ
clears [] = 0
clears (clear ∷ cs) = suc (clears cs)
clears (_ ∷ cs) = clears cs

module _ (k : KeyEquality) (y : Yyjson) (catalog : Bytes) (credentials : UcCredentials)
    (bucket_order : List (Entry SchemaData) → List (Entry SchemaData)) where
  -- The state behind a call, also behind one that ends with an exception.
  pub step : SchemaCall → CatalogSet SchemaData → CatalogSet SchemaData
  step (look_up server name) s = (get_entry k (load k y server catalog credentials) name s).1
  step (walk server) s = (scan bucket_order (load k y server catalog credentials) s).1
  step clear s = (clear_entries s).1

  pub run : List SchemaCall → CatalogSet SchemaData → CatalogSet SchemaData
  run [] s = s
  run (c ∷ cs) s = run cs (step c s)

  step-IsWellFormed :
      (c : SchemaCall) (s : CatalogSet SchemaData) → IsWellFormed k s → IsWellFormed k (step c s)
  unfolding step clear_entries
  step-IsWellFormed (look_up server name) s f =
      get_entry-IsWellFormed k _ (load_schemas-IsWellFormed k y server catalog credentials) name s f
  step-IsWellFormed (walk server) s f =
      scan-IsWellFormed k _ (load_schemas-IsWellFormed k y server catalog credentials) bucket_order
        s f
  step-IsWellFormed clear s f = tt

  -- Lookups, scans and clears, in any order and with any servers, keep a set well formed: it has
  -- one named entry for each key, and owns each object once.
  pub run-IsWellFormed :
      (cs : List SchemaCall) (s : CatalogSet SchemaData)
      → IsWellFormed k s
      → IsWellFormed k (run cs s)
  unfolding run
  run-IsWellFormed [] s f = f
  run-IsWellFormed (c ∷ cs) s f = run-IsWellFormed cs (step c s) (step-IsWellFormed c s f)

  abbrev to_load : CatalogSet SchemaData → ℕ
  to_load s = if s.is_loaded then 0 else 1

  -- The requests sent, and the one that is due.
  abbrev spent : CatalogSet SchemaData → ℕ
  spent s = length s.requests + to_load s

  spent-ensure_loaded :
      (server : Server) (s : CatalogSet SchemaData)
      → spent (ensure_loaded (load k y server catalog credentials) s).1 ≡ spent s
  spent-ensure_loaded server s =
      let (marks, sends) = load_schemas-Rest k y server catalog credentials (marked s) in
      elim (Bool-cases s.is_loaded) [
        | inl loaded ↦ rw (ensure_loaded_done (load k y server catalog credentials) s loaded)
        | inr fresh ↦ rw (ensure_loaded_first (load k y server catalog credentials) s fresh) (
            rw (marks, sends, fresh)
              (omega
                (arith, length-append s.requests (sent_for k y server catalog credentials ∷ []))))
      ]

  spent-step :
      (c : SchemaCall) (s : CatalogSet SchemaData) → spent (step c s) ≤ spent s + clears (c ∷ [])
  unfolding step clear_entries
  spent-step (look_up server name) s =
      rw (get_entry_state k (load k y server catalog credentials) name s)
        (omega (arith, spent-ensure_loaded server s))
  spent-step (walk server) s =
      rw (scan_state (load k y server catalog credentials) bucket_order s)
        (omega (arith, spent-ensure_loaded server s))
  spent-step clear s = ground arith

  spent-run :
      (cs : List SchemaCall) (s : CatalogSet SchemaData) → spent (run cs s) ≤ spent s + clears cs
  unfolding run
  spent-run [] s = omega arith
  spent-run (look_up server name ∷ cs) s =
      omega (arith, spent-step (look_up server name) s, spent-run cs (step (look_up server name) s))
  spent-run (walk server ∷ cs) s =
      omega (arith, spent-step (walk server) s, spent-run cs (step (walk server) s))
  spent-run (clear ∷ cs) s = omega (arith, spent-step clear s, spent-run cs (step clear s))

  -- A history that begins with an empty set asks at most one time for the schemas, and one more
  -- time for each time that the cache was cleared, however many lookups and scans it has and
  -- whether they succeed.
  pub run_requests : (cs : List SchemaCall) → length (run cs empty_set).requests ≤ 1 + clears cs
  run_requests cs = omega (arith, spent-run cs empty_set)

  look_up_loaded :
      (server : Server) (name : Bytes) (s : CatalogSet SchemaData)
      → s.is_loaded ≡ true
      → step (look_up server name) s ≡ s
  unfolding step
  look_up_loaded server name s loaded =
      ap (λ r. r.1) (get_entry_loaded k (load k y server catalog credentials) name s loaded)

  walk_loaded :
      (server : Server) (s : CatalogSet SchemaData) → s.is_loaded ≡ true → step (walk server) s ≡ s
  unfolding step
  walk_loaded server s loaded =
      scan_state (load k y server catalog credentials) bucket_order s
      ∙ ap (λ r. r.1) (ensure_loaded_done (load k y server catalog credentials) s loaded)

  -- What a history without a clear leaves of a set that is marked as loaded.
  run_loaded :
      (cs : List SchemaCall) (s : CatalogSet SchemaData)
      → clears cs ≡ 0
      → s.is_loaded ≡ true
      → run cs s ≡ s
  unfolding run
  run_loaded [] s none_cleared loaded = refl
  run_loaded (look_up server name ∷ cs) s none_cleared loaded =
      ap (run cs) (look_up_loaded server name s loaded) ∙ run_loaded cs s none_cleared loaded
  run_loaded (walk server ∷ cs) s none_cleared loaded =
      ap (run cs) (walk_loaded server s loaded) ∙ run_loaded cs s none_cleared loaded
  run_loaded (clear ∷ cs) s none_cleared loaded = absurd (omega arith)

  load_failed :
      (server : Server) (s : CatalogSet SchemaData) (x : Exception)
      → get_schemas y server catalog credentials ≡ throws x
      → load k y server catalog credentials s ≡ (throws x, asked k y server catalog credentials s)
  unfolding load_schemas
  load_failed server s x failed = rw failed

  pub step-look_up :
      (server : Server) (name : Bytes) (s : CatalogSet SchemaData)
      → step (look_up server name) s ≡ (ensure_loaded (load k y server catalog credentials) s).1
  unfolding step
  step-look_up server name s = get_entry_state k (load k y server catalog credentials) name s

  step_failed :
      (server : Server) (name : Bytes) (s : CatalogSet SchemaData) (x : Exception)
      → s.is_loaded ≡ false
      → get_schemas y server catalog credentials ≡ throws x
      → step (look_up server name) s ≡ asked k y server catalog credentials (marked s)
  step_failed server name s x fresh failed =
      step-look_up server name s
      ∙ rw (ensure_loaded_first (load k y server catalog credentials) s fresh)
          (rw (load_failed server (marked s) x failed))

  -- A set that asked and got no entries stays as it is until it is cleared.
  pub asked_sticks :
      (server later : Server) (name other : Bytes) (cs : List SchemaCall)
      (s : CatalogSet SchemaData)
      → s.entries ≡ []
      → step (look_up server name) s ≡ asked k y server catalog credentials (marked s)
      → clears cs ≡ 0
      → let t = run (look_up server name ∷ cs) s in
        (t.requests ≡ s.requests ++ (sent_for k y server catalog credentials ∷ []))
        × (get_entry k (load k y later catalog credentials) other t ≡ (ok none, t))
  unfolding run find_entry
  asked_sticks server later name other cs s nothing first none_cleared =
      let t = asked k y server catalog credentials (marked s) in
      let final : run cs (step (look_up server name) s) ≡ t =
        ap (run cs) first ∙ run_loaded cs t none_cleared refl in
      let answer : get_entry k (load k y later catalog credentials) other t ≡ (ok none, t) =
        get_entry_loaded k (load k y later catalog credentials) other t refl
        ∙ rw (nothing, find_entry) in
      (
        ap (λ u. u.requests) final,
        subst (λ u. get_entry k (load k y later catalog credentials) other u ≡ (ok none, u))
            (sym final) answer,
      )

  -- On a set without entries that is not marked as loaded, a lookup whose request for the schemas
  -- throws asks once. Behind it, and behind any calls that do not clear the cache, every lookup,
  -- with whatever server, gives the null pointer and changes nothing.
  pub failed_load_sticks :
      (server later : Server) (name other : Bytes) (cs : List SchemaCall)
      (s : CatalogSet SchemaData) (x : Exception)
      → s.is_loaded ≡ false
      → s.entries ≡ []
      → get_schemas y server catalog credentials ≡ throws x
      → clears cs ≡ 0
      → let t = run (look_up server name ∷ cs) s in
        (t.requests ≡ s.requests ++ (sent_for k y server catalog credentials ∷ []))
        × (get_entry k (load k y later catalog credentials) other t ≡ (ok none, t))
  failed_load_sticks server later name other cs s x fresh nothing failed none_cleared =
      asked_sticks server later name other cs s nothing (step_failed server name s x fresh failed)
        none_cleared
