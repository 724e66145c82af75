-- ===== src/CatalogSet/Plan.antt =====
-- What both `LoadEntries` do behind their request: for each item of the listing an entry is made
-- and handed to `CreateEntry`. An item that cannot be made, as with a column type that is not
-- read, ends the load.
use uc_catalog.Base.{Bool, List, [], ◌∷◌, Bytes, Bool-cases, is_empty, inl, inr, ◌++◌, refl, ◌≡◌}
use uc_catalog.Outcome.{Outcome, throws, undefined, out_of_fuel, ok}
use uc_catalog.Action.{Action, pure, lift, ◌>>=◌, ◌>>◌, continue_keeps}
use uc_catalog.Api.Interface.{Request}
use uc_catalog.CatalogSet.Keys.{KeyEquality}
use uc_catalog.CatalogSet.{Entry, CatalogSet, make_entry, send, create_entry}

-- What an entry is made of.
pub record Item (D : Type 0) : Type 0 where
  pub name : Bytes
  pub is_internal : Bool
  pub content : D

-- The items of a listing, those in front of an item that cannot be made included.
abbrev pub Plan : Type 0 → Type 0
Plan D = List (Outcome (Item D))

module _ {D : Type 0} where
  abbrev pub make_item : Outcome (Item D) → Action (CatalogSet D) (Entry D)
  make_item item = do i ← lift item; make_entry i.name i.is_internal i.content

  abbrev pub item_of : Entry D → Item D
  item_of e = record { name = e.name; is_internal = e.is_internal; content = e.content }

module _ (k : KeyEquality) {D : Type 0} where
  unfoldable pub run_plan : Plan D → Action (CatalogSet D) (Unit {0})
  run_plan [] = pure tt
  run_plan (item ∷ items) = do e ← make_item item; create_entry k e; run_plan items

  -- The load that sends `request` and works on the listing that it gets.
  unfoldable pub load_of_plan : Request → Outcome (Plan D) → Action (CatalogSet D) (Unit {0})
  unfolding run_plan
  load_of_plan request reply = do send request; items ← lift reply; run_plan items

  -- Neither the mark nor the requests change while a listing is filed.
  abbrev pub Rest : Bool → List Request → CatalogSet D → Type 0
  Rest loaded sent s = (s.is_loaded ≡ loaded) × (s.requests ≡ sent)

  create_entry-Rest :
      (loaded : Bool) (sent : List Request) (e : Entry D) (s : CatalogSet D)
      → Rest loaded sent s
      → Rest loaded sent (create_entry k e s).1
  unfolding create_entry
  create_entry-Rest loaded sent e s h = elim (Bool-cases (is_empty e.name)) [
    | inl unnamed ↦ rw unnamed h
    | inr named ↦ rw named h
  ]

  run_plan-Rest :
      (loaded : Bool) (sent : List Request) (plan : Plan D) (s : CatalogSet D)
      → Rest loaded sent s
      → Rest loaded sent (run_plan plan s).1
  unfolding run_plan
  run_plan-Rest loaded sent [] s h = h
  run_plan-Rest loaded sent (item ∷ items) s h =
      continue_keeps (Rest loaded sent) (make_item item s) (λ e. create_entry k e >> run_plan items)
        (made item)
        (λ e t g.
          continue_keeps (Rest loaded sent) (create_entry k e t) (λ x. run_plan items)
            (create_entry-Rest loaded sent e t g) (λ x u. run_plan-Rest loaded sent items u))
    where
      made : (o : Outcome (Item D)) → Rest loaded sent (make_item o s).1
      made (ok i) = h
      made (throws x) = h
      made undefined = h
      made out_of_fuel = h

  -- A load sends one request, and leaves the mark alone, whatever it ends with.
  pub load_of_plan-Rest :
      (request : Request) (reply : Outcome (Plan D)) (s : CatalogSet D)
      → Rest s.is_loaded (s.requests ++ (request ∷ [])) (load_of_plan request reply s).1
  unfolding load_of_plan
  load_of_plan-Rest request reply s =
      continue_keeps (Rest s.is_loaded (s.requests ++ (request ∷ []))) (reply, (send request s).1)
        run_plan (refl, refl)
        (λ plan t h. run_plan-Rest s.is_loaded (s.requests ++ (request ∷ [])) plan t h)
