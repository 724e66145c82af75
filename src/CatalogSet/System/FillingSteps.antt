-- ===== src/CatalogSet/System/FillingSteps.antt =====
-- The steps of a thread, and what holds of the set while it is filled.
use uc_catalog.CatalogSet.Cache.{marked}
use uc_catalog.Base.{ℕ, ◌≡◌, sym, ◌∙◌, inl, inr, true, false, List, ◌∷◌, arith, subst, refl, []}
use uc_catalog.Outcome.{Outcome, ok}
use uc_catalog.CatalogSet.Plan.{Item, Plan, make_item}
use uc_catalog.CatalogSet.{Entry, insert_entry}
use uc_catalog.CatalogSet.System.{Pc, files, made, Shared, update, Setting, Call, passed}
use uc_catalog.CatalogSet.System.Listing.{
  all_ok, AreNamed, Remains, IsComplete, insert_entry-Remains, insert_entry-IsSound,
}
use uc_catalog.CatalogSet.System.Filling.{
  loading, Rest, InHand, InStep, Filling, insert_entry-InStep, update-InStep,
}

module _ {D : Type 0} (g : Setting D) (listing : List (Item D)) {m : Shared D} {pc : ℕ → Pc D}
    (inv : Filling g listing m pc) (i : ℕ) where
  open inv use {sound, in_step, covered}

  -- A step that changes neither the entries nor the mark, and does not end a load.
  pub quiet :
      (m' : Shared D) (p p' : Pc D)
      → pc i ≡ p
      → m'.set.entries ≡ m.set.entries
      → m'.set.is_loaded ≡ m.set.is_loaded
      → (loading p ≡ true → loading p' ≡ true)
      → InStep g listing m.set.entries p'
      → Filling g listing m' (update pc i p')
  quiet m' p p' here es l load h = record {
    sound = rw es sound;
    in_step = rw es (update-InStep g listing m.set.entries pc i p' in_step h);
    covered = λ done. elim (covered (sym l ∙ done)) [
      | inl (j, busy) ↦ inl (j, ground (arith, load))
      | inr complete ↦ inr (rw es complete)
    ];
  }

  pub marking :
      (p' : Pc D)
      → loading p' ≡ true
      → InStep g listing m.set.entries p'
      → Filling g listing (record m { set = marked m.set }) (update pc i p')
  marking p' load h = record {
    sound = sound;
    in_step = update-InStep g listing m.set.entries pc i p' in_step h;
    covered = λ done. inl (i, ground arith);
  }

  -- The end of the load: nothing is left.
  pub complete :
      (p' : Pc D)
      → IsComplete g.keys listing m.set.entries
      → InStep g listing m.set.entries p'
      → Filling g listing m (update pc i p')
  complete p' all h = record {
    sound = sound;
    in_step = update-InStep g listing m.set.entries pc i p' in_step h;
    covered = λ done. inr all;
  }

  -- The thread files its entry and goes on with the loop.
  pub filed :
      (p' : Pc D) (e : Entry D) (plan : Plan D)
      → InHand g listing e plan m.set.entries
      → loading p' ≡ true
      → ((es : List (Entry D)) → Rest g listing plan es → InStep g listing es p')
      → Filling g listing
          (record {
            set = record m.set { entries = insert_entry g.keys e m.set.entries };
            locked = false;
          })
          (update pc i p')
  filed p' e plan hand load next =
      let es = insert_entry g.keys e m.set.entries in
      let h : Rest g listing plan es = record {
        items = hand.items;
        planned = hand.planned;
        named = hand.named.1;
        remains = insert_entry-Remains g.keys listing e hand.items m.set.entries hand.remains;
      } in
      record {
        sound = insert_entry-IsSound g.keys listing e hand.items m.set.entries sound hand.remains;
        in_step =
            update-InStep g listing es pc i p'
              (λ j. insert_entry-InStep g listing e m.set.entries (pc j) (in_step j)) (next es h);
        covered = λ done. inl (i, ground arith);
      }

  -- The next item of the listing can be made.
  pub making :
      (c : Call) (item : Outcome (Item D)) (plan : Plan D)
      → pc i ≡ files c (item ∷ plan)
      → Rest g listing (item ∷ plan) m.set.entries
      → Filling g listing
          (record m { set = (make_item item m.set).1 })
          (update pc i (passed (make_item item m.set).0 (λ e. made c e plan)))
  making c item plan here h =
      elim h.items
          as (λ items.
            ((item ∷ plan) ≡ all_ok items)
            → AreNamed items
            → Remains g.keys listing items m.set.entries
            → Filling g listing (record m { set = (make_item item m.set).1 })
                (update pc i (passed (make_item item m.set).0 (λ e. made c e plan)))) [
                  | [] ↦ λ q n r. cc
                  | x ∷ items ↦ λ q n r.
                      let first : ok x ≡ item = cc in
                      let others : plan ≡ all_ok items = cc in
                      subst
                        (λ o.
                          Filling g listing (record m { set = (make_item o m.set).1 })
                            (update pc i (passed (make_item o m.set).0 (λ e. made c e plan))))
                        first
                        (quiet _ (files c (item ∷ plan)) _ here refl refl (λ b. refl)
                          (record { items = items; planned = others; named = n; remains = r }))
                ]
        h.planned h.named h.remains
