-- ===== src/Startup/Seed/Outcome.antt =====
-- No record is lost in silence, and the exit code tells.
use advanced_search_api.Base.{
  ℕ, ◌≤◌, Text, Option, some, map, ◌≡◌, ◌⊎◌, inl, inr, refl, ◌↔◌, List, [], ◌∷◌, arith, All,
}
use advanced_search_api.Shared.{Result, ok, thrown}
use advanced_search_api.Domain.{Number, Product}
use advanced_search_api.Index.Seed.{SeedOutcome}
use advanced_search_api.Startup.Seed.{
  RawProduct, InvalidRecord, DatasetLoadResult, Converted, product, rejected, to_product,
  add_converted, load_products, run_seed, seeded, with_context, unhandled, skipped, SeedRun,
}

module _ (date : Text → Option Text) (show : Number → Text) where
  -- The record becomes a product.
  abbrev pub Converts : RawProduct → Type 0
  Converts r = (p : Product) × (to_product date show r ≡ product p)

  -- Each record, in order, became the next product or the next invalid record with its id and the
  -- reason, and these are all products and all invalid records.
  abbrev pub Sorts : List RawProduct → List Product → List InvalidRecord → Type 0
  Sorts [] products invalid = (products ≡ []) × (invalid ≡ [])
  Sorts (r ∷ rs) products invalid =
      ((p : Product) × (ps : List Product) × (to_product date show r ≡ product p)
        × (products ≡ p ∷ ps)
        × Sorts rs ps invalid)
      ⊎ ((reason : Text) × (is : List InvalidRecord) × (to_product date show r ≡ rejected reason)
          × (invalid ≡ record { id = some r.id; reason = reason } ∷ is)
          × Sorts rs products is)

  add_converted-Sorts :
      (r : RawProduct) (rs : List RawProduct) (c : Converted) (rest : DatasetLoadResult)
      → to_product date show r ≡ c
      → Sorts rs rest.products rest.invalid
      → Sorts
          (r ∷ rs)
          (add_converted date show r c rest).products
          (add_converted date show r c rest).invalid
  add_converted-Sorts r rs (product p) rest e h = inl (p, rest.products, e, refl, h)
  add_converted-Sorts r rs (rejected reason) rest e h = inr (reason, rest.invalid, e, refl, h)

  load_products-Sorts :
      (rs : List RawProduct)
      → Sorts rs (load_products date show rs).products (load_products date show rs).invalid
  unfolding load_products
  load_products-Sorts [] = (refl, refl)
  load_products-Sorts (r ∷ rs) =
      add_converted-Sorts r rs (to_product date show r) (load_products date show rs) refl
        (load_products-Sorts rs)

  no_complaint :
      (r : RawProduct) (c : Converted) (rest : DatasetLoadResult)
      → (add_converted date show r c rest).invalid ≡ []
      → ((p : Product) × (c ≡ product p)) × (rest.invalid ≡ [])
  no_complaint r (product p) rest h = ((p, refl), h)
  no_complaint r (rejected reason) rest h = absurd (cc)

  load_products-Converts :
      (rs : List RawProduct) → (load_products date show rs).invalid ≡ [] → All Converts rs
  unfolding load_products
  load_products-Converts [] h = tt
  load_products-Converts (r ∷ rs) h =
      let (this, others) = no_complaint r (to_product date show r) (load_products date show rs) h in
      (this, load_products-Converts rs others)

  none_invalid :
      (rs : List RawProduct) → All Converts rs → (load_products date show rs).invalid ≡ []
  unfolding load_products
  none_invalid [] h = refl
  none_invalid (r ∷ rs) ((p, e), h) = rw e (none_invalid rs h)

  -- What the command does once its records are loaded.
  abbrev ran :
      List InvalidRecord → Result SeedOutcome → Result (Unit {0}) → Result (Unit {0}) → SeedRun
  ran invalid ended context closed = unhandled (
      with_context context closed (seeded invalid ended)
        (record { log = map skipped invalid; exit_code = 0; closes = 0 }))

  ran_zero :
      (invalid : List InvalidRecord) (ended : Result SeedOutcome)
      (context closed : Result (Unit {0}))
      → ((ran invalid ended context closed).exit_code ≡ 0) ↔ (
          (invalid ≡ [])
          × (context ≡ ok tt)
          × (closed ≡ ok tt)
          × ((o : SeedOutcome) × (ended ≡ ok o) × (o.bulk_result.failed ≡ 0)))
  ran_zero invalid ended (thrown e) closed =
      ((λ h. absurd (omega arith)), (λ (_, c, _, _). absurd (cc)))
  ran_zero invalid ended (ok _) (thrown e) =
      ((λ h. absurd (omega arith)), (λ (_, _, c, _). absurd (cc)))
  ran_zero invalid (thrown e) (ok _) (ok _) =
      ((λ h. absurd (omega arith)), (λ (_, _, _, d). let (o, ended, _) = d in absurd (cc)))
  ran_zero [] (ok o) (ok _) (ok _) = (
    (λ h. (refl, refl, refl, (o, refl, ground arith))),
    (λ (_, _, _, d). let (o', same, z) = d in let eq : o ≡ o' = cc in ground arith),
  )
  ran_zero (i ∷ is) (ok o) (ok _) (ok _) = ((λ h. ground arith), (λ (e, _, _, _). absurd (cc)))

  ran_at_most_one :
      (invalid : List InvalidRecord) (ended : Result SeedOutcome)
      (context closed : Result (Unit {0}))
      → (ran invalid ended context closed).exit_code ≤ 1
  ran_at_most_one invalid ended (thrown e) closed = omega arith
  ran_at_most_one invalid ended (ok _) (thrown e) = omega arith
  ran_at_most_one invalid (thrown e) (ok _) (ok _) = omega arith
  ran_at_most_one invalid (ok o) (ok _) (ok _) = ground arith

  -- The contexts that were created.
  abbrev pub contexts_of : Result (Unit {0}) → ℕ
  contexts_of (ok _) = 1
  contexts_of (thrown e) = 0

  ran_closes :
      (invalid : List InvalidRecord) (ended : Result SeedOutcome)
      (context closed : Result (Unit {0}))
      → (ran invalid ended context closed).closes ≡ contexts_of context
  ran_closes invalid ended (thrown e) closed = refl
  ran_closes invalid (thrown t) (ok _) (thrown e) = omega arith
  ran_closes invalid (ok o) (ok _) (thrown e) = omega arith
  ran_closes invalid (thrown t) (ok _) (ok _) = omega arith
  ran_closes invalid (ok o) (ok _) (ok _) = omega arith

  -- The seed command exits with 0 exactly if every record of the data set became a product, the context
  -- was created and closed without an error, and the use case indexed all products; in any other case it
  -- exits with 1. Each record, in order, is the next product or the next reported one, with its id and
  -- the reason, and there are no others. However the use case ends, and however the closing does,
  -- a context that was created is closed once.
  pub run_seed-exits_zero_iff :
      (context closed : Result (Unit {0})) (execute : List Product → Result SeedOutcome)
      (rs : List RawProduct)
      → let loaded = load_products date show rs in
        let r = run_seed date show context closed execute rs in
        ((r.exit_code ≡ 0) ↔ (
          All Converts rs
          × (context ≡ ok tt)
          × (closed ≡ ok tt)
          × ((o : SeedOutcome) × (execute loaded.products ≡ ok o) × (o.bulk_result.failed ≡ 0))))
        × (r.exit_code ≤ 1)
        × Sorts rs loaded.products loaded.invalid
        × (r.closes ≡ contexts_of context)
  unfolding run_seed
  run_seed-exits_zero_iff context closed execute rs =
      let loaded = load_products date show rs in
      let (down, up) = ran_zero loaded.invalid (execute loaded.products) context closed in
      (
        (
          (λ h.
              let (clean, made, shut, done) = down h in
              (load_products-Converts rs clean, made, shut, done)),
          (λ (all, made, shut, done). up (none_invalid rs all, made, shut, done)),
        ),
        ran_at_most_one loaded.invalid (execute loaded.products) context closed,
        load_products-Sorts rs,
        ran_closes loaded.invalid (execute loaded.products) context closed,
      )
