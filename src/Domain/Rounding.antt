-- ===== src/Domain/Rounding.antt =====
-- Money is rounded to the nearest cent, and only once; products have the invariants of the entity.
use advanced_search_api.Base.{
  ℕ, suc, ◌+◌, ◌*◌, ◌/◌, ◌≤◌, ◌<◌, ◌≡◌, ◌≢◌, ap, ◌∙◌, Text, some, [], arith,
}
use advanced_search_api.Base.Division.{quotient_bounds}
use advanced_search_api.Base.Trim.{trim}
use advanced_search_api.Domain.{
  fraction, Money, round_to_cents, money_of, ProductProps, Product, created, create_product,
  as_count,
}

nearest :
    (n d q : ℕ)
    → q * (2 * suc d) ≤ 2 * (n * 100) + suc d
    → 2 * (n * 100) + suc d < (q + 1) * (2 * suc d)
    → (2 * (n * 100) ≤ 2 * (q * suc d) + suc d) × (2 * (q * suc d) ≤ 2 * (n * 100) + suc d)
nearest n d q lo hi = (omega arith, omega arith)

round_to_cents_nearest :
    (n d : ℕ)
    → (2 * (n * 100) ≤ 2 * (round_to_cents n d * suc d) + suc d)
      × (2 * (round_to_cents n d * suc d) ≤ 2 * (n * 100) + suc d)
unfolding round_to_cents
round_to_cents_nearest n d =
    let (lo, hi) = quotient_bounds (2 * (n * 100) + suc d) (2 * suc d) (omega arith) in
    nearest n d ((2 * (n * 100) + suc d) / (2 * suc d)) lo hi

-- An amount of n / (d + 1) becomes a number of cents that is off by half a cent at most, and making
-- money again of that number of cents gives the same money.
pub money_of_rounds :
    (n d : ℕ) (currency : Text) (m : Money)
    → money_of (fraction n d) currency ≡ some m
    → (2 * (n * 100) ≤ 2 * (m.cents * suc d) + suc d)
      × (2 * (m.cents * suc d) ≤ 2 * (n * 100) + suc d)
      × (money_of (fraction m.cents 99) m.currency ≡ some m)
unfolding money_of
money_of_rounds n d currency m h =
    let rounded : m.cents ≡ round_to_cents n d = ground arith in
    let (lo, hi) = round_to_cents_nearest n d in
    (rw rounded lo, rw rounded hi, same m.cents ∙ ground arith)
  where
    same :
        (c : ℕ)
        → money_of (fraction c 99) m.currency ≡ some (record { cents = c; currency = m.currency })
    same c = ap (λ k. some (record { cents = k; currency = m.currency })) (omega arith)

-- A product that is created has an id and a name that are not blank, the popularity that was given
-- as a non-negative integer, the date that was given as a valid one, and all else as it was given.
pub create_product_sound :
    (p : ProductProps) (x : Product)
    → create_product p ≡ created x
    → (trim x.id ≢ [])
      × (trim x.name ≢ [])
      × (as_count p.popularity ≡ some x.popularity)
      × (p.created_at ≡ some x.created_at)
      × (x.id ≡ p.id)
      × (x.price ≡ p.price)
      × (x.subcategories ≡ p.subcategories)
unfolding create_product
create_product_sound p x h = ground arith
