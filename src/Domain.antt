-- ===== src/Domain.antt =====
-- src/domain/product: the product and its money. A JavaScript number is not finite, negative, or a
-- fraction of natural numbers; rounding is exact.
pub mod Rounding
use advanced_search_api.Base.{
  ℕ, zero, suc, ◌+◌, ◌*◌, ◌/◌, ◌%◌, Text, str, Option, none, some, Bool, true, false, not, ◌&&◌,
  List, [], ◌∷◌, ◌==◌, if◌then◌else◌, text_eq,
}
use advanced_search_api.Base.Trim.{trim}

-- `fraction n d` is n / (d + 1).
pub data Number : Type 0 where
  not_finite negative : Number
  fraction : ℕ → ℕ → Number

-- The amount in cents.
pub record Money : Type 0 where
  pub cents : ℕ
  pub currency : Text

-- `Math.round(value * 100)`.
unfoldable pub round_to_cents : ℕ → ℕ → ℕ
round_to_cents n d = (2 * (n * 100) + suc d) / (2 * suc d)

-- `none` stands for the `InvariantViolationError`.
unfoldable pub money_of : Number → Text → Option Money
unfolding round_to_cents
money_of not_finite currency = none
money_of negative currency = none
money_of (fraction n d) currency = some (record { cents = round_to_cents n d; currency = currency })

unfoldable pub money_equals : Money → Money → Bool
money_equals a b = a.cents == b.cents && text_eq a.currency b.currency

-- `ProductProps`, with `createdAt` as its ISO text, or `none` for an invalid date.
pub record ProductProps : Type 0 where
  pub id : Text
  pub name : Text
  pub description : Text
  pub category : Text
  pub subcategories : List Text
  pub location : Text
  pub price : Money
  pub popularity : Number
  pub created_at : Option Text

pub record Product : Type 0 where
  pub id : Text
  pub name : Text
  pub description : Text
  pub category : Text
  pub subcategories : List Text
  pub location : Text
  pub price : Money
  pub popularity : ℕ
  pub created_at : Text

pub data Violation : Type 0 where
  empty_id empty_name bad_popularity bad_created_at : Violation

pub data Created : Type 0 where
  created : Product → Created
  violated : Violation → Created

-- A non-negative integer.
unfoldable pub as_count : Number → Option ℕ
as_count not_finite = none
as_count negative = none
as_count (fraction n d) = if n % suc d == 0 then some (n / suc d) else none

abbrev is_blank : Text → Bool
is_blank [] = true
is_blank (_ ∷ _) = false

abbrev with_date : ProductProps → ℕ → Option Text → Created
with_date p count none = violated bad_created_at
with_date p count (some date) = created (record {
  id = p.id;
  name = p.name;
  description = p.description;
  category = p.category;
  subcategories = p.subcategories;
  location = p.location;
  price = p.price;
  popularity = count;
  created_at = date;
})

abbrev with_popularity : ProductProps → Option ℕ → Created
with_popularity p none = violated bad_popularity
with_popularity p (some count) = with_date p count p.created_at

unfoldable pub create_product : ProductProps → Created
create_product p =
    if is_blank (trim p.id)
    then violated empty_id
    else if is_blank (trim p.name)
    then violated empty_name
    else with_popularity p (as_count p.popularity)
