-- ===== src/Search.antt =====
-- src/application/models: what a search asks for and what it answers.
pub mod Query
pub mod Adapter
pub mod Controller
pub mod Completion
pub mod Suggestion
pub mod Keys
use advanced_search_api.Base.{ℕ, Text, Option, List}
use advanced_search_api.Domain.{Number}

pub data SortField : Type 0 where
  relevance popularity created_at : SortField

pub data SortOrder : Type 0 where
  asc desc : SortOrder

-- Prices are JavaScript numbers, which may have a fraction.
pub record SearchFilters : Type 0 where
  pub category : Option Text
  pub subcategories : Option (List Text)
  pub location : Option Text
  pub min_price : Option Number
  pub max_price : Option Number

pub record SearchCriteria : Type 0 where
  pub query : Option Text
  pub filters : SearchFilters
  pub sort : SortField
  pub order : SortOrder
  pub page : ℕ
  pub page_size : ℕ

pub record FacetBucket : Type 0 where
  pub key : Text
  pub count : ℕ

pub record PriceRangeBucket : Type 0 where
  pub from : Option ℕ
  pub to : Option ℕ
  pub count : ℕ

pub record Facets : Type 0 where
  pub categories : List FacetBucket
  pub subcategories : List FacetBucket
  pub locations : List FacetBucket
  pub price_ranges : List PriceRangeBucket

pub record SearchSuggestions : Type 0 where
  pub did_you_mean : Option Text
  pub related : List Text

-- The price is in cents.
pub record ProductSummary : Type 0 where
  pub id : Text
  pub name : Text
  pub description : Text
  pub category : Text
  pub subcategories : List Text
  pub location : Text
  pub price : ℕ
  pub currency : Text
  pub popularity : ℕ
  pub created_at : Text
  pub score : Option Number

pub record SearchOutcome : Type 0 where
  pub items : List ProductSummary
  pub total : ℕ
  pub facets : Facets
  pub suggestions : SearchSuggestions
