-- ===== src/Catalog/Schema.antt =====
-- The catalog's collections, one record a document, its events and its errors. A rating is in
-- hundredths. services/catalog/src/db, services/catalog/src/modules/events/events.ts
use seapedia.Prelude.{ℕ, ℤ, String, Option, List}
use seapedia.Platform.Monad
use seapedia.Catalog.Slugs.{Text}

pub record StoreDoc : Type 0 where
  pub id : ℕ
  pub seller_id : ℕ
  pub name : Text
  pub slug : Text
  pub description : Option String
  pub logo_key : Option String
  pub rating : ℕ
  pub review_count : ℕ
  pub total_products : ℕ
  pub version : ℕ
  pub created_at : ℕ
  pub updated_at : ℕ

pub record ProductDoc : Type 0 where
  pub id : ℕ
  pub store_id : ℕ
  pub name : Text
  pub slug : Text
  pub description : Option String
  pub price : ℤ
  pub image_key : Option String
  pub rating : ℕ
  pub review_count : ℕ
  pub sold_count : ℕ
  pub stock : ℕ
  pub stock_version : ℕ
  pub version : ℕ
  pub created_at : ℕ
  pub updated_at : ℕ

pub record ProductReview : Type 0 where
  pub id : ℕ
  pub product_id : ℕ
  pub buyer_id : ℕ
  pub reviewer_name : String
  pub rating : ℕ
  pub comment : String
  pub created_at : ℕ

pub record AppReview : Type 0 where
  pub id : ℕ
  pub reviewer_name : String
  pub rating : ℕ
  pub comment : String
  pub created_at : ℕ

pub record UserDoc : Type 0 where
  pub id : ℕ
  pub display_name : String
  pub version : ℕ

pub record Purchase : Type 0 where
  pub buyer_id : ℕ
  pub product_id : ℕ
  pub at : ℕ

pub record InboxDoc : Type 0 where
  pub event : ℕ
  pub processed_at : ℕ

-- The events with the document that they are made from: their data is part of it.
pub data CatalogEvent : Type 0 where
  store_upserted : StoreDoc → CatalogEvent
  product_upserted : ProductDoc → CatalogEvent
  product_deleted : (id version : ℕ) → CatalogEvent

-- `inbox` holds the events that were processed, until they expire; `deleted_objects` the keys that the storage
-- was asked to delete.
pub record CatalogDb : Type 0 where
  pub stores : List StoreDoc
  pub products : List ProductDoc
  pub product_reviews : List ProductReview
  pub app_reviews : List AppReview
  pub users : List UserDoc
  pub purchases : List Purchase
  pub outbox : List CatalogEvent
  pub inbox : List InboxDoc
  pub deleted_objects : List String

pub data CatalogReason : Type 0 where
  seller_has_store name_used store_missing not_your_store : CatalogReason
  negative_price product_missing no_store : CatalogReason
  not_purchased already_reviewed : CatalogReason

abbrev pub Action : Type 0 → Type 0
Action A = Monad.Action CatalogDb CatalogReason A
