-- ===== src/Db/Schema.antt =====
-- The tables, one record a row: services/commerce/src/db/schema. A uuid is only compared and
-- sorted, so it is its rank; a timestamp is a count of milliseconds; money is in whole rupiah.
use seapedia.Prelude.{ℕ, ℤ, Bool, String, Option, List}
use seapedia.Db.Enums.{
  OrderStatus, JobStatus, DeliveryMethod, DiscountType, TransactionType, TransactionStatus,
  Reference, Code,
}

pub record Wallet : Type 0 where
  pub id : ℕ
  pub user_id : ℕ
  pub balance : ℕ
  pub created_at : ℕ
  pub updated_at : ℕ

pub record WalletTransaction : Type 0 where
  pub id : ℕ
  pub wallet_id : ℕ
  pub amount : ℤ
  pub kind : TransactionType
  pub status : TransactionStatus
  pub reference : Reference
  pub created_at : ℕ

-- `is_default` first, since the queries sort and update by it.
pub record Address : Type 0 where
  pub id : ℕ
  pub user_id : ℕ
  pub label : String
  pub recipient_name : String
  pub phone_number : String
  pub province : String
  pub city : String
  pub district : String
  pub postal_code : String
  pub full_address : String
  pub is_default : Bool
  pub created_at : ℕ
  pub updated_at : ℕ

pub record Cart : Type 0 where
  pub id : ℕ
  pub buyer_id : ℕ
  pub store_id : Option ℕ
  pub created_at : ℕ
  pub updated_at : ℕ

pub record CartItem : Type 0 where
  pub id : ℕ
  pub cart_id : ℕ
  pub product_id : ℕ
  pub quantity : ℕ
  pub created_at : ℕ
  pub updated_at : ℕ

pub record Order : Type 0 where
  pub id : ℕ
  pub buyer_id : ℕ
  pub store_id : ℕ
  pub delivery_method : DeliveryMethod
  pub subtotal : ℕ
  pub discount_amount : ℕ
  pub discount_code : Option Code
  pub discount_type : Option DiscountType
  pub delivery_fee : ℕ
  pub ppn : ℕ
  pub total_amount : ℕ
  pub status : OrderStatus
  pub address_snapshot : Address
  pub created_at : ℕ
  pub updated_at : ℕ

pub record OrderItem : Type 0 where
  pub id : ℕ
  pub order_id : ℕ
  pub product_id : Option ℕ
  pub product_name : String
  pub product_price : ℕ
  pub quantity : ℕ

pub record StatusHistory : Type 0 where
  pub id : ℕ
  pub order_id : ℕ
  pub status : OrderStatus
  pub note : Option String
  pub created_at : ℕ

pub record DeliveryJob : Type 0 where
  pub id : ℕ
  pub order_id : ℕ
  pub driver_id : Option ℕ
  pub status : JobStatus
  pub delivery_fee : ℕ
  pub created_at : ℕ
  pub updated_at : ℕ

pub record Voucher : Type 0 where
  pub id : ℕ
  pub code : Code
  pub discount_amount : ℕ
  pub min_order_amount : ℕ
  pub expires_at : ℕ
  pub remaining_usage : ℕ
  pub created_at : ℕ
  pub updated_at : ℕ

pub record Promo : Type 0 where
  pub id : ℕ
  pub code : Code
  pub discount_percent : ℕ
  pub max_discount_amount : Option ℕ
  pub min_order_amount : ℕ
  pub expires_at : ℕ
  pub created_at : ℕ
  pub updated_at : ℕ

pub record StoreRef : Type 0 where
  pub id : ℕ
  pub seller_id : ℕ
  pub name : String
  pub slug : String
  pub version : ℕ
  pub synced_at : ℕ

pub record ProductRef : Type 0 where
  pub id : ℕ
  pub store_id : ℕ
  pub name : String
  pub slug : String
  pub price : ℕ
  pub image_key : Option String
  pub deleted : Bool
  pub version : ℕ
  pub synced_at : ℕ

pub record Stock : Type 0 where
  pub product_id : ℕ
  pub stock : ℕ
  pub version : ℕ
  pub updated_at : ℕ

pub record UserRef : Type 0 where
  pub id : ℕ
  pub roles : List String
  pub version : ℕ
  pub synced_at : ℕ

pub record PendingStock : Type 0 where
  pub product_id : ℕ
  pub seller_id : ℕ
  pub stock : ℕ
  pub created_at : ℕ

-- The events of the outbox, with the version in the envelope of `inventory_changed`.
pub data Event : Type 0 where
  inventory_changed : (product_id stock version : ℕ) → Event
  order_completed : (order_id buyer_id : ℕ) → List (Option ℕ × ℕ) → Event

pub record Db : Type 0 where
  pub wallets : List Wallet
  pub wallet_transactions : List WalletTransaction
  pub addresses : List Address
  pub carts : List Cart
  pub cart_items : List CartItem
  pub orders : List Order
  pub order_items : List OrderItem
  pub order_status_history : List StatusHistory
  pub delivery_jobs : List DeliveryJob
  pub vouchers : List Voucher
  pub promos : List Promo
  pub store_refs : List StoreRef
  pub product_refs : List ProductRef
  pub inventory : List Stock
  pub user_refs : List UserRef
  pub pending_stock : List PendingStock
  -- the offset of row 1 of `system_time_offset`, if there is one
  pub time_offset : Option ℕ
  pub outbox : List Event
