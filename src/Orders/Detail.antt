-- ===== src/Orders/Detail.antt =====
-- The order as the seller and the buyer read it: `getDetail` of OrdersSellerService
-- (services/commerce/src/modules/orders/orders-seller.service.ts) and of OrdersBuyerService
-- (services/commerce/src/modules/orders/orders-buyer.service.ts). The address snapshot stays the
-- address that `JSON.parse` gives back.
use seapedia.Prelude.{ℕ, Bool, ◌&&◌, List, String, leb, ◌==◌, find, select, sort_by}
use seapedia.Db.{
  Order, OrderItem, StatusHistory, StoreRef, Db, Action, gets, or_throw, ◌>>=◌, not_found, Reason,
}

pub record OrderDetail : Type 0 where
  pub order : Order
  pub store_name : String
  pub items : List OrderItem
  pub status_history : List StatusHistory

abbrev pub is_order : ℕ → Order → Bool
is_order id o = o.id == id

abbrev pub is_order_of_store : ℕ → ℕ → Order → Bool
is_order_of_store store id o = o.id == id && o.store_id == store

abbrev pub is_order_of_buyer : ℕ → ℕ → Order → Bool
is_order_of_buyer buyer id o = o.id == id && o.buyer_id == buyer

abbrev pub is_part_of : ℕ → OrderItem → Bool
is_part_of order i = i.order_id == order

abbrev pub is_entry_of : ℕ → StatusHistory → Bool
is_entry_of order h = h.order_id == order

-- The newest entry first.
abbrev detail : Order → StoreRef → Db → OrderDetail
detail o s d = record {
  order = o;
  store_name = s.name;
  items = select (is_part_of o.id) d.order_items;
  status_history =
      sort_by (λ (h k : StatusHistory). leb k.created_at h.created_at)
        (select (is_entry_of o.id) d.order_status_history);
}

abbrev pub is_store_of : ℕ → StoreRef → Bool
is_store_of seller s = s.seller_id == seller

-- The inner join with the stores.
abbrev joined_detail : Order → Action OrderDetail
joined_detail o = do
  s ←
      or_throw (← gets (λ d. find (λ (s : StoreRef). s.id == o.store_id) d.store_refs))
        (not_found Reason.order_missing)
  gets (detail o s)

unfoldable pub seller_detail : ℕ → ℕ → Action OrderDetail
seller_detail seller id = do
  store ←
      or_throw (← gets (λ d. find (is_store_of seller) d.store_refs))
        (not_found Reason.store_missing)
  o ←
      or_throw (← gets (λ d. find (is_order_of_store store.id id) d.orders))
        (not_found Reason.order_missing)
  joined_detail o

unfoldable pub buyer_detail : ℕ → ℕ → Action OrderDetail
buyer_detail buyer id = do
  o ←
      or_throw (← gets (λ d. find (is_order_of_buyer buyer id) d.orders))
        (not_found Reason.order_missing)
  joined_detail o
