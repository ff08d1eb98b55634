-- ===== src/Orders/Reports.antt =====
-- The lists and the reports: `list` and `getReport` of OrdersSellerService
-- (services/commerce/src/modules/orders/orders-seller.service.ts) and of OrdersBuyerService
-- (services/commerce/src/modules/orders/orders-buyer.service.ts). The query of the items is an inner
-- join with the orders, and `reduce` sorts its rows into a record keyed by the order's id.
use seapedia.Prelude.{
  ℕ, zero, suc, ◌+◌, ◌*◌, ◌/◌, Bool, false, Option, none, some, List, [], ◌∷◌, ◌++◌, String, leb,
  ◌==◌, if◌then◌else◌, find, select, sort_by, sum_by, length, map,
}
use seapedia.Db.{Order, OrderItem, OrderStatus, StoreRef, Db}
use seapedia.Orders.Detail.{is_order, is_store_of}

pub record OrderRow : Type 0 where
  pub order : Order
  pub store_name : String

pub record MappedItem : Type 0 where
  pub id : ℕ
  pub product_id : Option ℕ
  pub product_name : String
  pub product_price : ℕ
  pub quantity : ℕ

pub record ListedOrder : Type 0 where
  pub row : OrderRow
  pub items : List MappedItem

-- An entry of the record that `reduce` fills.
pub record Group : Type 0 where
  pub order_id : ℕ
  pub items : List MappedItem

abbrev pub mapped : OrderItem → MappedItem
mapped i = record {
  id = i.id;
  product_id = i.product_id;
  product_name = i.product_name;
  product_price = i.product_price;
  quantity = i.quantity;
}

abbrev pub add_item : OrderItem → List Group → List Group
add_item i [] = record { order_id = i.order_id; items = mapped i ∷ [] } ∷ []
add_item i (g ∷ gs) =
    let rest = add_item i gs in
    if g.order_id == i.order_id
    then record { order_id = g.order_id; items = g.items ++ (mapped i ∷ []) } ∷ gs
    else g ∷ rest

abbrev pub items_by_order_id : List OrderItem → List Group → List Group
items_by_order_id [] acc = acc
items_by_order_id (i ∷ is) acc = items_by_order_id is (add_item i acc)

-- `itemsByOrderId[order.id] || []`
abbrev pub items_of : List Group → ℕ → List MappedItem
items_of [] id = []
items_of (g ∷ gs) id = let rest = items_of gs id in if g.order_id == id then g.items else rest

abbrev pub is_met : (Order → Bool) → Option Order → Bool
is_met p none = false
is_met p (some o) = p o

-- The items that are joined with an order that meets the test.
abbrev pub joined_items : (Order → Bool) → Db → List OrderItem
joined_items p d = select (λ i. is_met p (find (is_order i.order_id) d.orders)) d.order_items

-- The inner join of the orders with the stores.
abbrev pub with_name : Order → Option StoreRef → List OrderRow → List OrderRow
with_name o none rest = rest
with_name o (some s) rest = record { order = o; store_name = s.name } ∷ rest

abbrev pub with_names : List StoreRef → List Order → List OrderRow
with_names ss [] = []
with_names ss (o ∷ os) =
    with_name o (find (λ (s : StoreRef). s.id == o.store_id) ss) (with_names ss os)

-- The newest order first.
abbrev pub orders_list : (Order → Bool) → Db → List OrderRow
orders_list p d =
    sort_by (λ (r q : OrderRow). leb q.order.created_at r.order.created_at)
      (with_names d.store_refs (select p d.orders))

-- Without orders the map below is empty too.
abbrev pub formatted_orders : (Order → Bool) → Db → List ListedOrder
formatted_orders p d =
    let groups = items_by_order_id (joined_items p d) [] in
    map (λ (r : OrderRow). record { row = r; items = items_of groups r.order.id }) (orders_list p d)

abbrev pub is_at_store : ℕ → Order → Bool
is_at_store store o = o.store_id == store

abbrev pub is_bought_by : ℕ → Order → Bool
is_bought_by buyer o = o.buyer_id == buyer

abbrev pub list_of_store : Option StoreRef → Db → List ListedOrder
list_of_store none d = []
list_of_store (some s) d = formatted_orders (is_at_store s.id) d

unfoldable pub seller_list : ℕ → Db → List ListedOrder
seller_list seller d = list_of_store (find (is_store_of seller) d.store_refs) d

unfoldable pub buyer_list : ℕ → Db → List ListedOrder
buyer_list buyer = formatted_orders (is_bought_by buyer)

pub record Report : Type 0 where
  pub total : ℕ
  pub total_orders : ℕ
  pub average : ℕ
  pub orders : List ListedOrder

abbrev is_status_completed : OrderStatus → Bool
is_status_completed OrderStatus.pesanan_selesai = Bool.true
is_status_completed _ = false

abbrev pub is_completed : ListedOrder → Bool
is_completed o = is_status_completed o.row.order.status

-- `Math.round(total / count)`, which rounds a half up, and 0 where nothing is counted.
unfoldable pub rounded_average : ℕ → ℕ → ℕ
rounded_average total zero = 0
rounded_average total (suc n) = (2 * total + suc n) / (2 * suc n)

abbrev report : (ListedOrder → ℕ) → List ListedOrder → Report
report amount os =
    let completed = select is_completed os in
    let total = sum_by amount completed in
    record {
      total = total;
      total_orders = length completed;
      average = rounded_average total (length completed);
      orders = os;
    }

-- The income counts the subtotals, the spending what was paid.
unfoldable pub seller_report : ℕ → Db → Report
seller_report seller d = report (λ o. o.row.order.subtotal) (seller_list seller d)

unfoldable pub buyer_report : ℕ → Db → Report
buyer_report buyer d = report (λ o. o.row.order.total_amount) (buyer_list buyer d)
