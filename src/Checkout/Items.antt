-- ===== src/Checkout/Items.antt =====
-- The items of a cart joined with their products and stock, and the loop that reserves the stock.
use seapedia.Prelude.{
  ℕ, ◌+◌, ◌-◌, ◌*◌, Bool, true, false, ◌&&◌, Option, none, some, List, [], ◌∷◌, ◌++◌, map, String,
  ltb, leb, ◌==◌, find, update, select, sort_by, sum_by,
}
use seapedia.Db.{
  CartItem, ProductRef, Stock, Event, inventory_changed, Db, Result, ok, err, Action, validation,
  Reason, Env,
}

pub record CheckoutItem : Type 0 where
  pub cart_item_id : ℕ
  pub product_id : ℕ
  pub quantity : ℕ
  pub name : String
  pub price : ℕ
  pub stock : ℕ
  pub store_id : ℕ

abbrev pub join_product : CartItem → Option ProductRef → Option Stock → Option CheckoutItem
join_product c (some p) (some s) = some (record {
  cart_item_id = c.id;
  product_id = c.product_id;
  quantity = c.quantity;
  name = p.name;
  price = p.price;
  stock = s.stock;
  store_id = p.store_id;
})
join_product c _ _ = none

-- The two inner joins are on primary keys, so a cart item gives one row, or none if its product or
-- its stock is not there.
abbrev pub join_item : Db → CartItem → Option CheckoutItem
join_item d c =
    join_product c (find (λ (p : ProductRef). p.id == c.product_id) d.product_refs)
      (find (λ (s : Stock). s.product_id == c.product_id) d.inventory)

abbrev pub keep_joined : Option CheckoutItem → List CheckoutItem → List CheckoutItem
keep_joined none rest = rest
keep_joined (some i) rest = i ∷ rest

unfoldable pub join_items : Db → List CartItem → List CheckoutItem
join_items d [] = []
join_items d (c ∷ cs) = keep_joined (join_item d c) (join_items d cs)

-- The select of step 2 of `createOrder`.
unfoldable pub checkout_items : Db → ℕ → List CheckoutItem
unfolding join_items
checkout_items d cart = join_items d (select (λ (c : CartItem). c.cart_id == cart) d.cart_items)

abbrev pub subtotal_of : List CheckoutItem → ℕ
subtotal_of = sum_by (λ i. i.price * i.quantity)

abbrev pub by_product : CheckoutItem → CheckoutItem → Bool
by_product a b = leb a.product_id b.product_id

abbrev pub has_stock : ℕ → ℕ → Stock → Bool
has_stock product quantity s = s.product_id == product && leb quantity s.stock

abbrev pub take_stock : Env → ℕ → Stock → Stock
take_stock env quantity s = record s {
  stock = s.stock - quantity;
  version = s.version + 1;
  updated_at = env.now;
}

abbrev pub Reserved : Type 0
Reserved = Result (List Stock × List Stock)

-- The rows that were changed, as `returning` gives them, and the table.
abbrev pub keep_reserved : Stock → Reserved → Reserved
keep_reserved s (ok (changes, rows)) = ok (s ∷ changes, rows)
keep_reserved s (err e) = err e

-- One round: is the stock that was read too low, which row has the stock now, and the later rounds.
abbrev pub reserve_item : Env → CheckoutItem → Bool → Option Stock → Reserved → Reserved
reserve_item env i true _ later = err (validation (Reason.insufficient_stock i.name i.stock))
reserve_item env i false none later = err (validation (Reason.stock_changed i.name))
reserve_item env i false (some s) later = keep_reserved (take_stock env i.quantity s) later

-- The loop of step 5: every item is checked against the stock that was read and against the stock
-- that is there.
unfoldable pub reserve_rows : Env → List CheckoutItem → List Stock → Reserved
reserve_rows env [] rows = ok ([], rows)
reserve_rows env (i ∷ is) rows =
    reserve_item env i (ltb i.stock i.quantity) (find (has_stock i.product_id i.quantity) rows) (
      reserve_rows env is
        (update (has_stock i.product_id i.quantity) (take_stock env i.quantity) rows))

-- `CommerceEvents.inventoryChanged`
abbrev pub inventory_event : Stock → Event
inventory_event s = inventory_changed s.product_id s.stock s.version

abbrev pub write_reserved : Db → Reserved → Result (Unit {0}) × Db
write_reserved d (ok (changes, rows)) =
    (ok tt, record d { inventory = rows; outbox = d.outbox ++ map inventory_event changes })
write_reserved d (err e) = (err e, d)

-- Step 5, in the order of the product ids, with the events of the changed rows.
unfoldable pub reserve_stock : Env → List CheckoutItem → Action (Unit {0})
reserve_stock env items d =
    write_reserved d (reserve_rows env (sort_by by_product items) d.inventory)
