-- ===== src/Cart.antt =====
-- BuyersCartService: services/commerce/src/modules/buyers/buyers-cart.service.ts
pub mod Summary
pub mod Added
use seapedia.Prelude.{
  ℕ, ◌+◌, Bool, true, false, not, ◌&&◌, Option, none, some, List, [], ◌∷◌, ◌++◌, ℤ, pos, pos_part,
  leb_ℤ, ltb, ◌==◌, is_some, find, delete, select, update, if◌then◌else◌,
}
use seapedia.Db.{
  Cart, CartItem, ProductRef, Stock, Db, Result, ok, err, Action, pure, throw, gets, or_throw,
  transaction, ◌>>=◌, ◌>>◌, throw_if, modify, not_found, validation, conflict, Reason, Env, Error,
}

abbrev pub is_cart_of : ℕ → Cart → Bool
is_cart_of buyer c = c.buyer_id == buyer

abbrev pub is_cart : ℕ → Cart → Bool
is_cart id c = c.id == id

abbrev pub is_item_of : ℕ → CartItem → Bool
is_item_of cart i = i.cart_id == cart

abbrev pub set_store : Env → Option ℕ → Cart → Cart
set_store env store c = record c { store_id = store; updated_at = env.now }

abbrev pub new_cart : Env → ℕ → Cart
new_cart env buyer = record {
  id = env.uuid 0;
  buyer_id = buyer;
  store_id = none;
  created_at = env.now;
  updated_at = env.now;
}

abbrev pub insert_cart : Env → ℕ → Action Cart
insert_cart env buyer d =
    (ok (new_cart env buyer), record d { carts = d.carts ++ (new_cart env buyer ∷ []) })

-- `update carts set store_id = … where id = …`
abbrev pub write_store : Env → ℕ → Option ℕ → Action (Unit {0})
write_store env cart store =
    modify (λ d. record d { carts = update (is_cart cart) (set_store env store) d.carts })

-- The cart of a buyer; a cart with a store and no item loses its store.
abbrev pub heal_cart : Env → Cart → Action Cart
heal_cart env cart d = elim cart.store_id [
  | none ↦ (ok cart, d)
  | some _ ↦ elim (find (is_item_of cart.id) d.cart_items) [
    | some _ ↦ (ok cart, d)
    | none ↦ (
      ok (set_store env none cart),
      record d { carts = update (is_cart cart.id) (set_store env none) d.carts },
    )
  ]
]

-- `getOrCreateCart`
unfoldable pub get_or_create_cart : Env → ℕ → Action Cart
get_or_create_cart env buyer d = elim (find (is_cart_of buyer) d.carts) [
  | none ↦ insert_cart env buyer d
  | some cart ↦ heal_cart env cart d
]

pub record CartProduct : Type 0 where
  pub store_id : ℕ
  pub stock : ℕ

abbrev pub join_stock : Option ProductRef → Option Stock → Option CartProduct
join_stock (some p) (some s) = some (record { store_id = p.store_id; stock = s.stock })
join_stock _ _ = none

-- `selectProductWithStock`
abbrev pub product_with_stock : ℕ → Db → Option CartProduct
product_with_stock product d =
    join_stock (find (λ (p : ProductRef). p.id == product) d.product_refs)
      (find (λ (s : Stock). s.product_id == product) d.inventory)

-- `ReplicaSync.hasProduct`
abbrev pub has_product : ℕ → Db → Bool
has_product product d =
    is_some (find (λ (p : ProductRef). p.id == product && not p.deleted) d.product_refs)

abbrev pub fetch_cart : Env → ℕ → Action Cart
fetch_cart env buyer d = elim (find (is_cart_of buyer) d.carts) [
  | none ↦ insert_cart env buyer d
  | some cart ↦ (ok cart, d)
]

-- The single-store check, and the store of a cart that has none.
abbrev pub claim_store : Env → Cart → ℕ → Action (Unit {0})
claim_store env cart store = elim cart.store_id [
  | none ↦ write_store env cart.id (some store)
  | some s ↦ throw_if (not (s == store)) (conflict Reason.other_store)
]

abbrev pub is_line : ℕ → ℕ → CartItem → Bool
is_line cart product i = i.cart_id == cart && i.product_id == product

abbrev pub is_item : ℕ → CartItem → Bool
is_item id i = i.id == id

abbrev pub set_quantity : Env → ℕ → CartItem → CartItem
set_quantity env quantity i = record i { quantity = quantity; updated_at = env.now }

abbrev pub new_item : Env → ℕ → ℕ → ℕ → CartItem
new_item env cart product quantity = record {
  id = env.uuid 1;
  cart_id = cart;
  product_id = product;
  quantity = quantity;
  created_at = env.now;
  updated_at = env.now;
}

-- The upsert of the cart item.
abbrev pub put_item : Env → ℕ → ℕ → ℕ → ℕ → Action CartItem
put_item env cart product stock quantity d = elim (find (is_line cart product) d.cart_items) [
  | some i ↦
      if ltb stock (i.quantity + quantity)
      then (err (validation (Reason.exceeds_stock stock)), d)
      else (
        ok (set_quantity env (i.quantity + quantity) i),
        record d {
          cart_items =
              update (is_item i.id) (set_quantity env (i.quantity + quantity)) d.cart_items;
        },
      )
  | none ↦ (
    ok (new_item env cart product quantity),
    record d { cart_items = d.cart_items ++ (new_item env cart product quantity ∷ []) },
  )
]

-- The transaction of `addItemToCart`.
unfoldable pub add_item : Env → ℕ → ℕ → ℕ → Action CartItem
add_item env buyer product quantity = do
  p ← or_throw (← gets (product_with_stock product)) (not_found Reason.product_missing)
  throw_if (ltb p.stock quantity) (validation (Reason.only_left p.stock))
  cart ← fetch_cart env buyer
  claim_store env cart p.store_id
  put_item env cart.id product p.stock quantity

-- `addItemToCart`; the quantity is the integer that the client sent.
unfoldable pub add_item_to_cart : Env → ℕ → ℕ → ℤ → Action CartItem
unfolding add_item
add_item_to_cart env buyer product quantity = do
  throw_if (leb_ℤ quantity (pos 0)) (validation Reason.quantity_not_positive)
  throw_if (not (← gets (has_product product))) (conflict Reason.product_syncing)
  transaction (add_item env buyer product (pos_part quantity))

abbrev pub is_item_in : ℕ → ℕ → CartItem → Bool
is_item_in id cart i = i.id == id && i.cart_id == cart

-- The transaction of `updateCartItemQuantity`.
unfoldable pub change_quantity : Env → ℕ → ℕ → ℕ → Action CartItem
change_quantity env buyer id quantity = do
  cart ← or_throw (← gets (λ d. find (is_cart_of buyer) d.carts)) (not_found Reason.cart_missing)
  item ←
      or_throw (← gets (λ d. find (is_item_in id cart.id) d.cart_items))
        (not_found Reason.item_missing)
  p ← or_throw (← gets (product_with_stock item.product_id)) (not_found Reason.product_missing)
  throw_if (ltb p.stock quantity) (validation (Reason.only_left p.stock))
  modify
      (λ d. record d { cart_items = update (is_item id) (set_quantity env quantity) d.cart_items })
  pure (set_quantity env quantity item)

-- `updateCartItemQuantity`
unfoldable pub update_cart_item_quantity : Env → ℕ → ℕ → ℤ → Action CartItem
unfolding change_quantity
update_cart_item_quantity env buyer id quantity = do
  throw_if (leb_ℤ quantity (pos 0)) (validation Reason.quantity_not_positive)
  transaction (change_quantity env buyer id (pos_part quantity))

-- The last statement of `removeCartItem`: a cart with no item left loses its store.
abbrev pub free_if_empty : Env → ℕ → Action (Unit {0})
free_if_empty env cart d = elim (find (is_item_of cart) d.cart_items) [
  | none ↦ write_store env cart none d
  | some _ ↦ (ok tt, d)
]

-- The transaction of `removeCartItem`.
unfoldable pub remove_item : Env → ℕ → ℕ → Action (Unit {0})
remove_item env buyer id = do
  cart ← or_throw (← gets (λ d. find (is_cart_of buyer) d.carts)) (not_found Reason.cart_missing)
  or_throw (← gets (λ d. find (is_item_in id cart.id) d.cart_items)) (not_found Reason.item_missing)
  modify (λ d. record d { cart_items = delete (is_item id) d.cart_items })
  free_if_empty env cart.id

unfoldable pub remove_cart_item : Env → ℕ → ℕ → Action (Unit {0})
unfolding remove_item
remove_cart_item env buyer id = transaction (remove_item env buyer id)

-- `clearCart`
unfoldable pub clear_cart : Env → ℕ → Action (Unit {0})
clear_cart env buyer d = elim (find (is_cart_of buyer) d.carts) [
  | none ↦ (ok tt, d)
  | some cart ↦ (
    ok tt,
    record d {
      cart_items = delete (is_item_of cart.id) d.cart_items;
      carts = update (is_cart cart.id) (set_store env none) d.carts;
    },
  )
]
