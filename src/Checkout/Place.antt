-- ===== src/Checkout/Place.antt =====
-- `createOrder`: the transaction of OrdersCheckoutService, step by step.
use seapedia.Prelude.{
  ℕ, ◌+◌, Bool, true, false, ◌&&◌, Option, none, some, List, [], ◌∷◌, ◌++◌, neg, ltb, ◌==◌, find,
  delete, update,
}
use seapedia.Db.{
  Address, Cart, CartItem, Order, OrderItem, StatusHistory, WalletTransaction, DeliveryMethod,
  DiscountType, TransactionType, Reference, Code, sedang_dikemas, Action, pure, gets, or_throw,
  transaction, ◌>>=◌, ◌>>◌, throw_if, modify, not_found, validation, out_of_range, max_int, Reason,
  Env,
}
use seapedia.Wallet.{get_or_create_wallet, debit_wallet, post_transaction}
use seapedia.Discounts.{DiscountResult, validate_code, decrement_voucher_usage}
use seapedia.Checkout.Totals.{Fees, Totals, calculate_totals}
use seapedia.Checkout.Items.{CheckoutItem, checkout_items, subtotal_of, reserve_stock}

abbrev pub is_address_of : ℕ → ℕ → Address → Bool
is_address_of user id a = a.id == id && a.user_id == user

abbrev pub is_cart_of : ℕ → Cart → Bool
is_cart_of buyer c = c.buyer_id == buyer

-- What steps 1 to 3 read.
pub record Quote : Type 0 where
  pub address : Address
  pub cart_id : ℕ
  pub store_id : ℕ
  pub items : List CheckoutItem
  pub discount : Option DiscountResult
  pub totals : Totals

abbrev pub discount_amount_of : Option DiscountResult → ℕ
discount_amount_of none = 0
discount_amount_of (some r) = r.discount_amount

abbrev pub code_of : Option DiscountResult → Option Code
code_of none = none
code_of (some r) = some r.code

abbrev pub type_of : Option DiscountResult → Option DiscountType
type_of none = none
type_of (some r) = some r.kind

-- `if (discountCode)`: no code and the empty one give no discount.
abbrev pub find_discount : Env → Option Code → ℕ → Action (Option DiscountResult)
find_discount env none subtotal = pure none
find_discount env (some []) subtotal = pure none
find_discount env (some (c ∷ cs)) subtotal = do
  r ← validate_code env (c ∷ cs) subtotal
  pure (some r)

abbrev pub cart_store : Option Cart → Option (ℕ × ℕ)
cart_store none = none
cart_store (some c) = elim c.store_id [ none ↦ none | some s ↦ some (c.id, s) ]

abbrev pub is_empty {ℓ} : {A : Type ℓ} → List A → Bool
is_empty [] = true
is_empty (_ ∷ _) = false

-- The items of the cart, and the totals.
unfoldable pub quote_cart :
    Fees → Env → DeliveryMethod → Option Code → Address → ℕ × ℕ → Action Quote
quote_cart fees env method code address (cart, store) = do
  items ← gets (λ d. checkout_items d cart)
  throw_if (is_empty items) (validation Reason.cart_empty)
  discount ← find_discount env code (subtotal_of items)
  pure (record {
    address = address;
    cart_id = cart;
    store_id = store;
    items = items;
    discount = discount;
    totals = calculate_totals fees (subtotal_of items) method (discount_amount_of discount);
  })

-- Steps 1 to 3: the address, the cart with its items, and the totals.
unfoldable pub quote : Fees → Env → ℕ → DeliveryMethod → ℕ → Option Code → Action Quote
quote fees env buyer method address_id code = do
  address ←
      or_throw (← gets (λ d. find (is_address_of buyer address_id) d.addresses))
        (not_found Reason.address_not_owned)
  cart ←
      or_throw (← gets (λ d. cart_store (find (is_cart_of buyer) d.carts)))
        (validation Reason.cart_uninitialised)
  quote_cart fees env method code address cart

-- Step 6.5.
abbrev pub use_discount : Env → Option DiscountResult → Action (Unit {0})
use_discount env none = pure tt
use_discount env (some r) = elim r.kind [
  | DiscountType.voucher ↦ decrement_voucher_usage env r.id
  | DiscountType.promo ↦ pure tt
]

-- Steps 6, 6.5 and 7: the wallet pays.
unfoldable pub pay : Env → ℕ → Option DiscountResult → ℕ → Action WalletTransaction
unfolding debit_wallet post_transaction decrement_voucher_usage
pay env wallet discount amount = do
  debit_wallet env wallet amount (validation Reason.balance_changed)
  use_discount env discount
  post_transaction env (env.uuid 1) wallet (neg amount) TransactionType.payment
      (Reference.pay_ref env.random)

unfoldable pub order_of : Env → ℕ → DeliveryMethod → Quote → Order
order_of env buyer method q = record {
  id = env.uuid 2;
  buyer_id = buyer;
  store_id = q.store_id;
  delivery_method = method;
  subtotal = subtotal_of q.items;
  discount_amount = discount_amount_of q.discount;
  discount_code = code_of q.discount;
  discount_type = type_of q.discount;
  delivery_fee = q.totals.delivery_fee;
  ppn = q.totals.ppn;
  total_amount = q.totals.total_amount;
  status = sedang_dikemas;
  address_snapshot = q.address;
  created_at = env.now;
  updated_at = env.now;
}

-- Step 10; the rows draw the uuids from `n` on.
unfoldable pub order_items_of : Env → ℕ → ℕ → List CheckoutItem → List OrderItem
order_items_of env order n [] = []
order_items_of env order n (i ∷ is) =
    record {
      id = env.uuid n;
      order_id = order;
      product_id = some i.product_id;
      product_name = i.name;
      product_price = i.price;
      quantity = i.quantity;
    }
    ∷ order_items_of env order (n + 1) is

abbrev pub packed_note : Env → ℕ → StatusHistory
packed_note env order = record {
  id = env.uuid 3;
  order_id = order;
  status = sedang_dikemas;
  note = some "Order successfully created. Payment completed via wallet.";
  created_at = env.now;
}

abbrev pub is_cart : ℕ → Cart → Bool
is_cart id c = c.id == id

abbrev pub free_cart : Env → Cart → Cart
free_cart env c = record c { store_id = none; updated_at = env.now }

abbrev pub is_item_of : ℕ → CartItem → Bool
is_item_of cart i = i.cart_id == cart

-- Steps 8 to 12. The other amounts of the order are at most the total, which the wallet held.
unfoldable pub record_order : Env → ℕ → DeliveryMethod → Quote → Action Order
unfolding order_of order_items_of
record_order env buyer method q = do
  let order = order_of env buyer method q
  throw_if (ltb max_int order.subtotal) out_of_range
  modify (λ d. record d {
    orders = d.orders ++ (order ∷ []);
    order_items = d.order_items ++ order_items_of env order.id 4 q.items;
    order_status_history = d.order_status_history ++ (packed_note env order.id ∷ []);
    cart_items = delete (is_item_of q.cart_id) d.cart_items;
    carts = update (is_cart q.cart_id) (free_cart env) d.carts;
  })
  pure order

-- The body of the transaction.
unfoldable pub place : Fees → Env → ℕ → DeliveryMethod → ℕ → Option Code → Action Order
place fees env buyer method address_id code = do
  q ← quote fees env buyer method address_id code
  wallet ← get_or_create_wallet env buyer
  throw_if (ltb wallet.balance q.totals.total_amount) (validation Reason.insufficient_balance)
  reserve_stock env q.items
  pay env wallet.id q.discount q.totals.total_amount
  record_order env buyer method q

unfoldable pub create_order : Fees → Env → ℕ → DeliveryMethod → ℕ → Option Code → Action Order
unfolding place
create_order fees env buyer method address_id code =
    transaction (place fees env buyer method address_id code)
