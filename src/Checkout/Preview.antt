-- ===== src/Checkout/Preview.antt =====
-- `preview` of OrdersCheckoutService: what a checkout would cost.
use seapedia.Prelude.{ℕ, ◌*◌, Option, none, some, List, [], ◌∷◌, map, String}
use seapedia.Db.{Address, DeliveryMethod, DiscountType, Code, Action, pure, gets, ◌>>=◌, Env}
use seapedia.Addresses.{get_addresses}
use seapedia.Cart.Summary.{SummaryItem, CartSummary, get_cart_summary}
use seapedia.Checkout.Totals.{Fees, calculate_totals}
use seapedia.Checkout.Place.{find_discount, discount_amount_of, code_of, type_of}

pub record PreviewItem : Type 0 where
  pub product_id : ℕ
  pub name : String
  pub price : ℕ
  pub quantity : ℕ
  pub total : ℕ

abbrev preview_item : SummaryItem → PreviewItem
preview_item i = record {
  product_id = i.product_id;
  name = i.name;
  price = i.price;
  quantity = i.quantity;
  total = i.price * i.quantity;
}

pub record Preview : Type 0 where
  pub items : List PreviewItem
  pub subtotal : ℕ
  pub discount_amount : ℕ
  pub discount_code : Option Code
  pub discount_type : Option DiscountType
  pub delivery_fee : ℕ
  pub tax_base : ℕ
  pub ppn : ℕ
  pub total_amount : ℕ
  pub delivery_method : DeliveryMethod
  pub address : Option Address
  pub store_id : Option ℕ
  pub store_name : Option String

-- The answer for an empty cart.
abbrev pub nothing_to_buy : DeliveryMethod → Preview
nothing_to_buy method = record {
  items = [];
  subtotal = 0;
  discount_amount = 0;
  discount_code = none;
  discount_type = none;
  delivery_fee = 0;
  tax_base = 0;
  ppn = 0;
  total_amount = 0;
  delivery_method = method;
  address = none;
  store_id = none;
  store_name = none;
}

abbrev first : List Address → Option Address
first [] = none
first (a ∷ _) = some a

-- The preview of a cart that has items.
unfoldable pub preview_items :
    Fees → Env → ℕ → DeliveryMethod → Option Code → CartSummary → Action Preview
unfolding get_addresses calculate_totals
preview_items fees env buyer method code cart = do
  address ← gets (λ d. first (get_addresses buyer d))
  discount ← find_discount env code cart.subtotal
  let totals = calculate_totals fees cart.subtotal method (discount_amount_of discount)
  pure (record {
    items = map preview_item cart.items;
    subtotal = cart.subtotal;
    discount_amount = discount_amount_of discount;
    discount_code = code_of discount;
    discount_type = type_of discount;
    delivery_fee = totals.delivery_fee;
    tax_base = totals.tax_base;
    ppn = totals.ppn;
    total_amount = totals.total_amount;
    delivery_method = method;
    address = address;
    store_id = cart.store_id;
    store_name = cart.store_name;
  })

abbrev pub preview_cart :
    Fees → Env → ℕ → DeliveryMethod → Option Code → CartSummary → List SummaryItem → Action Preview
preview_cart fees env buyer method code cart [] = pure (nothing_to_buy method)
preview_cart fees env buyer method code cart (_ ∷ _) = preview_items fees env buyer method code cart

unfoldable pub preview : Fees → Env → ℕ → DeliveryMethod → Option Code → Action Preview
unfolding get_cart_summary preview_items
preview fees env buyer method code = do
  cart ← get_cart_summary env buyer
  preview_cart fees env buyer method code cart cart.items
