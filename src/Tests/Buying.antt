-- ===== src/Tests/Buying.antt =====
-- Buying: wallet, cart, discounts, checkout and addresses, at a small shop.
use seapedia.Prelude.{
  ℕ, ◌≤◌, ◌<◌, ◌≡◌, ◌≢◌, refl, arith, true, false, none, some, [], ◌∷◌, map, pos, find, ◌==◌,
}
use seapedia.Db.{Order, Db, regular, ok, Commits, OnOk}
use seapedia.Wallet.{debit_wallet, get_or_create_wallet, post_transaction, direct_top_up}
use seapedia.Wallet.Ledger.{IsBalanced, direct_top_up-IsBalanced}
use seapedia.Discounts.{
  has_code, promo_has_code, validate_code, use_voucher, voucher_result, decrement_voucher_usage,
}
use seapedia.Discounts.Codes.{normalize, trim, upper, drop_spaces}
use seapedia.Discounts.Bounds.{IsGranted, validate_code-IsGranted}
use seapedia.Checkout.Totals.{fee_of, ppn_of, calculate_totals}
use seapedia.Checkout.Items.{join_items, checkout_items, reserve_rows, reserve_stock}
use seapedia.Checkout.Success.{create_order_succeeds}
use seapedia.Checkout.Place.{
  Quote, quote_cart, quote, pay, order_of, order_items_of, record_order, place, create_order,
}
use seapedia.Checkout.Placed.{Placed, create_order-Placed}
use seapedia.Checkout.Payment.{create_order-IsBalanced}
use seapedia.Checkout.Preview.{Preview, preview}
use seapedia.Checkout.Agreement.{Shows, preview-create_order}
use seapedia.Cart.Added.{Added, add_item_to_cart-Added}
use seapedia.Cart.{add_item, add_item_to_cart, has_product}
use seapedia.Addresses.Defaults.{HasSoleDefault, remove, prefer, call_all, sole_default}
use seapedia.Tests.Shop.{clock, home, wallet, shop, fees, code, shop-IsBalanced}

apart : (a b : ℕ) → (a == b) ≡ false → a ≢ b
apart a b h = λ e. ground arith

direct_top_up-IsBalanced_example : IsBalanced (direct_top_up clock 1 250 shop).1
direct_top_up-IsBalanced_example =
    direct_top_up-IsBalanced clock 1 250 shop (apart 10 100 refl, tt) shop-IsBalanced

abbrev placed : Db
placed = (create_order fees clock 1 regular 20 (some code) shop).1

create_order_pays :
    (map (λ w. w.balance) placed.wallets ≡ 343_200 ∷ [])
    × (map (λ s. s.stock) placed.inventory ≡ 3 ∷ [])
    × (map (λ v. v.remaining_usage) placed.vouchers ≡ 0 ∷ [])
    × (map (λ o. o.total_amount) placed.orders ≡ 156_800 ∷ [])
    × (placed.cart_items ≡ [])
unfolding create_order place quote quote_cart validate_code normalize trim upper drop_spaces
    use_voucher voucher_result calculate_totals fee_of ppn_of checkout_items join_items
    reserve_stock reserve_rows pay get_or_create_wallet post_transaction decrement_voucher_usage
    record_order order_of order_items_of
create_order_pays = (refl, refl, refl, refl, refl)

create_order-Placed_example :
    Commits
      (Placed fees 1 regular shop)
      shop
      (create_order fees clock 1 regular 20 (some code) shop)
create_order-Placed_example = create_order-Placed fees clock 1 regular 20 (some code) shop (tt, tt)

create_order-IsBalanced_example :
    IsBalanced (create_order fees clock 1 regular 20 (some code) shop).1
create_order-IsBalanced_example =
    create_order-IsBalanced fees clock 1 regular 20 (some code) shop (apart 10 100 refl, tt)
      shop-IsBalanced

validate_code-IsGranted_example :
    OnOk
      (λ r d'.
        (d' ≡ shop)
        × (r.discount_amount ≤ 150_000)
        × IsGranted clock 150_000 r
            (find (has_code (normalize code)) shop.vouchers)
            (find (promo_has_code (normalize code)) shop.promos))
      (validate_code clock code 150_000 shop)
validate_code-IsGranted_example = validate_code-IsGranted clock code 150_000 shop

sole_default_example :
    HasSoleDefault 1 (call_all 1 ((clock, remove 20) ∷ (clock, prefer 20) ∷ []) shop)
sole_default_example =
    sole_default 1 ((clock, remove 20) ∷ (clock, prefer 20) ∷ []) shop (20, ((λ _. refl), tt))

abbrev two_bags : Quote
two_bags = record {
  address = home;
  cart_id = 30;
  store_id = 40;
  items =
      record {
        cart_item_id = 31;
        product_id = 50;
        quantity = 2;
        name = "Beras";
        price = 75_000;
        stock = 5;
        store_id = 40;
      }
      ∷ [];
  discount = none;
  totals = calculate_totals fees 150_000 regular 0;
}

abbrev order : Order
order = order_of clock 1 regular two_bags

orders : (create_order fees clock 1 regular 20 none shop).0 ≡ ok order
unfolding create_order place quote quote_cart calculate_totals fee_of ppn_of checkout_items
    join_items reserve_stock reserve_rows pay debit_wallet get_or_create_wallet post_transaction
    record_order order_of order_items_of
orders = refl

preview-create_order_example :
    (p : Preview) × (preview fees clock 1 regular none shop ≡ (ok p, shop)) × Shows p order
preview-create_order_example = preview-create_order fees clock 1 regular 20 none shop order orders

add_item_to_cart-Added_example :
    Commits
      (λ i d'. (0 < 3) × (has_product 50 shop ≡ true) × Added 1 50 3 shop i d')
      shop
      (add_item_to_cart clock 1 50 (pos 3) shop)
add_item_to_cart-Added_example = add_item_to_cart-Added clock 1 50 (pos 3) shop

adds : map (λ i. i.quantity) (add_item_to_cart clock 1 50 (pos 3) shop).1.cart_items ≡ 5 ∷ []
unfolding add_item_to_cart add_item
adds = refl

quoted : quote fees clock 1 regular 20 none shop ≡ (ok two_bags, shop)
unfolding quote quote_cart checkout_items join_items
quoted = refl

create_order_succeeds_example : (create_order fees clock 1 regular 20 none shop).0 ≡ ok order
unfolding calculate_totals fee_of ppn_of
create_order_succeeds_example =
    create_order_succeeds fees clock 1 regular 20 none shop two_bags wallet quoted refl
      (ground arith) (tt, tt)
      ((refl, (record { product_id = 50; stock = 5; version = 1; updated_at = 1 }, refl)), tt)
      (ground arith)
