-- ===== src/Checkout/Success.antt =====
-- When a checkout succeeds.
use seapedia.Prelude.{
  ℕ, ◌≤◌, ◌≡◌, ◌≢◌, refl, ◌∙◌, ap, arith, inl, inr, true, false, Option, none, some, List, [], ◌∷◌,
  ◌++◌, map, neg, Option-cases, find, find-some, find-update_miss, update, sort_by, All, All-zip,
  All-sort_by, IsKeyed, IsKeyed-sort_by, ltb,
}
use seapedia.Db.{
  Order, WalletTransaction, payment, success, pay_ref, Stock, Voucher, Wallet, DiscountType,
  voucher, DeliveryMethod, Code, Db, Result, ok, err, Promo, OnOk, OnOk-ok, OnOk-continue, max_int,
  Env, commit_or_rollback,
}
use seapedia.Wallet.{
  is_of_user, covers, get_or_create_wallet, debit_wallet, post_transaction, take_balance,
}
use seapedia.Discounts.{
  DiscountResult, has_code, promo_has_code, validate_code, is_usable, use_once,
  decrement_voucher_usage,
}
use seapedia.Discounts.Codes.{normalize}
use seapedia.Discounts.Bounds.{IsGranted, IsVoucherGrant, validate_code-IsGranted}
use seapedia.Checkout.Totals.{Fees}
use seapedia.Checkout.Items.{
  CheckoutItem, by_product, has_stock, take_stock, reserve_rows, checkout_items, reserve_stock,
  inventory_event, subtotal_of,
}
use seapedia.Checkout.Agreement.{IsMade, quote-IsMade}
use seapedia.Checkout.Place.{
  Quote, quote, find_discount, use_discount, pay, place, record_order, order_of, create_order,
}

-- The stock that was read covers the item, and so does the one that is there.
abbrev pub InStock : List Stock → CheckoutItem → Type 0
InStock rows i =
    (ltb i.stock i.quantity ≡ false)
    × ((s : Stock) × (find (has_stock i.product_id i.quantity) rows ≡ some s))

-- Taking one product leaves the others in stock.
InStock-take :
    (env : Env) (i j : CheckoutItem) (rows : List Stock)
    → j.product_id ≢ i.product_id
    → InStock rows j
    → InStock (update (has_stock i.product_id i.quantity) (take_stock env i.quantity) rows) j
InStock-take env i j rows apart (low, (s, e)) = (
  low,
  (
    s,
    find-update_miss (has_stock j.product_id j.quantity) (has_stock i.product_id i.quantity)
          (take_stock env i.quantity) rows (λ y h. ground arith) (λ y h. ground arith)
        ∙ e,
  ),
)

reserve_rows_succeeds :
    (env : Env) (is : List CheckoutItem) (rows : List Stock)
    → IsKeyed (λ i. i.product_id) is
    → All (InStock rows) is
    → (x : List Stock × List Stock) × (reserve_rows env is rows ≡ ok x)
unfolding reserve_rows
reserve_rows_succeeds env [] rows _ _ = (([], rows), refl)
reserve_rows_succeeds env (i ∷ is) rows (new, keyed) ((low, (s, e)), later) =
    let rows₁ = update (has_stock i.product_id i.quantity) (take_stock env i.quantity) rows in
    let (x, done) = reserve_rows_succeeds env is rows₁ keyed (
      All-zip (λ j. j.product_id ≢ i.product_id) (InStock rows) (InStock rows₁)
        (λ j n h. InStock-take env i j rows n h) is new later) in
    ((take_stock env i.quantity s ∷ x.0, x.1), rw (low, e, done) refl)

-- After a reservation: the tables but the stock and the outbox as they were.
reserve_stock_succeeds :
    (env : Env) (items : List CheckoutItem) (d : Db)
    → IsKeyed (λ i. i.product_id) items
    → All (InStock d.inventory) items
    → (d' : Db) × (reserve_stock env items d ≡ (ok tt, d'))
      × (d'.wallets ≡ d.wallets)
      × (d'.vouchers ≡ d.vouchers)
unfolding reserve_stock
reserve_stock_succeeds env items d keyed there =
    let (x, done) =
      reserve_rows_succeeds env (sort_by by_product items) d.inventory
        (IsKeyed-sort_by (λ i. i.product_id) by_product items keyed)
        (All-sort_by (InStock d.inventory) by_product items there) in
    (
      record d { inventory = x.1; outbox = d.outbox ++ map inventory_event x.0 },
      rw done refl,
      refl,
      refl,
    )

-- A discount that was granted can be used.
abbrev Usable : Option DiscountResult → Db → Type 0
Usable none d = Unit
Usable (some r) d = r.kind ≡ voucher → (v : Voucher) × (find (is_usable r.id) d.vouchers ≡ some v)

granted-Usable :
    (env : Env) (code : Code) (n : ℕ) (d : Db) (r : DiscountResult)
    → IsGranted env n r
        (find (has_code (normalize code)) d.vouchers)
        (find (promo_has_code (normalize code)) d.promos)
    → Usable (some r) d
granted-Usable env code n d r h =
    elim (Option-cases (find (has_code (normalize code)) d.vouchers)) [
      | inl e ↦ by_promo (find (promo_has_code (normalize code)) d.promos) (rw e at h)
      | inr (v, e) ↦ λ _.
          find-some (has_code (normalize code)) (is_usable r.id) d.vouchers e (usable v (rw e at h))
    ]
  where
    by_promo : (p : Option Promo) → IsGranted env n r none p → Usable (some r) d
    by_promo none g = absurd g
    by_promo (some p) g = λ k. cc (k, g.kind_of)

    usable : (v : Voucher) → IsVoucherGrant env n r v → is_usable r.id v ≡ true
    usable v g = ground (arith, g.named, g.left)

find_discount-Usable :
    (env : Env) (code : Option Code) (n : ℕ) (d : Db)
    → OnOk (λ r _. Usable r d) (find_discount env code n d)
find_discount-Usable env none n d = tt
find_discount-Usable env (some []) n d = tt
find_discount-Usable env (some (c ∷ cs)) n d =
    OnOk-continue _ (λ r _. Usable r d) (validate_code env (c ∷ cs) n d) _
      (validate_code-IsGranted env (c ∷ cs) n d)
      (λ r _ (_, _, g). granted-Usable env (c ∷ cs) n d r g)

use_discount_succeeds :
    (env : Env) (discount : Option DiscountResult) (d d' : Db)
    → Usable discount d
    → d'.vouchers ≡ d.vouchers
    → (d'' : Db) × (use_discount env discount d' ≡ (ok tt, d''))
unfolding decrement_voucher_usage
use_discount_succeeds env none d d' _ same = (d', refl)
use_discount_succeeds env (some r) d d' u same = go r.kind refl
  where
    go :
        (k : DiscountType) → r.kind ≡ k → (d'' : Db) × (use_discount env (some r) d' ≡ (ok tt, d''))
    go DiscountType.promo e = (d', rw (use_discount, e))
    go DiscountType.voucher e =
        let (v, f) = u e in
        (
          record d' { vouchers = update (is_usable r.id) (use_once env) d'.vouchers },
          rw (use_discount, e, same, f),
        )

pay_succeeds :
    (env : Env) (user : ℕ) (w : Wallet) (discount : Option DiscountResult) (amount : ℕ) (d d' : Db)
    → find (is_of_user user) d.wallets ≡ some w
    → amount ≤ w.balance
    → d'.wallets ≡ d.wallets
    → Usable discount d
    → d'.vouchers ≡ d.vouchers
    → (t : WalletTransaction) × (d'' : Db) × (pay env w.id discount amount d' ≡ (ok t, d''))
unfolding pay debit_wallet post_transaction
pay_succeeds env user w discount amount d d' found enough same u vouchers =
    let (v, f) = find-some (is_of_user user) (covers w.id amount) d.wallets found (ground arith) in
    let f' : find (covers w.id amount) d'.wallets ≡ some v = rw same f in
    let paid : Db = record d' {
      wallets = update (covers w.id amount) (take_balance env amount) d'.wallets;
    } in
    let (d'', used) = use_discount_succeeds env discount d paid u vouchers in
    let row : WalletTransaction = record {
      id = env.uuid 1;
      wallet_id = w.id;
      amount = neg amount;
      kind = payment;
      status = success;
      reference = pay_ref env.random;
      created_at = env.now;
    } in
    (
      row,
      record d'' { wallet_transactions = d''.wallet_transactions ++ (row ∷ []) },
      rw (f', used) refl,
    )

place_succeeds :
    (fees : Fees) (env : Env) (buyer : ℕ) (m : DeliveryMethod) (a : ℕ) (code : Option Code) (d : Db)
    (q : Quote) (w : Wallet)
    → quote fees env buyer m a code d ≡ (ok q, d)
    → Usable q.discount d
    → find (is_of_user buyer) d.wallets ≡ some w
    → q.totals.total_amount ≤ w.balance
    → IsKeyed (λ i. i.product_id) q.items
    → All (InStock d.inventory) q.items
    → subtotal_of q.items ≤ max_int
    → (place fees env buyer m a code d).0 ≡ ok (order_of env buyer m q)
unfolding place get_or_create_wallet record_order order_of
place_succeeds fees env buyer m a code d q w quoted u found enough keyed there fits =
    let (d₁, reserved, wallets, vouchers) = reserve_stock_succeeds env q.items d keyed there in
    let (t, d₂, paid) =
      pay_succeeds env buyer w q.discount q.totals.total_amount d d₁ found enough wallets u
        vouchers in
    let covered : ltb w.balance q.totals.total_amount ≡ false = ground arith in
    let in_range : ltb max_int (order_of env buyer m q).subtotal ≡ false = ground arith in
    rw (quoted, found, covered, reserved, paid, in_range) refl

-- A checkout places the quoted order where: the quote succeeds; the buyer's wallet holds the total; no
-- two items are of one product, and the stock covers each, as it was read and as it is; and the
-- subtotal is in the range of its column. A discount that was quoted never stands in the way.
pub create_order_succeeds :
    (fees : Fees) (env : Env) (buyer : ℕ) (m : DeliveryMethod) (a : ℕ) (code : Option Code) (d : Db)
    (q : Quote) (w : Wallet)
    → quote fees env buyer m a code d ≡ (ok q, d)
    → find (is_of_user buyer) d.wallets ≡ some w
    → q.totals.total_amount ≤ w.balance
    → IsKeyed (λ i. i.product_id) q.items
    → All (InStock d.inventory) q.items
    → subtotal_of q.items ≤ max_int
    → (create_order fees env buyer m a code d).0 ≡ ok (order_of env buyer m q)
unfolding create_order
create_order_succeeds fees env buyer m a code d q w quoted found enough keyed there fits =
    let made =
      OnOk-ok (λ v _. IsMade fees env buyer m code d v) (quote fees env buyer m a code d) q
        (quote-IsMade fees env buyer m a code d) (ap (λ x. x.0) quoted) in
    let n : ℕ = subtotal_of (checkout_items d made.cart.id) in
    let usable : Usable q.discount d =
      OnOk-ok (λ r _. Usable r d) (find_discount env code n d) q.discount
        (find_discount-Usable env code n d) (ap (λ x. x.0) made.discounted) in
    committed d (place fees env buyer m a code d)
      (place_succeeds fees env buyer m a code d q w quoted usable found enough keyed there fits)
  where
    committed :
        {o : Order} (before : Db) (r : Result Order × Db)
        → r.0 ≡ ok o
        → (commit_or_rollback before r).0 ≡ ok o
    committed before (ok _, _) e = e
    committed before (err _, _) e = cc
