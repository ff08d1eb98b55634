-- ===== src/Checkout/Placed.antt =====
-- What an order that was placed leaves in the tables.
use seapedia.Prelude.{
  ℕ, ◌+◌, ◌-◌, ◌*◌, ◌≤◌, ◌≡◌, refl, sym, ◌∙◌, ap, Bool, false, Option, none, some, List, [], ◌∷◌,
  ◌++◌, arith, inl, inr, neg, Bool-cases, Option-cases, find, find-delete, update, ltb, ◌==◌,
  sum_by, IsKeyed, if◌then◌else◌, All,
}
use seapedia.Db.{
  Wallet, WalletTransaction, Order, OrderItem, Db, DeliveryMethod, Code, sedang_dikemas, success,
  payment, pay_ref, max_int, OnOk, OnOk-continue, OnOk-of_state, Commits, Commits-transaction, Env,
}
use seapedia.Wallet.{is_of_user, get_or_create_wallet, covers, take_balance, post_transaction}
use seapedia.Wallet.Owned.{balance_of, OwnWallet, get_or_create_wallet-OwnWallet, debited_wallet}
use seapedia.Discounts.{DiscountResult, decrement_voucher_usage}
use seapedia.Checkout.Totals.{Fees, calculate_totals, ppn_of, fee_of}
use seapedia.Checkout.Items.{CheckoutItem, subtotal_of, reserve_stock}
use seapedia.Checkout.Place.{
  Quote, quote, use_discount, pay, place, order_of, order_items_of, is_item_of, is_cart_of,
  cart_store, record_order, create_order,
}
use seapedia.Checkout.Reads.{Quotes, IsQuoted, quote-Quotes}
use seapedia.Checkout.Stock.{on_hand, wanted, Leaves, reserve_stock-Leaves}

abbrev is_product : ℕ → Option ℕ → Bool
is_product k none = false
is_product k (some p) = p == k

-- The units of a product in the items of an order.
abbrev pub units : ℕ → List OrderItem → ℕ
units k = sum_by (λ i. if is_product k i.product_id then i.quantity else 0)

order_items_of_sums :
    (env : Env) (order n : ℕ) (is : List CheckoutItem)
    → let rows = order_items_of env order n is in
      (sum_by (λ i. i.product_price * i.quantity) rows ≡ subtotal_of is)
      × All (λ i. i.order_id ≡ order) rows
unfolding order_items_of
order_items_of_sums env order n [] = (refl, tt)
order_items_of_sums env order n (i ∷ is) =
    let (s, a) = order_items_of_sums env order (n + 1) is in (omega arith, (refl, a))

units-order_items_of :
    (env : Env) (order n k : ℕ) (is : List CheckoutItem)
    → units k (order_items_of env order n is) ≡ wanted k is
unfolding order_items_of
units-order_items_of env order n k [] = refl
units-order_items_of env order n k (i ∷ is) =
    omega (arith, units-order_items_of env order (n + 1) k is)

-- The payment: one transaction, the wallet debited, and the tables but wallets and vouchers as they
-- were.
record Pays (env : Env) (wallet amount : ℕ) (d d' : Db) : Type 0 where
  row : WalletTransaction
  on_wallet : row.wallet_id ≡ wallet
  of_amount : row.amount ≡ neg amount
  succeeds : row.status ≡ success
  debited : d'.wallets ≡ update (covers wallet amount) (take_balance env amount) d.wallets
  posted_row : d'.wallet_transactions ≡ d.wallet_transactions ++ (row ∷ [])
  rest : d' ≡ record d {
    wallets = d'.wallets;
    vouchers = d'.vouchers;
    wallet_transactions = d'.wallet_transactions;
  }

use_discount_rest :
    (env : Env) (discount : Option DiscountResult) (d : Db)
    → let d' = (use_discount env discount d).1 in d' ≡ record d { vouchers = d'.vouchers }
unfolding decrement_voucher_usage
use_discount_rest env discount d = ground arith

pay-Pays :
    (env : Env) (wallet : ℕ) (discount : Option DiscountResult) (amount : ℕ) (d : Db)
    → OnOk (λ _ d'. Pays env wallet amount d d') (pay env wallet discount amount d)
unfolding pay post_transaction
pay-Pays env wallet discount amount d =
    elim (Option-cases (find (covers wallet amount) d.wallets)) [
      | inl e ↦ rw e tt
      | inr (w, e) ↦
          let paid : Db = record d {
            wallets = update (covers wallet amount) (take_balance env amount) d.wallets;
          } in
          rw e (
            OnOk-continue (λ _ d'. d' ≡ record paid { vouchers = d'.vouchers }) _
              (use_discount env discount paid) _
              (OnOk-of_state (λ d'. d' ≡ record paid { vouchers = d'.vouchers }) _
                (use_discount_rest env discount paid))
              λ _ d₁ same. record {
                row = record {
                  id = env.uuid 1;
                  wallet_id = wallet;
                  amount = neg amount;
                  kind = payment;
                  status = success;
                  reference = pay_ref env.random;
                  created_at = env.now;
                };
                on_wallet = refl;
                of_amount = refl;
                succeeds = refl;
                debited = ap (λ x. x.wallets) same;
                posted_row = ground arith;
                rest = ground arith;
              })
    ]

-- The order `o` of a buyer, placed on `d`: the one new order, packed, at the quoted amounts; its
-- items, which left the shelf; the one charge, on the wallet that the database has for the buyer, whose
-- balance covered it and has fallen by it; and the buyer's cart, empty.
pub record Placed (fees : Fees) (buyer : ℕ) (m : DeliveryMethod) (d : Db) (o : Order) (d' : Db)
    : Type 0 where
  pub items : List OrderItem
  pub charge : WalletTransaction
  pub payer : Wallet
  pub cart : ℕ
  pub listed : d'.orders ≡ d.orders ++ (o ∷ [])
  pub packed : o.status ≡ sedang_dikemas
  pub bought : o.buyer_id ≡ buyer
  pub stored : d'.order_items ≡ d.order_items ++ items
  pub owned : All (λ i. i.order_id ≡ o.id) items
  pub priced : sum_by (λ i. i.product_price * i.quantity) items ≡ o.subtotal
  pub totalled :
      let base = o.subtotal - o.discount_amount + fee_of fees m in
      o.total_amount ≡ base + ppn_of base
  pub shipped : (k : ℕ) → on_hand k d.inventory ≡ on_hand k d'.inventory + units k items
  pub charged : d'.wallet_transactions ≡ d.wallet_transactions ++ (charge ∷ [])
  pub of_total : charge.amount ≡ neg o.total_amount
  pub paid : charge.status ≡ success
  pub on_payer : charge.wallet_id ≡ payer.id
  pub payer_of : find (is_of_user buyer) d'.wallets ≡ some payer
  pub same_payer : (w : Wallet) → find (is_of_user buyer) d.wallets ≡ some w → w.id ≡ payer.id
  pub debited : payer.balance + o.total_amount ≡ balance_of (find (is_of_user buyer) d.wallets)
  pub cart_of : cart_store (find (is_cart_of buyer) d.carts) ≡ some (cart, o.store_id)
  pub emptied : find (is_item_of cart) d'.cart_items ≡ none

record_order-Placed :
    (fees : Fees) (env : Env) (buyer : ℕ) (m : DeliveryMethod) (q : Quote) (d d₁ d₂ d₃ : Db)
    (w : Wallet)
    → IsQuoted fees buyer m d q
    → OwnWallet buyer d w d₁
    → q.totals.total_amount ≤ w.balance
    → Leaves q.items d₁ d₂
    → Pays env w.id q.totals.total_amount d₂ d₃
    → OnOk (Placed fees buyer m d) (record_order env buyer m q d₃)
unfolding record_order order_of calculate_totals
record_order-Placed fees env buyer m q d d₁ d₂ d₃ w iq (own, had, same, r₁) cover l p =
    let amount = q.totals.total_amount in
    let shelf : d₂.wallets ≡ d₁.wallets = ap (λ x. x.wallets) l.rest in
    let orders_kept : d₃.orders ≡ d.orders =
      ap (λ x. x.orders) p.rest ∙ ap (λ x. x.orders) l.rest ∙ ap (λ x. x.orders) r₁ in
    let items_kept : d₃.order_items ≡ d.order_items =
      ap (λ x. x.order_items) p.rest
      ∙ ap (λ x. x.order_items) l.rest
      ∙ ap (λ x. x.order_items) r₁ in
    let charges_kept : d₂.wallet_transactions ≡ d.wallet_transactions =
      ap (λ x. x.wallet_transactions) l.rest ∙ ap (λ x. x.wallet_transactions) r₁ in
    let before : d₁.inventory ≡ d.inventory = ap (λ x. x.inventory) r₁ in
    let after : d₃.inventory ≡ d₂.inventory = ap (λ x. x.inventory) p.rest in
    elim (Bool-cases (ltb max_int (order_of env buyer m q).subtotal)) [
      | inl e ↦ rw e tt
      | inr e ↦ rw e (record {
        items = order_items_of env (order_of env buyer m q).id 4 q.items;
        charge = p.row;
        payer = take_balance env amount w;
        cart = q.cart_id;
        listed = rw orders_kept;
        packed = refl;
        bought = refl;
        stored = rw items_kept;
        owned = (order_items_of_sums env (order_of env buyer m q).id 4 q.items).1;
        priced = (order_items_of_sums env (order_of env buyer m q).id 4 q.items).0;
        totalled = rw iq.totals_of;
        shipped = λ k.
            rw (after, ← before)
              (l.taken k
                ∙ ap (λ (n : ℕ). on_hand k d₂.inventory + n)
                    (sym (units-order_items_of env _ 4 k q.items)));
        charged = rw (p.posted_row, charges_kept);
        of_total = p.of_amount;
        paid = p.succeeds;
        on_payer = p.on_wallet;
        payer_of = rw (p.debited, shelf) (debited_wallet env buyer amount w d₁.wallets own cover);
        same_payer = same;
        debited = omega (arith, cover, had);
        cart_of = iq.cart_of;
        emptied = find-delete (is_item_of q.cart_id) d₃.cart_items;
      })
    ]

place-Placed :
    (fees : Fees) (env : Env) (buyer : ℕ) (m : DeliveryMethod) (a : ℕ) (code : Option Code) (d : Db)
    → IsKeyed (λ r. r.product_id) d.inventory
    → OnOk (Placed fees buyer m d) (place fees env buyer m a code d)
unfolding place
place-Placed fees env buyer m a code d keyed =
    OnOk-continue (Quotes fees buyer m d) _ (quote fees env buyer m a code d) _
      (quote-Quotes fees env buyer m a code d)
      λ q d₀ (same, iq). rw same (
        OnOk-continue (OwnWallet buyer d) _ (get_or_create_wallet env buyer d) _
          (get_or_create_wallet-OwnWallet env buyer d)
          λ w d₁ own. elim (Bool-cases (ltb w.balance q.totals.total_amount)) [
            | inl e ↦ rw e tt
            | inr e ↦ rw e (
                OnOk-continue (λ _ d'. Leaves q.items d₁ d') _ (reserve_stock env q.items d₁) _
                  (reserve_stock-Leaves env q.items d₁ (rw (ap (λ x. x.inventory) own.3) keyed))
                  λ _ d₂ l.
                    OnOk-continue (λ _ d'. Pays env w.id q.totals.total_amount d₂ d') _
                      (pay env w.id q.discount q.totals.total_amount d₂) _
                      (pay-Pays env w.id q.discount q.totals.total_amount d₂)
                      λ _ d₃ p.
                        record_order-Placed fees env buyer m q d d₁ d₂ d₃ w iq own (ground arith) l
                          p)
          ])

-- Where product ids are unique in the stock, a checkout either throws and changes nothing, or places
-- an order: it is the one new order, packed and of the buyer; its total is the discounted subtotal
-- with the fee and the tax on both, and its subtotal is the sum over its items; each product's stock
-- falls by the ordered units; the one new transaction charges the total to the wallet that the database
-- has for the buyer, whose balance held the total and falls by it; and the buyer's cart is left empty.
pub create_order-Placed :
    (fees : Fees) (env : Env) (buyer : ℕ) (m : DeliveryMethod) (a : ℕ) (code : Option Code) (d : Db)
    → IsKeyed (λ r. r.product_id) d.inventory
    → Commits (Placed fees buyer m d) d (create_order fees env buyer m a code d)
unfolding create_order
create_order-Placed fees env buyer m a code d keyed =
    Commits-transaction (Placed fees buyer m d) (place fees env buyer m a code) d
      (place-Placed fees env buyer m a code d keyed)
