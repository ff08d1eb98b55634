-- ===== src/Checkout/Payment.antt =====
-- Checkout and the ledger of the wallets.
use seapedia.Prelude.{
  ℕ, ◌≡◌, refl, Option, List, arith, inl, inr, Bool-cases, Option-cases, find, update, sort_by, ltb,
}
use seapedia.Db.{
  Db, DeliveryMethod, Code, ok, err, OnOk, OnOk-continue, OnOk-of_state, transaction_state, max_int,
  Env,
}
use seapedia.Wallet.{covers, take_balance, get_or_create_wallet}
use seapedia.Wallet.Ledger.{
  IsBalanced, IsUnposted, get_or_create_wallet-IsBalanced, debit-IsBalanced,
}
use seapedia.Discounts.{DiscountResult, decrement_voucher_usage}
use seapedia.Checkout.Totals.{Fees}
use seapedia.Checkout.Items.{CheckoutItem, by_product, reserve_rows, write_reserved, reserve_stock}
use seapedia.Checkout.Place.{
  Quote, quote, use_discount, pay, place, order_of, record_order, create_order,
}
use seapedia.Checkout.Reads.{Quotes, quote-Quotes}

-- Reserving stock touches no wallet.
reserve_stock-IsBalanced :
    (env : Env) (items : List CheckoutItem) (d : Db)
    → IsBalanced d
    → IsBalanced (reserve_stock env items d).1
unfolding reserve_stock
reserve_stock-IsBalanced env items d h =
    elim (reserve_rows env (sort_by by_product items) d.inventory)
      as (λ r. IsBalanced (write_reserved d r).1) [ ok _ ↦ h | err _ ↦ h ]

-- Nor does a voucher.
use_discount_wallets :
    (env : Env) (discount : Option DiscountResult) (d : Db)
    → let d' = (use_discount env discount d).1 in
      (d'.wallets ≡ d.wallets) × (d'.wallet_transactions ≡ d.wallet_transactions)
unfolding decrement_voucher_usage
use_discount_wallets env discount d = ground arith

pay-IsBalanced :
    (env : Env) (wallet : ℕ) (discount : Option DiscountResult) (amount : ℕ) (d : Db)
    → IsBalanced d
    → OnOk (λ _ d'. IsBalanced d') (pay env wallet discount amount d)
unfolding pay
pay-IsBalanced env wallet discount amount d h =
    elim (Option-cases (find (covers wallet amount) d.wallets)) [
      | inl e ↦ rw e tt
      | inr (w, e) ↦
          let paid : Db = record d {
            wallets = update (covers wallet amount) (take_balance env amount) d.wallets;
          } in
          rw e (
            OnOk-continue
              (λ _ d'.
                (d'.wallets ≡ paid.wallets) × (d'.wallet_transactions ≡ d.wallet_transactions))
              _ (use_discount env discount paid) _
              (OnOk-of_state
                (λ d'.
                  (d'.wallets ≡ paid.wallets) × (d'.wallet_transactions ≡ d.wallet_transactions))
                _ (use_discount_wallets env discount paid))
              λ _ d₁ (ws, ts).
                rw (ws, ts)
                  (debit-IsBalanced env _ wallet amount d.wallets d.wallet_transactions refl refl
                    refl e h))
    ]

record_order-IsBalanced :
    (env : Env) (buyer : ℕ) (m : DeliveryMethod) (q : Quote) (d : Db)
    → IsBalanced d
    → OnOk (λ _ d'. IsBalanced d') (record_order env buyer m q d)
unfolding record_order
record_order-IsBalanced env buyer m q d h =
    elim (Bool-cases (ltb max_int (order_of env buyer m q).subtotal)) [
      | inl e ↦ rw e tt
      | inr e ↦ rw e h
    ]

place-IsBalanced :
    (fees : Fees) (env : Env) (buyer : ℕ) (m : DeliveryMethod) (a : ℕ) (code : Option Code) (d : Db)
    → IsUnposted (env.uuid 0) d.wallet_transactions
    → IsBalanced d
    → OnOk (λ _ d'. IsBalanced d') (place fees env buyer m a code d)
unfolding place
place-IsBalanced fees env buyer m a code d fresh h =
    OnOk-continue (Quotes fees buyer m d) _ (quote fees env buyer m a code d) _
      (quote-Quotes fees env buyer m a code d)
      λ q d₁ (same, _). rw same (
        OnOk-continue (λ _ d'. IsBalanced d') _ (get_or_create_wallet env buyer d) _
          (OnOk-of_state IsBalanced _ (get_or_create_wallet-IsBalanced env buyer d fresh h))
          λ w d₂ h₂. elim (Bool-cases (ltb w.balance q.totals.total_amount)) [
            | inl e ↦ rw e tt
            | inr e ↦ rw e (
                OnOk-continue (λ _ d'. IsBalanced d') _ (reserve_stock env q.items d₂) _
                  (OnOk-of_state IsBalanced _ (reserve_stock-IsBalanced env q.items d₂ h₂))
                  λ _ d₃ h₃.
                    OnOk-continue (λ _ d'. IsBalanced d') _
                      (pay env w.id q.discount q.totals.total_amount d₃) _
                      (pay-IsBalanced env w.id q.discount q.totals.total_amount d₃ h₃)
                      λ _ d₄ h₄. record_order-IsBalanced env buyer m q d₄ h₄)
          ])

-- Where no transaction names the wallet that a checkout may make, and every balance is the sum of its
-- successful transactions, that is so after the checkout, in whichever way it ends.
pub create_order-IsBalanced :
    (fees : Fees) (env : Env) (buyer : ℕ) (m : DeliveryMethod) (a : ℕ) (code : Option Code) (d : Db)
    → IsUnposted (env.uuid 0) d.wallet_transactions
    → IsBalanced d
    → IsBalanced (create_order fees env buyer m a code d).1
unfolding create_order
create_order-IsBalanced fees env buyer m a code d fresh h =
    transaction_state IsBalanced (place fees env buyer m a code) d h
      (place-IsBalanced fees env buyer m a code d fresh h)
