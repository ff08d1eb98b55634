-- ===== src/Checkout/Agreement.antt =====
-- The preview and the order agree on the amounts.
use seapedia.Prelude.{
  ℕ, ◌*◌, ◌≡◌, refl, sym, ◌∙◌, ap, arith, inl, inr, false, Option, none, some, List, [], ◌∷◌,
  Bool-cases, Option-cases, find, select, sum_by, ltb, select-none,
}
use seapedia.Db.{
  Cart, CartItem, Order, DeliveryMethod, Code, Db, Result, ok, err, OnOk, OnOk-continue, OnOk-ok,
  OnOk-imp, OnOk-Unit, OnOk-transaction, Env, Address, max_int,
}
use seapedia.Wallet.{get_or_create_wallet}
use seapedia.Discounts.{DiscountResult}
use seapedia.Cart.{is_item_of, get_or_create_cart}
use seapedia.Cart.Summary.{SummaryItem, CartSummary, summary_items, summarize, get_cart_summary}
use seapedia.Checkout.Totals.{Fees, calculate_totals}
use seapedia.Checkout.Items.{join_items, checkout_items, subtotal_of, reserve_stock}
use seapedia.Checkout.Place.{
  Quote, quote, quote_cart, is_empty, is_cart_of, is_address_of, find_discount, discount_amount_of,
  create_order, place, pay, order_of, record_order,
}
use seapedia.Checkout.Reads.{find_discount-same}
use seapedia.Checkout.Preview.{Preview, preview, preview_items, preview_cart}

-- The summary of a cart and the items of a checkout are one join.
summary_items-join_items :
    (d : Db) (cs : List CartItem)
    → (sum_by (λ i. i.price * i.quantity) (summary_items d cs) ≡ subtotal_of (join_items d cs))
      × (is_empty (summary_items d cs) ≡ is_empty (join_items d cs))
unfolding summary_items join_items
summary_items-join_items d [] = (refl, refl)
summary_items-join_items d (c ∷ cs) = ground (arith, summary_items-join_items d cs)

discount_kept :
    (env : Env) (code : Option Code) (n : ℕ) (d : Db)
    → OnOk (λ r _. find_discount env code n d ≡ (ok r, d)) (find_discount env code n d)
discount_kept env code n d = go (find_discount env code n d) refl
  where
    go :
        (x : Result (Option DiscountResult) × Db)
        → find_discount env code n d ≡ x
        → OnOk (λ r _. find_discount env code n d ≡ (ok r, d)) x
    go (ok r, d') e =
        let same : d' ≡ d = sym (ap (λ x. x.1) e) ∙ find_discount-same env code n d in
        e ∙ ap (λ (v : Db). (ok r, v)) same
    go (err _, _) e = tt

-- What a quote is made of.
pub record IsMade (fees : Fees) (env : Env) (buyer : ℕ) (m : DeliveryMethod) (code : Option Code)
    (d : Db) (q : Quote) : Type 0 where
  pub cart : Cart
  pub found : find (is_cart_of buyer) d.carts ≡ some cart
  pub of_store : cart.store_id ≡ some q.store_id
  pub read : q.items ≡ checkout_items d cart.id
  pub filled : is_empty (checkout_items d cart.id) ≡ false
  pub discounted :
      find_discount env code (subtotal_of (checkout_items d cart.id)) d ≡ (ok q.discount, d)
  pub totalled :
      q.totals
      ≡ calculate_totals fees
          (subtotal_of (checkout_items d cart.id))
          m
          (discount_amount_of q.discount)

quote_cart-IsMade :
    (fees : Fees) (env : Env) (buyer : ℕ) (m : DeliveryMethod) (code : Option Code) (a : Address)
    (c : Cart) (s : ℕ) (d : Db)
    → find (is_cart_of buyer) d.carts ≡ some c
    → c.store_id ≡ some s
    → OnOk (λ q _. IsMade fees env buyer m code d q) (quote_cart fees env m code a (c.id, s) d)
unfolding quote_cart
quote_cart-IsMade fees env buyer m code a c s d found at =
    elim (Bool-cases (is_empty (checkout_items d c.id))) [
      | inl e ↦ rw e tt
      | inr e ↦ rw e (
          OnOk-continue
            (λ r _. find_discount env code (subtotal_of (checkout_items d c.id)) d ≡ (ok r, d))
            (λ q _. IsMade fees env buyer m code d q)
            (find_discount env code (subtotal_of (checkout_items d c.id)) d) _
            (discount_kept env code (subtotal_of (checkout_items d c.id)) d)
            (λ r _ k. record {
              cart = c;
              found = found;
              of_store = at;
              read = refl;
              filled = e;
              discounted = k;
              totalled = refl;
            }))
    ]

pub quote-IsMade :
    (fees : Fees) (env : Env) (buyer : ℕ) (m : DeliveryMethod) (a : ℕ) (code : Option Code) (d : Db)
    → OnOk (λ q _. IsMade fees env buyer m code d q) (quote fees env buyer m a code d)
unfolding quote
quote-IsMade fees env buyer m a code d =
    elim (Option-cases (find (is_address_of buyer a) d.addresses)) [
      | inl e ↦ rw e tt
      | inr (address, e) ↦ rw e (elim (Option-cases (find (is_cart_of buyer) d.carts)) [
        | inl e' ↦ rw e' tt
        | inr (c, e') ↦ rw e' (elim (Option-cases c.store_id) [
          | inl e'' ↦ rw e'' tt
          | inr (s, e'') ↦ rw e'' (quote_cart-IsMade fees env buyer m code address c s d e' e'')
        ])
      ])
    ]

abbrev Ordered : Fees → Env → ℕ → DeliveryMethod → Option Code → Db → Order → Type 0
Ordered fees env buyer m code d o =
    (q : Quote) × IsMade fees env buyer m code d q × (o ≡ order_of env buyer m q)

record_order-order_of :
    (env : Env) (buyer : ℕ) (m : DeliveryMethod) (q : Quote) (d : Db)
    → OnOk (λ o _. o ≡ order_of env buyer m q) (record_order env buyer m q d)
unfolding record_order
record_order-order_of env buyer m q d =
    elim (Bool-cases (ltb max_int (order_of env buyer m q).subtotal)) [
      | inl e ↦ rw e tt
      | inr e ↦ rw e refl
    ]

place-Ordered :
    (fees : Fees) (env : Env) (buyer : ℕ) (m : DeliveryMethod) (a : ℕ) (code : Option Code) (d : Db)
    → OnOk (λ o _. Ordered fees env buyer m code d o) (place fees env buyer m a code d)
unfolding place
place-Ordered fees env buyer m a code d =
    OnOk-continue (λ q _. IsMade fees env buyer m code d q) _ (quote fees env buyer m a code d) _
      (quote-IsMade fees env buyer m a code d)
      λ q d₀ made.
        OnOk-continue (λ _ _. Unit {0}) _ (get_or_create_wallet env buyer d₀) _ (OnOk-Unit _)
          λ w d₁ _. elim (Bool-cases (ltb w.balance q.totals.total_amount)) [
            | inl e ↦ rw e tt
            | inr e ↦ rw e (
                OnOk-continue (λ _ _. Unit {0}) _ (reserve_stock env q.items d₁) _ (OnOk-Unit _)
                  λ _ d₂ _.
                    OnOk-continue (λ _ _. Unit {0}) _
                      (pay env w.id q.discount q.totals.total_amount d₂) _ (OnOk-Unit _)
                      λ _ d₃ _.
                        OnOk-imp (λ o _. o ≡ order_of env buyer m q)
                          (λ o _. Ordered fees env buyer m code d o) (record_order env buyer m q d₃)
                          (λ o _ k. (q, made, k)) (record_order-order_of env buyer m q d₃))
          ]

-- The amounts of a preview are those of an order.
pub record Shows (p : Preview) (o : Order) : Type 0 where
  pub subtotal : p.subtotal ≡ o.subtotal
  pub discount_amount : p.discount_amount ≡ o.discount_amount
  pub discount_code : p.discount_code ≡ o.discount_code
  pub discount_type : p.discount_type ≡ o.discount_type
  pub delivery_fee : p.delivery_fee ≡ o.delivery_fee
  pub ppn : p.ppn ≡ o.ppn
  pub total_amount : p.total_amount ≡ o.total_amount

none_left :
    (id : ℕ) (d : Db)
    → find (is_item_of id) d.cart_items ≡ none
    → is_empty (checkout_items d id) ≡ false
    → ⊥
unfolding checkout_items join_items
none_left id d e filled =
    let nothing : select (is_item_of id) d.cart_items ≡ [] =
      select-none (is_item_of id) d.cart_items e in
    cc (rw nothing at filled)

get_or_create_cart-found :
    (env : Env) (buyer : ℕ) (d : Db) (c : Cart) (s : ℕ) (i : CartItem)
    → find (is_cart_of buyer) d.carts ≡ some c
    → c.store_id ≡ some s
    → find (is_item_of c.id) d.cart_items ≡ some i
    → get_or_create_cart env buyer d ≡ (ok c, d)
unfolding get_or_create_cart
get_or_create_cart-found env buyer d c s i found at there =
    rw (found, get_or_create_cart) (ground arith)

get_cart_summary-summarize :
    (env : Env) (buyer : ℕ) (d : Db) (c : Cart) (s : ℕ)
    → find (is_cart_of buyer) d.carts ≡ some c
    → c.store_id ≡ some s
    → is_empty (checkout_items d c.id) ≡ false
    → get_cart_summary env buyer d ≡ (ok (summarize c d), d)
unfolding get_cart_summary
get_cart_summary-summarize env buyer d c s found at filled =
    elim (Option-cases (find (is_item_of c.id) d.cart_items)) [
      | inl e ↦ absurd (none_left c.id d e filled)
      | inr (i, e) ↦ rw (get_or_create_cart-found env buyer d c s i found at e)
    ]

preview_cart-filled :
    (fees : Fees) (env : Env) (buyer : ℕ) (m : DeliveryMethod) (code : Option Code)
    (cart : CartSummary) (is : List SummaryItem) (d : Db)
    → is_empty is ≡ false
    → preview_cart fees env buyer m code cart is d ≡ preview_items fees env buyer m code cart d
preview_cart-filled fees env buyer m code cart [] d e = cc
preview_cart-filled fees env buyer m code cart (_ ∷ _) d e = refl

preview-Shows :
    (fees : Fees) (env : Env) (buyer : ℕ) (m : DeliveryMethod) (code : Option Code) (d : Db)
    (q : Quote)
    → IsMade fees env buyer m code d q
    → (p : Preview) × (preview fees env buyer m code d ≡ (ok p, d))
      × Shows p (order_of env buyer m q)
unfolding preview join_items checkout_items order_of
preview-Shows fees env buyer m code d q k =
    let (sums, fills) = summary_items-join_items d (select (is_item_of k.cart.id) d.cart_items) in
    rw
      (
        get_cart_summary-summarize env buyer d k.cart q.store_id k.found k.of_store k.filled,
        preview_cart-filled fees env buyer m code (summarize k.cart d) (summarize k.cart d).items d
            (fills ∙ k.filled),
        sums,
        k.discounted,
      )
      (
        _,
        refl,
        record {
          subtotal = rw k.read refl;
          discount_amount = refl;
          discount_code = refl;
          discount_type = refl;
          delivery_fee = rw k.totalled refl;
          ppn = rw k.totalled refl;
          total_amount = rw k.totalled refl;
        },
      )

-- Whatever order a checkout places, the preview of the same code and method, asked for just before, at
-- the same time, succeeds, changes nothing and shows the amounts that the order has.
pub preview-create_order :
    (fees : Fees) (env : Env) (buyer : ℕ) (m : DeliveryMethod) (a : ℕ) (code : Option Code) (d : Db)
    (o : Order)
    → (create_order fees env buyer m a code d).0 ≡ ok o
    → (p : Preview) × (preview fees env buyer m code d ≡ (ok p, d)) × Shows p o
unfolding create_order
preview-create_order fees env buyer m a code d o placed =
    let (q, made, same) =
      OnOk-ok (λ x _. Ordered fees env buyer m code d x) (create_order fees env buyer m a code d) o
        (OnOk-transaction (λ x _. Ordered fees env buyer m code d x) (place fees env buyer m a code)
          d (place-Ordered fees env buyer m a code d))
        placed in
    rw same (preview-Shows fees env buyer m code d q made)
