-- ===== src/Cart/Added.antt =====
-- What `addItemToCart` leaves: one store in the cart, and no line beyond the stock.
use mathlib.Core.Option
use mathlib.Core.Option.{some-injective}
use seapedia.Prelude.{
  ℕ, ◌+◌, ◌≤◌, ◌<◌, ◌≡◌, refl, sym, ◌∙◌, ap, ◌⊎◌, inl, inr, arith, true, Option, none, some, List,
  ℤ, pos, pos_part, leb_ℤ, Bool-cases, Option-cases, find, find_test, find-append, find-update, ltb,
  ◌==◌, eq_of_==, ==-refl,
}
use seapedia.Db.{
  Cart, CartItem, Db, OnOk, OnOk-continue, OnOk-imp, Commits, Commits-transaction, Env,
}
use seapedia.Cart.{
  CartProduct, product_with_stock, has_product, is_cart_of, is_cart, set_store, new_cart,
  fetch_cart, claim_store, is_line, is_item, set_quantity, new_item, put_item, add_item,
  add_item_to_cart,
}

-- The quantity of a line that is there.
abbrev pub held : Option CartItem → ℕ
held none = 0
held (some i) = i.quantity

-- `quantity` of a product was added to the buyer's cart: the product is on offer, the cart sells for
-- its store and sold for no other, and the row of the line in the cart, which the call returns, has
-- grown within the stock.
pub record Added (buyer product quantity : ℕ) (d : Db) (i : CartItem) (d' : Db) : Type 0 where
  pub offer : CartProduct
  pub cart : Cart
  pub offered : product_with_stock product d ≡ some offer
  pub of_buyer : find (is_cart_of buyer) d'.carts ≡ some cart
  pub one_store : cart.store_id ≡ some offer.store_id
  pub sold_before :
      (c : Cart)
      → find (is_cart_of buyer) d.carts ≡ some c
      → (c.store_id ≡ none) ⊎ (c.store_id ≡ some offer.store_id)
  pub line : (i.cart_id ≡ cart.id) × (i.product_id ≡ product)
  pub stored : find (is_line cart.id product) d'.cart_items ≡ some i
  pub grown : i.quantity ≡ held (find (is_line cart.id product) d.cart_items) + quantity
  pub enough : i.quantity ≤ offer.stock
  pub rest : d' ≡ record d { carts = d'.carts; cart_items = d'.cart_items }

abbrev Fetched : ℕ → Db → Cart → Db → Type 0
Fetched buyer d c d' =
    (find (is_cart_of buyer) d'.carts ≡ some c)
    × (d' ≡ record d { carts = d'.carts })
    × ((k : Cart) → find (is_cart_of buyer) d.carts ≡ some k → k ≡ c)

fetch_cart-Fetched :
    (env : Env) (buyer : ℕ) (d : Db) → OnOk (Fetched buyer d) (fetch_cart env buyer d)
fetch_cart-Fetched env buyer d = elim (Option-cases (find (is_cart_of buyer) d.carts)) [
  | inl e ↦
      rw (e, fetch_cart)
        (
          rw (find-append (is_cart_of buyer) d.carts (new_cart env buyer) e, ==-refl buyer),
          refl,
          λ k h. cc,
        )
  | inr (c, e) ↦ rw (e, fetch_cart) (e, refl, λ k h. some-injective _ _ (sym h ∙ e))
]

abbrev Claimed : ℕ → ℕ → Cart → Db → Db → Type 0
Claimed buyer store c d d' =
    (k : Cart) × (find (is_cart_of buyer) d'.carts ≡ some k)
    × (k.id ≡ c.id)
    × (k.store_id ≡ some store)
    × (d' ≡ record d { carts = d'.carts })
    × ((c.store_id ≡ none) ⊎ (c.store_id ≡ some store))

claim_store-Claimed :
    (env : Env) (buyer store : ℕ) (c : Cart) (d : Db)
    → find (is_cart_of buyer) d.carts ≡ some c
    → OnOk (λ _ d'. Claimed buyer store c d d') (claim_store env c store d)
claim_store-Claimed env buyer store c d found = elim (Option-cases c.store_id) [
  | inl e ↦
      rw (claim_store, e)
        (
          set_store env (some store) c,
          rw (
            find-update (is_cart_of buyer) (is_cart c.id) (set_store env (some store)) d.carts
                (λ _. refl),
            found,
            Option.map,
            ==-refl c.id,
          ),
          refl,
          refl,
          refl,
          inl refl,
        )
  | inr (s, e) ↦
      rw (claim_store, e)
        (elim (Bool-cases (s == store)) [
          | inl t ↦ rw t (
            c,
            found,
            refl,
            e ∙ ap some (eq_of_== s store t),
            refl,
            inr (ap some (eq_of_== s store t)),
          )
          | inr t ↦ rw t tt
        ])
]

line_of :
    (cart product : ℕ) (i : CartItem)
    → is_line cart product i ≡ true
    → (i.cart_id ≡ cart) × (i.product_id ≡ product)
line_of cart product i t = (ground arith, ground arith)

put_item-Line :
    (env : Env) (cart product stock n : ℕ) (d : Db)
    → n ≤ stock
    → OnOk
        (λ i d'.
          ((i.cart_id ≡ cart) × (i.product_id ≡ product))
          × (i.quantity ≡ held (find (is_line cart product) d.cart_items) + n)
          × (i.quantity ≤ stock)
          × (find (is_line cart product) d'.cart_items ≡ some i)
          × (d' ≡ record d { cart_items = d'.cart_items }))
        (put_item env cart product stock n d)
put_item-Line env cart product stock n d h =
    elim (Option-cases (find (is_line cart product) d.cart_items)) [
      | inl e ↦
          rw (e, put_item)
            (
              (refl, refl),
              omega arith,
              h,
              find-append (is_line cart product) d.cart_items (new_item env cart product n) e
                  ∙ rw (==-refl cart, ==-refl product),
              refl,
            )
      | inr (i, e) ↦
          rw (e, put_item)
            (elim (Bool-cases (ltb stock (i.quantity + n))) [
              | inl t ↦ rw t tt
              | inr t ↦ rw t (
                line_of cart product i (find_test (is_line cart product) d.cart_items e),
                refl,
                ground arith,
                rw (
                  find-update (is_line cart product) (is_item i.id)
                      (set_quantity env (i.quantity + n)) d.cart_items (λ _. refl),
                  e,
                  Option.map,
                  ==-refl i.id,
                ),
                refl,
              )
            ])
    ]

add_item-Added :
    (env : Env) (buyer product n : ℕ) (d : Db)
    → OnOk (Added buyer product n d) (add_item env buyer product n d)
unfolding add_item
add_item-Added env buyer product n d = elim (Option-cases (product_with_stock product d)) [
  | inl e ↦ rw e tt
  | inr (p, e) ↦ rw e (elim (Bool-cases (ltb p.stock n)) [
    | inl t ↦ rw t tt
    | inr t ↦ rw t (
        OnOk-continue (Fetched buyer d) _ (fetch_cart env buyer d) _
          (fetch_cart-Fetched env buyer d)
          λ c d₁ (found, r₁, before).
            OnOk-continue (λ _ d'. Claimed buyer p.store_id c d₁ d') _
              (claim_store env c p.store_id d₁) _
              (claim_store-Claimed env buyer p.store_id c d₁ found)
              λ _ d₂ (k, found', same, at, r₂, sold).
                OnOk-imp _ (Added buyer product n d) (put_item env c.id product p.stock n d₂)
                  (λ i d₃ (line, grown, enough, stored, r₃). record {
                    offer = p;
                    cart = k;
                    offered = e;
                    of_buyer = rw (ap (λ x. x.carts) r₃) found';
                    one_store = at;
                    sold_before = λ b h. rw (before b h) sold;
                    line = (line.0 ∙ sym same, line.1);
                    grown =
                        grown
                        ∙ ap (λ (x : ℕ). x + n)
                            (old c k same (ap (λ x. x.cart_items) r₂ ∙ ap (λ x. x.cart_items) r₁));
                    stored = rw same stored;
                    enough = enough;
                    rest =
                        r₃
                        ∙ ap (λ (x : Db). record x { cart_items = d₃.cart_items })
                            (r₂ ∙ ap (λ (x : Db). record x { carts = d₂.carts }) r₁)
                        ∙ ap (λ (x : List Cart). record d { carts = x; cart_items = d₃.cart_items })
                            (sym (ap (λ x. x.carts) r₃));
                  })
                  (put_item-Line env c.id product p.stock n d₂ (ground arith)))
  ])
]
  where
    old :
        {is : List CartItem} (c k : Cart)
        → k.id ≡ c.id
        → is ≡ d.cart_items
        → held (find (is_line c.id product) is) ≡ held (find (is_line k.id product) d.cart_items)
    old c k same items = rw (items, same)

-- An item is added to a cart, or the call throws and changes nothing. If it is added, the quantity is
-- positive and the product on offer, the cart sells for the product's store and sold for no other
-- before, and the row of the line that the cart then has, which the call returns, is of the quantity that
-- was there and the added one, no more than the stock.
pub add_item_to_cart-Added :
    (env : Env) (buyer product : ℕ) (quantity : ℤ) (d : Db)
    → Commits
        (λ i d'.
          (0 < pos_part quantity)
          × (has_product product d ≡ true)
          × Added buyer product (pos_part quantity) d i d')
        d
        (add_item_to_cart env buyer product quantity d)
unfolding add_item_to_cart
add_item_to_cart-Added env buyer product quantity d = elim (Bool-cases (leb_ℤ quantity (pos 0))) [
  | inl e ↦ rw e refl
  | inr e ↦ rw e (elim (Bool-cases (has_product product d)) [
    | inr n ↦ rw n refl
    | inl y ↦ rw y (
        Commits-transaction
          (λ i d'.
            (0 < pos_part quantity)
            × (true ≡ true)
            × Added buyer product (pos_part quantity) d i d')
          (add_item env buyer product (pos_part quantity)) d
          (OnOk-imp (Added buyer product (pos_part quantity) d) _
            (add_item env buyer product (pos_part quantity) d) (λ _ _ h. (ground arith, refl, h))
            (add_item-Added env buyer product (pos_part quantity) d)))
  ])
]
