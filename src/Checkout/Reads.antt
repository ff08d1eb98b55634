-- ===== src/Checkout/Reads.antt =====
-- What `quote` reads, and that it writes nothing.
use seapedia.Prelude.{
  ℕ, ◌≡◌, refl, false, Option, none, some, [], ◌∷◌, arith, inl, inr, Bool-cases, Option-cases, find,
}
use seapedia.Db.{Address, Db, DeliveryMethod, Code, OnOk, OnOk-continue, OnOk-of_state, Env}
use seapedia.Discounts.{validate_code}
use seapedia.Checkout.Totals.{Fees, calculate_totals}
use seapedia.Checkout.Items.{checkout_items, subtotal_of}
use seapedia.Checkout.Place.{
  Quote, quote, quote_cart, is_empty, cart_store, is_address_of, is_cart_of, find_discount,
  discount_amount_of,
}

validate_code-same : (env : Env) (code : Code) (n : ℕ) (d : Db) → (validate_code env code n d).1 ≡ d
unfolding validate_code
validate_code-same env code n d = ground arith

pub find_discount-same :
    (env : Env) (code : Option Code) (n : ℕ) (d : Db) → (find_discount env code n d).1 ≡ d
find_discount-same env none n d = refl
find_discount-same env (some []) n d = refl
find_discount-same env (some (c ∷ cs)) n d = ground (arith, validate_code-same env (c ∷ cs) n d)

-- What a quote says of the database that it was read from.
pub record IsQuoted (fees : Fees) (buyer : ℕ) (m : DeliveryMethod) (d : Db) (q : Quote)
    : Type 0 where
  pub cart_of : cart_store (find (is_cart_of buyer) d.carts) ≡ some (q.cart_id, q.store_id)
  pub items_read : q.items ≡ checkout_items d q.cart_id
  pub items_some : is_empty q.items ≡ false
  pub totals_of :
      q.totals ≡ calculate_totals fees (subtotal_of q.items) m (discount_amount_of q.discount)

abbrev pub Quotes : Fees → ℕ → DeliveryMethod → Db → Quote → Db → Type 0
Quotes fees buyer m before q d = (d ≡ before) × IsQuoted fees buyer m before q

quote_cart-Quotes :
    (fees : Fees) (env : Env) (buyer : ℕ) (m : DeliveryMethod) (code : Option Code) (a : Address)
    (c : ℕ × ℕ) (d : Db)
    → cart_store (find (is_cart_of buyer) d.carts) ≡ some (c.0, c.1)
    → OnOk (Quotes fees buyer m d) (quote_cart fees env m code a c d)
unfolding quote_cart
quote_cart-Quotes fees env buyer m code a c d cart =
    elim (Bool-cases (is_empty (checkout_items d c.0))) [
      | inl e ↦ rw e tt
      | inr e ↦ rw e (
          OnOk-continue (λ _ d'. d' ≡ d) (Quotes fees buyer m d)
            (find_discount env code (subtotal_of (checkout_items d c.0)) d) _
            (OnOk-of_state (λ d'. d' ≡ d) _ (find_discount-same env code _ d))
            (λ _ d' same. (
              same,
              record { cart_of = cart; items_read = refl; items_some = e; totals_of = refl },
            )))
    ]

pub quote-Quotes :
    (fees : Fees) (env : Env) (buyer : ℕ) (m : DeliveryMethod) (a : ℕ) (code : Option Code) (d : Db)
    → OnOk (Quotes fees buyer m d) (quote fees env buyer m a code d)
unfolding quote
quote-Quotes fees env buyer m a code d =
    elim (Option-cases (find (is_address_of buyer a) d.addresses)) [
      | inl e ↦ rw e tt
      | inr (address, e) ↦
          rw e (elim (Option-cases (cart_store (find (is_cart_of buyer) d.carts))) [
            | inl e' ↦ rw e' tt
            | inr (c, e') ↦ rw e' (quote_cart-Quotes fees env buyer m code address c d e')
          ])
    ]
