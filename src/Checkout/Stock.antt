-- ===== src/Checkout/Stock.antt =====
-- Checkout and the stock: what leaves the shelf is what the order holds.
use seapedia.Prelude.{
  ℕ, ◌+◌, ◌≡◌, refl, ◌≢◌, Bool, true, false, Option, none, some, List, [], ◌∷◌, arith, inl, inr,
  Bool-cases, find, update, sort_by, ltb, ◌==◌, sum_by, sum_by-sort_by, IsKeyed, IsKeyed-update,
  if◌then◌else◌, All,
}
use seapedia.Db.{Stock, Db, ok, err, OnOk, Env}
use seapedia.Checkout.Items.{
  CheckoutItem, by_product, has_stock, take_stock, Reserved, keep_reserved, reserve_item,
  reserve_rows, write_reserved, reserve_stock,
}

-- The stock of a product.
abbrev pub on_hand : ℕ → List Stock → ℕ
on_hand p = sum_by (λ s. if s.product_id == p then s.stock else 0)

-- The units of a product among the items to buy.
abbrev pub wanted : ℕ → List CheckoutItem → ℕ
wanted p = sum_by (λ i. if i.product_id == p then i.quantity else 0)

abbrev NoRow : ℕ → List Stock → Type 0
NoRow p = All (λ s. s.product_id ≢ p)

take_none :
    (env : Env) (p q : ℕ) (rows : List Stock)
    → NoRow p rows
    → update (has_stock p q) (take_stock env q) rows ≡ rows
take_none env p q [] _ = refl
take_none env p q (s ∷ rows) (n, ns) = rw (take_none env p q rows ns) (ground arith)

-- Taking from the one row of a product lowers its stock, and no other product's.
on_hand-take :
    (env : Env) (p q k : ℕ) (rows : List Stock) {s : Stock}
    → IsKeyed (λ r. r.product_id) rows
    → find (has_stock p q) rows ≡ some s
    → on_hand k rows
      ≡ on_hand k (update (has_stock p q) (take_stock env q) rows) + (if p == k then q else 0)
on_hand-take env p q k [] keyed e = cc
on_hand-take env p q k (r ∷ rows) {s} (new, keyed) e = elim (Bool-cases (has_stock p q r)) [
  | inl t ↦
      let at : r.product_id ≡ p = ground arith in
      let rest = take_none env p q rows (rw at at new) in rw (t, rest) (ground arith)
  | inr t ↦
      let later : find (has_stock p q) rows ≡ some s = rw t at e in
      rw t (omega (arith, on_hand-take env p q k rows keyed later))
]

-- A reservation that succeeds takes just the wanted units.
abbrev Takes : List CheckoutItem → List Stock → Reserved → Type 0
Takes is rows (ok (_, rows')) =
    IsKeyed (λ r. r.product_id) rows' × ((k : ℕ) → on_hand k rows ≡ on_hand k rows' + wanted k is)
Takes is rows (err _) = Unit

keep_reserved-Takes :
    (i : CheckoutItem) (is : List CheckoutItem) (s : Stock) (rows rows₁ : List Stock) (r : Reserved)
    → ((k : ℕ) → on_hand k rows ≡ on_hand k rows₁ + (if i.product_id == k then i.quantity else 0))
    → Takes is rows₁ r
    → Takes (i ∷ is) rows (keep_reserved s r)
keep_reserved-Takes i is s rows rows₁ (ok (cs, rows')) first (keyed, rest) =
    (keyed, λ k. omega (arith, first k, rest k))
keep_reserved-Takes i is s rows rows₁ (err e) first _ = tt

reserve_item-Takes :
    (env : Env) (i : CheckoutItem) (is : List CheckoutItem) (rows : List Stock) (low : Bool)
    (o : Option Stock) (r : Reserved)
    → let rows₁ = update (has_stock i.product_id i.quantity) (take_stock env i.quantity) rows in
      IsKeyed (λ r. r.product_id) rows
      → find (has_stock i.product_id i.quantity) rows ≡ o
      → Takes is rows₁ r
      → Takes (i ∷ is) rows (reserve_item env i low o r)
reserve_item-Takes env i is rows true o r keyed found h = tt
reserve_item-Takes env i is rows false none r keyed found h = tt
reserve_item-Takes env i is rows false (some s) r keyed found h =
    keep_reserved-Takes i is (take_stock env i.quantity s) rows
      (update (has_stock i.product_id i.quantity) (take_stock env i.quantity) rows) r
      (λ k. on_hand-take env i.product_id i.quantity k rows keyed found) h

reserve_rows-Takes :
    (env : Env) (is : List CheckoutItem) (rows : List Stock)
    → IsKeyed (λ r. r.product_id) rows
    → Takes is rows (reserve_rows env is rows)
unfolding reserve_rows
reserve_rows-Takes env [] rows keyed = (keyed, λ k. omega arith)
reserve_rows-Takes env (i ∷ is) rows keyed =
    let rows₁ = update (has_stock i.product_id i.quantity) (take_stock env i.quantity) rows in
    reserve_item-Takes env i is rows (ltb i.stock i.quantity)
      (find (has_stock i.product_id i.quantity) rows) (reserve_rows env is rows₁) keyed refl
      (reserve_rows-Takes env is rows₁ (
        IsKeyed-update (λ r. r.product_id) (has_stock i.product_id i.quantity)
          (take_stock env i.quantity) rows (λ _. refl) keyed))

-- What step 5 leaves: the stock less the wanted units, and every other table but the outbox.
pub record Leaves (items : List CheckoutItem) (d d' : Db) : Type 0 where
  pub keyed : IsKeyed (λ r. r.product_id) d'.inventory
  pub taken : (k : ℕ) → on_hand k d.inventory ≡ on_hand k d'.inventory + wanted k items
  pub rest : d' ≡ record d { inventory = d'.inventory; outbox = d'.outbox }

pub reserve_stock-Leaves :
    (env : Env) (items : List CheckoutItem) (d : Db)
    → IsKeyed (λ r. r.product_id) d.inventory
    → OnOk (λ _ d'. Leaves items d d') (reserve_stock env items d)
unfolding reserve_stock
reserve_stock-Leaves env items d keyed =
    go (reserve_rows env (sort_by by_product items) d.inventory)
      (reserve_rows-Takes env (sort_by by_product items) d.inventory keyed)
  where
    go :
        (r : Reserved)
        → Takes (sort_by by_product items) d.inventory r
        → OnOk (λ _ d'. Leaves items d d') (write_reserved d r)
    go (ok (cs, rows)) (k, t) = record {
      keyed = k;
      taken = λ n. omega (
        arith,
        t n,
        sum_by-sort_by by_product (λ i. if i.product_id == n then i.quantity else 0) items,
      );
      rest = refl;
    }
    go (err e) _ = tt
