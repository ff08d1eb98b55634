-- ===== src/Orders/Restock.antt =====
-- Step 5 of the overdue run: the stock that a return puts back.
use seapedia.Prelude.{
  ℕ, ◌+◌, ◌≡◌, refl, ◌∙◌, ap, ◌≢◌, true, false, Option, none, some, List, [], ◌∷◌, arith, inl, inr,
  Bool-cases, Option-cases, find, update, ◌==◌, is_some, eq_of_==, IsKeyed, IsKeyed-update, All,
  if◌then◌else◌,
}
use seapedia.Db.{Stock, OrderItem, Db, OnOk, OnOk-continue, OnOk-imp, Env}
use seapedia.Checkout.Stock.{on_hand}
use seapedia.Checkout.Placed.{units}
use seapedia.Orders.Overdue.{is_stock_of, add_stock, too_many, restore_item, restore_items}

abbrev NoRow : ℕ → List Stock → Type 0
NoRow p = All (λ s. s.product_id ≢ p)

add_none :
    (env : Env) (p q : ℕ) (rows : List Stock)
    → NoRow p rows
    → update (is_stock_of p) (add_stock env q) rows ≡ rows
add_none env p q [] _ = refl
add_none env p q (s ∷ rows) (n, ns) = rw (add_none env p q rows ns) (ground arith)

-- Adding to a product leaves every other product's stock.
on_hand-other :
    (env : Env) (p q k : ℕ) (rows : List Stock)
    → (p == k) ≡ false
    → on_hand k (update (is_stock_of p) (add_stock env q) rows) ≡ on_hand k rows
on_hand-other env p q k [] n = refl
on_hand-other env p q k (r ∷ rows) n = ground (arith, on_hand-other env p q k rows n)

-- Where a product has one row, adding to it adds to its stock.
on_hand-same :
    (env : Env) (q k : ℕ) (rows : List Stock)
    → IsKeyed (λ r. r.product_id) rows
    → is_some (find (is_stock_of k) rows) ≡ true
    → on_hand k (update (is_stock_of k) (add_stock env q) rows) ≡ on_hand k rows + q
on_hand-same env q k [] keyed there = cc
on_hand-same env q k (r ∷ rows) (new, keyed) there = elim (Bool-cases (r.product_id == k)) [
  | inl t ↦
      let at : r.product_id ≡ k = eq_of_== r.product_id k t in
      let rest = add_none env k q rows (rw at at new) in rw (t, rest, t) (omega arith)
  | inr t ↦ rw (t, t) (omega (arith, on_hand-same env q k rows keyed (rw t at there)))
]

on_hand-add :
    (env : Env) (p q k : ℕ) (rows : List Stock)
    → IsKeyed (λ r. r.product_id) rows
    → is_some (find (is_stock_of k) rows) ≡ true
    → on_hand k (update (is_stock_of p) (add_stock env q) rows)
      ≡ on_hand k rows + (if p == k then q else 0)
on_hand-add env p q k rows keyed there = elim (Bool-cases (p == k)) [
  | inl t ↦ rw (t, eq_of_== p k t) (on_hand-same env q k rows keyed there)
  | inr t ↦ rw (t, on_hand-other env p q k rows t) (omega arith)
]

-- The rows are there still, with the same ids.
still_stocked :
    (env : Env) (p q k : ℕ) (rows : List Stock)
    → is_some (find (is_stock_of k) rows) ≡ true
    → is_some (find (is_stock_of k) (update (is_stock_of p) (add_stock env q) rows)) ≡ true
still_stocked env p q k [] h = h
still_stocked env p q k (r ∷ rows) h = ground (arith, still_stocked env p q k rows)

-- What the items put back, and the tables that they leave alone.
pub record Restocks (items : List OrderItem) (d d' : Db) : Type 0 where
  pub keyed : IsKeyed (λ r. r.product_id) d'.inventory
  pub stocked :
      (k : ℕ)
      → is_some (find (is_stock_of k) d.inventory) ≡ true
      → is_some (find (is_stock_of k) d'.inventory) ≡ true
  pub put_back :
      (k : ℕ)
      → is_some (find (is_stock_of k) d.inventory) ≡ true
      → on_hand k d'.inventory ≡ on_hand k d.inventory + units k items
  pub rest : d' ≡ record d { inventory = d'.inventory; outbox = d'.outbox }

restore_item-Restocks :
    (env : Env) (i : OrderItem) (d : Db)
    → IsKeyed (λ r. r.product_id) d.inventory
    → OnOk (λ _ d'. Restocks (i ∷ []) d d') (restore_item env i d)
restore_item-Restocks env i d keyed = go i.product_id refl
  where
    go :
        (o : Option ℕ)
        → i.product_id ≡ o
        → OnOk (λ _ d'. Restocks (i ∷ []) d d') (restore_item env i d)
    go none e =
        rw (restore_item, e)
          (record { keyed = keyed; stocked = λ k h. h; put_back = λ k h. omega arith; rest = refl })
    go (some p) e =
        rw (restore_item, e)
          (elim (Option-cases (find (too_many p i.quantity) d.inventory)) [
            | inr (s, full) ↦ rw full tt
            | inl fits ↦ rw fits (record {
              keyed =
                  IsKeyed-update (λ r. r.product_id) (is_stock_of p) (add_stock env i.quantity)
                    d.inventory (λ _. refl) keyed;
              stocked = λ k h. still_stocked env p i.quantity k d.inventory h;
              put_back = λ k h. omega (arith, on_hand-add env p i.quantity k d.inventory keyed h);
              rest = refl;
            })
          ])

pub restore_items-Restocks :
    (env : Env) (is : List OrderItem) (d : Db)
    → IsKeyed (λ r. r.product_id) d.inventory
    → OnOk (λ _ d'. Restocks is d d') (restore_items env is d)
unfolding restore_items
restore_items-Restocks env [] d keyed = record {
  keyed = keyed;
  stocked = λ k h. h;
  put_back = λ k h. omega arith;
  rest = refl;
}
restore_items-Restocks env (i ∷ is) d keyed =
    OnOk-continue (λ _ d'. Restocks (i ∷ []) d d') _ (restore_item env i d) _
      (restore_item-Restocks env i d keyed)
      λ _ d₁ r.
        OnOk-imp (λ _ d'. Restocks is d₁ d') (λ _ d'. Restocks (i ∷ is) d d')
          (restore_items env is d₁)
          (λ _ d₂ s. record {
            keyed = s.keyed;
            stocked = λ k h. s.stocked k (r.stocked k h);
            put_back = λ k h. omega (arith, s.put_back k (r.stocked k h), r.put_back k h);
            rest =
                s.rest
                ∙ ap (λ (x : Db). record x { inventory = d₂.inventory; outbox = d₂.outbox }) r.rest;
          })
          (restore_items-Restocks env is d₁ r.keyed)
