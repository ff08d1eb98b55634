-- ===== src/Inventory/Arrival.antt =====
-- Stock that a seller sets before the product has arrived from the catalog.
use mathlib.Core.Option
use seapedia.Prelude.{
  ℕ, ◌≡◌, refl, ap, ◌∙◌, arith, inl, inr, true, none, some, [], ◌∷◌, ◌++◌, Option-cases, find,
  find_test, find-append, find-update, find-delete, find-narrow, delete, ==-refl,
}
use seapedia.Db.{Stock, PendingStock, StoreRef, Db, ok, Env}
use seapedia.Replicas.{
  ProductUpserted, is_product, is_store, is_stock, is_pending, is_owner, new_product, new_stock,
  ensure_stock, set_stock_row, write_stock, apply_pending_stock, upsert_product, product_upserted,
}
use seapedia.Inventory.{set_stock, keep_pending, set_pending, new_pending}

-- The stock that waits for a product, and the seller who set it.
abbrev Waits : ℕ → ℕ → ℕ → Db → Type 0
Waits seller product stock d =
    (p : PendingStock) × (find (is_pending product) d.pending_stock ≡ some p)
    × (p.seller_id ≡ seller)
    × (p.stock ≡ stock)

set_stock-Waits :
    (env : Env) (seller product stock : ℕ) (d : Db)
    → find (is_product product) d.product_refs ≡ none
    → let (r, d') = set_stock env seller product stock d in
      (r ≡ ok (record { product_id = product; stock = stock; pending = true }))
      × Waits seller product stock d'
      × (d' ≡ record d { pending_stock = d'.pending_stock })
unfolding set_stock
set_stock-Waits env seller product stock d absent =
    rw (absent, set_stock)
      (elim (Option-cases (find (is_pending product) d.pending_stock)) [
        | inl e ↦
            rw (e, keep_pending)
              (
                refl,
                (
                  new_pending env product seller stock,
                  rw (
                    find-append (is_pending product) d.pending_stock
                        (new_pending env product seller stock) e,
                    ==-refl product,
                  ),
                  refl,
                  refl,
                ),
                refl,
              )
        | inr (p, e) ↦
            rw (e, keep_pending)
              (
                refl,
                (
                  set_pending env seller stock p,
                  rw (
                    find-update (is_pending product) (is_pending product)
                        (set_pending env seller stock) d.pending_stock (λ _. refl),
                    e,
                    Option.map,
                    find_test (is_pending product) d.pending_stock e,
                  ),
                  refl,
                  refl,
                ),
                refl,
              )
      ])

-- After the arrival: the row of the stock.
abbrev pub Applied : ℕ → ℕ → Db → Type 0
Applied product stock d =
    ((s : Stock) × (find (is_stock product) d.inventory ≡ some s) × (s.stock ≡ stock))
    × (find (is_pending product) d.pending_stock ≡ none)

write_stock-Applied :
    (env : Env) (product stock : ℕ) (d : Db) (s : Stock)
    → find (is_stock product) d.inventory ≡ some s
    → (t : Stock) × (find (is_stock product) (write_stock env product stock d).inventory ≡ some t)
      × (t.stock ≡ stock)
write_stock-Applied env product stock d s e = (
  set_stock_row env stock s,
  rw (
    find-update (is_stock product) (is_stock product) (set_stock_row env stock) d.inventory
        (λ _. refl),
    e,
    Option.map,
    find_test (is_stock product) d.inventory e,
  ),
  refl,
)

ensure_stock-found :
    (env : Env) (product : ℕ) (d : Db)
    → let d' = ensure_stock env product d in
      ((s : Stock) × (find (is_stock product) d'.inventory ≡ some s))
      × (d' ≡ record d { inventory = d'.inventory })
ensure_stock-found env product d = elim (Option-cases (find (is_stock product) d.inventory)) [
  | inl e ↦
      rw (e, ensure_stock)
        (
          (
            new_stock env product 0 0,
            rw (
              find-append (is_stock product) d.inventory (new_stock env product 0 0) e,
              ==-refl product,
            ),
          ),
          refl,
        )
  | inr (s, e) ↦ rw (e, ensure_stock) ((s, e), refl)
]

apply_pending_stock-Applied :
    (env : Env) (seller product store stock : ℕ) (d : Db) (s : StoreRef) (row : Stock)
    → Waits seller product stock d
    → find (is_owner store seller) d.store_refs ≡ some s
    → find (is_stock product) d.inventory ≡ some row
    → Applied product stock (apply_pending_stock env product store d)
unfolding apply_pending_stock
apply_pending_stock-Applied env seller product store stock d s row (p, e, by, of) owner there =
    let d' : Db = record d { pending_stock = delete (is_pending product) d.pending_stock } in
    let (t, seen, k) = write_stock-Applied env product p.stock d' row there in
    let owner' : find (is_owner store p.seller_id) d.store_refs ≡ some s = rw by owner in
    rw (e, apply_pending_stock, owner')
      ((t, seen, k ∙ of), find-delete (is_pending product) d.pending_stock)

-- What the arrival of the product does to the stock that waits.
product_upserted-Applied :
    (env : Env) (seller stock : ℕ) (e : ProductUpserted) (d : Db) (s : StoreRef)
    → find (is_product e.id) d.product_refs ≡ none
    → find (is_store e.store_id) d.store_refs ≡ some s
    → s.seller_id ≡ seller
    → Waits seller e.id stock d
    → ((product_upserted env e d).0 ≡ ok tt) × Applied e.id stock (product_upserted env e d).1
unfolding product_upserted upsert_product
product_upserted-Applied env seller stock e d s absent store of_seller w =
    let d₁ : Db = record d { product_refs = d.product_refs ++ (new_product env e ∷ []) } in
    let ((row, there), rest) = ensure_stock-found env e.id d₁ in
    let waits : (ensure_stock env e.id d₁).pending_stock ≡ d.pending_stock =
      ap (λ x. x.pending_stock) rest in
    let stores : (ensure_stock env e.id d₁).store_refs ≡ d.store_refs =
      ap (λ x. x.store_refs) rest in
    let owner : find (is_owner e.store_id seller) d.store_refs ≡ some s =
      find-narrow (is_owner e.store_id seller) (is_store e.store_id) d.store_refs
        (λ y h. ground arith) store (owns (find_test (is_store e.store_id) d.store_refs store)) in
    rw (absent, store)
      (
        refl,
        apply_pending_stock-Applied env seller e.id e.store_id stock (ensure_stock env e.id d₁) s
            row (rw waits w) (rw stores owner) there,
      )
  where
    owns : is_store e.store_id s ≡ true → is_owner e.store_id seller s ≡ true
    owns h = rw (h, of_seller, ==-refl seller)

-- A seller sets the stock of a product that has not arrived: the call says that it is pending. When the
-- product arrives, for a store of this seller's, its stock is the one that was set, and nothing waits.
pub pending_stock_arrives :
    (env env' : Env) (seller stock : ℕ) (e : ProductUpserted) (d : Db) (s : StoreRef)
    → find (is_product e.id) d.product_refs ≡ none
    → find (is_store e.store_id) d.store_refs ≡ some s
    → s.seller_id ≡ seller
    → let (set, d₁) = set_stock env seller e.id stock d in
      let (arrived, d₂) = product_upserted env' e d₁ in
      (set ≡ ok (record { product_id = e.id; stock = stock; pending = true }))
      × (arrived ≡ ok tt)
      × Applied e.id stock d₂
pending_stock_arrives env env' seller stock e d s absent store of_seller =
    let (said, waits, rest) = set_stock-Waits env seller e.id stock d absent in
    let d₁ : Db = (set_stock env seller e.id stock d).1 in
    let products : d₁.product_refs ≡ d.product_refs = ap (λ x. x.product_refs) rest in
    let stores : d₁.store_refs ≡ d.store_refs = ap (λ x. x.store_refs) rest in
    let (done, applied) =
      product_upserted-Applied env' seller stock e d₁ s (rw products absent) (rw stores store)
        of_seller waits in
    (said, done, applied)
