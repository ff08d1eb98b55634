-- ===== src/Catalog/ProductTotals.antt =====
-- Calls on products keep the number of products of a store in step.
-- services/catalog/src/modules/products
use mathlib.Core.Option
use seapedia.Prelude.{
  ℕ, ◌+◌, ◌≤◌, ◌≡◌, refl, arith, inl, inr, Option, none, some, [], ◌∷◌, ◌++◌, is_some, find,
  find-none, update, delete, count, count-pos, Bool-cases, Option-cases, ==-refl,
}
use seapedia.Platform.Monad.{Env}
use seapedia.Platform.Rules.{OnOk, OnOk-of_state, transaction_state, continue_state}
use seapedia.Catalog.Slugs.{Text}
use seapedia.Catalog.Schema.{
  StoreDoc, ProductDoc, CatalogEvent, product_upserted, product_deleted, CatalogDb,
}
use seapedia.Catalog.Stores.{is_store, is_seller, get_by_seller_id, renamed, enqueue}
use seapedia.Catalog.Products.{
  is_product, is_owned, clashes_other_product, clashes_product, insert_product, one_more, one_less,
  adjust_store, ProductInput, new_product, insert_counted, create_product_with, create_in,
  create_seller_product, ProductPatch, patched_product, write_product, slug_of, write_product_with,
  update_owned, update_seller_product, delete_owned, delete_seller_product, get_unique_product_slug,
  is_negative, price_refused,
}
use seapedia.Catalog.Counted.{IsCounted, IsCounted-products, IsCounted-offer}
use seapedia.Catalog.Withdrawn.{IsCounted-withdraw}
use seapedia.Catalog.StoreTotals.{HasTotals, Ends, tell_store-HasTotals}

adjust_store-HasTotals :
    (change : StoreDoc → StoreDoc) (e : CatalogEvent) (id : ℕ) (d : CatalogDb)
    → IsCounted (update (is_store id) change d.stores) d.products
    → HasTotals (adjust_store change e id d)
unfolding adjust_store
adjust_store-HasTotals change e id d h =
    tell_store-HasTotals (Option.map change (find (is_store id) d.stores))
      (enqueue e (record d { stores = update (is_store id) change d.stores })) h

module _ (env : Env) where
  insert_counted-HasTotals :
      (p : ProductDoc) (d : CatalogDb)
      → 1 ≤ count (is_store p.store_id) d.stores
      → HasTotals d
      → OnOk Ends (insert_counted env p d)
  unfolding insert_counted insert_product
  insert_counted-HasTotals p d there h = elim (Option-cases (find (clashes_product p) d.products)) [
    | inr (x, f) ↦ rw f tt
    | inl f ↦ rw f (
        adjust_store-HasTotals (one_more env) (product_upserted p) p.store_id
          (record d { products = d.products ++ (p ∷ []) })
          (IsCounted-offer env p d.stores d.products
            (find-none (is_product p.id) (clashes_product p) d.products (λ x n. ground arith) f)
            there h))
  ]

  create_product_with-HasTotals :
      (store : ℕ) (input : ProductInput) (slug : Option Text) (d : CatalogDb)
      → 1 ≤ count (is_store store) d.stores
      → HasTotals d
      → HasTotals (create_product_with env store input slug d).1
  unfolding create_product_with
  create_product_with-HasTotals store input none d there h = h
  create_product_with-HasTotals store input (some slug) d there h =
      transaction_state HasTotals (insert_counted env (new_product env store input slug)) d h
        (insert_counted-HasTotals (new_product env store input slug) d there h)

  -- The store of a seller is there.
  store_there :
      (seller : ℕ) (d : CatalogDb) {s : StoreDoc}
      → find (is_seller seller) d.stores ≡ some s
      → 1 ≤ count (is_store s.id) d.stores
  store_there seller d {s} e =
      count-pos (is_store s.id) (is_seller seller) d.stores e (==-refl s.id)

  pub create_seller_product-HasTotals :
      (seller : ℕ) (input : ProductInput) (d : CatalogDb)
      → HasTotals d
      → HasTotals (create_seller_product env seller input d).1
  unfolding create_seller_product get_by_seller_id create_in
  create_seller_product-HasTotals seller input d h =
      elim (Option-cases (find (is_seller seller) d.stores)) [
        | inl e ↦ rw e h
        | inr (s, e) ↦ rw e (elim (Bool-cases (is_negative input.price)) [
          | inl f ↦ rw f h
          | inr f ↦ rw f (
              create_product_with-HasTotals s.id input
                (get_unique_product_slug s.id input.name none d) d (store_there seller d e) h)
        ])
      ]

  write_product-HasTotals :
      (p : ProductPatch) (before : ProductDoc) (slug : Text) (d : CatalogDb)
      → HasTotals d
      → HasTotals (write_product env p before slug d).1
  unfolding write_product
  write_product-HasTotals p before slug d h =
      elim (Bool-cases (
        is_some
          (find (clashes_other_product (patched_product env p before slug before)) d.products))) [
            | inl e ↦ rw e h
            | inr e ↦ rw e (
                IsCounted-products (is_product before.id) (patched_product env p before slug)
                  d.stores d.products (λ _. refl) (λ _. refl) h)
          ]

  write_product_with-HasTotals :
      (p : ProductPatch) (before : ProductDoc) (slug : Option Text) (d : CatalogDb)
      → HasTotals d
      → HasTotals (write_product_with env p before slug d).1
  unfolding write_product_with
  write_product_with-HasTotals p before none d h = h
  write_product_with-HasTotals p before (some slug) d h =
      transaction_state HasTotals (write_product env p before slug) d h (
        OnOk-of_state HasTotals (write_product env p before slug d)
          (write_product-HasTotals p before slug d h))

  update_owned-HasTotals :
      (p : ProductPatch) (s : StoreDoc) (o : Option ProductDoc) (d : CatalogDb)
      → HasTotals d
      → HasTotals (update_owned env p s o d).1
  unfolding update_owned
  update_owned-HasTotals p s none d h = h
  update_owned-HasTotals p s (some before) d h = elim (Bool-cases (price_refused p.price)) [
    | inl e ↦ rw e h
    | inr e ↦ rw e (
        continue_state HasTotals
          (write_product_with env p before (slug_of s.id before (renamed p.name before.name) d) d) _
          (write_product_with-HasTotals p before
            (slug_of s.id before (renamed p.name before.name) d) d h)
          (λ _ d₂ h₂. h₂))
  ]

  pub update_seller_product-HasTotals :
      (seller id : ℕ) (p : ProductPatch) (d : CatalogDb)
      → HasTotals d
      → HasTotals (update_seller_product env seller id p d).1
  unfolding update_seller_product get_by_seller_id
  update_seller_product-HasTotals seller id p d h =
      elim (Option-cases (find (is_seller seller) d.stores)) [
        | inl e ↦ rw e h
        | inr (s, e) ↦ rw e (update_owned-HasTotals p s (find (is_owned s.id id) d.products) d h)
      ]

  pub delete_seller_product-HasTotals :
      (seller id : ℕ) (d : CatalogDb)
      → HasTotals d
      → HasTotals (delete_seller_product env seller id d).1
  unfolding delete_seller_product get_by_seller_id delete_owned
  delete_seller_product-HasTotals seller id d h =
      elim (Option-cases (find (is_seller seller) d.stores)) [
        | inl e ↦ rw e h
        | inr (s, e) ↦ rw e (elim (Option-cases (find (is_owned s.id id) d.products)) [
          | inl f ↦ rw f h
          | inr (p, f) ↦ rw f (
              adjust_store-HasTotals (one_less env) (product_deleted p.id (p.version + 1)) s.id
                (record d { products = delete (is_product p.id) d.products })
                (IsCounted-withdraw env s.id id p d.stores d.products f h))
        ])
      ]
