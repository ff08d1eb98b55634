-- ===== src/Catalog/Totals.antt =====
-- No call or delivery brings the number of products of a store out of step. services/catalog/src/modules
use mathlib.Core.Option
use seapedia.Prelude.{
  ℕ, refl, inl, inr, ◌&&◌, Option, none, some, List, [], ◌∷◌, ◌++◌, String, is_some, ltb, find,
  update, Bool-cases, ◌==◌,
}
use seapedia.Platform.Monad.{Env}
use seapedia.Platform.Rules.{OnOk, transaction_state}
use seapedia.Catalog.Schema.{ProductDoc, ProductReview, product_upserted, CatalogDb}
use seapedia.Catalog.Stores.{is_store, enqueue}
use seapedia.Catalog.Products.{is_product}
use seapedia.Catalog.Reviews.{
  rate_product, rate_store, is_user, display_name, new_review, clashes_review, insert_review,
  rate_both, review_found, create_review, is_purchase, is_review, upsert_user, inventory_changed,
  CompletedItem, sold, tell_product, add_purchase, complete_item, complete_items, order_completed,
  create_app_review, is_event, processed,
}
use seapedia.Catalog.Counted.{IsCounted-stores, IsCounted-products}
use seapedia.Catalog.Calls.{
  CatalogCall, opens, edits, offers, changes, withdraws, reviews, praises, hears_user, hears_stock,
  hears_order, call, call_all,
}
use seapedia.Catalog.StoreTotals.{
  HasTotals, Ends, tell_store-HasTotals, create-HasTotals, update_store-HasTotals,
}
use seapedia.Catalog.ProductTotals.{
  create_seller_product-HasTotals, update_seller_product-HasTotals, delete_seller_product-HasTotals,
}

tell_product-HasTotals :
    (o : Option ProductDoc) (d : CatalogDb) → HasTotals d → HasTotals (tell_product o d)
tell_product-HasTotals none d h = h
tell_product-HasTotals (some p) d h = h

module _ (env : Env) where
  rate_both-HasTotals :
      (rating : ℕ) (p : ProductDoc) (d : CatalogDb)
      → HasTotals d
      → HasTotals (rate_both env rating p d)
  rate_both-HasTotals rating p d h =
      tell_store-HasTotals
        (Option.map (rate_store env rating) (find (is_store p.store_id) d.stores))
        (enqueue (product_upserted (rate_product env rating p)) (record d {
          products = update (is_product p.id) (rate_product env rating) d.products;
          stores = update (is_store p.store_id) (rate_store env rating) d.stores;
        }))
        (IsCounted-stores (is_store p.store_id) (rate_store env rating) d.stores
          (update (is_product p.id) (rate_product env rating) d.products) (λ _. refl) (λ _. refl)
          (IsCounted-products (is_product p.id) (rate_product env rating) d.stores d.products
            (λ _. refl) (λ _. refl) h))

  review_found-HasTotals :
      (r : ProductReview) (o : Option ProductDoc) (d : CatalogDb)
      → HasTotals d
      → OnOk Ends (review_found env r o d)
  unfolding review_found insert_review
  review_found-HasTotals r none d h = tt
  review_found-HasTotals r (some p) d h =
      elim (Bool-cases (is_some (find (clashes_review r) d.product_reviews))) [
        | inl e ↦ rw e tt
        | inr e ↦ rw e (
            rate_both-HasTotals r.rating p
              (record d { product_reviews = d.product_reviews ++ (r ∷ []) }) h)
      ]

  create_review-HasTotals :
      (buyer product rating : ℕ) (comment : String) (d : CatalogDb)
      → HasTotals d
      → HasTotals (create_review env buyer product rating comment d).1
  unfolding create_review
  create_review-HasTotals buyer product rating comment d h =
      elim (Bool-cases (is_some (find (is_purchase buyer product) d.purchases))) [
        | inr e ↦ rw e h
        | inl e ↦
            rw e (elim (Bool-cases (is_some (find (is_review buyer product) d.product_reviews))) [
              | inl f ↦ rw f h
              | inr f ↦ rw f (
                  let r =
                    new_review env buyer product rating
                      (display_name (find (is_user buyer) d.users)) comment in
                  transaction_state HasTotals
                    (λ d'. review_found env r (find (is_product product) d'.products) d') d h
                    (review_found-HasTotals r (find (is_product product) d.products) d h))
            ])
      ]

  add_purchase-HasTotals :
      (buyer product : ℕ) (d : CatalogDb)
      → HasTotals d
      → HasTotals (add_purchase env buyer product d)
  add_purchase-HasTotals buyer product d h =
      elim (Bool-cases (is_some (find (is_purchase buyer product) d.purchases))) [
        | inl e ↦ rw (e, add_purchase) h
        | inr e ↦ rw (e, add_purchase) h
      ]

  complete_item-HasTotals :
      (buyer : ℕ) (product : Option ℕ) (quantity : ℕ) (d : CatalogDb)
      → HasTotals d
      → HasTotals (complete_item env buyer product quantity d)
  unfolding complete_item
  complete_item-HasTotals buyer none quantity d h = h
  complete_item-HasTotals buyer (some product) quantity d h =
      let d' = add_purchase env buyer product d in
      tell_product-HasTotals
        (Option.map (sold env quantity) (find (is_product product) d'.products))
        (record d' { products = update (is_product product) (sold env quantity) d'.products })
        (IsCounted-products (is_product product) (sold env quantity) d'.stores d'.products
          (λ _. refl) (λ _. refl) (add_purchase-HasTotals buyer product d h))

  complete_items-HasTotals :
      (buyer : ℕ) (items : List CompletedItem) (d : CatalogDb)
      → HasTotals d
      → HasTotals (complete_items env buyer items d)
  unfolding complete_items
  complete_items-HasTotals buyer [] d h = h
  complete_items-HasTotals buyer (i ∷ is) d h =
      complete_items-HasTotals buyer is (complete_item env buyer i.product_id i.quantity d)
        (complete_item-HasTotals buyer i.product_id i.quantity d h)

  order_completed-HasTotals :
      (event buyer : ℕ) (items : List CompletedItem) (d : CatalogDb)
      → HasTotals d
      → HasTotals (order_completed env event buyer items d)
  unfolding order_completed
  order_completed-HasTotals event buyer items d h =
      elim (Bool-cases (is_some (find (is_event event) d.inbox))) [
        | inl e ↦ rw e h
        | inr e ↦ rw e (
            complete_items-HasTotals buyer items
              (record d { inbox = d.inbox ++ (processed env event ∷ []) }) h)
      ]

  upsert_user-HasTotals :
      (id : ℕ) (name : String) (version : ℕ) (d : CatalogDb)
      → HasTotals d
      → HasTotals (upsert_user id name version d)
  unfolding upsert_user
  upsert_user-HasTotals id name version d h =
      elim (Bool-cases (is_some (find (is_user id) d.users))) [ inl e ↦ rw e h | inr e ↦ rw e h ]

  call-HasTotals : (c : CatalogCall) (d : CatalogDb) → HasTotals d → HasTotals (call env c d)
  unfolding call inventory_changed create_app_review
  call-HasTotals (opens user input) d h = create-HasTotals env user input d h
  call-HasTotals (edits user p) d h = update_store-HasTotals env user p d h
  call-HasTotals (offers seller input) d h = create_seller_product-HasTotals env seller input d h
  call-HasTotals (changes seller product p) d h =
      update_seller_product-HasTotals env seller product p d h
  call-HasTotals (withdraws seller product) d h =
      delete_seller_product-HasTotals env seller product d h
  call-HasTotals (reviews buyer product rating comment) d h =
      create_review-HasTotals buyer product rating comment d h
  call-HasTotals (praises name rating comment) d h = h
  call-HasTotals (hears_user id name version) d h = upsert_user-HasTotals id name version d h
  call-HasTotals (hears_stock product stock version) d h =
      IsCounted-products (λ p. p.id == product && ltb p.stock_version version)
        (λ p. record p { stock = stock; stock_version = version }) d.stores d.products (λ _. refl)
        (λ _. refl) h
  call-HasTotals (hears_order event buyer items) d h =
      order_completed-HasTotals event buyer items d h

-- Where each store says how many products it has, each product's store is there and no two products have
-- one id, so it is after any calls of sellers and buyers and any deliveries from the other services, failed
-- ones included.
pub totals_kept :
    (calls : List (Env × CatalogCall)) (d : CatalogDb) → HasTotals d → HasTotals (call_all calls d)
totals_kept [] d h = h
totals_kept ((env, c) ∷ cs) d h = totals_kept cs (call env c d) (call-HasTotals env c d h)
