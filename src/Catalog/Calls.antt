-- ===== src/Catalog/Calls.antt =====
-- The calls and deliveries that change the catalog, one after another. services/catalog/src/modules
use seapedia.Prelude.{ℕ, List, [], ◌∷◌, String}
use seapedia.Platform.Monad.{Env}
use seapedia.Catalog.Schema.{CatalogDb}
use seapedia.Catalog.Stores.{StoreInput, StorePatch, create, update_store}
use seapedia.Catalog.Products.{
  ProductInput, ProductPatch, create_seller_product, update_seller_product, delete_seller_product,
}
use seapedia.Catalog.Reviews.{
  CompletedItem, create_review, upsert_user, inventory_changed, order_completed, create_app_review,
}

pub data CatalogCall : Type 0 where
  opens : (user : ℕ) → StoreInput → CatalogCall
  edits : (user : ℕ) → StorePatch → CatalogCall
  offers : (seller : ℕ) → ProductInput → CatalogCall
  changes : (seller product : ℕ) → ProductPatch → CatalogCall
  withdraws : (seller product : ℕ) → CatalogCall
  reviews : (buyer product rating : ℕ) → String → CatalogCall
  praises : (name : String) → (rating : ℕ) → String → CatalogCall
  hears_user : ℕ → String → (version : ℕ) → CatalogCall
  hears_stock : (product stock version : ℕ) → CatalogCall
  hears_order : (event buyer : ℕ) → List CompletedItem → CatalogCall

unfoldable pub call : Env → CatalogCall → CatalogDb → CatalogDb
call env (opens user input) d = (create env user input d).1
call env (edits user p) d = (update_store env user p d).1
call env (offers seller input) d = (create_seller_product env seller input d).1
call env (changes seller product p) d = (update_seller_product env seller product p d).1
call env (withdraws seller product) d = (delete_seller_product env seller product d).1
call env (reviews buyer product rating comment) d =
    (create_review env buyer product rating comment d).1
call env (praises name rating comment) d = create_app_review env name rating comment d
call env (hears_user id name version) d = upsert_user id name version d
call env (hears_stock product stock version) d = inventory_changed product stock version d
call env (hears_order event buyer items) d = order_completed env event buyer items d

abbrev pub call_all : List (Env × CatalogCall) → CatalogDb → CatalogDb
call_all [] d = d
call_all ((env, c) ∷ cs) d = call_all cs (call env c d)
