-- ===== src/Catalog/Products.antt =====
-- The products of a store. services/catalog/src/modules/products
use mathlib.Core.Option
use seapedia.Prelude.{
  ℕ, suc, ◌+◌, ◌-◌, ℤ, pos, negsuc, Bool, true, false, not, ◌&&◌, ◌||◌, Option, none, some, List,
  [], ◌∷◌, ◌++◌, String, ◌==◌, if◌then◌else◌, is_some, find, update, delete, length,
}
use seapedia.Platform.Monad.{
  ok, err, validation, not_found, forbidden, constraint, pure, throw, or_throw, transaction,
  throw_if, modify, ◌>>=◌, ◌>>◌, Env,
}
use seapedia.Discounts.Codes.{same_code}
use seapedia.Catalog.Slugs.{Text, unique_slug}
use seapedia.Catalog.Free.{taken_in}
use seapedia.Catalog.Schema.{
  StoreDoc, ProductDoc, CatalogEvent, store_upserted, product_upserted, product_deleted, CatalogDb,
  negative_price, product_missing, no_store, Action,
}
use seapedia.Catalog.Stores.{is_store, is_seller, get_by_seller_id, enqueue, renamed}
use seapedia.Identity.Schema.{same_text}
use seapedia.Identity.Accounts.{or_else, non_empty}
use seapedia.Identity.Profile.{old_object}

abbrev pub is_product : ℕ → ProductDoc → Bool
is_product id p = p.id == id

abbrev pub is_owned : (store id : ℕ) → ProductDoc → Bool
is_owned store id p = p.id == id && p.store_id == store

abbrev pub in_store : ℕ → ProductDoc → Bool
in_store store p = p.store_id == store

abbrev pub is_other : Option ℕ → ProductDoc → Bool
is_other none p = true
is_other (some id) p = not (p.id == id)

abbrev pub product_slug : ProductDoc → Text
product_slug p = p.slug

unfoldable pub get_unique_product_slug : ℕ → Text → Option ℕ → CatalogDb → Option Text
get_unique_product_slug store name except d =
    unique_slug (taken_in product_slug (λ p. in_store store p && is_other except p) d.products)
      (suc (length d.products)) name

abbrev pub clashes_product : ProductDoc → ProductDoc → Bool
clashes_product n p = p.id == n.id || (p.store_id == n.store_id && same_code p.slug n.slug)

-- The key, and the unique index on the store and the slug.
unfoldable pub insert_product : ProductDoc → Action ProductDoc
insert_product p d =
    if is_some (find (clashes_product p) d.products)
    then (err constraint, d)
    else (ok p, record d { products = d.products ++ (p ∷ []) })

-- `adjustStoreProductCount`, by 1 and by -1; a store whose product is deleted has one to count down.
abbrev pub one_more : Env → StoreDoc → StoreDoc
one_more env s = record s {
  total_products = s.total_products + 1;
  version = s.version + 1;
  updated_at = env.now;
}

abbrev pub one_less : Env → StoreDoc → StoreDoc
one_less env s = record s {
  total_products = s.total_products - 1;
  version = s.version + 1;
  updated_at = env.now;
}

abbrev pub tell_store : Option StoreDoc → CatalogDb → CatalogDb
tell_store none d = d
tell_store (some s) d = enqueue (store_upserted s) d

-- `findOneAndUpdate`, and the event if it found one; the product's event comes between the two.
unfoldable pub adjust_store : (StoreDoc → StoreDoc) → CatalogEvent → ℕ → CatalogDb → CatalogDb
adjust_store change e id d =
    tell_store (Option.map change (find (is_store id) d.stores))
      (enqueue e (record d { stores = update (is_store id) change d.stores }))

pub record ProductInput : Type 0 where
  pub name : Text
  pub description : Option String
  pub price : ℤ
  pub image_key : Option String

abbrev pub is_negative : ℤ → Bool
is_negative (pos _) = false
is_negative (negsuc _) = true

abbrev pub new_product : Env → ℕ → ProductInput → Text → ProductDoc
new_product env store input slug = record {
  id = env.uuid 0;
  store_id = store;
  name = input.name;
  slug = slug;
  description = input.description;
  price = input.price;
  image_key = non_empty input.image_key;
  rating = 0;
  review_count = 0;
  sold_count = 0;
  stock = 0;
  stock_version = 0;
  version = 1;
  created_at = env.now;
  updated_at = env.now;
}

unfoldable pub insert_counted : Env → ProductDoc → Action ProductDoc
insert_counted env p = do
  created ← insert_product p
  modify (adjust_store (one_more env) (product_upserted created) p.store_id)
  pure created

unfoldable pub create_product_with : Env → ℕ → ProductInput → Option Text → Action ProductDoc
create_product_with env store input none d = (err constraint, d)
create_product_with env store input (some slug) d =
    transaction (insert_counted env (new_product env store input slug)) d

unfoldable pub create_in : Env → ProductInput → StoreDoc → Action ProductDoc
create_in env input s d =
    if is_negative input.price
    then (err (validation negative_price), d)
    else create_product_with env s.id input (get_unique_product_slug s.id input.name none d) d

unfoldable pub create_seller_product : Env → ℕ → ProductInput → Action ProductDoc
create_seller_product env seller input = do s ← get_by_seller_id seller; create_in env input s

-- A missing field keeps its value.
pub record ProductPatch : Type 0 where
  pub name : Option Text
  pub description : Option (Option String)
  pub price : Option ℤ
  pub image_key : Option (Option String)

abbrev pub patched_product : Env → ProductPatch → ProductDoc → Text → ProductDoc → ProductDoc
patched_product env p before slug x = record x {
  name = or_else p.name before.name;
  slug = slug;
  description = or_else p.description before.description;
  price = or_else p.price before.price;
  image_key = or_else p.image_key before.image_key;
  updated_at = env.now;
  version = x.version + 1;
}

abbrev pub clashes_other_product : ProductDoc → ProductDoc → Bool
clashes_other_product n p = not (p.id == n.id) && clashes_product n p

unfoldable pub write_product : Env → ProductPatch → ProductDoc → Text → Action ProductDoc
write_product env p before slug d =
    let after = patched_product env p before slug before in
    if is_some (find (clashes_other_product after) d.products) then (err constraint, d) else (
      ok after,
      enqueue (product_upserted after) (record d {
        products = update (is_product before.id) (patched_product env p before slug) d.products;
      }),
    )

abbrev pub slug_of : ℕ → ProductDoc → Option Text → CatalogDb → Option Text
slug_of store before none d = some before.slug
slug_of store before (some name) d = get_unique_product_slug store name (some before.id) d

unfoldable pub write_product_with :
    Env → ProductPatch → ProductDoc → Option Text → Action ProductDoc
write_product_with env p before none d = (err constraint, d)
write_product_with env p before (some slug) d = transaction (write_product env p before slug) d

abbrev pub price_refused : Option ℤ → Bool
price_refused none = false
price_refused (some price) = is_negative price

unfoldable pub update_owned : Env → ProductPatch → StoreDoc → Option ProductDoc → Action ProductDoc
update_owned env p s none = throw (not_found product_missing)
update_owned env p s (some before) = do
  throw_if (price_refused p.price) (validation negative_price)
  slug ← λ d. (ok (slug_of s.id before (renamed p.name before.name) d), d)
  after ← write_product_with env p before slug
  modify (λ d. record d {
    deleted_objects = d.deleted_objects ++ old_object env p.image_key before.image_key;
  })
  pure after

unfoldable pub update_seller_product : Env → (seller id : ℕ) → ProductPatch → Action ProductDoc
update_seller_product env seller id p = do
  s ← get_by_seller_id seller
  found ← λ d. (ok (find (is_owned s.id id) d.products), d)
  update_owned env p s found

-- The document as it was, with the event of its end.
abbrev pub remove_product : Env → ℕ → ProductDoc → CatalogDb → CatalogDb
remove_product env store p d =
    adjust_store (one_less env) (product_deleted p.id (p.version + 1)) store
      (record d { products = delete (is_product p.id) d.products })

abbrev pub deleted_image : Option String → List String
deleted_image none = []
deleted_image (some key) = if same_text key "" then [] else key ∷ []

unfoldable pub delete_owned : Env → ℕ → Option ProductDoc → Action (Unit {0})
delete_owned env store none d = (err (not_found product_missing), d)
delete_owned env store (some p) d = (
  ok tt,
  let after = remove_product env store p d in
      record after { deleted_objects = after.deleted_objects ++ deleted_image p.image_key },
)

unfoldable pub delete_seller_product : Env → (seller id : ℕ) → Action (Unit {0})
delete_seller_product env seller id = do
  s ← get_by_seller_id seller
  found ← λ d. (ok (find (is_owned s.id id) d.products), d)
  delete_owned env s.id found

unfoldable pub get_seller_product_by_id : (seller id : ℕ) → Action ProductDoc
get_seller_product_by_id seller id = do
  s ← get_by_seller_id seller
  found ← λ d. (ok (find (is_owned s.id id) d.products), d)
  or_throw found (not_found product_missing)

-- Whether an image may be uploaded; the answer is the storage's.
unfoldable pub presign_image : ℕ → Action (Unit {0})
presign_image seller d =
    if is_some (find (is_seller seller) d.stores) then (ok tt, d) else (err (forbidden no_store), d)
