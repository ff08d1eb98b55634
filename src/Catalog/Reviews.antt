-- ===== src/Catalog/Reviews.antt =====
-- Reviews of products, and what the catalog takes over from identity and commerce.
-- services/catalog/src/modules/product-reviews, services/catalog/src/modules/events/consumers.ts,
-- services/catalog/src/modules/reviews/reviews.service.ts
use mathlib.Core.Option
use seapedia.Prelude.{
  leb, delete, ℕ, ◌+◌, ◌*◌, ◌/◌, Bool, not, ◌&&◌, ◌||◌, Option, none, some, List, [], ◌∷◌, ◌++◌,
  String, ◌==◌, ltb, if◌then◌else◌, is_some, find, update,
}
use seapedia.Platform.Monad.{
  ok, err, validation, not_found, forbidden, pure, throw, transaction, modify, ◌>>◌, Env,
}
use seapedia.Catalog.Schema.{
  InboxDoc, StoreDoc, ProductDoc, ProductReview, UserDoc, Purchase, product_upserted, CatalogDb,
  product_missing, not_purchased, already_reviewed, Action,
}
use seapedia.Catalog.Stores.{is_store, enqueue}
use seapedia.Catalog.Products.{is_product, tell_store}

abbrev pub is_purchase : (buyer product : ℕ) → Purchase → Bool
is_purchase buyer product p = p.buyer_id == buyer && p.product_id == product

abbrev pub is_review : (buyer product : ℕ) → ProductReview → Bool
is_review buyer product r = r.product_id == product && r.buyer_id == buyer

abbrev pub is_user : ℕ → UserDoc → Bool
is_user id u = u.id == id

-- `toFixed(2)`, in hundredths: the nearest, the larger of two. The numbers are taken as exact.
unfoldable pub add_to_average : (average count rating : ℕ) → ℕ
add_to_average average count rating =
    (2 * (average * count + 100 * rating) + (count + 1)) / (2 * (count + 1))

abbrev pub rate_product : Env → ℕ → ProductDoc → ProductDoc
rate_product env rating p = record p {
  rating = add_to_average p.rating p.review_count rating;
  review_count = p.review_count + 1;
  updated_at = env.now;
  version = p.version + 1;
}

abbrev pub rate_store : Env → ℕ → StoreDoc → StoreDoc
rate_store env rating s = record s {
  rating = add_to_average s.rating s.review_count rating;
  review_count = s.review_count + 1;
  updated_at = env.now;
  version = s.version + 1;
}

abbrev pub clashes_review : ProductReview → ProductReview → Bool
clashes_review n r = r.id == n.id || is_review n.buyer_id n.product_id r

-- The unique index on the buyer and the product answers a second review.
unfoldable pub insert_review : ProductReview → Action (Unit {0})
insert_review r d =
    if is_some (find (clashes_review r) d.product_reviews)
    then (err (validation already_reviewed), d)
    else (ok tt, record d { product_reviews = d.product_reviews ++ (r ∷ []) })

abbrev pub new_review : Env → (buyer product rating : ℕ) → (name comment : String) → ProductReview
new_review env buyer product rating name comment = record {
  id = env.uuid 0;
  product_id = product;
  buyer_id = buyer;
  reviewer_name = name;
  rating = rating;
  comment = comment;
  created_at = env.now;
}

abbrev pub rate_both : Env → ℕ → ProductDoc → CatalogDb → CatalogDb
rate_both env rating p d =
    tell_store (Option.map (rate_store env rating) (find (is_store p.store_id) d.stores)) (
      enqueue (product_upserted (rate_product env rating p)) (record d {
        products = update (is_product p.id) (rate_product env rating) d.products;
        stores = update (is_store p.store_id) (rate_store env rating) d.stores;
      }))

unfoldable pub review_found : Env → ProductReview → Option ProductDoc → Action ProductReview
review_found env r none = throw (not_found product_missing)
review_found env r (some p) = do insert_review r; modify (rate_both env r.rating p); pure r

abbrev pub display_name : Option UserDoc → String
display_name none = "Pembeli"
display_name (some u) = u.display_name

unfoldable pub create_review :
    Env → (buyer product rating : ℕ) → (comment : String) → Action ProductReview
create_review env buyer product rating comment d =
    if not (is_some (find (is_purchase buyer product) d.purchases))
    then (err (forbidden not_purchased), d)
    else if is_some (find (is_review buyer product) d.product_reviews)
    then (err (validation already_reviewed), d)
    else transaction
        (λ d'.
          review_found env
            (new_review env buyer product rating (display_name (find (is_user buyer) d.users))
              comment)
            (find (is_product product) d'.products) d')
        d

-- The display name, if the event is newer than what is there.
unfoldable pub upsert_user : ℕ → String → (version : ℕ) → CatalogDb → CatalogDb
upsert_user id name version d =
    if is_some (find (is_user id) d.users)
    then record d {
      users =
          update (λ u. u.id == id && ltb u.version version)
            (λ u. record u { display_name = name; version = version }) d.users;
    }
    else record d {
      users = d.users ++ (record { id = id; display_name = name; version = version } ∷ []);
    }

unfoldable pub inventory_changed : (product stock version : ℕ) → CatalogDb → CatalogDb
inventory_changed product stock version d = record d {
  products =
      update (λ p. p.id == product && ltb p.stock_version version)
        (λ p. record p { stock = stock; stock_version = version }) d.products;
}

-- A line of a completed order; a product that was deleted has no id.
pub record CompletedItem : Type 0 where
  pub product_id : Option ℕ
  pub quantity : ℕ

abbrev pub sold : Env → ℕ → ProductDoc → ProductDoc
sold env quantity p = record p {
  sold_count = p.sold_count + quantity;
  version = p.version + 1;
  updated_at = env.now;
}

abbrev pub tell_product : Option ProductDoc → CatalogDb → CatalogDb
tell_product none d = d
tell_product (some p) d = enqueue (product_upserted p) d

-- An upsert that sets nothing where the purchase is there.
abbrev pub add_purchase : Env → (buyer product : ℕ) → CatalogDb → CatalogDb
add_purchase env buyer product d =
    if is_some (find (is_purchase buyer product) d.purchases) then d else record d {
      purchases =
          d.purchases ++ (record { buyer_id = buyer; product_id = product; at = env.now } ∷ []);
    }

unfoldable pub complete_item : Env → ℕ → Option ℕ → ℕ → CatalogDb → CatalogDb
complete_item env buyer none quantity d = d
complete_item env buyer (some product) quantity d =
    let d' = add_purchase env buyer product d in
    tell_product (Option.map (sold env quantity) (find (is_product product) d'.products))
      (record d' { products = update (is_product product) (sold env quantity) d'.products })

unfoldable pub complete_items : Env → ℕ → List CompletedItem → CatalogDb → CatalogDb
complete_items env buyer [] d = d
complete_items env buyer (i ∷ is) d =
    complete_items env buyer is (complete_item env buyer i.product_id i.quantity d)

abbrev pub is_event : ℕ → InboxDoc → Bool
is_event id e = e.event == id

abbrev pub processed : Env → ℕ → InboxDoc
processed env event = record { event = event; processed_at = env.now }

-- `expireAfterSeconds: 30 * 86_400`, in milliseconds.
abbrev pub inbox_lifetime : ℕ
inbox_lifetime = 30 * 86_400 * 1000

abbrev pub is_expired : ℕ → InboxDoc → Bool
is_expired now e = leb (e.processed_at + inbox_lifetime) now

-- MongoDB deletes the expired documents of the inbox, at times of its own.
unfoldable pub expire_inbox : (now : ℕ) → CatalogDb → CatalogDb
expire_inbox now d = record d { inbox = delete (is_expired now) d.inbox }

-- `commerce.order.completed`, once for each event id that the inbox still has.
unfoldable pub order_completed :
    Env → (event buyer : ℕ) → List CompletedItem → CatalogDb → CatalogDb
order_completed env event buyer items d =
    if is_some (find (is_event event) d.inbox)
    then d
    else complete_items env buyer items (record d { inbox = d.inbox ++ (processed env event ∷ []) })

-- Reviews of the marketplace itself, which anyone may write.
unfoldable pub create_app_review :
    Env → (name : String) → (rating : ℕ) → (comment : String) → CatalogDb → CatalogDb
create_app_review env name rating comment d = record d {
  app_reviews =
      d.app_reviews
      ++ (record {
        id = env.uuid 0;
        reviewer_name = name;
        rating = rating;
        comment = comment;
        created_at = env.now;
      }
          ∷ []);
}
