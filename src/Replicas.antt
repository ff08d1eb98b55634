-- ===== src/Replicas.antt =====
-- ReplicaSync: services/commerce/src/modules/catalog-sync/catalog-sync.service.ts, and the stock
-- that a seller sets: services/commerce/src/modules/inventory/inventory.service.ts
pub mod Events
pub mod Writes
pub mod Deleted
pub mod Late
pub mod Users
use seapedia.Prelude.{
  ℕ, ◌+◌, Bool, true, false, not, ◌&&◌, Option, none, some, List, [], ◌∷◌, ◌++◌, map, String, ltb,
  ◌==◌, is_some, find, delete, select, update, if◌then◌else◌,
}
use seapedia.Db.{
  CartItem, StoreRef, ProductRef, Stock, UserRef, PendingStock, Event, inventory_changed, Db,
  Result, ok, err, Action, pure, throw, gets, or_throw, transaction, ◌>>=◌, ◌>>◌, throw_if, modify,
  not_found, forbidden, constraint, Reason, Env,
}

-- The data of `catalog.product.upserted`, with the version of its envelope.
pub record ProductUpserted : Type 0 where
  pub id : ℕ
  pub store_id : ℕ
  pub name : String
  pub slug : String
  pub price : ℕ
  pub image_key : Option String
  pub version : ℕ

abbrev pub is_product : ℕ → ProductRef → Bool
is_product id p = p.id == id

abbrev pub is_store : ℕ → StoreRef → Bool
is_store id s = s.id == id

abbrev pub is_stock : ℕ → Stock → Bool
is_stock id s = s.product_id == id

abbrev pub is_pending : ℕ → PendingStock → Bool
is_pending id p = p.product_id == id

abbrev pub new_product : Env → ProductUpserted → ProductRef
new_product env e = record {
  id = e.id;
  store_id = e.store_id;
  name = e.name;
  slug = e.slug;
  price = e.price;
  image_key = e.image_key;
  deleted = false;
  version = e.version;
  synced_at = env.now;
}

-- The `set` leaves `deleted` alone.
abbrev pub set_product : Env → ProductUpserted → ProductRef → ProductRef
set_product env e p = record p {
  store_id = e.store_id;
  name = e.name;
  slug = e.slug;
  price = e.price;
  image_key = e.image_key;
  version = e.version;
  synced_at = env.now;
}

-- The upsert; the result tells whether the row was written and is no tombstone. The store must be
-- there for a row that is written.
abbrev pub write_product : Env → ProductUpserted → Option ProductRef → Action Bool
write_product env e none = do
  or_throw (← gets (λ d. find (is_store e.store_id) d.store_refs)) constraint
  modify (λ d. record d { product_refs = d.product_refs ++ (new_product env e ∷ []) })
  pure true
write_product env e (some p) =
    if ltb p.version e.version
    then (do
      or_throw (← gets (λ d. find (is_store e.store_id) d.store_refs)) constraint
      modify (λ d. record d {
        product_refs = update (is_product e.id) (set_product env e) d.product_refs;
      })
      pure (not p.deleted))
    else pure false

abbrev pub new_stock : Env → ℕ → ℕ → ℕ → Stock
new_stock env product stock version = record {
  product_id = product;
  stock = stock;
  version = version;
  updated_at = env.now;
}

-- `on conflict do nothing`
abbrev pub ensure_stock : Env → ℕ → Db → Db
ensure_stock env product d = elim (find (is_stock product) d.inventory) [
  | some _ ↦ d
  | none ↦ record d { inventory = d.inventory ++ (new_stock env product 0 0 ∷ []) }
]

abbrev pub set_stock_row : Env → ℕ → Stock → Stock
set_stock_row env stock s = record s {
  stock = stock;
  version = s.version + 1;
  updated_at = env.now;
}

abbrev changed : Env → ℕ → Stock → Event
changed env stock s = inventory_changed s.product_id stock (s.version + 1)

abbrev pub is_owner : ℕ → ℕ → StoreRef → Bool
is_owner store seller s = s.id == store && s.seller_id == seller

-- An update that finds the row of the product, with the event of the changed row.
abbrev pub write_stock : Env → ℕ → ℕ → Db → Db
write_stock env product stock d = record d {
  inventory = update (is_stock product) (set_stock_row env stock) d.inventory;
  outbox = d.outbox ++ map (changed env stock) (select (is_stock product) d.inventory);
}

-- `applyPendingStock`
unfoldable pub apply_pending_stock : Env → ℕ → ℕ → Db → Db
apply_pending_stock env product store d = elim (find (is_pending product) d.pending_stock) [
  | none ↦ d
  | some p ↦
      let d' : Db = record d { pending_stock = delete (is_pending product) d.pending_stock } in
      elim (find (is_owner store p.seller_id) d.store_refs) [
        | none ↦ d'
        | some _ ↦ write_stock env product p.stock d'
      ]
]

-- The transaction of `productUpserted`.
unfoldable pub upsert_product : Env → ProductUpserted → Action (Unit {0})
unfolding apply_pending_stock
upsert_product env e = do
  applied ← write_product env e (← gets (λ d. find (is_product e.id) d.product_refs))
  modify (λ d.
      if applied then apply_pending_stock env e.id e.store_id (ensure_stock env e.id d) else d)

unfoldable pub product_upserted : Env → ProductUpserted → Action (Unit {0})
product_upserted env e = transaction (upsert_product env e)

abbrev pub older_product : ℕ → ℕ → ProductRef → Bool
older_product id version p = p.id == id && ltb p.version version

abbrev pub tombstone : Env → ℕ → ProductRef → ProductRef
tombstone env version p = record p { deleted = true; version = version; synced_at = env.now }

abbrev pub drop_product : ℕ → Db → Db
drop_product id d = record d {
  cart_items = delete (λ (i : CartItem). i.product_id == id) d.cart_items;
  inventory = delete (is_stock id) d.inventory;
  pending_stock = delete (is_pending id) d.pending_stock;
}

-- `productDeleted`: a product that is not there, or is newer, is left alone.
unfoldable pub product_deleted : Env → (id version : ℕ) → Action (Unit {0})
product_deleted env id version d = elim (find (older_product id version) d.product_refs) [
  | none ↦ (ok tt, d)
  | some _ ↦ (
    ok tt,
    drop_product id (record d {
      product_refs = update (older_product id version) (tombstone env version) d.product_refs;
    }),
  )
]

-- The data of `catalog.store.upserted`.
pub record StoreUpserted : Type 0 where
  pub id : ℕ
  pub seller_id : ℕ
  pub name : String
  pub slug : String
  pub version : ℕ

abbrev pub new_store : Env → StoreUpserted → StoreRef
new_store env e = record {
  id = e.id;
  seller_id = e.seller_id;
  name = e.name;
  slug = e.slug;
  version = e.version;
  synced_at = env.now;
}

-- The column `seller_id` is unique.
abbrev pub is_seller_elsewhere : ℕ → ℕ → StoreRef → Bool
is_seller_elsewhere seller id s = s.seller_id == seller && not (s.id == id)

abbrev pub free_seller : ℕ → ℕ → Action (Unit {0})
free_seller seller id = do
  throw_if (is_some (← gets (λ d. find (is_seller_elsewhere seller id) d.store_refs))) constraint

-- `storeUpserted`
unfoldable pub store_upserted : Env → StoreUpserted → Action (Unit {0})
store_upserted env e d = elim (find (is_store e.id) d.store_refs) [
  | none ↦
      (do
        free_seller e.seller_id e.id
        modify (λ d. record d { store_refs = d.store_refs ++ (new_store env e ∷ []) }))
        d
  | some s ↦
      if ltb s.version e.version
      then (do
        free_seller e.seller_id e.id
        modify (λ d. record d {
          store_refs = update (is_store e.id) (λ _. new_store env e) d.store_refs;
        }))
          d
      else (ok tt, d)
]

abbrev pub is_user : ℕ → UserRef → Bool
is_user id u = u.id == id

abbrev pub new_user : Env → (id : ℕ) → List String → (version : ℕ) → UserRef
new_user env id roles version = record {
  id = id;
  roles = roles;
  version = version;
  synced_at = env.now;
}

-- `userUpserted`
unfoldable pub user_upserted : Env → (id : ℕ) → List String → (version : ℕ) → Action (Unit {0})
user_upserted env id roles version d = elim (find (is_user id) d.user_refs) [
  | none ↦ (ok tt, record d { user_refs = d.user_refs ++ (new_user env id roles version ∷ []) })
  | some u ↦
      if ltb u.version version
      then (
        ok tt,
        record d {
          user_refs = update (is_user id) (λ _. new_user env id roles version) d.user_refs;
        },
      )
      else (ok tt, d)
]
