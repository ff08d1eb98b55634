-- ===== src/Inventory.antt =====
-- InventoryService: services/commerce/src/modules/inventory/inventory.service.ts
pub mod Arrival
use seapedia.Prelude.{
  ℕ, Bool, true, false, not, ◌||◌, Option, none, some, List, [], ◌∷◌, ◌++◌, ◌==◌, find, select,
  update,
}
use seapedia.Db.{
  StoreRef, ProductRef, Stock, PendingStock, inventory_changed, Db, ok, Action, pure, ◌>>◌,
  throw_if, modify, not_found, forbidden, Reason, Env,
}
use seapedia.Replicas.{is_product, is_store, is_stock, is_pending, new_stock, write_stock}

pub record Owned : Type 0 where
  pub deleted : Bool
  pub seller_id : ℕ

abbrev pub owned_by : ProductRef → Option StoreRef → Option Owned
owned_by p none = none
owned_by p (some s) = some (record { deleted = p.deleted; seller_id = s.seller_id })

abbrev pub product_and_store : Option ProductRef → Db → Option Owned
product_and_store none d = none
product_and_store (some p) d = owned_by p (find (is_store p.store_id) d.store_refs)

abbrev pub set_pending : Env → ℕ → ℕ → PendingStock → PendingStock
set_pending env seller stock p = record p { seller_id = seller; stock = stock }

abbrev pub new_pending : Env → ℕ → ℕ → ℕ → PendingStock
new_pending env product seller stock = record {
  product_id = product;
  seller_id = seller;
  stock = stock;
  created_at = env.now;
}

-- The upsert of the stock that waits for its product.
abbrev pub keep_pending : Env → ℕ → ℕ → ℕ → Db → Db
keep_pending env seller product stock d = elim (find (is_pending product) d.pending_stock) [
  | none ↦ record d {
    pending_stock = d.pending_stock ++ (new_pending env product seller stock ∷ []);
  }
  | some _ ↦ record d {
    pending_stock = update (is_pending product) (set_pending env seller stock) d.pending_stock;
  }
]

-- The upsert of the stock, with its event.
abbrev pub put_stock : Env → ℕ → ℕ → Db → Db
put_stock env product stock d = elim (find (is_stock product) d.inventory) [
  | none ↦ record d {
    inventory = d.inventory ++ (new_stock env product stock 1 ∷ []);
    outbox = d.outbox ++ (inventory_changed product stock 1 ∷ []);
  }
  | some _ ↦ write_stock env product stock d
]

pub record StockSet : Type 0 where
  pub product_id : ℕ
  pub stock : ℕ
  pub pending : Bool

-- `setStock`. The advisory lock is the order of the transactions.
unfoldable pub set_stock : Env → ℕ → ℕ → ℕ → Action StockSet
set_stock env seller product stock d =
    elim (product_and_store (find (is_product product) d.product_refs) d) [
      | none ↦ (
        ok (record { product_id = product; stock = stock; pending = true }),
        keep_pending env seller product stock d,
      )
      | some o ↦
          (do
            throw_if o.deleted (not_found Reason.product_missing)
            throw_if (not (o.seller_id == seller)) (forbidden Reason.not_your_product)
            modify (put_stock env product stock)
            pure (record { product_id = product; stock = stock; pending = false }))
            d
    ]

abbrev is_among : List ℕ → Stock → Bool
is_among [] s = false
is_among (p ∷ ps) s = s.product_id == p || is_among ps s

-- `getStock`
unfoldable pub get_stock : List ℕ → Db → List Stock
get_stock products d = select (is_among products) d.inventory
