-- ===== src/Tests/Sync.antt =====
-- Events of the other services, at a small shop.

use seapedia.Prelude.{◌≡◌, refl, true, false, [], ◌∷◌}
use seapedia.Db.{ok}
use seapedia.Inventory.{set_stock}
use seapedia.Inventory.Arrival.{Applied, pending_stock_arrives}
use seapedia.Cart.{has_product}
use seapedia.Replicas.{product_upserted, product_deleted}
use seapedia.Replicas.Events.{product_upsert, product_delete, handle_all}
use seapedia.Replicas.Deleted.{deleted_for_ever}
use seapedia.Replicas.Late.{late_upsert_revives}
use seapedia.Tests.Shop.{clock, store, shop, upsert}

deleted_for_ever_example :
    has_product 50
      (handle_all ((clock, product_upsert upsert) ∷ []) (product_deleted clock 50 2 shop).1)
    ≡ false
deleted_for_ever_example =
    deleted_for_ever clock 50 2 ((clock, product_upsert upsert) ∷ []) shop (tt, tt) refl

late_upsert_revives_example :
    has_product 51 (
      handle_all
        ((clock, product_delete 51 4) ∷ (clock, product_upsert (record upsert { id = 51 })) ∷ [])
        shop)
    ≡ true
late_upsert_revives_example =
    late_upsert_revives clock clock (record upsert { id = 51 }) 4 shop store refl refl

pending_stock_arrives_example :
    let (set, d₁) = set_stock clock 2 51 9 shop in
    let (arrived, d₂) = product_upserted clock (record upsert { id = 51 }) d₁ in
    (set ≡ ok (record { product_id = 51; stock = 9; pending = true }))
    × (arrived ≡ ok tt)
    × Applied 51 9 d₂
pending_stock_arrives_example =
    pending_stock_arrives clock clock 2 9 (record upsert { id = 51 }) shop store refl refl refl
