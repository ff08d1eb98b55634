-- ===== src/Replicas/Events.antt =====
-- The consumer's handlers
-- (services/commerce/src/modules/catalog-sync/catalog-sync.consumer.ts), on any sequence of events.
use seapedia.Prelude.{ℕ, List, [], ◌∷◌, String}
use seapedia.Db.{Db, Env}
use seapedia.Replicas.{
  ProductUpserted, StoreUpserted, product_upserted, product_deleted, store_upserted, user_upserted,
}

pub data CatalogEvent : Type 0 where
  product_upsert : ProductUpserted → CatalogEvent
  product_delete : (id version : ℕ) → CatalogEvent
  store_upsert : StoreUpserted → CatalogEvent
  user_upsert : (id : ℕ) → List String → (version : ℕ) → CatalogEvent

-- The handlers of the consumer; an event that fails leaves what its handler left.
unfoldable pub handle : Env → CatalogEvent → Db → Db
handle env (product_upsert e) d = (product_upserted env e d).1
handle env (product_delete id version) d = (product_deleted env id version d).1
handle env (store_upsert e) d = (store_upserted env e d).1
handle env (user_upsert id roles version) d = (user_upserted env id roles version d).1

-- The deliveries one after the other, each with its clock.
unfoldable pub handle_all : List (Env × CatalogEvent) → Db → Db
unfolding handle
handle_all [] d = d
handle_all ((env, e) ∷ es) d = handle_all es (handle env e d)
