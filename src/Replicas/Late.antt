-- ===== src/Replicas/Late.antt =====
-- A deletion that is delivered before the product.
use seapedia.Prelude.{
  ℕ, ◌≡◌, arith, Bool, true, not, ◌&&◌, none, some, [], ◌∷◌, find, ◌==◌, find-append, find-none,
}
use seapedia.Db.{ProductRef, StoreRef, Db, Env}
use seapedia.Cart.{has_product}
use seapedia.Replicas.{
  ProductUpserted, is_product, is_store, new_product, upsert_product, product_upserted,
  older_product, product_deleted,
}
use seapedia.Replicas.Events.{product_upsert, product_delete, handle, handle_all}
use seapedia.Replicas.Writes.{after_upsert}

abbrev is_live : ℕ → ProductRef → Bool
is_live id p = p.id == id && not p.deleted

live_new : (env : Env) (e : ProductUpserted) → is_live e.id (new_product env e) ≡ true
live_new env e = ground arith

write_new :
    (env : Env) (e : ProductUpserted) (d : Db) (s : StoreRef)
    → find (is_product e.id) d.product_refs ≡ none
    → find (is_store e.store_id) d.store_refs ≡ some s
    → find (is_live e.id) (product_upserted env e d).1.product_refs ≡ some (new_product env e)
unfolding product_upserted upsert_product
write_new env e d s missing store =
    let absent : find (is_live e.id) d.product_refs ≡ none =
      find-none (is_live e.id) (is_product e.id) d.product_refs (λ x h. ground arith) missing in
    rw (
      missing,
      store,
      after_upsert,
      find-append (is_live e.id) d.product_refs (new_product env e) absent,
      live_new env e,
    )

delete_unknown :
    (env : Env) (id version : ℕ) (d : Db)
    → find (is_product id) d.product_refs ≡ none
    → (product_deleted env id version d).1 ≡ d
unfolding product_deleted
delete_unknown env id version d missing =
    let absent : find (older_product id version) d.product_refs ≡ none =
      find-none (older_product id version) (is_product id) d.product_refs (λ x h. ground arith)
        missing in
    rw (absent, product_deleted)

-- A deletion that arrives before the first upsert of its product leaves no tombstone, so the upsert,
-- delivered after it, puts the product on offer, however old it is.
pub late_upsert_revives :
    (env env' : Env) (e : ProductUpserted) (version : ℕ) (d : Db) (s : StoreRef)
    → find (is_product e.id) d.product_refs ≡ none
    → find (is_store e.store_id) d.store_refs ≡ some s
    → has_product e.id
        (handle_all ((env, product_delete e.id version) ∷ (env', product_upsert e) ∷ []) d)
      ≡ true
unfolding handle_all handle
late_upsert_revives env env' e version d s missing store =
    rw (delete_unknown env e.id version d missing, write_new env' e d s missing store)
