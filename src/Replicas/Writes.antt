-- ===== src/Replicas/Writes.antt =====
-- The stock that an upsert writes is none of the products' rows.
use seapedia.Prelude.{
  ℕ, ◌≡◌, refl, ◌∙◌, inl, inr, Bool, true, false, Option-cases, find, if◌then◌else◌,
}
use seapedia.Db.{Db, Env}
use seapedia.Replicas.{
  ProductUpserted, is_stock, is_pending, is_owner, ensure_stock, apply_pending_stock,
}

pub apply_pending_stock-refs :
    (env : Env) (product store : ℕ) (d : Db)
    → (apply_pending_stock env product store d).product_refs ≡ d.product_refs
unfolding apply_pending_stock
apply_pending_stock-refs env product store d =
    elim (Option-cases (find (is_pending product) d.pending_stock)) [
      | inl e ↦ rw (e, apply_pending_stock)
      | inr (p, e) ↦
          rw (e, apply_pending_stock)
            (elim (Option-cases (find (is_owner store p.seller_id) d.store_refs)) [
              | inl e' ↦ rw e'
              | inr (s, e') ↦ rw e'
            ])
    ]

pub ensure_stock-refs :
    (env : Env) (product : ℕ) (d : Db) → (ensure_stock env product d).product_refs ≡ d.product_refs
ensure_stock-refs env product d = elim (Option-cases (find (is_stock product) d.inventory)) [
  | inl e ↦ rw (e, ensure_stock)
  | inr (s, e) ↦ rw (e, ensure_stock)
]

pub after_upsert :
    (env : Env) (e : ProductUpserted) (applied : Bool) (d : Db)
    → (if applied
        then apply_pending_stock env e.id e.store_id (ensure_stock env e.id d)
        else d).product_refs
      ≡ d.product_refs
after_upsert env e true d =
    apply_pending_stock-refs env e.id e.store_id (ensure_stock env e.id d)
    ∙ ensure_stock-refs env e.id d
after_upsert env e false d = refl
