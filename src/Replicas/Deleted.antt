-- ===== src/Replicas/Deleted.antt =====
-- A product that was deleted stays so, whatever is delivered later.
use seapedia.Prelude.{
  ℕ, ◌≡◌, refl, sym, ◌∙◌, arith, inl, inr, Bool, true, false, not, ◌&&◌, none, some, List, [], ◌∷◌,
  ◌++◌, String, Bool-cases, Option-cases, find, find_test, update, All, All-update, All-append,
  is_some, ltb, ◌==◌, if◌then◌else◌, eq_of_==, ==-refl, IsKeyed, only_row,
}
use seapedia.Db.{ProductRef, Db, Env, OnOk, transaction_state}
use seapedia.Cart.{has_product}
use seapedia.Replicas.{
  ProductUpserted, StoreUpserted, is_product, is_store, set_product, new_product, upsert_product,
  product_upserted, older_product, tombstone, product_deleted, store_upserted, user_upserted,
  is_seller_elsewhere, is_user,
}
use seapedia.Replicas.Events.{
  CatalogEvent, product_upsert, product_delete, store_upsert, user_upsert, handle, handle_all,
}
use seapedia.Replicas.Writes.{after_upsert}

-- The rows of the id are tombstones, and there is one.
abbrev Dead : ℕ → List ProductRef → Type 0
Dead id rows =
    All (λ p. p.id ≡ id → p.deleted ≡ true) rows × (is_some (find (is_product id) rows) ≡ true)

-- An update that keeps the ids and revives no row keeps the dead dead.
Dead-update :
    (id : ℕ) (p : ProductRef → Bool) (f : ProductRef → ProductRef) (rows : List ProductRef)
    → ((x : ProductRef) → (f x).id ≡ x.id)
    → ((x : ProductRef) → x.deleted ≡ true → (f x).deleted ≡ true)
    → Dead id rows
    → Dead id (update p f rows)
Dead-update id p f rows same_id stays (dead, there) = (
  All-update (λ x. x.id ≡ id → x.deleted ≡ true) (λ x. x.id ≡ id → x.deleted ≡ true) p f rows
      (λ x h. kept x (p x) h) dead,
  found rows there,
)
  where
    kept :
        (x : ProductRef) (b : Bool)
        → (x.id ≡ id → x.deleted ≡ true)
        → (if b then f x else x).id ≡ id
        → (if b then f x else x).deleted ≡ true
    kept x true h e = stays x (h (sym (same_id x) ∙ e))
    kept x false h e = h e

    key : (x : ProductRef) (b : Bool) → (if b then f x else x).id ≡ x.id
    key x true = same_id x
    key x false = refl

    found :
        (xs : List ProductRef)
        → is_some (find (is_product id) xs) ≡ true
        → is_some (find (is_product id) (update p f xs)) ≡ true
    found [] h = cc
    found (x ∷ xs) h = elim (Bool-cases (x.id == id)) [
      | inl e ↦ rw (key x (p x), e)
      | inr e ↦ rw (key x (p x), e) (found xs (rw e at h))
    ]

Dead-append :
    (id : ℕ) (rows : List ProductRef) (row : ProductRef)
    → ¬ (row.id ≡ id)
    → Dead id rows
    → Dead id (rows ++ (row ∷ []))
Dead-append id rows row other (dead, there) = (
  All-append (λ x. x.id ≡ id → x.deleted ≡ true) rows (row ∷ []) dead ((λ e. absurd (other e)), tt),
  found rows there,
)
  where
    found :
        (xs : List ProductRef)
        → is_some (find (is_product id) xs) ≡ true
        → is_some (find (is_product id) (xs ++ (row ∷ []))) ≡ true
    found [] h = cc
    found (x ∷ xs) h = elim (Bool-cases (x.id == id)) [
      | inl e ↦ rw e
      | inr e ↦ rw e (found xs (rw e at h))
    ]

absent_differs :
    (id k : ℕ) (rows : List ProductRef)
    → Dead id rows
    → find (is_product k) rows ≡ none
    → ¬ (k ≡ id)
absent_differs id k rows (_, there) e same = cc (rw same at e)

upsert_product-Dead :
    (env : Env) (id : ℕ) (e : ProductUpserted) (d : Db)
    → Dead id d.product_refs
    → OnOk (λ _ d'. Dead id d'.product_refs) (upsert_product env e d)
unfolding upsert_product
upsert_product-Dead env id e d h = elim (Option-cases (find (is_product e.id) d.product_refs)) [
  | inl missing ↦ rw missing (elim (Option-cases (find (is_store e.store_id) d.store_refs)) [
    | inl e' ↦ rw e' tt
    | inr (s, e') ↦
        rw (e', after_upsert)
          (Dead-append id d.product_refs (new_product env e)
            (absent_differs id e.id d.product_refs h missing) h)
  ])
  | inr (p, present) ↦ rw present (elim (Bool-cases (ltb p.version e.version)) [
    | inl newer ↦ rw newer (elim (Option-cases (find (is_store e.store_id) d.store_refs)) [
      | inl e' ↦ rw e' tt
      | inr (s, e') ↦
          rw (e', after_upsert env e (not p.deleted))
            (Dead-update id (is_product e.id) (set_product env e) d.product_refs (λ _. refl)
              (λ _ k. k) h)
    ])
    | inr older ↦ rw older h
  ])
]

product_deleted-Dead :
    (env : Env) (id k version : ℕ) (d : Db)
    → Dead id d.product_refs
    → Dead id (product_deleted env k version d).1.product_refs
unfolding product_deleted
product_deleted-Dead env id k version d h =
    elim (Option-cases (find (older_product k version) d.product_refs)) [
      | inl e ↦ rw (e, product_deleted) h
      | inr (p, e) ↦
          rw (e, product_deleted)
            (Dead-update id (older_product k version) (tombstone env version) d.product_refs
              (λ _. refl) (λ _ _. refl) h)
    ]

store_upserted-refs :
    (env : Env) (e : StoreUpserted) (d : Db)
    → (store_upserted env e d).1.product_refs ≡ d.product_refs
unfolding store_upserted
store_upserted-refs env e d = elim (Option-cases (find (is_store e.id) d.store_refs)) [
  | inl missing ↦
      rw (missing, store_upserted)
        (elim (Bool-cases (is_some (find (is_seller_elsewhere e.seller_id e.id) d.store_refs))) [
          | inl taken ↦ rw taken
          | inr free ↦ rw free
        ])
  | inr (s, present) ↦
      rw (present, store_upserted)
        (elim (Bool-cases (ltb s.version e.version)) [
          | inl newer ↦
              rw newer
                (elim (Bool-cases
                  (is_some (find (is_seller_elsewhere e.seller_id e.id) d.store_refs))) [
                    | inl taken ↦ rw taken
                    | inr free ↦ rw free
                  ])
          | inr older ↦ rw older
        ])
]

user_upserted-refs :
    (env : Env) (id : ℕ) (roles : List String) (version : ℕ) (d : Db)
    → (user_upserted env id roles version d).1.product_refs ≡ d.product_refs
unfolding user_upserted
user_upserted-refs env id roles version d = elim (Option-cases (find (is_user id) d.user_refs)) [
  | inl missing ↦ rw (missing, user_upserted)
  | inr (u, present) ↦
      rw (present, user_upserted)
        (elim (Bool-cases (ltb u.version version)) [ inl e ↦ rw e | inr e ↦ rw e ])
]

handle-Dead :
    (env : Env) (e : CatalogEvent) (id : ℕ) (d : Db)
    → Dead id d.product_refs
    → Dead id (handle env e d).product_refs
unfolding handle product_upserted
handle-Dead env (product_upsert e) id d h =
    transaction_state (λ x. Dead id x.product_refs) (upsert_product env e) d h
      (upsert_product-Dead env id e d h)
handle-Dead env (product_delete k version) id d h = product_deleted-Dead env id k version d h
handle-Dead env (store_upsert e) id d h = rw (store_upserted-refs env e d) h
handle-Dead env (user_upsert k roles version) id d h =
    rw (user_upserted-refs env k roles version d) h

handle_all-Dead :
    (es : List (Env × CatalogEvent)) (id : ℕ) (d : Db)
    → Dead id d.product_refs
    → Dead id (handle_all es d).product_refs
unfolding handle_all
handle_all-Dead [] id d h = h
handle_all-Dead ((env, e) ∷ es) id d h =
    handle_all-Dead es id (handle env e d) (handle-Dead env e id d h)

Dead-has_product :
    (id : ℕ) (rows : List ProductRef)
    → All (λ p. p.id ≡ id → p.deleted ≡ true) rows
    → find (λ (p : ProductRef). p.id == id && not p.deleted) rows ≡ none
Dead-has_product id [] h = refl
Dead-has_product id (x ∷ xs) (h, hs) = elim (Bool-cases (x.id == id)) [
  | inl e ↦ rw (h (eq_of_== x.id id e), Bool-false x.id id) (Dead-has_product id xs hs)
  | inr e ↦ rw e (Dead-has_product id xs hs)
]
  where
    Bool-false : (a b : ℕ) → (a == b && false) ≡ false
    Bool-false a b = ground arith

older_id : (id version : ℕ) (p : ProductRef) → older_product id version p ≡ true → p.id ≡ id
older_id id version p h = ground arith

buries :
    (env : Env) (id version : ℕ) (p x : ProductRef)
    → older_product id version p ≡ true
    → (x.id ≡ p.id → x ≡ p)
    → (if older_product id version x then tombstone env version x else x).id ≡ id
    → (if older_product id version x then tombstone env version x else x).deleted ≡ true
buries env id version p x h same = elim (Bool-cases (older_product id version x)) [
  | inl e ↦ rw e (λ _. refl)
  | inr e ↦ rw e (λ k. let found : x ≡ p = same (k ∙ sym (older_id id version p h)) in cc h)
]

still_there :
    (env : Env) (id version : ℕ) (rows : List ProductRef) {p : ProductRef}
    → find (older_product id version) rows ≡ some p
    → is_some
        (find (is_product id) (update (older_product id version) (tombstone env version) rows))
      ≡ true
still_there env id version [] e = cc
still_there env id version (x ∷ xs) e = elim (Bool-cases (older_product id version x)) [
  | inl t ↦ rw (t, older_id id version x t, ==-refl id)
  | inr t ↦ rw t (elim (Bool-cases (x.id == id)) [
    | inl k ↦ rw k
    | inr k ↦ rw k (still_there env id version xs (rw t at e))
  ])
]

delete_makes-Dead :
    (env : Env) (id version : ℕ) (d : Db) (p : ProductRef)
    → IsKeyed (λ q. q.id) d.product_refs
    → find (older_product id version) d.product_refs ≡ some p
    → Dead id (product_deleted env id version d).1.product_refs
unfolding product_deleted
delete_makes-Dead env id version d p keyed e =
    rw (e, product_deleted)
      (
        All-update (λ x. x.id ≡ p.id → x ≡ p) (λ x. x.id ≡ id → x.deleted ≡ true)
            (older_product id version) (tombstone env version) d.product_refs
            (λ x h.
              buries env id version p x (find_test (older_product id version) d.product_refs e) h)
            (only_row (λ q. q.id) (older_product id version) d.product_refs keyed e),
        still_there env id version d.product_refs e,
      )

-- Where product ids are unique, a product whose deletion was applied is never offered again, whatever
-- events of the catalog and of identity are delivered later and in whatever order.
pub deleted_for_ever :
    (env : Env) (id version : ℕ) (es : List (Env × CatalogEvent)) (d : Db)
    → IsKeyed (λ q. q.id) d.product_refs
    → is_some (find (older_product id version) d.product_refs) ≡ true
    → has_product id (handle_all es (product_deleted env id version d).1) ≡ false
deleted_for_ever env id version es d keyed there =
    elim (Option-cases (find (older_product id version) d.product_refs)) [
      | inl e ↦ cc (rw e at there)
      | inr (p, e) ↦ rw (
          Dead-has_product id (handle_all es (product_deleted env id version d).1).product_refs
            (handle_all-Dead es id (product_deleted env id version d).1
              (delete_makes-Dead env id version d p keyed e)).0)
    ]
