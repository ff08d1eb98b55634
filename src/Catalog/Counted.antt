-- ===== src/Catalog/Counted.antt =====
-- A store says how many products it has: what each kind of write does to the count.
-- services/catalog/src/modules/products/products.repo.ts
use seapedia.Prelude.{
  ℕ, ◌+◌, ◌≤◌, ◌≡◌, refl, sym, ap, ◌∙◌, arith, inl, inr, Bool, true, false, none, List, [], ◌∷◌,
  ◌++◌, find, update, count, count-append, count-none, count-update_same, All, All-append, All-imp,
  All-update, Bool-cases, ◌==◌, eq_of_==, if◌then◌else◌,
}
use seapedia.Platform.Monad.{Env}
use seapedia.Catalog.Schema.{StoreDoc, ProductDoc}
use seapedia.Catalog.Stores.{is_store}
use seapedia.Catalog.Products.{is_product, in_store, one_more}

abbrev pub Counts : List ProductDoc → StoreDoc → Type 0
Counts ps s = s.total_products ≡ count (in_store s.id) ps

abbrev pub Homed : List StoreDoc → ProductDoc → Type 0
Homed ss p = 1 ≤ count (is_store p.store_id) ss

-- Every store has the number of its products, every product has its store, and a product's id is its own.
pub record IsCounted (ss : List StoreDoc) (ps : List ProductDoc) : Type 0 where
  pub counted : All (Counts ps) ss
  pub homed : All (Homed ss) ps
  pub once : (id : ℕ) → count (is_product id) ps ≤ 1

no_products :
    (id : ℕ) (ss : List StoreDoc) (ps : List ProductDoc)
    → count (is_store id) ss ≡ 0
    → All (Homed ss) ps
    → count (in_store id) ps ≡ 0
no_products id ss [] e _ = refl
no_products id ss (p ∷ ps) e (h, hs) = elim (Bool-cases (p.store_id == id)) [
  | inr n ↦ rw n (no_products id ss ps e hs)
  | inl k ↦
      let own : p.store_id ≡ id = eq_of_== p.store_id id k in
      let here : 1 ≤ count (is_store id) ss = rw own at h in absurd (omega arith)
]

-- A new store without products.
pub IsCounted-open :
    (s : StoreDoc) (ss : List StoreDoc) (ps : List ProductDoc)
    → find (is_store s.id) ss ≡ none
    → s.total_products ≡ 0
    → IsCounted ss ps
    → IsCounted (ss ++ (s ∷ [])) ps
IsCounted-open s ss ps new empty h = record {
  counted =
      All-append (Counts ps) ss (s ∷ []) h.counted
        (empty ∙ sym (no_products s.id ss ps (count-none (is_store s.id) ss new) h.homed), tt);
  homed =
      All-imp (Homed ss) (Homed (ss ++ (s ∷ [])))
        (λ p k. rw (count-append (is_store p.store_id) ss (s ∷ [])) (omega arith)) ps h.homed;
  once = h.once;
}

-- Writes that keep the ids, the totals and the stores.
pub IsCounted-stores :
    (q : StoreDoc → Bool) (f : StoreDoc → StoreDoc) (ss : List StoreDoc) (ps : List ProductDoc)
    → ((s : StoreDoc) → (f s).id ≡ s.id)
    → ((s : StoreDoc) → (f s).total_products ≡ s.total_products)
    → IsCounted ss ps
    → IsCounted (update q f ss) ps
IsCounted-stores q f ss ps ids totals h = record {
  counted = All-update (Counts ps) (Counts ps) q f ss (λ s c. kept s c (q s)) h.counted;
  homed =
      All-imp (Homed ss) (Homed (update q f ss))
        (λ p k. rw (count-update_same (is_store p.store_id) q f ss (λ s _. rw (ids s))) k) ps
        h.homed;
  once = h.once;
}
  where
    kept : (s : StoreDoc) → Counts ps s → (b : Bool) → Counts ps (if b then f s else s)
    kept s c true = totals s ∙ c ∙ ap (λ k. count (in_store k) ps) (sym (ids s))
    kept s c false = c

pub IsCounted-products :
    (q : ProductDoc → Bool) (f : ProductDoc → ProductDoc) (ss : List StoreDoc)
    (ps : List ProductDoc)
    → ((p : ProductDoc) → (f p).id ≡ p.id)
    → ((p : ProductDoc) → (f p).store_id ≡ p.store_id)
    → IsCounted ss ps
    → IsCounted ss (update q f ps)
IsCounted-products q f ss ps ids stores h = record {
  counted =
      All-imp (Counts ps) (Counts (update q f ps))
        (λ s c. rw (count-update_same (in_store s.id) q f ps (λ p _. rw (stores p))) c) ss
        h.counted;
  homed = All-update (Homed ss) (Homed ss) q f ps (λ p k. kept p k (q p)) h.homed;
  once = λ id. rw (count-update_same (is_product id) q f ps (λ p _. rw (ids p))) (h.once id);
}
  where
    kept : (p : ProductDoc) → Homed ss p → (b : Bool) → Homed ss (if b then f p else p)
    kept p k true = rw (stores p) k
    kept p k false = k

-- A new product, counted by its store.
pub IsCounted-offer :
    (env : Env) (p : ProductDoc) (ss : List StoreDoc) (ps : List ProductDoc)
    → find (is_product p.id) ps ≡ none
    → 1 ≤ count (is_store p.store_id) ss
    → IsCounted ss ps
    → IsCounted (update (is_store p.store_id) (one_more env) ss) (ps ++ (p ∷ []))
IsCounted-offer env p ss ps new there h = record {
  counted =
      All-update (Counts ps) (Counts (ps ++ (p ∷ []))) (is_store p.store_id) (one_more env) ss
        (λ s c. step s c) h.counted;
  homed =
      All-append (Homed ss') ps (p ∷ [])
        (All-imp (Homed ss) (Homed ss') (λ x k. rw (same x.store_id) k) ps h.homed)
        (rw (same p.store_id) there, tt);
  once = λ id. rw (count-append (is_product id) ps (p ∷ [])) (at_most id);
}
  where
    ss' : List StoreDoc
    ss' = update (is_store p.store_id) (one_more env) ss

    same : (id : ℕ) → count (is_store id) ss' ≡ count (is_store id) ss
    same id = count-update_same (is_store id) (is_store p.store_id) (one_more env) ss (λ _ _. refl)

    step :
        (s : StoreDoc)
        → Counts ps s
        → Counts (ps ++ (p ∷ [])) (if is_store p.store_id s then one_more env s else s)
    step s c = elim (Bool-cases (is_store p.store_id s)) [
      | inl k ↦
          let own : p.store_id ≡ s.id = sym (eq_of_== s.id p.store_id k) in
          let mine : in_store s.id p ≡ true = ground arith in
          rw (k, count-append (in_store s.id) ps (p ∷ []), mine) (omega (arith, c))
      | inr n ↦
          let other : in_store s.id p ≡ false = ground arith in
          rw (n, count-append (in_store s.id) ps (p ∷ []), other) (omega (arith, c))
    ]

    at_most : (id : ℕ) → count (is_product id) ps + count (is_product id) (p ∷ []) ≤ 1
    at_most id = elim (Bool-cases (p.id == id)) [
      | inl k ↦
          let own : p.id ≡ id = eq_of_== p.id id k in
          let gone : count (is_product id) ps ≡ 0 =
            rw own at (count-none (is_product p.id) ps new) in
          rw k (omega arith)
      | inr n ↦ rw n (omega (arith, h.once id))
    ]
