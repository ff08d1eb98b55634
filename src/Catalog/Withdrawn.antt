-- ===== src/Catalog/Withdrawn.antt =====
-- A product that is withdrawn is counted down once. services/catalog/src/modules/products
use seapedia.Prelude.{
  ℕ, ◌+◌, ◌≤◌, ◌≡◌, refl, arith, inl, inr, Bool, true, false, not, ◌&&◌, some, List, [], ◌∷◌, find,
  find_test, update, delete, count, count-pos, count-imp, count-update_same, All-imp, All-update,
  All-select, Bool-cases, ◌==◌, eq_of_==, ==-refl, if◌then◌else◌,
}
use seapedia.Platform.Monad.{Env}
use seapedia.Catalog.Schema.{StoreDoc, ProductDoc}
use seapedia.Catalog.Stores.{is_store}
use seapedia.Catalog.Products.{is_product, is_owned, in_store, one_less}
use seapedia.Catalog.Counted.{Counts, Homed, IsCounted}

module _ {A : Type 0} where
  count-delete :
      (q r : A → Bool) (xs : List A)
      → count q (delete r xs) + count (λ x. r x && q x) xs ≡ count q xs
  count-delete q r [] = refl
  count-delete q r (x ∷ xs) = ground (arith, count-delete q r xs)

  -- Rows of two tests that exclude each other.
  count_disjoint :
      (a b c : A → Bool) (xs : List A)
      → ((x : A) → a x ≡ true → b x ≡ false)
      → ((x : A) → a x ≡ true → c x ≡ true)
      → ((x : A) → b x ≡ true → c x ≡ true)
      → count a xs + count b xs ≤ count c xs
  count_disjoint a b c [] h k l = omega arith
  count_disjoint a b c (x ∷ xs) h k l = ground (arith, h x, k x, l x, count_disjoint a b c xs h k l)

pub IsCounted-withdraw :
    (env : Env) (store id : ℕ) (p : ProductDoc) (ss : List StoreDoc) (ps : List ProductDoc)
    → find (is_owned store id) ps ≡ some p
    → IsCounted ss ps
    → IsCounted (update (is_store store) (one_less env) ss) (delete (is_product p.id) ps)
IsCounted-withdraw env store id p ss ps found h = record {
  counted =
      All-update (Counts ps) (Counts left) (is_store store) (one_less env) ss (λ s c. step s c)
        h.counted;
  homed =
      All-imp (Homed ss) (Homed (update (is_store store) (one_less env) ss))
        (λ x k.
          rw
            (count-update_same (is_store x.store_id) (is_store store) (one_less env) ss
              (λ _ _. refl))
            k)
        left (All-select (Homed ss) (λ x. not (is_product p.id x)) ps h.homed);
  once = λ k. fewer k;
}
  where
    left : List ProductDoc
    left = delete (is_product p.id) ps

    fewer : (k : ℕ) → count (is_product k) left ≤ 1
    fewer k = omega (arith, count-delete (is_product k) (is_product p.id) ps, h.once k)

    gone_in : ℕ → ℕ
    gone_in k = count (λ x. is_product p.id x && in_store k x) ps

    owned : p.store_id ≡ store
    owned = ground (arith, find_test (is_owned store id) ps found)

    one : gone_in store ≡ 1
    one =
        let low : 1 ≤ gone_in store =
          count-pos (λ x. is_product p.id x && in_store store x) (is_owned store id) ps found
            (rw (==-refl p.id) (ground (arith, owned))) in
        let high : gone_in store ≤ count (is_product p.id) ps =
          count-imp (λ x. is_product p.id x && in_store store x) (is_product p.id) ps
            (λ x. ground arith) in
        omega (arith, h.once p.id)

    none_in : (k : ℕ) → (k == store) ≡ false → gone_in k ≡ 0
    none_in k n =
        let both : gone_in store + gone_in k ≤ count (is_product p.id) ps =
          count_disjoint (λ x. is_product p.id x && in_store store x)
            (λ x. is_product p.id x && in_store k x) (is_product p.id) ps (λ x. ground arith)
            (λ x. ground arith) (λ x. ground arith) in
        omega (arith, one, h.once p.id)

    step :
        (s : StoreDoc) → Counts ps s → Counts left (if is_store store s then one_less env s else s)
    step s c = elim (Bool-cases (is_store store s)) [
      | inl k ↦
          let own : s.id ≡ store = eq_of_== s.id store k in
          let all = count-delete (in_store s.id) (is_product p.id) ps in
          let one' : gone_in s.id ≡ 1 = rw own one in rw k (omega arith)
      | inr n ↦
          let all = count-delete (in_store s.id) (is_product p.id) ps in
          let none' : gone_in s.id ≡ 0 = none_in s.id n in rw n (omega arith)
    ]
