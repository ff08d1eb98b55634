-- ===== src/Orders/Pages.antt =====
-- The pages of a driver's history. services/commerce/src/modules/driver/driver.service.ts
use mathlib.Core.List.{Permᴰ}
use mathlib.Core.List.Permᴰ
use native.Mathlib.Omega.{arith}
use seapedia.Prelude.{
  ℕ, zero, suc, ◌+◌, ◌-◌, ◌*◌, ◌≤◌, ◌<◌, ◌≡◌, ◌⊎◌, refl, sym, ◌∙◌, ap, inl, inr, Bool, Option, none,
  some, List, [], ◌∷◌, ◌++◌, length, count, take, drop, ◌==◌, Bool-cases, All, find, select,
}
use seapedia.Db.{Order, DeliveryJob, JobStatus, StoreRef, Db}
use seapedia.Orders.Detail.{is_order}
use seapedia.Orders.Jobs.{
  Job, with_store, with_order, joined_jobs, any_order, is_job_of, completed_rows, completed_by,
  job_history,
}

module _ {A : Type 0} where
  take-more : (m n : ℕ) (xs : List A) → take m xs ++ take n (drop m xs) ≡ take (m + n) xs
  take-more zero n xs = ap (λ k. take k xs) (omega arith)
  take-more (suc m) n [] = nothing n ∙ sym (nothing (suc m + n))
    where
      nothing : (k : ℕ) → take {A = A} k [] ≡ []
      nothing zero = refl
      nothing (suc k) = refl
  take-more (suc m) n (x ∷ xs) =
      let more : suc (m + n) ≡ suc m + n = omega arith in
      ap (λ r. x ∷ r) (take-more m n xs) ∙ ap (λ k. take k (x ∷ xs)) more

  take-all : (n : ℕ) (xs : List A) → length xs ≤ n → take n xs ≡ xs
  take-all zero [] h = refl
  take-all zero (x ∷ xs) h = absurd (omega (arith, h))
  take-all (suc n) [] h = refl
  take-all (suc n) (x ∷ xs) h = ap (λ r. x ∷ r) (take-all n xs (omega (arith, h)))

  abbrev Holds : A → List A → Type 0
  Holds a [] = ⊥
  Holds a (x ∷ xs) = (a ≡ x) ⊎ Holds a xs

  All-Holds : (P : A → Type 0) (a : A) (xs : List A) → All P xs → Holds a xs → P a
  All-Holds P a [] _ h = absurd h
  All-Holds P a (x ∷ xs) (p, ps) (inl e) = rw e p
  All-Holds P a (x ∷ xs) (p, ps) (inr h) = All-Holds P a xs ps h

  Holds-perm : (a : A) {xs ys : List A} → Permᴰ xs ys → Holds a xs → Holds a ys
  Holds-perm a Permᴰ.nil h = h
  Holds-perm a (Permᴰ.cons e p) (inl f) = inl (f ∙ e)
  Holds-perm a (Permᴰ.cons e p) (inr h) = inr (Holds-perm a p h)
  Holds-perm a (Permᴰ.swap e f) (inl g) = inr (inl (g ∙ e))
  Holds-perm a (Permᴰ.swap e f) (inr (inl g)) = inl (g ∙ f)
  Holds-perm a (Permᴰ.swap e f) (inr (inr h)) = inr (inr h)
  Holds-perm a (Permᴰ.trans p q) h = Holds-perm a q (Holds-perm a p h)

  length-perm : {xs ys : List A} → Permᴰ xs ys → length xs ≡ length ys
  length-perm Permᴰ.nil = refl
  length-perm (Permᴰ.cons e p) = ap (λ n. suc n) (length-perm p)
  length-perm (Permᴰ.swap e f) = refl
  length-perm (Permᴰ.trans p q) = length-perm p ∙ length-perm q

-- No two jobs are of one time.
abbrev pub IsNewestFirst : List Job → Type 0
IsNewestFirst [] = Unit
IsNewestFirst (j ∷ js) = All (λ k. k.job.updated_at < j.job.updated_at) js × IsNewestFirst js

-- Jobs of different times have one order.
one_order :
    (xs ys : List Job)
    → IsNewestFirst xs
    → IsNewestFirst ys
    → ((j : Job) → Holds j xs → Holds j ys)
    → ((j : Job) → Holds j ys → Holds j xs)
    → xs ≡ ys
one_order [] [] _ _ there back = refl
one_order [] (y ∷ ys) _ _ there back = absurd (back y (inl refl))
one_order (x ∷ xs) [] _ _ there back = absurd (there x (inl refl))
one_order (x ∷ xs) (y ∷ ys) (less, rest) (less', rest') there back = rw (
  same,
  one_order xs ys rest rest' (λ j h. later x y xs ys same less j (there j (inr h)) h)
      (λ j h. later y x ys xs (sym same) less' j (back j (inr h)) h),
)
  where
    later :
        (u v : Job) (us vs : List Job)
        → u ≡ v
        → All (λ k. k.job.updated_at < u.job.updated_at) us
        → (j : Job) → Holds j (v ∷ vs)
        → Holds j us
        → Holds j vs
    later u v us vs e lower j (inr h) k = h
    later u v us vs e lower j (inl f) k =
        let below = All-Holds (λ k. k.job.updated_at < u.job.updated_at) j us lower k in
        let equal : j.job.updated_at ≡ u.job.updated_at =
          ap (λ (i : Job). i.job.updated_at) (f ∙ sym e) in
        absurd (omega (arith, below, equal))

    heads : Holds x (y ∷ ys) → Holds y (x ∷ xs) → x ≡ y
    heads (inl e) _ = e
    heads (inr h) (inl e) = sym e
    heads (inr h) (inr k) = absurd (
        omega (
          arith,
          All-Holds (λ k. k.job.updated_at < y.job.updated_at) x ys less' h,
          All-Holds (λ k. k.job.updated_at < x.job.updated_at) y xs less k,
        ))

    same : x ≡ y
    same = heads (there x (inl refl)) (back y (inl refl))

-- The join drops jobs and adds none.
length-joined_jobs :
    (p : DeliveryJob → Bool) (q : Order → Bool) (d : Db) (js : List DeliveryJob)
    → length (joined_jobs q d (select p js)) ≤ count p js
length-joined_jobs p q d [] = omega arith
length-joined_jobs p q d (j ∷ js) =
    let later = length-joined_jobs p q d js in
    elim (Bool-cases (p j)) [
      | inl t ↦ rw t (added later (find (is_order j.order_id) d.orders))
      | inr t ↦ rw t later
    ]
  where
    rest : List Job
    rest = joined_jobs q d (select p js)

    stored :
        (o : Order)
        → length rest ≤ count p js
        → (s : Option StoreRef) → length (with_store j o s rest) ≤ suc (count p js)
    stored o h none = omega (arith, h)
    stored o h (some s) = omega (arith, h)

    added :
        length rest ≤ count p js
        → (o : Option Order) → length (with_order q d.store_refs j o rest) ≤ suc (count p js)
    added h none = omega (arith, h)
    added h (some o) = elim (Bool-cases (q o)) [
      | inl t ↦ rw t (stored o h (find (λ (s : StoreRef). s.id == o.store_id) d.store_refs))
      | inr t ↦ rw t (omega (arith, h))
    ]

-- What a driver reads who turns the pages from the first to the nth; `orders k` is the order of the query
-- of page k.
abbrev pub pages : (orders : ℕ → List Job → List Job) → ℕ → ℕ → Db → ℕ → List Job
pages orders driver limit d zero = []
pages orders driver limit d (suc n) =
    pages orders driver limit d n ++ (job_history (orders (suc n)) driver (suc n) limit d).jobs

-- Every query answers with the driver's completed jobs, newest first, and no two are of one time.
abbrev pub Answers : (ℕ → List Job → List Job) → ℕ → Db → Type 0
Answers orders driver d =
    (k : ℕ)
    → Permᴰ (completed_rows driver d) (completed_by (orders k) driver d)
      × IsNewestFirst (completed_by (orders k) driver d)

same_order :
    (orders : ℕ → List Job → List Job) (driver : ℕ) (d : Db)
    → Answers orders driver d
    → (k l : ℕ) → completed_by (orders k) driver d ≡ completed_by (orders l) driver d
same_order orders driver d h k l =
    let (p, s) = h k in
    let (q, t) = h l in
    one_order (completed_by (orders k) driver d) (completed_by (orders l) driver d) s t
      (λ j m. Holds-perm j q (Holds-perm j (Permᴰ.symm p) m))
      (λ j m. Holds-perm j p (Holds-perm j (Permᴰ.symm q) m))

pages-take :
    (orders : ℕ → List Job → List Job) (driver limit : ℕ) (d : Db)
    → Answers orders driver d
    → (n : ℕ) → pages orders driver limit d n ≡ take (n * limit) (completed_by (orders 1) driver d)
unfolding job_history
pages-take orders driver limit d h zero =
    let start : 0 ≡ 0 * limit = omega arith in
    ap (λ k. take k (completed_by (orders 1) driver d)) start
pages-take orders driver limit d h (suc n) =
    let all = completed_by (orders 1) driver d in
    let index : suc n - 1 ≡ n = omega arith in
    let after : n * limit + limit ≡ suc n * limit = omega arith in
    ap (λ r. r ++ (job_history (orders (suc n)) driver (suc n) limit d).jobs)
      (pages-take orders driver limit d h n)
    ∙ ap (λ r. take (n * limit) all ++ take limit (drop ((suc n - 1) * limit) r))
        (same_order orders driver d h (suc n) 1)
    ∙ ap (λ k. take (n * limit) all ++ take limit (drop (k * limit) all)) index
    ∙ take-more (n * limit) limit all
    ∙ ap (λ k. take k all) after

-- Where no two completed jobs of the driver, of those whose order and store are known, were updated at one
-- time, and every page's query puts all of them newest first: as many pages as the total asks for show all
-- of them, each once, newest first.
pub pages_complete :
    (orders : ℕ → List Job → List Job) (driver limit n : ℕ) (d : Db)
    → Answers orders driver d
    → (job_history (orders n) driver n limit d).total ≤ n * limit
    → (pages orders driver limit d n ≡ completed_by (orders 1) driver d)
      × Permᴰ (completed_rows driver d) (pages orders driver limit d n)
      × IsNewestFirst (pages orders driver limit d n)
unfolding job_history
pages_complete orders driver limit n d h enough =
    let (p, s) = h 1 in
    let all : pages orders driver limit d n ≡ completed_by (orders 1) driver d =
      pages-take orders driver limit d h n
      ∙ take-all (n * limit) (completed_by (orders 1) driver d) (
          omega (
            arith,
            enough,
            length-perm p,
            length-joined_jobs (is_job_of driver JobStatus.completed) any_order d d.delivery_jobs,
          )) in
    (all, rw all p, rw all s)
