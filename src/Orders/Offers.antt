-- ===== src/Orders/Offers.antt =====
-- What a driver sees of the jobs: the offers.
-- services/commerce/src/modules/driver/driver.service.ts

use seapedia.Prelude.{
  All-imp, find_test, ℕ, zero, suc, ◌==◌, ◌≡◌, inl, inr, Bool, true, some, List, [], ◌∷◌, take,
  ==-refl, Bool-cases, Option-cases, All, All-select_test, find, find-narrow, select, IsKeyed,
  find_own,
}
use seapedia.Db.{Order, DeliveryJob, StoreRef, Db, ok, Env, menunggu_pengirim}
use seapedia.Orders.Detail.{is_order}
use seapedia.Orders.Driver.{is_pending_job, is_order_in, take_job}
use seapedia.Orders.Driver
use seapedia.Orders.Jobs.{Job, joined_jobs, is_untaken, is_waiting, available_jobs}

module _ {A : Type 0} where
  All-take : (P : A → Type 0) (n : ℕ) (xs : List A) → All P xs → All P (take n xs)
  All-take P zero xs _ = tt
  All-take P (suc n) [] _ = tt
  All-take P (suc n) (x ∷ xs) (p, ps) = (p, All-take P n xs ps)

-- A driver may take the job: the call answers with success.
abbrev pub IsTakeable : Env → ℕ → Db → Job → Type 0
IsTakeable env driver d j = (take_job env j.job.id driver d).0 ≡ ok tt

take_job_succeeds :
    (env : Env) (id driver : ℕ) (d : Db) (j : DeliveryJob) (o : Order)
    → find (is_pending_job id) d.delivery_jobs ≡ some j
    → find (is_order_in j.order_id menunggu_pengirim) d.orders ≡ some o
    → (take_job env id driver d).0 ≡ ok tt
unfolding take_job Driver.take
take_job_succeeds env id driver d j o e f = rw (e, f)

-- A row of the join: the job is the one that a driver's call finds, its order meets the test.
abbrev IsOffer : (Order → Bool) → Db → Job → Type 0
IsOffer q d j =
    (find (is_pending_job j.job.id) d.delivery_jobs ≡ some j.job)
    × ((o : Order) × (find (is_order j.job.order_id) d.orders ≡ some o) × (q o ≡ true))

joined_jobs-IsOffer :
    (q : Order → Bool) (d : Db) (js : List DeliveryJob)
    → All (λ j. find (is_pending_job j.id) d.delivery_jobs ≡ some j) js
    → All (IsOffer q d) (joined_jobs q d js)
joined_jobs-IsOffer q d [] _ = tt
joined_jobs-IsOffer q d (j ∷ js) (e, es) =
    elim (Option-cases (find (is_order j.order_id) d.orders)) [
      | inl f ↦ rw f (joined_jobs-IsOffer q d js es)
      | inr (o, f) ↦ elim (Bool-cases (q o)) [
        | inl t ↦ elim (Option-cases (find (λ (s : StoreRef). s.id == o.store_id) d.store_refs)) [
          | inl g ↦ rw (f, t, g) (joined_jobs-IsOffer q d js es)
          | inr (s, g) ↦ rw (f, t, g) ((e, (o, f, t)), joined_jobs-IsOffer q d js es)
        ]
        | inr t ↦ rw (f, t) (joined_jobs-IsOffer q d js es)
      ]
    ]

-- Where the ids of the jobs and of the orders are unique, any driver can take any job that is listed as
-- available: the call succeeds.
pub available_jobs-take_job :
    (env : Env) (driver : ℕ) (d : Db)
    → IsKeyed (λ j. j.id) d.delivery_jobs
    → All (IsTakeable env driver d) (available_jobs d)
unfolding available_jobs
available_jobs-take_job env driver d keyed =
    All-take (IsTakeable env driver d) 50
      (joined_jobs is_waiting d (select is_untaken d.delivery_jobs))
      (All-imp (IsOffer is_waiting d) (IsTakeable env driver d)
        (λ j (e, (o, f, t)). take_job_succeeds env j.job.id driver d j.job o e (
          find-narrow (is_order_in j.job.order_id menunggu_pengirim) (is_order j.job.order_id)
            d.orders (λ y g. rw g) f (rw (find_test (is_order j.job.order_id) d.orders f, t))))
        (joined_jobs is_waiting d (select is_untaken d.delivery_jobs))
        (joined_jobs-IsOffer is_waiting d (select is_untaken d.delivery_jobs) (
          All-select_test (λ j. find (λ v. v.id == j.id) d.delivery_jobs ≡ some j)
            (λ j. find (is_pending_job j.id) d.delivery_jobs ≡ some j) is_untaken d.delivery_jobs
            (λ j e t.
              find-narrow (is_pending_job j.id) (λ v. v.id == j.id) d.delivery_jobs (λ y g. rw g) e
                (rw (==-refl j.id, t)))
            (find_own (λ j. j.id) d.delivery_jobs keyed))))
