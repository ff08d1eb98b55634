-- ===== src/Orders/Custody.antt =====
-- Who may deliver: a job is taken once, and completed by the driver who took it.
use seapedia.Prelude.{
  ℕ, ◌≡◌, ◌≢◌, refl, sym, ◌∙◌, inl, inr, true, false, Option, none, some, List, [], ◌∷◌, arith,
  Bool-cases, Option-cases, find, find_test, find-update-none, find-update_keyed, update, IsKeyed,
  IsKeyed-update, find_same, if◌then◌else◌, eq_of_==, ap,
}
use seapedia.Db.{
  Order, menunggu_pengirim, sedang_dikirim, DeliveryJob, Db, ok, err, conflict, Reason, OnOk,
  OnOk-ok, OnOk-transaction, Env,
}
use seapedia.Orders.Seller.{set_status}
use seapedia.Orders.Driver.{
  is_pending_job, assign, is_order_in, take, take_job, is_driver, is_taken_by, complete,
  complete_job,
}

-- What a driver who took a job finds: no pending job of the id, the job as taken by the driver, and
-- its order on the way.
pub record InCustody (id driver : ℕ) (d : Db) : Type 0 where
  pub job : DeliveryJob
  pub order : Order
  pub not_pending : find (is_pending_job id) d.delivery_jobs ≡ none
  pub held : find (is_taken_by id driver) d.delivery_jobs ≡ some job
  pub keyed : IsKeyed (λ j. j.id) d.delivery_jobs
  pub on_the_way : find (is_order_in job.order_id sedang_dikirim) d.orders ≡ some order

not_both :
    (id : ℕ) (env : Env) (driver : ℕ) (j : DeliveryJob)
    → is_pending_job id (assign env driver j) ≡ false
not_both id env driver j = ground arith

taken_id :
    (env : Env) (id driver : ℕ) (y : DeliveryJob)
    → is_taken_by id driver (if is_pending_job id y then assign env driver y else y) ≡ true
    → y.id ≡ id
taken_id env id driver y h = ground arith

pending_id : (id : ℕ) (j : DeliveryJob) → is_pending_job id j ≡ true → j.id ≡ id
pending_id id j h = ground arith

some_after :
    (env : Env) (id : ℕ) (os : List Order) {o : Order}
    → find (is_order_in id menunggu_pengirim) os ≡ some o
    → (v : Order) × (find
          (is_order_in id sedang_dikirim)
          (update (is_order_in id menunggu_pengirim) (set_status env sedang_dikirim) os)
        ≡ some v)
some_after env id [] e = cc
some_after env id (x ∷ os) {o} e = elim (Bool-cases (is_order_in id menunggu_pengirim x)) [
  | inl t ↦ (set_status env sedang_dikirim x, rw t (ground arith))
  | inr t ↦ elim (Bool-cases (is_order_in id sedang_dikirim x)) [
    | inl h ↦ (x, rw (t, h))
    | inr h ↦ let (v, k) = some_after env id os (rw t at e) in (v, rw (t, h) k)
  ]
]

take-InCustody :
    (env : Env) (id driver : ℕ) (d : Db)
    → IsKeyed (λ j. j.id) d.delivery_jobs
    → OnOk (λ _ d'. InCustody id driver d') (take env id driver d)
unfolding take
take-InCustody env id driver d keyed =
    elim (Option-cases (find (is_pending_job id) d.delivery_jobs)) [
      | inl e ↦ rw e tt
      | inr (j, e) ↦
          let at : j.id ≡ id = pending_id id j (find_test (is_pending_job id) d.delivery_jobs e) in
          rw e (elim (Option-cases (find (is_order_in j.order_id menunggu_pengirim) d.orders)) [
            | inl e' ↦ rw e' tt
            | inr (o, e') ↦ rw e' (
                let (v, moved) = some_after env j.order_id d.orders e' in
                record {
                  job = assign env driver j;
                  order = v;
                  not_pending =
                      find-update-none (is_pending_job id) (assign env driver) d.delivery_jobs
                        (not_both id env driver);
                  held =
                      find-update_keyed (λ k. k.id) (is_pending_job id) (is_taken_by id driver)
                        (assign env driver) d.delivery_jobs keyed e
                        (λ y h. taken_id env id driver y h ∙ sym at) (ground arith);
                  keyed =
                      IsKeyed-update (λ k. k.id) (is_pending_job id) (assign env driver)
                        d.delivery_jobs (λ _. refl) keyed;
                  on_the_way = moved;
                })
          ])
    ]

take_job-InCustody :
    (env : Env) (id driver : ℕ) (d : Db)
    → IsKeyed (λ j. j.id) d.delivery_jobs
    → OnOk (λ _ d'. InCustody id driver d') (take_job env id driver d)
unfolding take_job
take_job-InCustody env id driver d keyed =
    OnOk-transaction (λ _ d'. InCustody id driver d') (take env id driver) d
      (take-InCustody env id driver d keyed)

taken_same :
    (id k driver : ℕ) (i j : DeliveryJob)
    → is_taken_by id k i ≡ true
    → is_taken_by id driver j ≡ true
    → i.id ≡ j.id
taken_same id k driver i j h h' = ground arith

is_driver_eq : (k : ℕ) (o : Option ℕ) → is_driver k o ≡ true → o ≡ some k
is_driver_eq k none h = cc
is_driver_eq k (some n) h = ap some (eq_of_== n k h)

taken_twice :
    (id k driver : ℕ) (j : DeliveryJob)
    → is_taken_by id k j ≡ true
    → is_taken_by id driver j ≡ true
    → k ≡ driver
taken_twice id k driver j h h' =
    let one : j.driver_id ≡ some k = is_driver_eq k j.driver_id (ground arith) in
    let two : j.driver_id ≡ some driver = is_driver_eq driver j.driver_id (ground arith) in cc

-- A job in the custody of a driver is refused to every taker and to every other driver, and can be
-- completed by this one.
InCustody-excludes :
    (env : Env) (id driver k : ℕ) (d : Db)
    → InCustody id driver d
    → (take_job env id k d ≡ (err (conflict Reason.job_unavailable), d))
      × (k ≢ driver → complete_job env id k d ≡ (err (conflict Reason.job_not_completable), d))
      × ((complete_job env id driver d).0 ≡ ok tt)
unfolding take_job take complete_job complete
InCustody-excludes env id driver k d c = (
  rw c.not_pending,
  λ ne. elim (Option-cases (find (is_taken_by id k) d.delivery_jobs)) [
    | inl e ↦ rw e
    | inr (j, e) ↦ absurd (
        other_driver ne (find_test (is_taken_by id k) d.delivery_jobs e)
          (find_test (is_taken_by id driver) d.delivery_jobs c.held)
          (λ h.
            find_same (λ v. v.id) (is_taken_by id driver) (is_taken_by id k) d.delivery_jobs c.keyed
              c.held e h))
  ],
  rw (c.held, c.on_the_way),
)
  where
    other_driver :
        {j : DeliveryJob}
        → k ≢ driver
        → is_taken_by id k j ≡ true
        → is_taken_by id driver c.job ≡ true
        → (j.id ≡ c.job.id → j ≡ c.job)
        → ⊥
    other_driver {j} ne h h' same =
        ne (taken_twice id k driver j h (rw (same (taken_same id k driver j c.job h h')) h'))

-- Where job ids are unique, once a driver has taken a job, nobody takes it again, no other driver
-- completes it, and this driver can.
pub take_job_exclusive :
    (env env' : Env) (id driver k : ℕ) (d : Db)
    → IsKeyed (λ j. j.id) d.delivery_jobs
    → (take_job env id driver d).0 ≡ ok tt
    → let d' = (take_job env id driver d).1 in
      (take_job env' id k d' ≡ (err (conflict Reason.job_unavailable), d'))
      × (k ≢ driver → complete_job env' id k d' ≡ (err (conflict Reason.job_not_completable), d'))
      × ((complete_job env' id driver d').0 ≡ ok tt)
take_job_exclusive env env' id driver k d keyed taken_ok =
    InCustody-excludes env' id driver k (take_job env id driver d).1 custody
  where
    custody : InCustody id driver (take_job env id driver d).1
    custody =
        OnOk-ok (λ _ d'. InCustody id driver d') (take_job env id driver d) tt
          (take_job-InCustody env id driver d keyed) taken_ok
