-- ===== src/Orders/Jobs.antt =====
-- The reads of DriverService (services/commerce/src/modules/driver/driver.service.ts). Every listing
-- is an inner join of the jobs with their orders and those with their stores.
use seapedia.Prelude.{
  ℕ, ◌-◌, ◌*◌, Bool, true, false, ◌&&◌, Option, none, some, List, [], ◌∷◌, String, ◌==◌, find,
  select, sum_by, count, take, drop, map, if◌then◌else◌,
}
use seapedia.Db.{
  Order, menunggu_pengirim, same_status, DeliveryMethod, Address, JobStatus, same_job_status,
  DeliveryJob, StoreRef, Db, Action, gets, or_throw, ◌>>=◌, not_found, Reason,
}
use seapedia.Orders.Detail.{is_order, is_part_of}
use seapedia.Orders.Reports.{MappedItem, mapped}

pub record Job : Type 0 where
  pub job : DeliveryJob
  pub store_name : String
  pub delivery_method : DeliveryMethod
  pub address_snapshot : Address
  pub total_amount : ℕ

abbrev pub with_store : DeliveryJob → Order → Option StoreRef → List Job → List Job
with_store j o none rest = rest
with_store j o (some s) rest =
    record {
      job = j;
      store_name = s.name;
      delivery_method = o.delivery_method;
      address_snapshot = o.address_snapshot;
      total_amount = o.total_amount;
    }
    ∷ rest

-- `q` is the test on the order.
abbrev pub with_order :
    (Order → Bool) → List StoreRef → DeliveryJob → Option Order → List Job → List Job
with_order q ss j none rest = rest
with_order q ss j (some o) rest =
    if q o then with_store j o (find (λ (s : StoreRef). s.id == o.store_id) ss) rest else rest

abbrev pub joined_jobs : (Order → Bool) → Db → List DeliveryJob → List Job
joined_jobs q d [] = []
joined_jobs q d (j ∷ js) =
    with_order q d.store_refs j (find (is_order j.order_id) d.orders) (joined_jobs q d js)

abbrev pub is_untaken : DeliveryJob → Bool
is_untaken j = same_job_status j.status JobStatus.pending

abbrev pub is_waiting : Order → Bool
is_waiting o = same_status o.status menunggu_pengirim

abbrev pub any_order : Order → Bool
any_order _ = true

unfoldable pub available_jobs : Db → List Job
available_jobs d = take 50 (joined_jobs is_waiting d (select is_untaken d.delivery_jobs))

pub record JobDetail : Type 0 where
  pub job : Job
  pub items : List MappedItem

abbrev pub first_job : List Job → Option Job
first_job [] = none
first_job (j ∷ _) = some j

unfoldable pub job_detail : ℕ → Action JobDetail
job_detail id = do
  j ←
      or_throw
        (← gets (λ d.
          first_job
            (joined_jobs any_order d (select (λ (j : DeliveryJob). j.id == id) d.delivery_jobs))))
        (not_found Reason.job_missing)
  gets (λ d. record {
    job = j;
    items = map mapped (select (is_part_of j.job.order_id) d.order_items);
  })

abbrev pub is_driver : ℕ → Option ℕ → Bool
is_driver driver none = false
is_driver driver (some d) = d == driver

abbrev pub is_job_of : ℕ → JobStatus → DeliveryJob → Bool
is_job_of driver s j = is_driver driver j.driver_id && same_job_status j.status s

abbrev pub completed_rows : ℕ → Db → List Job
completed_rows driver d =
    joined_jobs any_order d (select (is_job_of driver JobStatus.completed) d.delivery_jobs)

-- `order` is what the query's `order by updated_at desc` does: the database may put jobs of one time in
-- any order, and in another one at the next query.
abbrev pub completed_by : (order : List Job → List Job) → ℕ → Db → List Job
completed_by order driver d = order (completed_rows driver d)

pub record DriverStats : Type 0 where
  pub total_earnings : ℕ
  pub completed_jobs_count : ℕ
  pub active_jobs : List Job
  pub completed_jobs : List Job

-- The sum, which is cast to an `integer`, is within its range.
unfoldable pub driver_stats : (order : List Job → List Job) → ℕ → Db → DriverStats
driver_stats order driver d = record {
  total_earnings =
      sum_by (λ (j : DeliveryJob). j.delivery_fee)
        (select (is_job_of driver JobStatus.completed) d.delivery_jobs);
  completed_jobs_count = count (is_job_of driver JobStatus.completed) d.delivery_jobs;
  active_jobs = joined_jobs any_order d (select (is_job_of driver JobStatus.taken) d.delivery_jobs);
  completed_jobs = take 10 (completed_by order driver d);
}

pub record History : Type 0 where
  pub jobs : List Job
  pub total : ℕ

-- The schema of the route counts the pages from 1.
unfoldable pub job_history : (order : List Job → List Job) → ℕ → (page limit : ℕ) → Db → History
job_history order driver page limit d = record {
  jobs = take limit (drop ((page - 1) * limit) (completed_by order driver d));
  total = count (is_job_of driver JobStatus.completed) d.delivery_jobs;
}
