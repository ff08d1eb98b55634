-- ===== src/Orders/Driver.antt =====
-- `takeJob` and `completeJob` of DriverService
-- (services/commerce/src/modules/driver/driver.service.ts).
use seapedia.Prelude.{
  ℕ, Bool, false, ◌&&◌, Option, none, some, [], ◌∷◌, ◌++◌, map, ◌==◌, find, select, update,
}
use seapedia.Db.{
  Order, OrderItem, OrderStatus, menunggu_pengirim, sedang_dikirim, pesanan_selesai, same_status,
  JobStatus, same_job_status, DeliveryJob, order_completed, Action, gets, or_throw, transaction,
  ◌>>=◌, ◌>>◌, modify, conflict, Reason, Env,
}
use seapedia.Orders.Detail.{is_part_of}
use seapedia.Orders.Seller.{set_status, history_entry}

abbrev pub is_pending_job : ℕ → DeliveryJob → Bool
is_pending_job id j = j.id == id && same_job_status j.status JobStatus.pending

abbrev pub assign : Env → ℕ → DeliveryJob → DeliveryJob
assign env driver j = record j {
  status = JobStatus.taken;
  driver_id = some driver;
  updated_at = env.now;
}

abbrev pub is_order_in : ℕ → OrderStatus → Order → Bool
is_order_in id s o = o.id == id && same_status o.status s

-- The transaction of `takeJob`.
unfoldable pub take : Env → ℕ → ℕ → Action (Unit {0})
take env id driver = do
  job ←
      or_throw (← gets (λ d. find (is_pending_job id) d.delivery_jobs))
        (conflict Reason.job_unavailable)
  modify (λ d. record d {
    delivery_jobs = update (is_pending_job id) (assign env driver) d.delivery_jobs;
  })
  or_throw (← gets (λ d. find (is_order_in job.order_id menunggu_pengirim) d.orders))
      (conflict Reason.order_not_ready)
  modify (λ d. record d {
    orders =
        update (is_order_in job.order_id menunggu_pengirim) (set_status env sedang_dikirim)
          d.orders;
    order_status_history =
        d.order_status_history
        ++ (history_entry env (env.uuid 0) job.order_id sedang_dikirim
              (some "Driver is delivering your order")
            ∷ []);
  })

unfoldable pub take_job : Env → ℕ → ℕ → Action (Unit {0})
take_job env id driver = transaction (take env id driver)

abbrev pub is_driver : ℕ → Option ℕ → Bool
is_driver driver none = false
is_driver driver (some k) = k == driver

abbrev pub is_taken_by : ℕ → ℕ → DeliveryJob → Bool
is_taken_by id driver j =
    j.id == id && is_driver driver j.driver_id && same_job_status j.status JobStatus.taken

abbrev pub finish : Env → DeliveryJob → DeliveryJob
finish env j = record j { status = JobStatus.completed; updated_at = env.now }

abbrev item_of_event : OrderItem → Option ℕ × ℕ
item_of_event i = (i.product_id, i.quantity)

-- The transaction of `completeJob`.
unfoldable pub complete : Env → ℕ → ℕ → Action (Unit {0})
complete env id driver = do
  job ←
      or_throw (← gets (λ d. find (is_taken_by id driver) d.delivery_jobs))
        (conflict Reason.job_not_completable)
  modify (λ d. record d {
    delivery_jobs = update (is_taken_by id driver) (finish env) d.delivery_jobs;
  })
  order ←
      or_throw (← gets (λ d. find (is_order_in job.order_id sedang_dikirim) d.orders))
        (conflict Reason.order_not_in_delivery)
  modify (λ d. record d {
    orders =
        update (is_order_in job.order_id sedang_dikirim) (set_status env pesanan_selesai) d.orders;
    outbox =
        d.outbox
        ++ (order_completed order.id order.buyer_id
              (map item_of_event (select (is_part_of job.order_id) d.order_items))
            ∷ []);
    order_status_history =
        d.order_status_history
        ++ (history_entry env (env.uuid 0) job.order_id pesanan_selesai
              (some "Order has been delivered successfully")
            ∷ []);
  })

unfoldable pub complete_job : Env → ℕ → ℕ → Action (Unit {0})
complete_job env id driver = transaction (complete env id driver)
