-- ===== src/Orders/Seller.antt =====
-- `processOrder` of OrdersSellerService
-- (services/commerce/src/modules/orders/orders-seller.service.ts).
use seapedia.Prelude.{
  ℕ, Bool, not, Option, none, some, [], ◌∷◌, ◌++◌, String, ◌==◌, is_some, find, update,
}
use seapedia.Db.{
  Order, OrderStatus, sedang_dikemas, menunggu_pengirim, same_status, JobStatus, StatusHistory,
  DeliveryJob, Db, Action, pure, gets, or_throw, transaction, ◌>>=◌, ◌>>◌, throw_if, modify,
  not_found, conflict, constraint, Reason, Env,
}
use seapedia.Orders.Detail.{OrderDetail, is_order, is_order_of_store, is_store_of, seller_detail}

abbrev pub set_status : Env → OrderStatus → Order → Order
set_status env s o = record o { status = s; updated_at = env.now }

-- `note || null`
abbrev non_empty : String → Option String
non_empty String.[] = none
non_empty (String.◌∷◌ c s) = some (String.◌∷◌ c s)

abbrev or_null : Option String → Option String
or_null none = none
or_null (some n) = non_empty n

abbrev pub history_entry : Env → ℕ → ℕ → OrderStatus → Option String → StatusHistory
history_entry env id order s note = record {
  id = id;
  order_id = order;
  status = s;
  note = note;
  created_at = env.now;
}

abbrev pub new_job : Env → Order → DeliveryJob
new_job env o = record {
  id = env.uuid 1;
  order_id = o.id;
  driver_id = none;
  status = JobStatus.pending;
  delivery_fee = o.delivery_fee;
  created_at = env.now;
  updated_at = env.now;
}

abbrev pub is_job_of : ℕ → DeliveryJob → Bool
is_job_of order j = j.order_id == order

-- The writes of the transaction.
abbrev pub hand_over : Env → Order → Option String → Db → Db
hand_over env o note d = record d {
  orders = update (is_order o.id) (set_status env menunggu_pengirim) d.orders;
  order_status_history =
      d.order_status_history ++ (history_entry env (env.uuid 0) o.id menunggu_pengirim note ∷ []);
  delivery_jobs = d.delivery_jobs ++ (new_job env o ∷ []);
}

-- What the transaction reads: the order of the store, which must be packed still.
unfoldable pub read_packed : ℕ → ℕ → Action Order
read_packed store id = do
  o ←
      or_throw (← gets (λ d. find (is_order_of_store store id) d.orders))
        (not_found Reason.order_missing)
  throw_if (not (same_status o.status sedang_dikemas)) (conflict Reason.not_packed)
  pure o

-- What it writes. A second job for an order breaks the unique key of `delivery_jobs`.
unfoldable pub write_release : Env → Order → Option String → Action (Unit {0})
write_release env o note = do
  throw_if (is_some (← gets (λ d. find (is_job_of o.id) d.delivery_jobs))) constraint
  modify (hand_over env o (or_null note))

-- The transaction. Its read locks nothing: `between` is what other transactions commit before its writes.
-- A throw undoes what it wrote, and not what the others did.
unfoldable pub release_order : Env → (Db → Db) → ℕ → ℕ → Option String → Action (Unit {0})
release_order env between store id note = do
  o ← read_packed store id
  modify between
  transaction (write_release env o note)

unfoldable pub process_order : Env → (Db → Db) → ℕ → ℕ → Option String → Action OrderDetail
process_order env between seller id note = do
  store ←
      or_throw (← gets (λ d. find (is_store_of seller) d.store_refs))
        (not_found Reason.store_missing)
  release_order env between store.id id note
  seller_detail seller id
