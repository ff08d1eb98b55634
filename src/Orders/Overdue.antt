-- ===== src/Orders/Overdue.antt =====
-- The simulated clock and the overdue run of AdminService
-- (services/commerce/src/modules/admin/admin.service.ts, admin.constants.ts).
use Prim.Native.String
use seapedia.Prelude.{
  ℕ, ◌+◌, ◌*◌, Bool, false, not, ◌&&◌, ◌||◌, Option, none, some, List, [], ◌∷◌, ◌++◌, map, pos,
  String, ltb, ◌==◌, is_some, find, select, update, if◌then◌else◌,
}
use seapedia.Db.{
  Order, OrderItem, OrderStatus, pesanan_selesai, dikembalikan, same_status, DeliveryMethod,
  instant, next_day, regular, other, Stock, TransactionType, Reference, Db, Result, ok, err, Action,
  pure, gets, transaction, ◌>>=◌, ◌>>◌, modify, out_of_range, max_int, Env,
}
use seapedia.Wallet.{get_or_create_wallet, credit_wallet, post_transaction}
use seapedia.Checkout.Items.{inventory_event}
use seapedia.Orders.Detail.{is_order, is_part_of}
use seapedia.Orders.Seller.{set_status, history_entry}

abbrev pub seconds_of : Option ℕ → ℕ
seconds_of none = 0
seconds_of (some s) = s

-- `getEffectiveNow`, in milliseconds.
abbrev pub effective_now : Env → Db → ℕ
effective_now env d = env.now + seconds_of d.time_offset * 1000

-- `simulateTime`; the result is the new offset in seconds. The hours are not negative.
unfoldable pub simulate_time : ℕ → Action ℕ
simulate_time hours d =
    let wanted = if hours == 0 then 0 else seconds_of d.time_offset + hours * 3600 in
    let offset = if ltb (240 * 3600) wanted then 240 * 3600 else wanted in
    (ok offset, record d { time_offset = some offset })

-- `DELIVERY_SLA_HOURS`
abbrev pub is_late : ℕ → DeliveryMethod → ℕ → Bool
is_late now instant created = ltb (created + 2 * 3_600_000) now
is_late now next_day created = ltb (created + 24 * 3_600_000) now
is_late now regular created = ltb (created + 48 * 3_600_000) now
is_late now (other _) created = false

abbrev pub is_final : OrderStatus → Bool
is_final s = same_status s pesanan_selesai || same_status s dikembalikan

abbrev pub is_overdue : ℕ → Order → Bool
is_overdue now o = not (is_final o.status) && is_late now o.delivery_method o.created_at

abbrev method_name : DeliveryMethod → String
method_name instant = "instant"
method_name next_day = "next_day"
method_name regular = "regular"
method_name (other s) = s

abbrev note_of : Order → String
note_of o =
    String.◌++◌ "Auto-returned: exceeded delivery SLA for "
      (String.◌++◌ (method_name o.delivery_method) ". Refund issued.")

abbrev pub is_stock_of : ℕ → Stock → Bool
is_stock_of product s = s.product_id == product

abbrev pub add_stock : Env → ℕ → Stock → Stock
add_stock env quantity s = record s {
  stock = s.stock + quantity;
  version = s.version + 1;
  updated_at = env.now;
}

abbrev pub too_many : ℕ → ℕ → Stock → Bool
too_many product quantity s = s.product_id == product && ltb max_int (s.stock + quantity)

-- One item of step 5: the stock of its product, if the product is still known, goes back.
abbrev pub restore_item : Env → OrderItem → Action (Unit {0})
restore_item env i d = elim i.product_id [
  | none ↦ (ok tt, d)
  | some p ↦ elim (find (too_many p i.quantity) d.inventory) [
    | some _ ↦ (err out_of_range, d)
    | none ↦ (
      ok tt,
      record d {
        inventory = update (is_stock_of p) (add_stock env i.quantity) d.inventory;
        outbox =
            d.outbox
            ++ map (λ s. inventory_event (add_stock env i.quantity s))
                (select (is_stock_of p) d.inventory);
      },
    )
  ]
]

-- Step 5. The code enqueues the events of all items after the loop; they are the same, in the same
-- order.
unfoldable pub restore_items : Env → List OrderItem → Action (Unit {0})
restore_items env [] = pure tt
restore_items env (i ∷ is) = restore_item env i >> restore_items env is

abbrev pub quantity_restored : List OrderItem → ℕ
quantity_restored [] = 0
quantity_restored (i ∷ is) = (if is_some i.product_id then i.quantity else 0) + quantity_restored is

pub record Returned : Type 0 where
  pub order_id : ℕ
  pub buyer_id : ℕ
  pub refund_amount : ℕ
  pub items_restored : ℕ
  pub note : String

-- Steps 2 and 3.
abbrev pub mark_returned : Env → Order → Db → Db
mark_returned env o d = record d {
  orders = update (is_order o.id) (set_status env dikembalikan) d.orders;
  order_status_history =
      d.order_status_history
      ++ (history_entry env (env.uuid 2) o.id dikembalikan (some (note_of o)) ∷ []);
}

-- Steps 2 to 5.
unfoldable pub refund_order : Env → Order → Action (Option Returned)
unfolding get_or_create_wallet credit_wallet post_transaction
refund_order env o = do
  modify (mark_returned env o)
  wallet ← get_or_create_wallet env o.buyer_id
  credit_wallet env wallet.id o.total_amount
  post_transaction env (env.uuid 1) wallet.id (pos o.total_amount) TransactionType.refund
      (Reference.refund_ref o.id)
  items ← gets (λ d. select (is_part_of o.id) d.order_items)
  restore_items env items
  pure (
      some (record {
        order_id = o.id;
        buyer_id = o.buyer_id;
        refund_amount = o.total_amount;
        items_restored = quantity_restored items;
        note = note_of o;
      }))

abbrev pub return_found : Env → Option Order → Action (Option Returned)
return_found env none d = (ok none, d)
return_found env (some o) d = if is_final o.status then (ok none, d) else refund_order env o d

-- The transaction for one order: it is read again, and skipped if it has ended meanwhile.
unfoldable pub return_order : Env → ℕ → Action (Option Returned)
return_order env id d = return_found env (find (is_order id) d.orders) d

abbrev pub later_uuids : Env → Env
later_uuids env = record env { uuid = λ n. env.uuid (n + 3) }

-- What the loop adds to its results; an error is logged.
abbrev pub keep_returned : Result (Option Returned) → List Returned → List Returned
keep_returned (ok (some r)) rest = r ∷ rest
keep_returned (ok none) rest = rest
keep_returned (err _) rest = rest

-- The loop, a transaction for each order.
unfoldable pub return_orders : Env → List Order → Db → List Returned × Db
return_orders env [] d = ([], d)
return_orders env (o ∷ os) d =
    let (r, d') = transaction (return_order env o.id) d in
    let (rest, d'') = return_orders (later_uuids env) os d' in (keep_returned r rest, d'')

-- `processOverdueOrders`
unfoldable pub process_overdue_orders : Env → Db → List Returned × Db
unfolding return_orders
process_overdue_orders env d =
    return_orders env (select (is_overdue (effective_now env d)) d.orders) d
