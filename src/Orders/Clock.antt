-- ===== src/Orders/Clock.antt =====
-- The simulated clock (`simulateTime`, `getEffectiveNow`) and the orders that are overdue by it.
use seapedia.Prelude.{ℕ, ◌*◌, ◌≤◌, ◌<◌, ◌≡◌, refl, true, arith}
use seapedia.Db.{Order, DeliveryMethod, Db, ok, Env}
use seapedia.Orders.Overdue.{seconds_of, effective_now, simulate_time, is_late, is_overdue}

is_late_later :
    (now later : ℕ) (m : DeliveryMethod) (created : ℕ)
    → now ≤ later
    → is_late now m created ≡ true
    → is_late later m created ≡ true
is_late_later now later m created h l = ground arith

is_overdue_later :
    (now later : ℕ) (o : Order) → now ≤ later → is_overdue now o ≡ true → is_overdue later o ≡ true
is_overdue_later now later o h l =
    ground (arith, is_late_later now later o.delivery_method o.created_at h)

later_offset :
    (hours : ℕ) (d : Db)
    → 0 < hours
    → seconds_of d.time_offset ≤ 240 * 3600
    → seconds_of d.time_offset ≤ seconds_of (simulate_time hours d).1.time_offset
unfolding simulate_time
later_offset hours d h k = ground arith

-- Advancing the simulated time answers with the new offset, of at most 240 hours, and leaves every
-- overdue order overdue.
simulate_time-is_overdue :
    (env : Env) (hours : ℕ) (d : Db) (o : Order)
    → 0 < hours
    → seconds_of d.time_offset ≤ 240 * 3600
    → is_overdue (effective_now env d) o ≡ true
    → let (r, d') = simulate_time hours d in
      (r ≡ ok (seconds_of d'.time_offset))
      × (seconds_of d'.time_offset ≤ 240 * 3600)
      × (is_overdue (effective_now env d') o ≡ true)
unfolding simulate_time
simulate_time-is_overdue env hours d o h k late = (
  refl,
  ground arith,
  is_overdue_later (effective_now env d) (effective_now env (simulate_time hours d).1) o
      (omega (arith, later_offset hours d h k)) late,
)
