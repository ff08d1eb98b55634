-- ===== src/Orders/Dashboard.antt =====
-- The counts of the dashboard: `getDashboardStats` of AdminService
-- (services/commerce/src/modules/admin/admin.service.ts). A status without a row in the grouped
-- counts has the count 0, and every status of the schema is a key of the counts.
use Prim.Native.Nat.{Ordering}
use Prim.Native.String
use seapedia.Prelude.{
  ℕ, ◌+◌, ◌-◌, ◌*◌, ◌≡◌, refl, arith, Bool, true, false, not, ◌&&◌, ◌||◌, List, [], ◌∷◌, String,
  ltb, length, count, select, sum_by,
}
use seapedia.Db.{
  Order, OrderStatus, sedang_dikemas, menunggu_pengirim, sedang_dikirim, pesanan_selesai,
  dikembalikan, same_status, JobStatus, same_job_status, DeliveryMethod, instant, next_day, regular,
  other, DeliveryJob, ProductRef, UserRef, Db, Env,
}
use seapedia.Orders.Overdue.{effective_now, is_late, is_overdue}

pub record OrderCounts : Type 0 where
  pub total : ℕ
  pub sedang_dikemas : ℕ
  pub menunggu_pengirim : ℕ
  pub sedang_dikirim : ℕ
  pub pesanan_selesai : ℕ
  pub dikembalikan : ℕ

pub record DeliveryCounts : Type 0 where
  pub total : ℕ
  pub pending : ℕ
  pub taken : ℕ
  pub completed : ℕ

pub record RoleCounts : Type 0 where
  pub admin : ℕ
  pub buyer : ℕ
  pub seller : ℕ
  pub driver : ℕ

pub record DashboardStats : Type 0 where
  pub users : ℕ
  pub roles : RoleCounts
  pub stores : ℕ
  pub products : ℕ
  pub orders : OrderCounts
  pub vouchers : ℕ
  pub promos : ℕ
  pub deliveries : DeliveryCounts
  pub overdue_orders : ℕ

abbrev is_text : String → String → Bool
is_text s r = elim (String.compare r s) [ Ordering.eq ↦ true | _ ↦ false ]

-- The users' roles are unnested and then counted.
abbrev count_role : String → List UserRef → ℕ
count_role s = sum_by (λ (u : UserRef). count (is_text s) u.roles)

abbrev has_status : OrderStatus → Order → Bool
has_status s o = same_status o.status s

abbrev has_job_status : JobStatus → DeliveryJob → Bool
has_job_status s j = same_job_status j.status s

abbrev is_on_offer : ProductRef → Bool
is_on_offer p = not p.deleted

-- `createdAt < subHoursStr(hours)`; a clock before the first hours of the epoch is not considered.
abbrev older_than : (hours now : ℕ) → ℕ → Bool
older_than hours now created = ltb created (now - hours * 60 * 60 * 1000)

abbrev is_slow : ℕ → DeliveryMethod → ℕ → Bool
is_slow now instant created = older_than 2 now created
is_slow now next_day created = older_than 24 now created
is_slow now regular created = older_than 48 now created
is_slow now (other _) created = false

-- The eleventh query.
abbrev counts_as_overdue : ℕ → Order → Bool
counts_as_overdue now o =
    not (same_status o.status pesanan_selesai || same_status o.status dikembalikan)
    && is_slow now o.delivery_method o.created_at

unfoldable pub get_dashboard_stats : Env → Db → DashboardStats
get_dashboard_stats env d = record {
  users = length d.user_refs;
  roles = record {
    admin = count_role "admin" d.user_refs;
    buyer = count_role "buyer" d.user_refs;
    seller = count_role "seller" d.user_refs;
    driver = count_role "driver" d.user_refs;
  };
  stores = length d.store_refs;
  products = count is_on_offer d.product_refs;
  orders = record {
    total = length d.orders;
    sedang_dikemas = count (has_status sedang_dikemas) d.orders;
    menunggu_pengirim = count (has_status menunggu_pengirim) d.orders;
    sedang_dikirim = count (has_status sedang_dikirim) d.orders;
    pesanan_selesai = count (has_status pesanan_selesai) d.orders;
    dikembalikan = count (has_status dikembalikan) d.orders;
  };
  vouchers = length d.vouchers;
  promos = length d.promos;
  deliveries = record {
    total = length d.delivery_jobs;
    pending = count (has_job_status JobStatus.pending) d.delivery_jobs;
    taken = count (has_job_status JobStatus.taken) d.delivery_jobs;
    completed = count (has_job_status JobStatus.completed) d.delivery_jobs;
  };
  overdue_orders = count (counts_as_overdue (effective_now env d)) d.orders;
}

by_status :
    (os : List Order)
    → length os
      ≡ count (has_status sedang_dikemas) os
        + count (has_status menunggu_pengirim) os
        + count (has_status sedang_dikirim) os
        + count (has_status pesanan_selesai) os
        + count (has_status dikembalikan) os
by_status [] = omega arith
by_status (o ∷ os) = ground (arith, by_status os)

by_job_status :
    (js : List DeliveryJob)
    → length js
      ≡ count (has_job_status JobStatus.pending) js
        + count (has_job_status JobStatus.taken) js
        + count (has_job_status JobStatus.completed) js
by_job_status [] = omega arith
by_job_status (j ∷ js) = ground (arith, by_job_status js)

slow_late :
    (now : ℕ) (m : DeliveryMethod) (created : ℕ) → is_slow now m created ≡ is_late now m created
slow_late now instant created = ground arith
slow_late now next_day created = ground arith
slow_late now regular created = ground arith
slow_late now (other _) created = refl

count-select :
    {A : Type 0} (p q : A → Bool)
    → ((x : A) → p x ≡ q x)
    → (xs : List A) → count p xs ≡ length (select q xs)
count-select p q h [] = refl
count-select p q h (x ∷ xs) = ground (arith, h x, count-select p q h xs)

-- The counts by status add up to the totals of the orders and of the deliveries, and the overdue count
-- is the number of orders that an overdue run at the same time takes up, whose test is written apart.
pub dashboard_adds_up :
    (env : Env) (d : Db)
    → let s = get_dashboard_stats env d in
      (s.orders.total
        ≡ s.orders.sedang_dikemas + s.orders.menunggu_pengirim + s.orders.sedang_dikirim
          + s.orders.pesanan_selesai + s.orders.dikembalikan)
      × (s.deliveries.total ≡ s.deliveries.pending + s.deliveries.taken + s.deliveries.completed)
      × (s.overdue_orders ≡ length (select (is_overdue (effective_now env d)) d.orders))
unfolding get_dashboard_stats
dashboard_adds_up env d =
    let now = effective_now env d in
    (
      by_status d.orders,
      by_job_status d.delivery_jobs,
      count-select (counts_as_overdue now) (is_overdue now)
          (λ o. rw (slow_late now o.delivery_method o.created_at)) d.orders,
    )
