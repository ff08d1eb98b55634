-- ===== src/Tests/Reading.antt =====
-- The lists, the jobs and the dashboard, at a small shop.
use mathlib.Core.List.{Permᴰ}
use mathlib.Core.List.Permᴰ
use seapedia.Prelude.{ℕ, List, ◌+◌, ◌*◌, ◌≤◌, ◌≡◌, refl, arith, All, length, select}
use seapedia.Orders.Detail.{seller_detail}
use seapedia.Orders.Reports.{seller_list}
use seapedia.Orders.Grouped.{IsShown, seller_list-seller_detail}
use seapedia.Orders.Jobs.{Job, available_jobs, completed_rows, completed_by, job_history}
use seapedia.Orders.Offers.{IsTakeable, available_jobs-take_job}
use seapedia.Orders.Pages.{Answers, IsNewestFirst, pages, pages_complete}
use seapedia.Orders.Driver
use seapedia.Orders.Driver.{take_job, complete_job}
use seapedia.Orders.Overdue.{effective_now, is_overdue}
use seapedia.Orders.Dashboard.{get_dashboard_stats, dashboard_adds_up}
use seapedia.Db.{Db}
use seapedia.Tests.Shop.{clock, late}

seller_list-seller_detail_example :
    All (λ e. IsShown (seller_detail 2 e.row.order.id) late e) (seller_list 2 late)
seller_list-seller_detail_example = seller_list-seller_detail 2 late (tt, tt)

one_listed : length (seller_list 2 late) ≡ 1
unfolding seller_list
one_listed = refl

available_jobs-take_job_example : All (IsTakeable clock 3 late) (available_jobs late)
available_jobs-take_job_example = available_jobs-take_job clock 3 late (tt, tt)

one_available : length (available_jobs late) ≡ 1
unfolding available_jobs
one_available = refl

-- Driver 3 has taken the job and brought the order.
abbrev delivered : Db
delivered = (complete_job clock 80 3 (take_job clock 80 3 late).1).1

-- One job has one order.
abbrev as_stored : ℕ → List Job → List Job
as_stored _ jobs = jobs

within : (job_history (as_stored 1) 3 1 10 delivered).total ≤ 1 * 10
unfolding job_history take_job Driver.take complete_job Driver.complete
within = omega arith

one_completed : Answers as_stored 3 delivered
unfolding take_job Driver.take complete_job Driver.complete
one_completed k = (Permᴰ.refl (completed_rows 3 delivered), (tt, tt))

pages_complete_example :
    (pages as_stored 3 10 delivered 1 ≡ completed_by (as_stored 1) 3 delivered)
    × Permᴰ (completed_rows 3 delivered) (pages as_stored 3 10 delivered 1)
    × IsNewestFirst (pages as_stored 3 10 delivered 1)
pages_complete_example = pages_complete as_stored 3 10 1 delivered one_completed within

dashboard_adds_up_example :
    let s = get_dashboard_stats clock late in
    (s.orders.total
      ≡ s.orders.sedang_dikemas + s.orders.menunggu_pengirim + s.orders.sedang_dikirim
        + s.orders.pesanan_selesai + s.orders.dikembalikan)
    × (s.deliveries.total ≡ s.deliveries.pending + s.deliveries.taken + s.deliveries.completed)
    × (s.overdue_orders ≡ length (select (is_overdue (effective_now clock late)) late.orders))
dashboard_adds_up_example = dashboard_adds_up clock late
