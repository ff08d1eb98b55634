-- ===== src/Orders/Race.antt =====
-- The seller's transaction and the overdue run on one order: under read committed, the read of
-- `processOrder` may come before a return and its writes after.
use mathlib.Core.Option
use mathlib.Core.Option.{some-injective}
use mathlib.Core.Path.{subst}
use seapedia.Prelude.{
  ℕ, ◌≡◌, refl, sym, ◌∙◌, Option, none, some, String, find, find-update, find_test, ==-refl,
  IsKeyed,
}
use seapedia.Db.{Order, menunggu_pengirim, dikembalikan, Db, ok, Env}
use seapedia.Orders.Detail.{is_order}
use seapedia.Orders.Seller.{set_status, is_job_of, read_packed, write_release}
use seapedia.Orders.Overdue.{Returned, return_order}
use seapedia.Orders.Returns.{IsReturned, return_order-Outcome}

-- The writes look at nothing but the jobs.
writes :
    (env : Env) (text : Option String) (o p : Order) (d : Db)
    → find (is_job_of o.id) d.delivery_jobs ≡ none
    → find (is_order o.id) d.orders ≡ some p
    → let after = write_release env o text d in
      (after.0 ≡ ok tt)
      × (Option.map (λ v. v.status) (find (is_order o.id) after.1.orders) ≡ some menunggu_pengirim)
      × (after.1.wallet_transactions ≡ d.wallet_transactions)
unfolding write_release
writes env text o p d free found =
    let seen =
      find-update (is_order o.id) (is_order o.id) (set_status env menunggu_pengirim) d.orders
        (λ _. refl) in
    rw (free, seen, found, Option.map, find_test (is_order o.id) d.orders found) (refl, refl, refl)

-- The returned order is there still, with its new status.
still_listed :
    (o : Order) (r : Returned) (d d' : Db)
    → find (is_order o.id) d.orders ≡ some o
    → IsReturned o d r d'
    → (p : Order) × (find (is_order o.id) d'.orders ≡ some p)
still_listed o r d d' found h = (
  set_status h.clock dikembalikan o,
  rw (
    h.marked,
    find-update (is_order o.id) (is_order o.id) (set_status h.clock dikembalikan) d.orders
        (λ _. refl),
    found,
    Option.map,
    ==-refl o.id,
  ),
)

-- Where product ids are unique in the stock and the order has no job: if the order is returned between
-- the seller's read, which found it packed, and the writes, then the writes go through: the order waits
-- for a driver again, and the buyer keeps the refund.
pub release_after_return :
    (env env' : Env) (store : ℕ) (text : Option String) (o : Order) (r : Returned) (d : Db)
    → IsKeyed (λ s. s.product_id) d.inventory
    → find (is_order o.id) d.orders ≡ some o
    → read_packed store o.id d ≡ (ok o, d)
    → find (is_job_of o.id) d.delivery_jobs ≡ none
    → (return_order env o.id d).0 ≡ ok (some r)
    → let d₁ = (return_order env o.id d).1 in
      let after = write_release env' o text d₁ in
      IsReturned o d r d₁
      × (after.0 ≡ ok tt)
      × (Option.map (λ p. p.status) (find (is_order o.id) after.1.orders) ≡ some menunggu_pengirim)
      × (after.1.wallet_transactions ≡ d₁.wallet_transactions)
release_after_return env env' store text o r d keyed found packed free returned =
    let (p, found', _, h) = return_order-Outcome env o.id r d keyed returned in
    let same : p ≡ o = some-injective _ _ (sym found' ∙ found) in
    let h' : IsReturned o d r (return_order env o.id d).1 =
      subst (λ v. IsReturned v d r (return_order env o.id d).1) same h in
    let (q, listed) = still_listed o r d (return_order env o.id d).1 found h' in
    let (a, b, c) =
      writes env' text o q (return_order env o.id d).1 (rw (h'.jobs_kept, free)) listed in
    (h', a, b, c)
