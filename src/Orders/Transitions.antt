-- ===== src/Orders/Transitions.antt =====
-- Each operation on orders follows the edges of the life cycle.

use seapedia.Prelude.{
  sym, ap, ◌∙◌, ==-refl, find_test, find-some, find_same, find-Extends, Extends-trans, ℕ, ◌≡◌, inl,
  inr, Bool, true, Option, some, List, String, arith, Bool-cases, Option-cases, is_some, find, All,
  All-imp, All-intro, IsKeyed, only_row, Extends, Extends-refl, eq_of_==,
}
use seapedia.Db.{
  Order, OrderStatus, sedang_dikemas, menunggu_pengirim, sedang_dikirim, pesanan_selesai,
  same_status, Db, OnOk, transaction, transaction_state, Env,
}
use seapedia.Orders.Detail.{is_order, is_order_of_store}
use seapedia.Orders.Seller.{is_job_of, read_packed, write_release, release_order}
use seapedia.Orders.Driver.{take, complete, is_order_in, is_pending_job, is_taken_by}
use seapedia.Orders.Lifecycle.{
  ◌⟶◌, release, pick_up, deliver, Advances, Advances-refl, Advances-trans, update-Extends,
}

pub same_status-eq : (s t : OrderStatus) → same_status s t ≡ true → s ≡ t
same_status-eq s t h = ground arith

-- The orders have only moved along the edges.
abbrev pub Follows : Db → Db → Type 0
Follows d d' = Extends Advances d.orders d'.orders

pub Follows-refl : (d : Db) → Follows d d
Follows-refl d = Extends-refl Advances Advances-refl d.orders

-- A row with the id of a found order takes the edge that this order may take.
pub keyed_edges :
    (p : Order → Bool) (t : OrderStatus) (os : List Order) {o : Order}
    → IsKeyed (λ v. v.id) os
    → find p os ≡ some o
    → o.status ⟶ t
    → All (λ v. is_order o.id v ≡ true → v.status ⟶ t) os
keyed_edges p t os {o} keyed found e =
    All-imp (λ v. v.id ≡ o.id → v ≡ o) (λ v. is_order o.id v ≡ true → v.status ⟶ t)
      (λ v only same. rw (only (eq_of_== v.id o.id same)) e) os
      (only_row (λ v. v.id) p os keyed found)

-- The edge that the `where` of an update asks for.
status_edges :
    (id : ℕ) (s t : OrderStatus) (os : List Order)
    → s ⟶ t
    → All (λ o. is_order_in id s o ≡ true → o.status ⟶ t) os
status_edges id s t os e =
    All-intro (λ o. is_order_in id s o ≡ true → o.status ⟶ t)
      (λ o h.
        let same : same_status o.status s ≡ true = ground arith in
        rw (same_status-eq o.status s same) e)
      os

pub is_order-Advances : (id : ℕ) (o p : Order) → Advances o p → is_order id p ≡ is_order id o
is_order-Advances id o p h = ap (λ (v : Order). is_order id v) h.kept

write_release-Follows :
    (env : Env) (note : Option String) (o : Order) (d : Db)
    → All (λ v. is_order o.id v ≡ true → v.status ⟶ menunggu_pengirim) d.orders
    → OnOk (λ _ d'. Follows d d') (write_release env o note d)
unfolding write_release
write_release-Follows env text o d edges =
    elim (Bool-cases (is_some (find (is_job_of o.id) d.delivery_jobs))) [
      | inl j ↦ rw j tt
      | inr j ↦ rw j (update-Extends env (is_order o.id) menunggu_pengirim d.orders edges)
    ]

-- The other transactions leave the order in its status.
abbrev pub Spares : ℕ → Db → Db → Type 0
Spares id d d' =
    (o p : Order)
    → find (is_order id) d.orders ≡ some o
    → find (is_order id) d'.orders ≡ some p
    → p.status ≡ o.status

pub release_order-Follows :
    (env : Env) (between : Db → Db) (store id : ℕ) (note : Option String) (d : Db)
    → IsKeyed (λ o. o.id) d.orders
    → IsKeyed (λ o. o.id) (between d).orders
    → Follows d (between d)
    → Spares id d (between d)
    → Follows d (release_order env between store id note d).1
unfolding release_order read_packed
release_order-Follows env between store id text d keyed keyed' follows spares =
    elim (Option-cases (find (is_order_of_store store id) d.orders)) [
      | inl e ↦ rw e (Follows-refl d)
      | inr (o, e) ↦ rw e (elim (Bool-cases (same_status o.status sedang_dikemas)) [
        | inr other ↦ rw other (Follows-refl d)
        | inl packed ↦ rw packed (
            Extends-trans Advances Advances-trans d.orders (between d).orders
              (transaction (write_release env o text) (between d)).1.orders follows
              (transaction_state (Follows (between d)) (write_release env o text) (between d)
                (Follows-refl (between d))
                (write_release-Follows env text o (between d) (edges o e packed))))
      ])
    ]
  where
    edges :
        (o : Order)
        → find (is_order_of_store store id) d.orders ≡ some o
        → same_status o.status sedang_dikemas ≡ true
        → All (λ v. is_order o.id v ≡ true → v.status ⟶ menunggu_pengirim) (between d).orders
    edges o e packed =
        let test : is_order_of_store store id o ≡ true =
          find_test (is_order_of_store store id) d.orders e in
        let at : o.id ≡ id = ground arith in
        let (q, f) =
          find-some (is_order_of_store store id) (is_order id) d.orders e (rw (at, ==-refl id)) in
        let own : q ≡ o =
          find_same (λ (v : Order). v.id) (is_order_of_store store id) (is_order id) d.orders keyed
            e f (eq_of_== q.id id (find_test (is_order id) d.orders f) ∙ sym at) in
        let (p, (g, _)) =
          find-Extends Advances (is_order id) d.orders (between d).orders (is_order-Advances id)
            follows f in
        let still : p.status ≡ sedang_dikemas =
          spares q p f g
          ∙ ap (λ (v : Order). v.status) own
          ∙ same_status-eq o.status sedang_dikemas packed in
        rw (at ∙ sym (eq_of_== p.id id (find_test (is_order id) (between d).orders g))) (
          keyed_edges (is_order id) menunggu_pengirim (between d).orders keyed' g
            (rw still release))

pub take-Follows :
    (env : Env) (id driver : ℕ) (d : Db) → OnOk (λ _ d'. Follows d d') (take env id driver d)
unfolding take
take-Follows env id driver d = elim (Option-cases (find (is_pending_job id) d.delivery_jobs)) [
  | inl e ↦ rw e tt
  | inr (j, e) ↦
      rw e (elim (Option-cases (find (is_order_in j.order_id menunggu_pengirim) d.orders)) [
        | inl e' ↦ rw e' tt
        | inr (o, e') ↦ rw e' (
            update-Extends env (is_order_in j.order_id menunggu_pengirim) sedang_dikirim d.orders
              (status_edges j.order_id menunggu_pengirim sedang_dikirim d.orders pick_up))
      ])
]

pub complete-Follows :
    (env : Env) (id driver : ℕ) (d : Db) → OnOk (λ _ d'. Follows d d') (complete env id driver d)
unfolding complete
complete-Follows env id driver d =
    elim (Option-cases (find (is_taken_by id driver) d.delivery_jobs)) [
      | inl e ↦ rw e tt
      | inr (j, e) ↦
          rw e (elim (Option-cases (find (is_order_in j.order_id sedang_dikirim) d.orders)) [
            | inl e' ↦ rw e' tt
            | inr (o, e') ↦ rw e' (
                update-Extends env (is_order_in j.order_id sedang_dikirim) pesanan_selesai d.orders
                  (status_edges j.order_id sedang_dikirim pesanan_selesai d.orders deliver))
          ])
    ]
