-- ===== src/Orders/Runs.antt =====
-- Whole calls on orders, the overdue run included, follow the edges of the life cycle.
use seapedia.Prelude.{
  ℕ, ◌≡◌, refl, ◌∙◌, inl, inr, false, Option, none, some, List, [], ◌∷◌, String, arith, Bool-cases,
  Option-cases, find, select, update, IsKeyed, IsKeyed-update, Extends-trans,
}
use seapedia.Db.{
  Order, OrderItem, dikembalikan, Db, OnOk, OnOk-continue, OnOk-of_state, OnOk-imp, transaction,
  transaction_state, continue_state, Env,
}
use seapedia.Wallet.{get_or_create_wallet, credit_wallet, overflows}
use seapedia.Orders.Detail.{is_order, is_store_of, is_part_of, seller_detail}
use seapedia.Orders.Seller.{set_status, release_order, process_order}
use seapedia.Orders.Driver.{take_job, take, complete_job, complete}
use seapedia.Orders.Overdue.{
  is_final, restore_item, restore_items, mark_returned, refund_order, return_found, return_order,
  later_uuids, return_orders, is_overdue, effective_now, process_overdue_orders,
}
use seapedia.Orders.Lifecycle.{give_back, Advances, Advances-trans, update-Extends}
use seapedia.Orders.Transitions.{
  Follows, Follows-refl, Spares, keyed_edges, release_order-Follows, take-Follows, complete-Follows,
}

seller_detail-same : (seller id : ℕ) (d : Db) → (seller_detail seller id d).1 ≡ d
unfolding seller_detail
seller_detail-same seller id d = ground arith

-- A seller's call moves every order along the edges only, where order ids are unique, and what other
-- transactions commit between its read and its writes moves orders along the edges only and leaves the
-- order of the call in its status.
pub process_order-Follows :
    (env : Env) (between : Db → Db) (seller id : ℕ) (text : Option String) (d : Db)
    → IsKeyed (λ o. o.id) d.orders
    → IsKeyed (λ o. o.id) (between d).orders
    → Follows d (between d)
    → Spares id d (between d)
    → Follows d (process_order env between seller id text d).1
unfolding process_order
process_order-Follows env between seller id text d keyed keyed' follows spares =
    elim (Option-cases (find (is_store_of seller) d.store_refs)) [
      | inl e ↦ rw e (Follows-refl d)
      | inr (s, e) ↦ rw e (
          continue_state (Follows d) (release_order env between s.id id text d) _
            (release_order-Follows env between s.id id text d keyed keyed' follows spares)
            (λ _ d' h. rw (seller_detail-same seller id d') h))
    ]

-- A driver's calls move every order along the edges only.
pub driver-Follows :
    (env : Env) (id driver : ℕ) (d : Db)
    → Follows d (take_job env id driver d).1 × Follows d (complete_job env id driver d).1
unfolding take_job complete_job
driver-Follows env id driver d = (
  transaction_state (Follows d) (take env id driver) d (Follows-refl d)
      (take-Follows env id driver d),
  transaction_state (Follows d) (complete env id driver) d (Follows-refl d)
      (complete-Follows env id driver d),
)

restore_item_orders :
    (env : Env) (i : OrderItem) (d : Db) → (restore_item env i d).1.orders ≡ d.orders
restore_item_orders env i d = ground arith

restore_items_orders :
    (env : Env) (is : List OrderItem) (d : Db) → (restore_items env is d).1.orders ≡ d.orders
unfolding restore_items
restore_items_orders env [] d = refl
restore_items_orders env (i ∷ is) d =
    ground
      (arith, restore_item_orders env i d, restore_items_orders env is (restore_item env i d).1)

wallet_orders :
    (env : Env) (user id amount : ℕ) (d : Db)
    → ((get_or_create_wallet env user d).1.orders ≡ d.orders)
      × ((credit_wallet env id amount d).1.orders ≡ d.orders)
unfolding get_or_create_wallet credit_wallet
wallet_orders env user id amount d = ground arith

-- A refund writes the orders once.
refund_order_orders :
    (env : Env) (o : Order) (d : Db)
    → OnOk
        (λ _ d'. d'.orders ≡ update (is_order o.id) (set_status env dikembalikan) d.orders)
        (refund_order env o d)
unfolding refund_order
refund_order_orders env o d =
    let os = update (is_order o.id) (set_status env dikembalikan) d.orders in
    OnOk-continue (λ _ d'. d'.orders ≡ os) (λ _ d'. d'.orders ≡ os)
      (get_or_create_wallet env o.buyer_id (mark_returned env o d)) _
      (OnOk-of_state (λ d'. d'.orders ≡ os) _
        ((wallet_orders env o.buyer_id 0 0 (mark_returned env o d)).0))
      λ w d₁ h₁. elim (Option-cases (find (overflows w.id o.total_amount) d₁.wallets)) [
        | inr (v, e) ↦ rw e tt
        | inl e ↦ rw e (
            OnOk-continue (λ _ d'. d'.orders ≡ os) (λ _ d'. d'.orders ≡ os)
              (restore_items env (select (is_part_of o.id) d₁.order_items) _) _
              (OnOk-of_state (λ d'. d'.orders ≡ os) _
                (restore_items_orders env (select (is_part_of o.id) d₁.order_items) _ ∙ h₁))
              λ _ _ h. h)
      ]

-- What the run keeps from one order to the next.
abbrev Moving : Db → Db → Type 0
Moving d d' = Follows d d' × IsKeyed (λ o. o.id) d'.orders

Moving-refl : (d : Db) → IsKeyed (λ o. o.id) d.orders → Moving d d
Moving-refl d k = (Follows-refl d, k)

refund_order-Moving :
    (env : Env) (id : ℕ) (o : Order) (d : Db)
    → IsKeyed (λ v. v.id) d.orders
    → find (is_order id) d.orders ≡ some o
    → is_final o.status ≡ false
    → OnOk (λ _ d'. Moving d d') (refund_order env o d)
refund_order-Moving env id o d keyed found active =
    OnOk-imp (λ _ d'. d'.orders ≡ update (is_order o.id) (set_status env dikembalikan) d.orders)
      (λ _ d'. Moving d d') (refund_order env o d)
      (λ _ d' same. rw same (
        update-Extends env (is_order o.id) dikembalikan d.orders
            (keyed_edges (is_order id) dikembalikan d.orders keyed found (give_back active)),
        IsKeyed-update (λ v. v.id) (is_order o.id) (set_status env dikembalikan) d.orders
            (λ _. refl) keyed,
      ))
      (refund_order_orders env o d)

return_order-Moving :
    (env : Env) (id : ℕ) (d : Db)
    → IsKeyed (λ o. o.id) d.orders
    → Moving d (transaction (return_order env id) d).1
unfolding return_order
return_order-Moving env id d keyed =
    transaction_state (Moving d) (return_order env id) d (Moving-refl d keyed)
      (go (find (is_order id) d.orders) refl)
  where
    go :
        (o : Option Order)
        → find (is_order id) d.orders ≡ o
        → OnOk (λ _ d'. Moving d d') (return_found env o d)
    go none _ = Moving-refl d keyed
    go (some o) found = elim (Bool-cases (is_final o.status)) [
      | inl e ↦ rw e (Moving-refl d keyed)
      | inr e ↦ rw e (refund_order-Moving env id o d keyed found e)
    ]

return_orders-Moving :
    (env : Env) (os : List Order) (d : Db)
    → IsKeyed (λ o. o.id) d.orders
    → Moving d (return_orders env os d).1
unfolding return_orders
return_orders-Moving env [] d keyed = Moving-refl d keyed
return_orders-Moving env (o ∷ os) d keyed =
    let first = return_order-Moving env o.id d keyed in
    let d' = (transaction (return_order env o.id) d).1 in
    let rest = return_orders-Moving (later_uuids env) os d' first.1 in
    (Extends-trans Advances Advances-trans d.orders d'.orders _ first.0 rest.0, rest.1)

-- Where order ids are unique, the overdue run moves every order along the edges only, and keeps the
-- ids unique.
pub process_overdue_orders-Follows :
    (env : Env) (d : Db)
    → IsKeyed (λ o. o.id) d.orders
    → let d' = (process_overdue_orders env d).1 in Follows d d' × IsKeyed (λ o. o.id) d'.orders
unfolding process_overdue_orders
process_overdue_orders-Follows env d keyed =
    return_orders-Moving env (select (is_overdue (effective_now env d)) d.orders) d keyed
