-- ===== src/Orders/Returns.antt =====
-- What the return of one order does: `processOverdueOrders`, one turn of the loop.
use mathlib.Core.Option
use seapedia.Prelude.{
  find-Extends, arith, ==-refl, ℕ, ◌+◌, ◌≡◌, refl, ◌∙◌, ap, true, false, Option, none, some, List,
  [], ◌∷◌, ◌++◌, inl, inr, pos, Bool-cases, Option-cases, find, find-update, select, update,
  is_some, IsKeyed,
}
use seapedia.Db.{
  Order, OrderItem, Wallet, WalletTransaction, dikembalikan, TransactionType, TransactionStatus,
  Reference, Db, ok, OnOk, OnOk-continue, OnOk-imp, OnOk-ok, Commits, Commits-transaction,
  transaction, Env,
}
use seapedia.Wallet.{is_of_user, get_or_create_wallet, overflows, is_wallet, add_balance}
use seapedia.Checkout.Stock.{on_hand}
use seapedia.Checkout.Placed.{units}
use seapedia.Wallet.Owned.{balance_of, OwnWallet, get_or_create_wallet-OwnWallet, credited_wallet}
use seapedia.Orders.Detail.{is_order, is_part_of}
use seapedia.Orders.Seller.{set_status}
use seapedia.Orders.Overdue.{
  is_final, is_stock_of, restore_items, Returned, mark_returned, refund_order, return_found,
  return_order,
}
use seapedia.Orders.Lifecycle.{Advances, final_forever}
use seapedia.Orders.Transitions.{Follows, is_order-Advances}
use seapedia.Orders.Restock.{Restocks, restore_items-Restocks}

-- The order `o` was returned: it and no other order is marked; its total went to the wallet
-- that the database has for the buyer, in balance and in the one new transaction, under its own reference; its items are back on the shelf.
pub record IsReturned (o : Order) (d : Db) (r : Returned) (d' : Db) : Type 0 where
  pub clock : Env
  pub refund : WalletTransaction
  pub payee : Wallet
  pub marked : d'.orders ≡ update (is_order o.id) (set_status clock dikembalikan) d.orders
  pub reported :
      (r.order_id ≡ o.id) × (r.buyer_id ≡ o.buyer_id) × (r.refund_amount ≡ o.total_amount)
  pub posted : d'.wallet_transactions ≡ d.wallet_transactions ++ (refund ∷ [])
  pub jobs_kept : d'.delivery_jobs ≡ d.delivery_jobs
  pub of_total : refund.amount ≡ pos o.total_amount
  pub referring : refund.reference ≡ Reference.refund_ref o.id
  pub on_payee : refund.wallet_id ≡ payee.id
  pub payee_of : find (is_of_user o.buyer_id) d'.wallets ≡ some payee
  pub same_payee : (w : Wallet) → find (is_of_user o.buyer_id) d.wallets ≡ some w → w.id ≡ payee.id
  pub credited :
      payee.balance ≡ balance_of (find (is_of_user o.buyer_id) d.wallets) + o.total_amount
  pub put_back :
      (k : ℕ)
      → is_some (find (is_stock_of k) d.inventory) ≡ true
      → on_hand k d'.inventory
        ≡ on_hand k d.inventory + units k (select (is_part_of o.id) d.order_items)

-- Nothing is done to an order that has ended, or is not there.
abbrev pub Returns : ℕ → Db → Option Returned → Db → Type 0
Returns id d none d' =
    (d' ≡ d) × ((o : Order) → find (is_order id) d.orders ≡ some o → is_final o.status ≡ true)
Returns id d (some r) d' =
    (o : Order) × (find (is_order id) d.orders ≡ some o)
    × (is_final o.status ≡ false)
    × IsReturned o d r d'

refund_order-IsReturned :
    (env : Env) (o : Order) (d : Db)
    → IsKeyed (λ r. r.product_id) d.inventory
    → OnOk (λ r d'. (s : Returned) × (r ≡ some s) × IsReturned o d s d') (refund_order env o d)
unfolding refund_order
refund_order-IsReturned env o d keyed =
    OnOk-continue (OwnWallet o.buyer_id (mark_returned env o d))
      (λ r d'. (s : Returned) × (r ≡ some s) × IsReturned o d s d')
      (get_or_create_wallet env o.buyer_id (mark_returned env o d)) _
      (get_or_create_wallet-OwnWallet env o.buyer_id (mark_returned env o d))
      λ w d₁ (own, had, same, rest).
        elim (Option-cases (find (overflows w.id o.total_amount) d₁.wallets)) [
          | inr (v, e) ↦ rw e tt
          | inl e ↦ rw e (
              let shelf : d₁.inventory ≡ d.inventory = ap (λ x. x.inventory) rest in
              let parts : d₁.order_items ≡ d.order_items = ap (λ x. x.order_items) rest in
              let posts : d₁.wallet_transactions ≡ d.wallet_transactions =
                ap (λ x. x.wallet_transactions) rest in
              let marks : d₁.orders
                  ≡ update (is_order o.id) (set_status env dikembalikan) d.orders =
                ap (λ x. x.orders) rest in
              let items : List OrderItem = select (is_part_of o.id) d₁.order_items in
              OnOk-continue (λ _ d'. Restocks items (refunded d₁ w) d') _
                (restore_items env items (refunded d₁ w)) _
                (restore_items-Restocks env items (refunded d₁ w) (rw shelf keyed))
                λ _ d₂ k. (
                  _,
                  refl,
                  record {
                    clock = env;
                    refund = refund_row w;
                    payee = add_balance env o.total_amount w;
                    marked = ap (λ x. x.orders) k.rest ∙ marks;
                    reported = (refl, refl, refl);
                    posted = ap (λ x. x.wallet_transactions) k.rest ∙ rw posts;
                    jobs_kept = ap (λ x. x.delivery_jobs) k.rest ∙ ap (λ x. x.delivery_jobs) rest;
                    of_total = refl;
                    referring = refl;
                    on_payee = refl;
                    payee_of =
                        rw (ap (λ x. x.wallets) k.rest)
                          (credited_wallet env o.buyer_id o.total_amount w d₁.wallets own);
                    same_payee = same;
                    credited = omega (arith, had);
                    put_back = λ n h. rw (← parts, ← shelf) (k.put_back n (rw shelf h));
                  },
                ))
        ]
  where
    refund_row : Wallet → WalletTransaction
    refund_row w = record {
      id = env.uuid 1;
      wallet_id = w.id;
      amount = pos o.total_amount;
      kind = TransactionType.refund;
      status = TransactionStatus.success;
      reference = Reference.refund_ref o.id;
      created_at = env.now;
    }

    refunded : Db → Wallet → Db
    refunded x w = record x {
      wallets = update (is_wallet w.id) (add_balance env o.total_amount) x.wallets;
      wallet_transactions = x.wallet_transactions ++ (refund_row w ∷ []);
    }

return_found-Returns :
    (env : Env) (id : ℕ) (d : Db) (found : Option Order)
    → find (is_order id) d.orders ≡ found
    → IsKeyed (λ r. r.product_id) d.inventory
    → OnOk (Returns id d) (return_found env found d)
return_found-Returns env id d none e keyed = (refl, λ o k. cc)
return_found-Returns env id d (some o) e keyed = elim (Bool-cases (is_final o.status)) [
  | inl f ↦ rw f (refl, λ p k. rw (same p k) f)
  | inr f ↦ rw f (
      OnOk-imp (λ r d'. (s : Returned) × (r ≡ some s) × IsReturned o d s d') (Returns id d)
        (refund_order env o d) (λ r d' (s, k, h). rw k (o, e, f, h))
        (refund_order-IsReturned env o d keyed))
]
  where
    same : (p : Order) → find (is_order id) d.orders ≡ some p → p ≡ o
    same p k = cc

-- Where product ids are unique in the stock, one turn of the overdue run either fails and changes
-- nothing, or finds no order of the id that is still open and changes nothing, or returns the order:
-- marks it and no other, puts its total on the wallet that the database has for the buyer, a new one if
-- there was none, so that its balance rises by the total, with the one new transaction, and puts each
-- item back on the shelf of its product.
pub return_order-Returns :
    (env : Env) (id : ℕ) (d : Db)
    → IsKeyed (λ r. r.product_id) d.inventory
    → Commits (Returns id d) d (transaction (return_order env id) d)
unfolding return_order
return_order-Returns env id d keyed =
    Commits-transaction (Returns id d) (return_order env id) d
      (return_found-Returns env id d (find (is_order id) d.orders) refl keyed)

-- An order that was returned is still so after what moves orders along the edges only.
ended :
    (env : Env) (id : ℕ) (o : Order) (d d'' : Db) {r : Returned} {d' : Db}
    → find (is_order id) d.orders ≡ some o
    → IsReturned o d r d'
    → Follows d' d''
    → return_order env id d'' ≡ (ok none, d'')
unfolding return_order
ended env id o d d'' {d' = d'} found h follows =
    let returned : find (is_order id) d'.orders ≡ some (set_status h.clock dikembalikan o) = rw (
      h.marked,
      find-update (is_order id) (is_order o.id) (set_status h.clock dikembalikan) d.orders
          (λ _. refl),
      found,
      Option.map,
      ==-refl o.id,
    ) in
    let (p, (still, advances)) =
      find-Extends Advances (is_order id) d'.orders d''.orders (is_order-Advances id) follows
        returned in
    rw (still, final_forever advances.moved refl)

-- What a turn that reported a return did.
pub return_order-Outcome :
    (env : Env) (id : ℕ) (r : Returned) (d : Db)
    → IsKeyed (λ s. s.product_id) d.inventory
    → (return_order env id d).0 ≡ ok (some r)
    → Returns id d (some r) (return_order env id d).1
unfolding return_order
return_order-Outcome env id r d keyed e =
    OnOk-ok (Returns id d) (return_order env id d) (some r)
      (return_found-Returns env id d (find (is_order id) d.orders) refl keyed) e

-- Where product ids are unique in the stock: after a return, and after whatever follows that moves orders
-- along the edges of the life cycle only, another turn for the order does nothing, and reports nothing.
pub return_once :
    (env env' : Env) (id : ℕ) (r : Returned) (d d'' : Db)
    → IsKeyed (λ s. s.product_id) d.inventory
    → (return_order env id d).0 ≡ ok (some r)
    → Follows (return_order env id d).1 d''
    → return_order env' id d'' ≡ (ok none, d'')
return_once env env' id r d d'' keyed e follows =
    let (o, found, _, h) = return_order-Outcome env id r d keyed e in
    ended env' id o d d'' found h follows
