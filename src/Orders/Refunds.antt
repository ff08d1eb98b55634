-- ===== src/Orders/Refunds.antt =====
-- The overdue run and the ledger of the wallets.
use seapedia.Prelude.{
  ℕ, ◌+◌, ◌≡◌, refl, sym, ◌≢◌, Option, none, some, List, [], ◌∷◌, ◌++◌, arith, inl, inr, Bool-cases,
  Option-cases, find, select, update, All, All-append, find-All, All-update,
}
use seapedia.Db.{
  Db, Wallet, WalletTransaction, Order, OrderItem, OnOk, OnOk-continue, OnOk-of_state,
  transaction_state, transaction, Env,
}
use seapedia.Wallet.{
  is_of_user, is_wallet, add_balance, overflows, new_wallet, found_or_new, get_or_create_wallet,
}
use seapedia.Wallet.Ledger.{Agrees, IsBalanced, IsUnposted, posted_none, credit-IsBalanced}
use seapedia.Orders.Overdue.{
  restore_item, restore_items, is_final, refund_order, return_found, return_order, later_uuids,
  return_orders, is_overdue, effective_now, process_overdue_orders,
}
use seapedia.Orders.Detail.{is_order, is_part_of}

-- The uuids to come are new to the wallets and their transactions, and differ from each other.
pub record IsFresh (env : Env) (ws : List Wallet) (txs : List WalletTransaction) : Type 0 where
  pub unposted : (n : ℕ) → IsUnposted (env.uuid n) txs
  pub unowned : (n : ℕ) → All (λ w. w.id ≢ env.uuid n) ws
  pub distinct : (m n : ℕ) → env.uuid m ≡ env.uuid n → m ≡ n

-- What the run keeps from one order to the next.
abbrev pub Ready : Env → Db → Type 0
Ready env d = IsBalanced d × IsFresh env d.wallets d.wallet_transactions

later-IsFresh :
    (env : Env) (ws : List Wallet) (txs : List WalletTransaction)
    → IsFresh env ws txs
    → IsFresh (later_uuids env) ws txs
later-IsFresh env ws txs f = record {
  unposted = λ n. f.unposted (n + 3);
  unowned = λ n. f.unowned (n + 3);
  distinct = λ m n e. omega (arith, f.distinct (m + 3) (n + 3) e);
}

restore_item_wallets :
    (env : Env) (i : OrderItem) (d : Db)
    → let d' = (restore_item env i d).1 in
      (d'.wallets ≡ d.wallets) × (d'.wallet_transactions ≡ d.wallet_transactions)
restore_item_wallets env i d = ground arith

restore_items_wallets :
    (env : Env) (is : List OrderItem) (d : Db)
    → let d' = (restore_items env is d).1 in
      (d'.wallets ≡ d.wallets) × (d'.wallet_transactions ≡ d.wallet_transactions)
unfolding restore_items
restore_items_wallets env [] d = (refl, refl)
restore_items_wallets env (i ∷ is) d =
    ground
      (arith, restore_item_wallets env i d, restore_items_wallets env is (restore_item env i d).1)

restore_items-Ready :
    (e env : Env) (is : List OrderItem) (d : Db) → Ready e d → Ready e (restore_items env is d).1
restore_items-Ready e env is d h = let (ws, ts) = restore_items_wallets env is d in rw (ws, ts) h

-- The wallet that a refund goes to is none that is still to come.
abbrev HasWallet : Env → Wallet → Db → Type 0
HasWallet env w d = Ready (later_uuids env) d × ((n : ℕ) → w.id ≢ env.uuid (n + 3))

found_or_new-HasWallet :
    (env : Env) (user : ℕ) (d : Db) (o : Option Wallet)
    → find (is_of_user user) d.wallets ≡ o
    → Ready env d
    → OnOk (HasWallet env) (found_or_new env user o d)
found_or_new-HasWallet env user d (some w) e (b, f) = (
  (b, later-IsFresh env d.wallets d.wallet_transactions f),
  λ n. find-All (λ v. v.id ≢ env.uuid (n + 3)) (is_of_user user) d.wallets (f.unowned (n + 3)) e,
)
found_or_new-HasWallet env user d none e (b, f) =
    let new : Wallet = new_wallet env user in
    let apart : (n : ℕ) → new.id ≢ env.uuid (n + 3) =
      λ n eq. absurd (omega (arith, f.distinct 0 (n + 3) eq)) in
    let later = later-IsFresh env d.wallets d.wallet_transactions f in
    (
      (
        All-append (Agrees d.wallet_transactions) d.wallets (new ∷ []) b
            (sym (posted_none new.id d.wallet_transactions (f.unposted 0)), tt),
        record {
          unposted = later.unposted;
          unowned = λ n.
              All-append (λ w. w.id ≢ env.uuid (n + 3)) d.wallets (new ∷ []) (later.unowned n)
                (apart n, tt);
          distinct = later.distinct;
        },
      ),
      apart,
    )

get_or_create_wallet-HasWallet :
    (env : Env) (user : ℕ) (d : Db)
    → Ready env d
    → OnOk (HasWallet env) (get_or_create_wallet env user d)
unfolding get_or_create_wallet
get_or_create_wallet-HasWallet env user d h =
    found_or_new-HasWallet env user d (find (is_of_user user) d.wallets) refl h

-- The refund itself, on the two tables.
credit-Ready :
    (env : Env) (w : Wallet) (t : WalletTransaction) (amount : ℕ) (ws : List Wallet)
    (txs : List WalletTransaction)
    → t.wallet_id ≡ w.id
    → ((n : ℕ) → w.id ≢ env.uuid (n + 3))
    → IsFresh (later_uuids env) ws txs
    → IsFresh
        (later_uuids env)
        (update (is_wallet w.id) (add_balance env amount) ws)
        (txs ++ (t ∷ []))
credit-Ready env w t amount ws txs et apart f = record {
  unposted = λ n.
      All-append (λ s. s.wallet_id ≢ env.uuid (n + 3)) txs (t ∷ []) (f.unposted n)
        (rw et (apart n), tt);
  unowned = λ n.
      All-update (λ v. v.id ≢ env.uuid (n + 3)) (λ v. v.id ≢ env.uuid (n + 3)) (is_wallet w.id)
        (add_balance env amount) ws (λ v h. ground arith) (f.unowned n);
  distinct = f.distinct;
}

refund_order-Ready :
    (env : Env) (o : Order) (d : Db)
    → Ready env d
    → OnOk (λ _ d'. Ready (later_uuids env) d') (refund_order env o d)
unfolding refund_order
refund_order-Ready env o d h =
    OnOk-continue (HasWallet env) (λ _ d'. Ready (later_uuids env) d')
      (get_or_create_wallet env o.buyer_id _) _ (get_or_create_wallet-HasWallet env o.buyer_id _ h)
      λ w d₁ ((b, f), apart).
        elim (Option-cases (find (overflows w.id o.total_amount) d₁.wallets)) [
          | inr (v, e) ↦ rw e tt
          | inl e ↦ rw e (
              OnOk-continue (λ _ d'. Ready (later_uuids env) d') _
                (restore_items env (select (is_part_of o.id) d₁.order_items) _) _
                (OnOk-of_state (Ready (later_uuids env)) _ (
                  restore_items-Ready (later_uuids env) env _ _ (
                    credit-IsBalanced env _ o.total_amount d₁.wallets d₁.wallet_transactions refl
                        refl b,
                    credit-Ready env w _ o.total_amount d₁.wallets d₁.wallet_transactions refl apart
                        f,
                  )))
                (λ _ _ k. k))
        ]

return_order-Ready :
    (env : Env) (id : ℕ) (d : Db)
    → Ready env d
    → Ready (later_uuids env) (transaction (return_order env id) d).1
unfolding return_order
return_order-Ready env id d h =
    transaction_state (Ready (later_uuids env)) (return_order env id) d later
      (go (find (is_order id) d.orders))
  where
    later : Ready (later_uuids env) d
    later = (h.0, later-IsFresh env d.wallets d.wallet_transactions h.1)

    go : (o : Option Order) → OnOk (λ _ d'. Ready (later_uuids env) d') (return_found env o d)
    go none = later
    go (some o) = elim (Bool-cases (is_final o.status)) [
      | inl e ↦ rw e later
      | inr e ↦ rw e (refund_order-Ready env o d h)
    ]

return_orders-Ready :
    (env : Env) (os : List Order) (d : Db) → Ready env d → IsBalanced (return_orders env os d).1
unfolding return_orders
return_orders-Ready env [] d h = h.0
return_orders-Ready env (o ∷ os) d h =
    return_orders-Ready (later_uuids env) os (transaction (return_order env o.id) d).1
      (return_order-Ready env o.id d h)

-- Where the uuids to come are new to the wallets and the transactions and differ from each other, and
-- every balance is the sum of its successful transactions, that is so after the overdue run, whatever
-- becomes of the single orders.
pub process_overdue_orders-IsBalanced :
    (env : Env) (d : Db)
    → IsBalanced d
    → IsFresh env d.wallets d.wallet_transactions
    → IsBalanced (process_overdue_orders env d).1
unfolding process_overdue_orders
process_overdue_orders-IsBalanced env d b f =
    return_orders-Ready env (select (is_overdue (effective_now env d)) d.orders) d (b, f)
