-- ===== src/Tests/Selling.antt =====
-- Orders after checkout, at a small shop.
use mathlib.Core.Option
use seapedia.Prelude.{ℕ, ◌≡◌, ◌≢◌, refl, arith, none, some, IsKeyed, find}
use seapedia.Db.{
  Db, Order, sedang_dikemas, menunggu_pengirim, ok, err, conflict, Reason, Commits, transaction,
}
use seapedia.Wallet.{get_or_create_wallet, credit_wallet, post_transaction}
use seapedia.Wallet.Ledger.{IsBalanced}
use seapedia.Orders.Overdue.{restore_items, refund_order, return_order, process_overdue_orders}
use seapedia.Orders.Detail.{is_order}
use seapedia.Orders.Race.{release_after_return}
use seapedia.Orders.Returns.{IsReturned, Returns, return_order-Returns, return_once}
use seapedia.Orders.Refunds.{IsFresh, process_overdue_orders-IsBalanced}
use seapedia.Orders.Transitions.{Follows}
use seapedia.Orders.Runs.{process_order-Follows, driver-Follows, process_overdue_orders-Follows}
use seapedia.Orders.Seller.{read_packed, write_release, process_order}
use seapedia.Orders.Driver
use seapedia.Orders.Driver.{take, take_job, complete_job}
use seapedia.Orders.Custody.{take_job_exclusive}
use seapedia.Tests.Shop.{clock, bought, late, receipt, unpacked, shop-IsBalanced}

returns : (return_order clock 70 late).0 ≡ ok (some receipt)
unfolding return_order refund_order get_or_create_wallet credit_wallet post_transaction
    restore_items
returns = refl

return_order-Returns_example :
    Commits (Returns 70 late) late (transaction (return_order clock 70) late)
return_order-Returns_example = return_order-Returns clock 70 late (tt, tt)

-- A driver who asks for the job of the returned order.
return_once_example :
    let d'' = (take_job clock 80 3 (return_order clock 70 late).1).1 in
    return_order clock 70 d'' ≡ (ok none, d'')
return_once_example =
    return_once clock clock 70 receipt late (take_job clock 80 3 (return_order clock 70 late).1).1
      (tt, tt) returns (driver-Follows clock 80 3 (return_order clock 70 late).1).0

late-IsFresh : IsFresh clock late.wallets late.wallet_transactions
late-IsFresh = record {
  unposted = λ n. ((λ e. omega (arith, e)), tt);
  unowned = λ n. ((λ e. omega (arith, e)), tt);
  distinct = λ m n e. omega (arith, e);
}

process_overdue_orders-IsBalanced_example : IsBalanced (process_overdue_orders clock late).1
process_overdue_orders-IsBalanced_example =
    process_overdue_orders-IsBalanced clock late shop-IsBalanced late-IsFresh

process_overdue_orders-Follows_example :
    let d' = (process_overdue_orders clock late).1 in
    Follows late d' × IsKeyed (λ o. o.id) d'.orders
process_overdue_orders-Follows_example = process_overdue_orders-Follows clock late (tt, tt)

-- Meanwhile the driver gets nothing, as there is no job yet.
abbrev meanwhile : Db → Db
meanwhile d = (take_job clock 80 3 d).1

process_order-Follows_example :
    Follows unpacked (process_order clock meanwhile 2 70 (some "Siap") unpacked).1
unfolding take_job Driver.take
process_order-Follows_example =
    process_order-Follows clock meanwhile 2 70 (some "Siap") unpacked (tt, tt) (tt, tt)
      (driver-Follows clock 80 3 unpacked).0 (λ o p e f. cc)

takes : (take_job clock 80 3 late).0 ≡ ok tt
unfolding take_job take
takes = refl

take_job_exclusive_example :
    let d' = (take_job clock 80 3 late).1 in
    (take_job clock 80 4 d' ≡ (err (conflict Reason.job_unavailable), d'))
    × (◌≢◌ {A = ℕ} 4 3
        → complete_job clock 80 4 d' ≡ (err (conflict Reason.job_not_completable), d'))
    × ((complete_job clock 80 3 d').0 ≡ ok tt)
take_job_exclusive_example = take_job_exclusive clock clock 80 3 4 late (tt, tt) takes

-- A seller who read the order before it was returned, and writes after.
reads : read_packed 40 70 unpacked ≡ (ok (record bought { status = sedang_dikemas }), unpacked)
unfolding read_packed
reads = refl

unpacked_returns : (return_order clock 70 unpacked).0 ≡ ok (some receipt)
unfolding return_order refund_order get_or_create_wallet credit_wallet post_transaction
    restore_items
unpacked_returns = refl

release_after_return_example :
    let o : Order = record bought { status = sedang_dikemas } in
    let d₁ = (return_order clock 70 unpacked).1 in
    let after = write_release clock o none d₁ in
    IsReturned o unpacked receipt d₁
    × (after.0 ≡ ok tt)
    × (Option.map (λ p. p.status) (find (is_order 70) after.1.orders) ≡ some menunggu_pengirim)
    × (after.1.wallet_transactions ≡ d₁.wallet_transactions)
release_after_return_example =
    release_after_return clock clock 40 none (record bought { status = sedang_dikemas }) receipt
      unpacked (tt, tt) refl reads refl unpacked_returns
