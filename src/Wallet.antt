-- ===== src/Wallet.antt =====
-- The wallet half of BuyersService (services/commerce/src/modules/buyers/buyers.service.ts), and the
-- statements on wallets that checkout and the overdue run share with it.
pub mod Ledger
pub mod Owned
use seapedia.Prelude.{
  ℕ, ◌+◌, ◌-◌, Bool, ◌&&◌, Option, none, some, List, [], ◌∷◌, ◌++◌, ℤ, pos, ltb, leb, ◌==◌, is_some,
  find, select, update, sort_by, if◌then◌else◌,
}
use seapedia.Db.{
  Wallet, WalletTransaction, TransactionType, TransactionStatus, Reference, Db, Result, ok, err,
  Action, pure, throw, gets, or_throw, transaction, ◌>>=◌, ◌>>◌, throw_if, modify, out_of_range,
  max_int, Env, Error,
}

abbrev pub is_of_user : ℕ → Wallet → Bool
is_of_user user w = w.user_id == user

abbrev pub new_wallet : Env → ℕ → Wallet
new_wallet env user = record {
  id = env.uuid 0;
  user_id = user;
  balance = 0;
  created_at = env.now;
  updated_at = env.now;
}

abbrev pub found_or_new : Env → ℕ → Option Wallet → Action Wallet
found_or_new env user (some w) d = (ok w, d)
found_or_new env user none d =
    (ok (new_wallet env user), record d { wallets = d.wallets ++ (new_wallet env user ∷ []) })

-- `getOrCreateWallet`: a wallet of the user's, or a new one of balance 0.
unfoldable pub get_or_create_wallet : Env → ℕ → Action Wallet
get_or_create_wallet env user d = found_or_new env user (find (is_of_user user) d.wallets) d

abbrev pub is_wallet : ℕ → Wallet → Bool
is_wallet id w = w.id == id

abbrev pub overflows : ℕ → ℕ → Wallet → Bool
overflows id amount w = w.id == id && ltb max_int (w.balance + amount)

abbrev pub add_balance : Env → ℕ → Wallet → Wallet
add_balance env amount w = record w { balance = w.balance + amount; updated_at = env.now }

-- `set balance = balance + amount where id = …`
unfoldable pub credit_wallet : Env → ℕ → ℕ → Action (Unit {0})
credit_wallet env id amount = do
  throw_if (is_some (← gets (λ d. find (overflows id amount) d.wallets))) out_of_range
  modify (λ d. record d { wallets = update (is_wallet id) (add_balance env amount) d.wallets })

abbrev pub covers : ℕ → ℕ → Wallet → Bool
covers id amount w = w.id == id && leb amount w.balance

abbrev pub take_balance : Env → ℕ → Wallet → Wallet
take_balance env amount w = record w { balance = w.balance - amount; updated_at = env.now }

-- `set balance = balance - amount where id = … and balance >= amount`, or the error if that finds no
-- row.
unfoldable pub debit_wallet : Env → ℕ → ℕ → Error → Action (Unit {0})
debit_wallet env id amount e = do
  or_throw (← gets (λ d. find (covers id amount) d.wallets)) e
  modify (λ d. record d { wallets = update (covers id amount) (take_balance env amount) d.wallets })

-- Every caller writes the status 'success'.
unfoldable pub post_transaction :
    Env → ℕ → ℕ → ℤ → TransactionType → Reference → Action WalletTransaction
post_transaction env id wallet amount kind reference d =
    let row : WalletTransaction = record {
      id = id;
      wallet_id = wallet;
      amount = amount;
      kind = kind;
      status = TransactionStatus.success;
      reference = reference;
      created_at = env.now;
    } in
    (ok row, record d { wallet_transactions = d.wallet_transactions ++ (row ∷ []) })

-- The body of the transaction of `directTopUp`.
unfoldable pub record_top_up : Env → ℕ → ℕ → Action WalletTransaction
unfolding post_transaction credit_wallet
record_top_up env wallet amount = do
  row ←
      post_transaction env (env.uuid 1) wallet (pos amount) TransactionType.topup
        (Reference.topup_ref env.random)
  credit_wallet env wallet amount
  pure row

-- `directTopUp`: the wallet is made outside of the transaction. The amount is one that the route's
-- schema let pass, so it is not negative.
unfoldable pub direct_top_up : Env → ℕ → ℕ → Action WalletTransaction
direct_top_up env user amount = do
  wallet ← get_or_create_wallet env user
  transaction (record_top_up env wallet.id amount)

-- `getWalletTransactions`: the newest first.
unfoldable pub get_wallet_transactions : Env → ℕ → Action (List WalletTransaction)
unfolding get_or_create_wallet
get_wallet_transactions env user = do
  wallet ← get_or_create_wallet env user
  gets (λ d.
      sort_by (λ (s t : WalletTransaction). leb t.created_at s.created_at)
        (select (λ (t : WalletTransaction). t.wallet_id == wallet.id) d.wallet_transactions))
