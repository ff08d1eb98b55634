-- ===== src/Wallet/Ledger.antt =====
-- The ledger of the wallets: each balance is the sum of the wallet's successful transactions.
use seapedia.Prelude.{
  ℕ, ◌≤◌, ◌≡◌, refl, sym, ◌≢◌, Bool, true, false, ◌&&◌, some, List, [], ◌∷◌, ◌++◌, arith, inl, inr,
  ℤ, pos, ◌+ℤ◌, neg, int_laws, ◌==◌, if◌then◌else◌, Option-cases, find, update, All, All-append,
  All-update, find-All, find_test, total_by, total_by-append,
}
use seapedia.Db.{
  Wallet, WalletTransaction, TransactionStatus, Db, Env, OnOk, continue_state, transaction_state,
}
use seapedia.Wallet.{
  is_wallet, is_of_user, covers, add_balance, take_balance, new_wallet, get_or_create_wallet,
  overflows, record_top_up, direct_top_up,
}

abbrev pub is_success : TransactionStatus → Bool
is_success TransactionStatus.success = true
is_success _ = false

-- What a transaction contributes to a wallet.
abbrev pub share : ℕ → WalletTransaction → ℤ
share id t = if t.wallet_id == id && is_success t.status then t.amount else pos 0

abbrev pub posted : ℕ → List WalletTransaction → ℤ
posted id = total_by (share id)

-- A wallet's balance is what was posted to it.
abbrev pub Agrees : List WalletTransaction → Wallet → Type 0
Agrees txs w = pos w.balance ≡ posted w.id txs

abbrev pub IsBalanced : Db → Type 0
IsBalanced d = All (Agrees d.wallet_transactions) d.wallets

-- No transaction names a wallet of this id.
abbrev pub IsUnposted : ℕ → List WalletTransaction → Type 0
IsUnposted id = All (λ t. t.wallet_id ≢ id)

pub posted_none :
    (id : ℕ) (txs : List WalletTransaction) → IsUnposted id txs → posted id txs ≡ pos 0
posted_none id [] h = refl
posted_none id (t ∷ txs) (h, hs) = rw (posted_none id txs hs) (grind int_laws)

-- A new wallet keeps the ledger.
pub get_or_create_wallet-IsBalanced :
    (env : Env) (user : ℕ) (d : Db)
    → IsUnposted (env.uuid 0) d.wallet_transactions
    → IsBalanced d
    → IsBalanced (get_or_create_wallet env user d).1
unfolding get_or_create_wallet
get_or_create_wallet-IsBalanced env user d fresh h =
    elim (Option-cases (find (is_of_user user) d.wallets)) [
      | inl e ↦
          rw (e, get_or_create_wallet)
            (All-append (Agrees d.wallet_transactions) d.wallets (new_wallet env user ∷ []) h
              (sym (posted_none (env.uuid 0) d.wallet_transactions fresh), tt))
      | inr (w, e) ↦ rw (e, get_or_create_wallet) h
    ]

posted-append :
    (id : ℕ) (txs : List WalletTransaction) (t : WalletTransaction)
    → posted id (txs ++ (t ∷ [])) ≡ posted id txs +ℤ share id t
posted-append id txs t = rw (total_by-append (share id) txs (t ∷ [])) (omega int_laws)

-- One statement on the wallets and one transaction keep the ledger together, if they move the same
-- amount on each wallet.
Agrees-post :
    (txs : List WalletTransaction) (t : WalletTransaction) (w v : Wallet)
    → v.id ≡ w.id
    → pos v.balance ≡ pos w.balance +ℤ share w.id t
    → Agrees txs w
    → Agrees (txs ++ (t ∷ [])) v
Agrees-post txs t w v same moved h = rw (same, posted-append w.id txs t, moved, h)

-- A credit with its transaction keeps the ledger.
pub credit-IsBalanced :
    (env : Env) (t : WalletTransaction) (amount : ℕ) (ws : List Wallet)
    (txs : List WalletTransaction)
    → t.amount ≡ pos amount
    → t.status ≡ TransactionStatus.success
    → All (Agrees txs) ws
    → All (Agrees (txs ++ (t ∷ []))) (update (is_wallet t.wallet_id) (add_balance env amount) ws)
credit-IsBalanced env t amount ws txs ea es =
    All-update (Agrees txs) (Agrees (txs ++ (t ∷ []))) (is_wallet t.wallet_id)
      (add_balance env amount) ws
      λ w.
        Agrees-post txs t w (if is_wallet t.wallet_id w then add_balance env amount w else w)
          (ground arith) (grind (int_laws, ea, es))

-- Rows of one id agree with the same sum, so a guard that one of them passes, all do.
covers_all :
    (txs : List WalletTransaction) (id amount : ℕ) (w v : Wallet)
    → Agrees txs w
    → covers id amount w ≡ true
    → Agrees txs v
    → v.id ≡ id
    → amount ≤ v.balance
covers_all txs id amount w v hw c hv e =
    let same : w.id ≡ v.id = ground arith in
    let balances : pos w.balance ≡ pos v.balance = rw (same, ← hv) at hw in ground arith

-- A debit with its transaction keeps the ledger.
pub debit-IsBalanced :
    (env : Env) (t : WalletTransaction) (id amount : ℕ) (ws : List Wallet)
    (txs : List WalletTransaction) {w : Wallet}
    → t.wallet_id ≡ id
    → t.amount ≡ neg amount
    → t.status ≡ TransactionStatus.success
    → find (covers id amount) ws ≡ some w
    → All (Agrees txs) ws
    → All (Agrees (txs ++ (t ∷ []))) (update (covers id amount) (take_balance env amount) ws)
debit-IsBalanced env t id amount ws txs {w} ei ea es found h =
    let hw = find-All (Agrees txs) (covers id amount) ws h found in
    let test = find_test (covers id amount) ws found in
    All-update (Agrees txs) (Agrees (txs ++ (t ∷ []))) (covers id amount) (take_balance env amount)
      ws
      (λ v hv.
        let enough = covers_all txs id amount w v hw test hv in
        Agrees-post txs t v (if covers id amount v then take_balance env amount v else v)
          (ground arith) (grind (int_laws, ei, ea, es, enough)) hv)
      h

record_top_up-IsBalanced :
    (env : Env) (wallet amount : ℕ) (d : Db)
    → IsBalanced d
    → OnOk (λ _ d'. IsBalanced d') (record_top_up env wallet amount d)
unfolding record_top_up
record_top_up-IsBalanced env wallet amount d h =
    elim (Option-cases (find (overflows wallet amount) d.wallets)) [
      | inl e ↦ rw e (credit-IsBalanced env _ amount d.wallets d.wallet_transactions refl refl h)
      | inr (w, e) ↦ rw e tt
    ]

-- Where no transaction names the wallet that a top-up may make, and every balance is the sum of its
-- successful transactions, that is so after the top-up, in whichever way it ends.
pub direct_top_up-IsBalanced :
    (env : Env) (user amount : ℕ) (d : Db)
    → IsUnposted (env.uuid 0) d.wallet_transactions
    → IsBalanced d
    → IsBalanced (direct_top_up env user amount d).1
unfolding direct_top_up
direct_top_up-IsBalanced env user amount d fresh h =
    continue_state IsBalanced (get_or_create_wallet env user d) _
      (get_or_create_wallet-IsBalanced env user d fresh h)
      λ wallet d' h'.
        transaction_state IsBalanced (record_top_up env wallet.id amount) d' h'
          (record_top_up-IsBalanced env wallet.id amount d' h')
