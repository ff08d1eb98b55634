-- ===== src/Wallet/Owned.antt =====
-- The wallet of a user, and what a debit or a credit makes of it.
-- services/commerce/src/modules/buyers/buyers.service.ts
use mathlib.Core.Option
use seapedia.Prelude.{
  ℕ, ◌≤◌, ◌≡◌, refl, ◌∙◌, true, Option, none, some, List, arith, find, find-append, find-update,
  update, leb, ==-refl,
}
use seapedia.Db.{Wallet, Db, OnOk, Env}
use seapedia.Wallet.{
  is_of_user, new_wallet, found_or_new, get_or_create_wallet, is_wallet, add_balance, covers,
  take_balance,
}

abbrev pub balance_of : Option Wallet → ℕ
balance_of none = 0
balance_of (some w) = w.balance

-- The wallet that the database has for the user, with the balance that the user had, or a new one of
-- balance 0; and the tables but the wallets as they were.
abbrev pub OwnWallet : ℕ → Db → Wallet → Db → Type 0
OwnWallet user d w d' =
    (find (is_of_user user) d'.wallets ≡ some w)
    × (w.balance ≡ balance_of (find (is_of_user user) d.wallets))
    × ((v : Wallet) → find (is_of_user user) d.wallets ≡ some v → v.id ≡ w.id)
    × (d' ≡ record d { wallets = d'.wallets })

found_or_new-OwnWallet :
    (env : Env) (user : ℕ) (d : Db) (o : Option Wallet)
    → find (is_of_user user) d.wallets ≡ o
    → OnOk (OwnWallet user d) (found_or_new env user o d)
found_or_new-OwnWallet env user d (some w) e = (e, rw e, (λ v k. cc), refl)
found_or_new-OwnWallet env user d none e = (
  find-append (is_of_user user) d.wallets (new_wallet env user) e ∙ rw (==-refl user),
  rw e,
  (λ v k. cc),
  refl,
)

pub get_or_create_wallet-OwnWallet :
    (env : Env) (user : ℕ) (d : Db) → OnOk (OwnWallet user d) (get_or_create_wallet env user d)
unfolding get_or_create_wallet
get_or_create_wallet-OwnWallet env user d =
    found_or_new-OwnWallet env user d (find (is_of_user user) d.wallets) refl

-- What the database has for the user after the debit of its wallet.
pub debited_wallet :
    (env : Env) (user amount : ℕ) (w : Wallet) (ws : List Wallet)
    → find (is_of_user user) ws ≡ some w
    → amount ≤ w.balance
    → find (is_of_user user) (update (covers w.id amount) (take_balance env amount) ws)
      ≡ some (take_balance env amount w)
debited_wallet env user amount w ws found cover =
    let covered : leb amount w.balance ≡ true = ground (arith, cover) in
    rw (
      find-update (is_of_user user) (covers w.id amount) (take_balance env amount) ws (λ _. refl),
      found,
      Option.map,
      ==-refl w.id,
      covered,
    )

-- What the database has for the user after the credit of its wallet.
pub credited_wallet :
    (env : Env) (user amount : ℕ) (w : Wallet) (ws : List Wallet)
    → find (is_of_user user) ws ≡ some w
    → find (is_of_user user) (update (is_wallet w.id) (add_balance env amount) ws)
      ≡ some (add_balance env amount w)
credited_wallet env user amount w ws found = rw (
  find-update (is_of_user user) (is_wallet w.id) (add_balance env amount) ws (λ _. refl),
  found,
  Option.map,
  ==-refl w.id,
)
