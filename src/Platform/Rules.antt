-- ===== src/Platform/Rules.antt =====
-- Rules for the parts of an action: what holds after it, by how it ended.
use mathlib.Core.Path.{subst}
use seapedia.Prelude.{◌≡◌, refl}
use seapedia.Platform.Monad.{Result, ok, err, Action, continue, commit_or_rollback, transaction}

-- After a return, `P` holds of the result and the database.
abbrev pub OnOk {ℓ} : {S R A : Type 0} → (A → S → Type ℓ) → Result R A × S → Type ℓ
OnOk P (ok a, d) = P a d
OnOk P (err _, _) = Unit

-- A transaction ends in `P`, or with a throw and the database as it was.
abbrev pub Commits : {S R A : Type 0} → (A → S → Type 0) → S → Result R A × S → Type 0
Commits P before (ok a, d) = P a d
Commits P before (err _, d) = d ≡ before

pub ok-injective : {R A : Type 0} {a b : A} → ◌≡◌ {A = Result R A} (ok a) (ok b) → a ≡ b
ok-injective e = cc

module _ {S R A : Type 0} where
  pub OnOk-continue {ℓ κ} :
      {B : Type 0} (Q : A → S → Type ℓ) (P : B → S → Type κ) (r : Result R A × S)
      (f : A → Action S R B)
      → OnOk Q r
      → ((a : A) (d : S) → Q a d → OnOk P (f a d))
      → OnOk P (continue r f)
  OnOk-continue Q P (ok a, d) f q h = h a d q
  OnOk-continue Q P (err _, _) f q h = tt

  pub OnOk-imp {ℓ κ} :
      (Q : A → S → Type ℓ) (P : A → S → Type κ) (r : Result R A × S)
      → ((a : A) (d : S) → Q a d → P a d)
      → OnOk Q r
      → OnOk P r
  OnOk-imp Q P (ok a, d) h q = h a d q
  OnOk-imp Q P (err _, _) h q = tt

  -- A result that returned gives what the rule says of it.
  pub OnOk-ok {ℓ} :
      (P : A → S → Type ℓ) (r : Result R A × S) (a : A) → OnOk P r → r.0 ≡ ok a → P a r.1
  OnOk-ok P (ok b, d) a p e = subst (λ x. P x d) (ok-injective e) p
  OnOk-ok P (err _, _) a p e = cc

  pub OnOk-of_state {ℓ} : (I : S → Type ℓ) (r : Result R A × S) → I r.1 → OnOk (λ _ d. I d) r
  OnOk-of_state I (ok _, _) i = i
  OnOk-of_state I (err _, _) i = tt

  -- What holds of the database whichever way the action ended.
  pub continue_state {ℓ} :
      {B : Type 0} (I : S → Type ℓ) (r : Result R A × S) (f : A → Action S R B)
      → I r.1
      → ((a : A) (d : S) → I d → I (f a d).1)
      → I (continue r f).1
  continue_state I (ok a, d) f i h = h a d i
  continue_state I (err _, _) f i h = i

  pub transaction_state {ℓ} :
      (I : S → Type ℓ) (m : Action S R A) (d : S)
      → I d
      → OnOk (λ _ d'. I d') (m d)
      → I (transaction m d).1
  transaction_state I m d i h = go (m d) h
    where
      go : (r : Result R A × S) → OnOk (λ _ d'. I d') r → I (commit_or_rollback d r).1
      go (ok _, _) k = k
      go (err _, _) k = i

  pub Commits-transaction :
      (P : A → S → Type 0) (m : Action S R A) (d : S) → OnOk P (m d) → Commits P d (transaction m d)
  Commits-transaction P m d h = go (m d) h
    where
      go : (r : Result R A × S) → OnOk P r → Commits P d (commit_or_rollback d r)
      go (ok _, _) k = k
      go (err _, _) k = refl

  pub OnOk-transaction {ℓ} :
      (P : A → S → Type ℓ) (m : Action S R A) (d : S) → OnOk P (m d) → OnOk P (transaction m d)
  OnOk-transaction P m d h = go (m d) h
    where
      go : (r : Result R A × S) → OnOk P r → OnOk P (commit_or_rollback d r)
      go (ok _, _) k = k
      go (err _, _) k = tt

  -- Of any result, nothing.
  pub OnOk-Unit : (r : Result R A × S) → OnOk (λ _ _. Unit {0}) r
  OnOk-Unit (ok _, _) = tt
  OnOk-Unit (err _, _) = tt
