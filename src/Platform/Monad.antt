-- ===== src/Platform/Monad.antt =====
-- Errors, and the code of a service between two awaits as a function on its database.
-- packages/platform/src/errors.ts; db.transaction of drizzle and of the document store.
use seapedia.Prelude.{ℕ, Bool, Option, none, some, if◌then◌else◌}

-- The classes of errors.ts; `out_of_range` is what PostgreSQL answers to a write past the range of
-- an `integer` column, and `constraint` to one that breaks a unique or a foreign key of the schema.
pub data Error (R : Type 0) : Type 0 where
  not_found validation forbidden conflict unauthorized : R → Error R
  out_of_range constraint : Error R

pub data Result (R A : Type 0) : Type 0 where
  ok : A → Result R A
  err : Error R → Result R A

-- The database comes back after a throw too: outside of a transaction a write stays.
-- `S` is the database, `R` the messages of its errors.
abbrev pub Action : Type 0 → Type 0 → Type 0 → Type 0
Action S R A = S → Result R A × S

module _ {S R A : Type 0} where
  abbrev pub pure : A → Action S R A
  pure a d = (ok a, d)

  abbrev pub throw : Error R → Action S R A
  throw e d = (err e, d)

  abbrev pub gets : (S → A) → Action S R A
  gets f d = (ok (f d), d)

  abbrev pub or_throw : Option A → Error R → Action S R A
  or_throw none e = throw e
  or_throw (some a) _ = pure a

  abbrev pub commit_or_rollback : S → Result R A × S → Result R A × S
  commit_or_rollback before (ok a, after) = (ok a, after)
  commit_or_rollback before (err e, _) = (err e, before)

  -- `db.transaction`: a throw rolls the database back.
  abbrev pub transaction : Action S R A → Action S R A
  transaction m d = commit_or_rollback d (m d)

-- What follows an await: it is skipped after a throw.
abbrev pub continue : {S R A B : Type 0} → Result R A × S → (A → Action S R B) → Result R B × S
continue (ok a, d) f = f a d
continue (err e, d) f = (err e, d)

infixl 5 ◌>>=◌ ◌>>◌
abbrev pub ◌>>=◌ : {S R A B : Type 0} → Action S R A → (A → Action S R B) → Action S R B
◌>>=◌ m f d = continue (m d) f

abbrev pub ◌>>◌ : {S R A B : Type 0} → Action S R A → Action S R B → Action S R B
m >> k = m >>= λ _. k

abbrev pub throw_if : {S R : Type 0} → Bool → Error R → Action S R (Unit {0})
throw_if c e d = (if c then err e else ok tt, d)

abbrev pub modify : {S R : Type 0} → (S → S) → Action S R (Unit {0})
modify f d = (ok tt, f d)

-- The largest value of an `integer` column.
abbrev pub max_int : ℕ
max_int = 2_147_483_647

-- What the platform gives to one call: the clock, the uuids that the inserts draw, in order, and
-- `Math.random`.
pub record Env : Type 0 where
  pub now : ℕ
  pub uuid : ℕ → ℕ
  pub random : ℕ
