-- ===== src/Prelude/Counts.antt =====
-- How many rows of a table meet a test, and tables that grow.
use Prim.Native.Nat.{ℕ, suc, ◌+◌, ◌≤◌}
use mathlib.Core.Path.{◌≡◌, refl, subst, ap}
use mathlib.Core.Logic.{inl, inr}
use mathlib.Core.Bool.{Bool, true, false}
use mathlib.Core.Option.{none, some, some-injective}
use mathlib.Core.List.{List, [], ◌∷◌, ◌++◌}
use native.Mathlib.Omega.{arith}
use seapedia.Prelude.Tests.{if◌then◌else◌, Bool-cases}
use seapedia.Prelude.Tables.{find, select, update}
use seapedia.Prelude.Keys.{Extends}

module _ {ℓ} {A : Type ℓ} where
  abbrev pub count : (A → Bool) → List A → ℕ
  count p [] = 0
  count p (x ∷ xs) = let rest = count p xs in if p x then suc rest else rest

  pub count-append : (p : A → Bool) (xs ys : List A) → count p (xs ++ ys) ≡ count p xs + count p ys
  count-append p [] ys = omega arith
  count-append p (x ∷ xs) ys = ground (arith, count-append p xs ys)

  pub count-none : (p : A → Bool) (xs : List A) → find p xs ≡ none → count p xs ≡ 0
  count-none p [] e = refl
  count-none p (x ∷ xs) e = elim (Bool-cases (p x)) [
    | inl t ↦ cc (rw t at e)
    | inr t ↦ rw t (count-none p xs (rw t at e))
  ]

  pub count-pos :
      (p q : A → Bool) (xs : List A) {x : A} → find q xs ≡ some x → p x ≡ true → 1 ≤ count p xs
  count-pos p q [] e t = cc
  count-pos p q (y ∷ ys) {x} e t = elim (Bool-cases (q y)) [
    | inl k ↦ let same : y ≡ x = some-injective _ _ (rw k at e) in rw (same, t) (omega arith)
    | inr k ↦
        let rest : 1 ≤ count p ys = count-pos p q ys (rw k at e) t in
        elim (Bool-cases (p y)) [ inl l ↦ rw l (omega arith) | inr l ↦ rw l rest ]
  ]

  pub update-append :
      (p : A → Bool) (f : A → A) (xs ys : List A)
      → update p f (xs ++ ys) ≡ update p f xs ++ update p f ys
  update-append p f [] ys = refl
  update-append p f (x ∷ xs) ys = ap (λ r. (if p x then f x else x) ∷ r) (update-append p f xs ys)

  -- An update that moves no row into the test.
  pub count-update_le :
      (p q : A → Bool) (f : A → A) (xs : List A)
      → ((x : A) → q x ≡ true → p (f x) ≡ true → p x ≡ true)
      → count p (update q f xs) ≤ count p xs
  count-update_le p q f [] h = omega arith
  count-update_le p q f (x ∷ xs) h = ground (arith, h x, count-update_le p q f xs h)

  -- One that moves a row out of it.
  pub count-update_lt :
      (p q r : A → Bool) (f : A → A) (xs : List A) {x : A}
      → ((x : A) → q x ≡ true → p (f x) ≡ false)
      → find r xs ≡ some x
      → q x ≡ true
      → p x ≡ true
      → suc (count p (update q f xs)) ≤ count p xs
  count-update_lt p q r f [] h e t u = cc
  count-update_lt p q r f (y ∷ ys) {x} h e t u = elim (Bool-cases (r y)) [
    | inl k ↦
        let same : y ≡ x = some-injective _ _ (rw k at e) in
        let rest : count p (update q f ys) ≤ count p ys =
          count-update_le p q f ys (λ z a b. cc (h z a)) in
        rw (same, t, u, h x t) (omega arith)
    | inr k ↦
        let rest : suc (count p (update q f ys)) ≤ count p ys =
          count-update_lt p q r f ys h (rw k at e) t u in
        ground (arith, h y)
  ]

  pub count-update_same :
      (p q : A → Bool) (f : A → A) (xs : List A)
      → ((x : A) → q x ≡ true → p (f x) ≡ p x)
      → count p (update q f xs) ≡ count p xs
  count-update_same p q f [] h = refl
  count-update_same p q f (x ∷ xs) h = elim (Bool-cases (q x)) [
    | inl t ↦ rw (t, h x t, count-update_same p q f xs h)
    | inr t ↦ rw (t, count-update_same p q f xs h)
  ]

  -- One that moves all rows of another test into it.
  pub count-update_moved :
      (p q : A → Bool) (f : A → A) (xs : List A)
      → ((x : A) → q x ≡ true → p x ≡ false)
      → ((x : A) → q x ≡ true → p (f x) ≡ true)
      → count p (update q f xs) ≡ count p xs + count q xs
  count-update_moved p q f [] h k = refl
  count-update_moved p q f (x ∷ xs) h k = elim (Bool-cases (q x)) [
    | inl t ↦ rw (t, h x t, k x t) (omega (arith, count-update_moved p q f xs h k))
    | inr t ↦ rw t (ground (arith, count-update_moved p q f xs h k))
  ]

  pub count-imp :
      (p q : A → Bool) (xs : List A) → ((x : A) → p x ≡ true → q x ≡ true) → count p xs ≤ count q xs
  count-imp p q [] h = omega arith
  count-imp p q (x ∷ xs) h = ground (arith, h x, count-imp p q xs h)

  -- What a query found, it finds in a table that extends it, if the query does not see the change.
  pub find-Extends :
      (R : A → A → Type 0) (p : A → Bool) (xs ys : List A) {x : A}
      → ((u v : A) → R u v → p v ≡ p u)
      → Extends R xs ys
      → find p xs ≡ some x
      → (y : A) × ((find p ys ≡ some y) × R x y)
  find-Extends R p [] ys same h e = cc
  find-Extends R p (u ∷ us) [] same h e = absurd h
  find-Extends R p (u ∷ us) (v ∷ vs) {x} same (h, hs) e = elim (Bool-cases (p u)) [
    | inl t ↦ (v, (rw (same u v h, t), subst (λ w. R w v) (some-injective _ _ (rw t at e)) h))
    | inr t ↦
        let (y, (f, r)) = find-Extends R p us vs same hs (rw t at e) in
        (y, (rw (same u v h, t) f, r))
  ]

  -- Rows at the end do not change what was found before them.
  pub find-append_hit :
      (p : A → Bool) (xs ys : List A) {x : A} → find p xs ≡ some x → find p (xs ++ ys) ≡ some x
  find-append_hit p [] ys e = cc
  find-append_hit p (x ∷ xs) ys e = elim (Bool-cases (p x)) [
    | inl t ↦ rw t (rw t at e)
    | inr t ↦ rw t (find-append_hit p xs ys (rw t at e))
  ]

  -- A row that was found and that a select keeps is found in what it keeps.
  pub find-select_kept :
      (q p : A → Bool) (xs : List A) {x : A}
      → find q xs ≡ some x
      → p x ≡ true
      → find q (select p xs) ≡ some x
  find-select_kept q p [] e t = cc
  find-select_kept q p (y ∷ ys) {x} e t = elim (Bool-cases (q y)) [
    | inl k ↦ let same : y ≡ x = some-injective _ _ (rw k at e) in rw (same, t, rw same at k)
    | inr k ↦
        let rest : find q (select p ys) ≡ some x = find-select_kept q p ys (rw k at e) t in
        elim (Bool-cases (p y)) [ inl l ↦ rw (l, k) rest | inr l ↦ rw l rest ]
  ]
