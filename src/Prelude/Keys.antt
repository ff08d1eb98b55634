-- ===== src/Prelude/Keys.antt =====
-- Tables with a primary key, and two versions of a table compared row by row.
use Prim.Native.Nat.{ℕ}
use mathlib.Core.Path.{◌≡◌, refl, sym, ◌∙◌, ap}
use mathlib.Core.Logic.{◌≢◌, inl, inr}
use mathlib.Core.Bool.{Bool, true, false}
use mathlib.Core.Option.{some, some-injective}
use mathlib.Core.List.{List, [], ◌∷◌, ◌++◌}
use native.Mathlib.Omega.{arith}
use seapedia.Prelude.Tests.{if◌then◌else◌, Bool-cases, ◌==◌, ==-refl}
use seapedia.Prelude.Lists.{All, All-imp, All-zip}
use seapedia.Prelude.Sorting.{insert_by, sort_by, All-insert_by, All-sort_by}
use seapedia.Prelude.Tables.{find, update, find-All, All-update}

module _ {ℓ} {A : Type ℓ} where
  -- No two rows have one key.
  abbrev pub IsKeyed : (A → ℕ) → List A → Type 0
  IsKeyed key [] = Unit
  IsKeyed key (x ∷ xs) = All (λ y. key y ≢ key x) xs × IsKeyed key xs

  -- A row with the key of a found row is that row.
  pub only_row :
      (key : A → ℕ) (p : A → Bool) (xs : List A) {x : A}
      → IsKeyed key xs
      → find p xs ≡ some x
      → All (λ v. key v ≡ key x → v ≡ x) xs
  only_row key p [] _ e = cc
  only_row key p (y ∷ xs) {x} (new, keyed) e = elim (Bool-cases (p y)) [
    | inl t ↦
        let same : y ≡ x = some-injective _ _ (rw t at e) in
        (
          λ _. same,
          All-imp (λ v. key v ≢ key y) (λ v. key v ≡ key x → v ≡ x)
              (λ v n k. absurd (n (k ∙ ap key (sym same)))) xs new,
        )
    | inr t ↦
        let later : find p xs ≡ some x = rw t at e in
        (
          λ k. absurd (find-All (λ v. key v ≢ key y) p xs new later (sym k)),
          only_row key p xs keyed later,
        )
  ]

  -- Two queries that find rows of one key find one row.
  pub find_same :
      (key : A → ℕ) (p q : A → Bool) (xs : List A) {x y : A}
      → IsKeyed key xs
      → find p xs ≡ some x
      → find q xs ≡ some y
      → key y ≡ key x
      → y ≡ x
  find_same key p q xs {x} keyed e e' k =
      find-All (λ v. key v ≡ key x → v ≡ x) q xs (only_row key p xs keyed e) e' k

  -- Where the keys are unique, a query that asks for the key of an updated row finds that row.
  pub find-update_keyed :
      (key : A → ℕ) (p q : A → Bool) (f : A → A) (xs : List A) {x : A}
      → IsKeyed key xs
      → find p xs ≡ some x
      → ((y : A) → q (if p y then f y else y) ≡ true → key y ≡ key x)
      → q (f x) ≡ true
      → find q (update p f xs) ≡ some (f x)
  find-update_keyed key p q f [] _ e _ _ = cc
  find-update_keyed key p q f (y ∷ ys) {x} (new, keyed) e at hit = elim (Bool-cases (p y)) [
    | inl t ↦ let same : y ≡ x = some-injective _ _ (rw t at e) in rw (t, same, hit)
    | inr t ↦
        let later : find p ys ≡ some x = rw t at e in
        let miss : ¬ (q y ≡ true) =
          λ h. find-All (λ v. key v ≢ key y) p ys new later (sym (at y (rw t h))) in
        elim (Bool-cases (q y)) [
          | inl h ↦ absurd (miss h)
          | inr h ↦ rw (t, h) (find-update_keyed key p q f ys keyed later at hit)
        ]
  ]

  -- An update that keeps the keys keeps them apart.
  pub IsKeyed-update :
      (key : A → ℕ) (p : A → Bool) (f : A → A) (xs : List A)
      → ((x : A) → key (f x) ≡ key x)
      → IsKeyed key xs
      → IsKeyed key (update p f xs)
  IsKeyed-update key p f [] k _ = tt
  IsKeyed-update key p f (x ∷ xs) k (new, keyed) =
      let at : (y : A) → key (if p y then f y else y) ≡ key y = λ y. same y (p y) in
      (
        rw (at x)
            (All-update (λ y. key y ≢ key x) (λ y. key y ≢ key x) p f xs (λ y n. rw (at y) n) new),
        IsKeyed-update key p f xs k keyed,
      )
    where
      same : (y : A) (b : Bool) → key (if b then f y else y) ≡ key y
      same y true = k y
      same y false = refl

  -- Every row of the first table has its successor at its place in the second, which may have more.
  abbrev pub Extends : (A → A → Type 0) → List A → List A → Type 0
  Extends R [] ys = Unit
  Extends R (x ∷ xs) [] = ⊥
  Extends R (x ∷ xs) (y ∷ ys) = R x y × Extends R xs ys

  pub Extends-update {κ} :
      (P : A → Type κ) (R : A → A → Type 0) (p : A → Bool) (f : A → A) (xs : List A)
      → ((v : A) → P v → R v (if p v then f v else v))
      → All P xs
      → Extends R xs (update p f xs)
  Extends-update P R p f [] h _ = tt
  Extends-update P R p f (x ∷ xs) h (a, as') = (h x a, Extends-update P R p f xs h as')

  pub Extends-append :
      (R : A → A → Type 0) → ((v : A) → R v v) → (xs ys : List A) → Extends R xs (xs ++ ys)
  Extends-append R r [] ys = tt
  Extends-append R r (x ∷ xs) ys = (r x, Extends-append R r xs ys)

  pub Extends-refl : (R : A → A → Type 0) → ((v : A) → R v v) → (xs : List A) → Extends R xs xs
  Extends-refl R r [] = tt
  Extends-refl R r (x ∷ xs) = (r x, Extends-refl R r xs)

  pub Extends-trans :
      (R : A → A → Type 0)
      → ((u v w : A) → R u v → R v w → R u w)
      → (xs ys zs : List A) → Extends R xs ys
      → Extends R ys zs
      → Extends R xs zs
  Extends-trans R t [] ys zs _ _ = tt
  Extends-trans R t (x ∷ xs) [] zs h k = absurd h
  Extends-trans R t (x ∷ xs) (y ∷ ys) [] h k = absurd k
  Extends-trans R t (x ∷ xs) (y ∷ ys) (z ∷ zs) (h, hs) (k, ks) =
      (t x y z h k, Extends-trans R t xs ys zs hs ks)

  IsKeyed-insert_by :
      (key : A → ℕ) (before : A → A → Bool) (x : A) (xs : List A)
      → All (λ y. key y ≢ key x) xs
      → IsKeyed key xs
      → IsKeyed key (insert_by before x xs)
  IsKeyed-insert_by key before x [] new _ = (tt, tt)
  IsKeyed-insert_by key before x (y ∷ ys) (n, ns) (new, keyed) = elim (Bool-cases (before x y)) [
    | inl e ↦ rw e ((n, ns), (new, keyed))
    | inr e ↦ rw e (
      All-insert_by (λ v. key v ≢ key y) before x ys (λ k. n (sym k)) new,
      IsKeyed-insert_by key before x ys ns keyed,
    )
  ]

  -- A sorted table has the keys of the table.
  pub IsKeyed-sort_by :
      (key : A → ℕ) (before : A → A → Bool) (xs : List A)
      → IsKeyed key xs
      → IsKeyed key (sort_by before xs)
  IsKeyed-sort_by key before [] _ = tt
  IsKeyed-sort_by key before (x ∷ xs) (new, keyed) =
      IsKeyed-insert_by key before x (sort_by before xs)
        (All-sort_by (λ y. key y ≢ key x) before xs new) (IsKeyed-sort_by key before xs keyed)

  -- Every row of a table with unique keys is the one that a query by its key finds.
  pub find_own :
      (key : A → ℕ) (xs : List A)
      → IsKeyed key xs
      → All (λ x. find (λ v. key v == key x) xs ≡ some x) xs
  find_own key [] _ = tt
  find_own key (x ∷ xs) (new, keyed) = (
    rw (==-refl (key x)),
    All-zip (λ y. key y ≢ key x) (λ y. find (λ v. key v == key y) xs ≡ some y)
        (λ y. find (λ v. key v == key y) (x ∷ xs) ≡ some y) (λ y n e. ground arith) xs new
        (find_own key xs keyed),
  )
