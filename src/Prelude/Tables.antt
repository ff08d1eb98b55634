-- ===== src/Prelude/Tables.antt =====
-- A table is the list of its rows. `find` is a select with `limit 1`, `select` is one without,
-- `update` and `delete` are the statements with their `where` test.
use mathlib.Core.Path.{◌≡◌, refl, subst, ap}
use mathlib.Core.Logic.{inl, inr}
use mathlib.Core.Bool.{Bool, true, false, not}
use mathlib.Core.Option
use mathlib.Core.Option.{Option, none, some, some-injective}
use mathlib.Core.List.{List, [], ◌∷◌, ◌++◌}
use native.Mathlib.Omega.{arith}
use seapedia.Prelude.Tests.{if◌then◌else◌, Bool-cases}
use seapedia.Prelude.Lists.{All}

module _ {ℓ} {A : Type ℓ} where
  abbrev pub find : (A → Bool) → List A → Option A
  find p [] = none
  find p (x ∷ xs) = if p x then some x else find p xs

  abbrev pub select : (A → Bool) → List A → List A
  select p [] = []
  select p (x ∷ xs) = let rest = select p xs in if p x then x ∷ rest else rest

  abbrev pub update : (A → Bool) → (A → A) → List A → List A
  update p f [] = []
  update p f (x ∷ xs) = (if p x then f x else x) ∷ update p f xs

  abbrev pub delete : (A → Bool) → List A → List A
  delete p = select (λ x. not (p x))

  pub All-update {κ ι} :
      (P : A → Type κ) (Q : A → Type ι) (p : A → Bool) (f : A → A) (xs : List A)
      → ((x : A) → P x → Q (if p x then f x else x))
      → All P xs
      → All Q (update p f xs)
  All-update P Q p f [] h _ = tt
  All-update P Q p f (x ∷ xs) h (a, as') = (h x a, All-update P Q p f xs h as')

  pub All-select {κ} :
      (P : A → Type κ) (p : A → Bool) (xs : List A) → All P xs → All P (select p xs)
  All-select P p [] _ = tt
  All-select P p (x ∷ xs) (a, as') = elim (Bool-cases (p x)) [
    | inl e ↦ rw e (a, All-select P p xs as')
    | inr e ↦ rw e (All-select P p xs as')
  ]

  pub find-All {κ} :
      (P : A → Type κ) (p : A → Bool) (xs : List A) {x : A} → All P xs → find p xs ≡ some x → P x
  find-All P p [] _ e = cc
  find-All P p (y ∷ xs) {x} (a, as') e = elim (Bool-cases (p y)) [
    | inl t ↦ subst P (some-injective _ _ (rw t at e)) a
    | inr t ↦ find-All P p xs as' (rw t at e)
  ]

  -- What a select finds meets its test.
  pub find_test : (p : A → Bool) (xs : List A) {x : A} → find p xs ≡ some x → p x ≡ true
  find_test p [] e = cc
  find_test p (y ∷ xs) {x} e = ground (arith, find_test p xs {x = x})

  -- A delete leaves no row that meets its test.
  pub find-delete : (p : A → Bool) (xs : List A) → find p (delete p xs) ≡ none
  find-delete p [] = refl
  find-delete p (x ∷ xs) = elim (Bool-cases (p x)) [
    | inl e ↦ rw e (find-delete p xs)
    | inr e ↦ rw (e, e) (find-delete p xs)
  ]

  -- After an update whose rows leave its test, no row meets it.
  pub find-update-none :
      (p : A → Bool) (f : A → A) (xs : List A)
      → ((x : A) → p (f x) ≡ false)
      → find p (update p f xs) ≡ none
  find-update-none p f [] h = refl
  find-update-none p f (x ∷ xs) h = elim (Bool-cases (p x)) [
    | inl e ↦ rw (e, h x) (find-update-none p f xs h)
    | inr e ↦ rw (e, e) (find-update-none p f xs h)
  ]

  -- An update that a query does not look at changes only what the query finds.
  pub find-update :
      (q p : A → Bool) (f : A → A) (xs : List A)
      → ((x : A) → q (f x) ≡ q x)
      → find q (update p f xs) ≡ Option.map (λ x. if p x then f x else x) (find q xs)
  find-update q p f [] h = refl
  find-update q p f (x ∷ xs) h = rw (same (p x)) (elim (Bool-cases (q x)) [
    | inl e ↦ rw (e, Option.map)
    | inr e ↦ rw e (find-update q p f xs h)
  ])
    where
      same : (b : Bool) → q (if b then f x else x) ≡ q x
      same true = h x
      same false = refl

  -- A row at the end is found where no row before it is.
  pub find-append :
      (p : A → Bool) (xs : List A) (y : A)
      → find p xs ≡ none
      → find p (xs ++ (y ∷ [])) ≡ (if p y then some y else none)
  find-append p [] y e = refl
  find-append p (x ∷ xs) y e = elim (Bool-cases (p x)) [
    | inl t ↦ cc (rw t at e)
    | inr t ↦ rw t (find-append p xs y (rw t at e))
  ]

  pub find-append_miss :
      (p : A → Bool) (xs : List A) (y : A) → p y ≡ false → find p (xs ++ (y ∷ [])) ≡ find p xs
  find-append_miss p [] y e = rw e
  find-append_miss p (x ∷ xs) y e = elim (Bool-cases (p x)) [
    | inl t ↦ rw t
    | inr t ↦ rw t (find-append_miss p xs y e)
  ]

  -- What a query finds after an update of the rows that meet it.
  pub find-update_hit :
      (p : A → Bool) (f : A → A) (xs : List A) {x : A}
      → ((y : A) → p (f y) ≡ true)
      → find p xs ≡ some x
      → find p (update p f xs) ≡ some (f x)
  find-update_hit p f [] h e = cc
  find-update_hit p f (y ∷ ys) h e = elim (Bool-cases (p y)) [
    | inl t ↦ rw (t, h y, some-injective _ _ (rw t at e))
    | inr t ↦ rw (t, t) (find-update_hit p f ys h (rw t at e))
  ]

  -- A query does not see an update whose rows miss it before and after.
  pub find-update_miss :
      (q p : A → Bool) (f : A → A) (xs : List A)
      → ((y : A) → p y ≡ true → q y ≡ false)
      → ((y : A) → p y ≡ true → q (f y) ≡ false)
      → find q (update p f xs) ≡ find q xs
  find-update_miss q p f [] h k = refl
  find-update_miss q p f (y ∷ ys) h k = elim (Bool-cases (p y)) [
    | inl t ↦ rw (t, h y t, k y t) (find-update_miss q p f ys h k)
    | inr t ↦ rw t (ap (λ r. if q y then some y else r) (find-update_miss q p f ys h k))
  ]

  -- A narrower query finds nothing where a wider one finds nothing.
  pub find-none :
      (q p : A → Bool) (xs : List A)
      → ((x : A) → p x ≡ false → q x ≡ false)
      → find p xs ≡ none
      → find q xs ≡ none
  find-none q p [] h e = refl
  find-none q p (x ∷ xs) h e = elim (Bool-cases (p x)) [
    | inl t ↦ cc (rw t at e)
    | inr t ↦ rw (h x t) (find-none q p xs h (rw t at e))
  ]

  pub All-select_test {κ ι} :
      (P : A → Type κ) (Q : A → Type ι) (p : A → Bool) (xs : List A)
      → ((x : A) → P x → p x ≡ true → Q x)
      → All P xs
      → All Q (select p xs)
  All-select_test P Q p [] h _ = tt
  All-select_test P Q p (x ∷ xs) h (a, as') = elim (Bool-cases (p x)) [
    | inl e ↦ rw e (h x a e, All-select_test P Q p xs h as')
    | inr e ↦ rw e (All-select_test P Q p xs h as')
  ]

  -- A narrower query finds what a wider one finds, if it meets the narrower test.
  pub find-narrow :
      (q p : A → Bool) (xs : List A) {x : A}
      → ((y : A) → p y ≡ false → q y ≡ false)
      → find p xs ≡ some x
      → q x ≡ true
      → find q xs ≡ some x
  find-narrow q p [] h e t = cc
  find-narrow q p (y ∷ ys) {x} h e t = elim (Bool-cases (p y)) [
    | inl k ↦ let same : y ≡ x = some-injective _ _ (rw k at e) in rw (same, t)
    | inr k ↦ rw (h y k) (find-narrow q p ys h (rw k at e) t)
  ]

  pub select-none : (p : A → Bool) (xs : List A) → find p xs ≡ none → select p xs ≡ []
  select-none p [] e = refl
  select-none p (x ∷ xs) e = elim (Bool-cases (p x)) [
    | inl t ↦ cc (rw t at e)
    | inr t ↦ rw t (select-none p xs (rw t at e))
  ]

  -- A found row that meets another test shows that the other query finds a row.
  pub find-some :
      (p q : A → Bool) (xs : List A) {x : A}
      → find p xs ≡ some x
      → q x ≡ true
      → (y : A) × (find q xs ≡ some y)
  find-some p q [] e t = cc
  find-some p q (z ∷ zs) e t = elim (Bool-cases (q z)) [
    | inl k ↦ (z, rw k)
    | inr k ↦ elim (Bool-cases (p z)) [
      | inl l ↦ let same = some-injective _ _ (rw l at e) in cc (rw same at k)
      | inr l ↦ let (y, f) = find-some p q zs (rw l at e) t in (y, rw k f)
    ]
  ]
