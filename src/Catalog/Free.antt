-- ===== src/Catalog/Free.antt =====
-- The search for a free slug ends. services/catalog/src/modules/stores/stores.service.ts
use seapedia.Prelude.{
  ℕ, suc, zero, ◌+◌, ◌-◌, ◌*◌, ◌&&◌, ◌≢◌, is_some, find, ◌/◌, ◌≤◌, ◌<◌, ◌≡◌, refl, sym, ap, ◌∙◌,
  arith, inl, inr, Bool, true, false, some, List, [], ◌∷◌, ◌++◌, length, ◌==◌, Bool-cases, delete,
  ==-refl, eq_of_==,
}
use seapedia.Discounts.Codes.{same_code}
use seapedia.Catalog.Slugs.{
  Text, digits, reversed, decimal, candidate, search, unique_slug, slugify,
}

pub same_code_refl : (a : Text) → same_code a a ≡ true
same_code_refl [] = refl
same_code_refl (c ∷ cs) = rw (==-refl c) (same_code_refl cs)

pub eq_of_same_code : (a b : Text) → same_code a b ≡ true → a ≡ b
eq_of_same_code [] [] e = refl
eq_of_same_code [] (_ ∷ _) e = cc
eq_of_same_code (_ ∷ _) [] e = cc
eq_of_same_code (c ∷ cs) (d ∷ ds) e = elim (Bool-cases (c == d)) [
  | inl h ↦ rw (eq_of_== c d h, eq_of_same_code cs ds (rw h at e))
  | inr h ↦ cc (rw h at e)
]

-- The number of its digits, the last one first.
abbrev value : Text → ℕ
value [] = 0
value (c ∷ cs) = (c - 48) + 10 * value cs

value-digits : (fuel n : ℕ) → n < fuel → value (digits fuel n) ≡ n
value-digits zero n h = absurd (omega arith)
value-digits (suc fuel) n h = ground (arith, value-digits fuel (n / 10))

abbrev front : ℕ → Text → ℕ
front acc [] = acc
front acc (c ∷ cs) = front (acc * 10 + (c - 48)) cs

front-reversed : (xs acc : Text) → front 0 (reversed xs acc) ≡ front (value xs) acc
front-reversed [] acc = refl
front-reversed (c ∷ cs) acc = front-reversed cs (c ∷ acc) ∙ ap (λ n. front n acc) (omega arith)

decimal-injective : (m n : ℕ) → decimal m ≡ decimal n → m ≡ n
unfolding decimal
decimal-injective m n e = sym (back m) ∙ ap (front 0) e ∙ back n
  where
    back : (k : ℕ) → front 0 (reversed (digits (suc k) k) []) ≡ k
    back k = front-reversed (digits (suc k) k) [] ∙ value-digits (suc k) k (omega arith)

append_cancel : (base xs ys : Text) → base ++ xs ≡ base ++ ys → xs ≡ ys
append_cancel [] xs ys e = e
append_cancel (c ∷ cs) xs ys e = append_cancel cs xs ys cc

longer : (base xs : Text) (c : ℕ) → base ++ (c ∷ xs) ≢ base
longer [] xs c e = cc
longer (b ∷ bs) xs c e = longer bs xs c cc

candidate-injective : (base : Text) (j k : ℕ) → candidate base j ≡ candidate base k → j ≡ k
unfolding candidate
candidate-injective base zero zero e = refl
candidate-injective base zero (suc k) e = absurd (longer base (decimal (suc k)) 45 (sym e))
candidate-injective base (suc j) zero e = absurd (longer base (decimal (suc j)) 45 e)
candidate-injective base (suc j) (suc k) e =
    decimal-injective (suc j) (suc k)
      (let d = append_cancel base (45 ∷ decimal (suc j)) (45 ∷ decimal (suc k)) e in cc)

module _ {A : Type 0} (slug : A → Text) (counts : A → Bool) where
  abbrev pub has_slug : Text → A → Bool
  has_slug s r = same_code (slug r) s && counts r

  abbrev pub taken_in : List A → Text → Bool
  taken_in rows s = is_some (find (has_slug s) rows)

  fewer : (p : A → Bool) (rows : List A) → length (delete p rows) ≤ length rows
  fewer p [] = omega arith
  fewer p (r ∷ rs) = ground (arith, fewer p rs)

  shorter :
      (p : A → Bool) (rows : List A)
      → is_some (find p rows) ≡ true
      → length (delete p rows) < length rows
  shorter p [] e = cc
  shorter p (r ∷ rs) e = elim (Bool-cases (p r)) [
    | inl t ↦ rw t (omega (arith, fewer p rs))
    | inr t ↦
        let rest : is_some (find p rs) ≡ true = rw t at e in rw t (omega (arith, shorter p rs rest))
  ]

  -- The rows of one slug do not matter to another.
  untouched :
      (s k : Text) (rows : List A)
      → (s ≡ k → ⊥)
      → taken_in (delete (has_slug s) rows) k ≡ taken_in rows k
  untouched s k [] n = refl
  untouched s k (r ∷ rs) n = elim (Bool-cases (has_slug s r)) [
    | inl t ↦
        let mine : slug r ≡ s = eq_of_same_code (slug r) s (ground arith) in
        let other : has_slug k r ≡ false = elim (Bool-cases (same_code (slug r) k)) [
          | inl u ↦ absurd (n (sym mine ∙ eq_of_same_code (slug r) k u))
          | inr u ↦ rw u
        ] in
        rw (t, other) (untouched s k rs n)
    | inr t ↦ elim (Bool-cases (has_slug k r)) [
      | inl u ↦ rw (t, u)
      | inr u ↦ rw (t, u) (untouched s k rs n)
    ]
  ]

  search_same :
      (t u : Text → Bool) (base : Text) (fuel suffix : ℕ)
      → ((j : ℕ) → suffix ≤ j → t (candidate base j) ≡ u (candidate base j))
      → search t base fuel suffix ≡ search u base fuel suffix
  search_same t u base zero suffix h = refl
  search_same t u base (suc fuel) suffix h =
      rw (h suffix (omega arith), search_same t u base fuel (suc suffix) (λ j k. h j (omega arith)))

  -- A search gives up only after as many rows as it has fuel.
  search_free :
      (base : Text) (fuel suffix : ℕ) (rows : List A)
      → length rows < fuel
      → (n : ℕ) × ((search (taken_in rows) base fuel suffix ≡ some n)
          × ((taken_in rows (candidate base n) ≡ false) × (suffix ≤ n)))
  search_free base zero suffix rows h = absurd (omega arith)
  search_free base (suc fuel) suffix rows h =
      elim (Bool-cases (taken_in rows (candidate base suffix))) [
        | inr free ↦ (suffix, (rw free, (free, omega arith)))
        | inl hit ↦
            let this = candidate base suffix in
            let left = delete (has_slug this) rows in
            let (n, (found, (free, after))) =
              search_free base fuel (suc suffix) left
                (omega (arith, shorter (has_slug this) rows hit)) in
            (
              n,
              (
                rw hit (
                    sym (
                      search_same (taken_in left) (taken_in rows) base fuel (suc suffix)
                        (λ j later. untouched this (candidate base j) rows (apart j later)))
                    ∙ found),
                (sym (untouched this (candidate base n) rows (apart n after)) ∙ free, omega arith),
              ),
            )
      ]
    where
      apart : (j : ℕ) → suc suffix ≤ j → candidate base suffix ≡ candidate base j → ⊥
      apart j later e = let same = candidate-injective base suffix j e in absurd (omega arith)

  -- With one more try than there are rows, the loop finds a slug, the base itself or the base with a
  -- number, that no counted row has.
  pub unique_slug_found :
      (name : Text) (fuel : ℕ) (rows : List A)
      → length rows < fuel
      → (s : Text) × ((unique_slug (taken_in rows) fuel name ≡ some s)
          × ((taken_in rows s ≡ false) × ((n : ℕ) × (s ≡ candidate (slugify name) n))))
  unfolding unique_slug
  unique_slug_found name fuel rows h =
      let (n, (found, (free, _))) = search_free (slugify name) fuel 0 rows h in
      (candidate (slugify name) n, (rw found, (free, (n, refl))))
