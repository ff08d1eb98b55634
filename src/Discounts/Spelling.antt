-- ===== src/Discounts/Spelling.antt =====
-- The spelling of a code does not matter.
use mathlib.Core.List.{reverse, reverse-append, map-append}
use seapedia.Prelude.{ℕ, ◌≡◌, refl, true, [], ◌∷◌, ◌++◌, arith, inl, inr, Bool-cases, All}
use seapedia.Db.{Code, Db, Env}
use seapedia.Discounts.{validate_code}
use seapedia.Discounts.Codes.{is_space, drop_spaces, trim, upper_char, upper, normalize}

upper_char_idem : (c : ℕ) → upper_char (upper_char c) ≡ upper_char c
upper_char_idem c = ground arith

upper_char_space : (c : ℕ) → is_space (upper_char c) ≡ is_space c
upper_char_space c = ground arith

upper_idem : (cs : Code) → upper (upper cs) ≡ upper cs
unfolding upper
upper_idem [] = refl
upper_idem (c ∷ cs) = simp (upper_char_idem c, upper_idem cs)

drop_spaces-upper : (cs : Code) → drop_spaces (upper cs) ≡ upper (drop_spaces cs)
unfolding drop_spaces upper
drop_spaces-upper [] = refl
drop_spaces-upper (c ∷ cs) = elim (Bool-cases (is_space c)) [
  | inl e ↦ rw (upper_char_space c, e) (drop_spaces-upper cs)
  | inr e ↦ rw (upper_char_space c, e)
]

reverse-upper : (cs : Code) → reverse (upper cs) ≡ upper (reverse cs)
unfolding upper
reverse-upper [] = refl
reverse-upper (c ∷ cs) =
    rw (reverse-append (upper_char c ∷ []) (upper cs), reverse-append (c ∷ []) cs, map-append)
      (rw (reverse-upper cs))

trim-upper : (cs : Code) → trim (upper cs) ≡ upper (trim cs)
unfolding trim
trim-upper cs = rw (
  drop_spaces-upper cs,
  reverse-upper (drop_spaces cs),
  drop_spaces-upper (reverse (drop_spaces cs)),
  reverse-upper (drop_spaces (reverse (drop_spaces cs))),
)

normalize-upper : (cs : Code) → normalize (upper cs) ≡ normalize cs
unfolding normalize
normalize-upper cs = rw (trim-upper cs) (upper_idem (trim cs))

-- Blanks in front of a code do not matter.
drop_spaces-append :
    (ws cs : Code) → All (λ c. is_space c ≡ true) ws → drop_spaces (ws ++ cs) ≡ drop_spaces cs
unfolding drop_spaces
drop_spaces-append [] cs _ = refl
drop_spaces-append (w ∷ ws) cs (h, hs) = rw h (drop_spaces-append ws cs hs)

normalize-append :
    (ws cs : Code) → All (λ c. is_space c ≡ true) ws → normalize (ws ++ cs) ≡ normalize cs
unfolding normalize trim
normalize-append ws cs h = rw (drop_spaces-append ws cs h)

-- Lower and upper case give the same answer, and so do blanks in front of the code.
validate_code_spelling :
    (env : Env) (ws code : Code) (n : ℕ) (d : Db)
    → All (λ c. is_space c ≡ true) ws
    → validate_code env (ws ++ upper code) n d ≡ validate_code env code n d
unfolding validate_code
validate_code_spelling env ws code n d h =
    rw (normalize-append ws (upper code) h, normalize-upper code)
