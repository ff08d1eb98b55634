-- ===== src/Catalog/Slugs.antt =====
-- Slugs of names, as ASCII code points, and the numbers that make them unique.
-- services/catalog/src/modules/stores/stores.service.ts,
-- services/catalog/src/modules/products/products.service.ts
use seapedia.Prelude.{
  ℕ, suc, zero, ◌+◌, ◌/◌, ◌%◌, Bool, true, false, ◌&&◌, ◌||◌, Option, none, some, List, [], ◌∷◌,
  ◌++◌, map, ltb, leb, ◌==◌, if◌then◌else◌, select,
}
use seapedia.Discounts.Codes.{is_space, trim}

abbrev pub Text : Type 0
Text = List ℕ

abbrev pub lower_char : ℕ → ℕ
lower_char c = if leb b'A' c && leb c b'Z' then c + 32 else c

abbrev pub lower : Text → Text
lower = map lower_char

-- `/\w/` without the `u` flag.
abbrev pub is_word : ℕ → Bool
is_word c =
    (leb b'a' c && leb c b'z')
    || (leb b'A' c && leb c b'Z')
    || (leb b'0' c && leb c b'9')
    || c == b'_'

-- `.replace(/\s+/g, '-')`; the flag says that a run has begun.
abbrev pub dash_spaces : Bool → Text → Text
dash_spaces run [] = []
dash_spaces run (c ∷ cs) =
    let inside = dash_spaces true cs in
    let outside = dash_spaces false cs in
    if is_space c then (if run then inside else b'-' ∷ inside) else c ∷ outside

-- `.replace(/[^\w-]+/g, '')`
abbrev pub keep_words : Text → Text
keep_words = select (λ c. is_word c || c == b'-')

-- `.replace(/-+/g, '-')`
abbrev pub squeeze : Bool → Text → Text
squeeze run [] = []
squeeze run (c ∷ cs) =
    let inside = squeeze true cs in
    let outside = squeeze false cs in
    if c == b'-' then (if run then inside else c ∷ inside) else c ∷ outside

unfoldable pub slugify : Text → Text
slugify text = squeeze false (keep_words (dash_spaces false (trim (lower text))))

-- The decimal digits of a number, the last one first, and with enough fuel.
abbrev pub digits : ℕ → ℕ → Text
digits zero n = []
digits (suc fuel) n =
    let rest = digits fuel (n / 10) in (b'0' + n % 10) ∷ (if ltb n 10 then [] else rest)

abbrev pub reversed : Text → Text → Text
reversed [] acc = acc
reversed (c ∷ cs) acc = reversed cs (c ∷ acc)

-- `${suffix}`
unfoldable pub decimal : ℕ → Text
decimal n = reversed (digits (suc n) n) []

-- The slug that the loop tries: the base, then `${baseSlug}-${suffix}`.
unfoldable pub candidate : Text → ℕ → Text
candidate base zero = base
candidate base (suc n) = base ++ (b'-' ∷ decimal (suc n))

-- `for (let suffix = 1; await slugTaken(slug); suffix++)`: the suffix it ends with.
abbrev pub search : (Text → Bool) → Text → (fuel suffix : ℕ) → Option ℕ
search taken base zero suffix = none
search taken base (suc fuel) suffix =
    let rest = search taken base fuel (suc suffix) in
    if taken (candidate base suffix) then rest else some suffix

abbrev pub candidate_of : Text → Option ℕ → Option Text
candidate_of base none = none
candidate_of base (some n) = some (candidate base n)

unfoldable pub unique_slug : (Text → Bool) → (fuel : ℕ) → Text → Option Text
unique_slug taken fuel name = candidate_of (slugify name) (search taken (slugify name) fuel 0)
