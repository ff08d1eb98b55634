-- ===== src/Discounts/Codes.antt =====
-- `code.trim().toUpperCase()` and PostgreSQL's `upper`, on the code points of an ASCII text.
use seapedia.Prelude.{ℕ, ◌-◌, Bool, true, false, ◌&&◌, ◌||◌, [], ◌∷◌, map, leb, ◌==◌, if◌then◌else◌}
use seapedia.Db.{Code}
use mathlib.Core.List.{reverse}

-- Tab to carriage return, and the blank.
abbrev pub is_space : ℕ → Bool
is_space c = (leb 9 c && leb c 13) || c == 32

unfoldable pub drop_spaces : Code → Code
drop_spaces [] = []
drop_spaces (c ∷ cs) = let rest = drop_spaces cs in if is_space c then rest else c ∷ cs

unfoldable pub trim : Code → Code
unfolding drop_spaces
trim cs = reverse (drop_spaces (reverse (drop_spaces cs)))

abbrev pub upper_char : ℕ → ℕ
upper_char c = if leb b'a' c && leb c b'z' then c - 32 else c

unfoldable pub upper : Code → Code
upper = map upper_char

unfoldable pub normalize : Code → Code
unfolding trim upper
normalize cs = upper (trim cs)

abbrev pub same_code : Code → Code → Bool
same_code [] [] = true
same_code (c ∷ cs) (d ∷ ds) = c == d && same_code cs ds
same_code _ _ = false
