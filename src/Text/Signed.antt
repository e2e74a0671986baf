-- ===== src/Text/Signed.antt =====
-- `i32` as text.
use core_shift_engine.Base.{
  ℕ, zero, suc, ◌^◌, ◌+◌, [], ◌∷◌, Option, none, some, ◌==◌, nat_ord, if◌then◌else◌, ℤ, pos, negsuc,
  option_map, ◌≡◌, refl,
}
use core_shift_engine.Text.Chars.{Text, codes}
use core_shift_engine.Text.Decimal.{show, parse_unsigned}

abbrev negate : ℕ → ℤ
negate zero = pos 0
negate (suc n) = negsuc n

abbrev not_empty : Text → Option Text
not_empty [] = none
not_empty (c ∷ s) = some (c ∷ s)

-- `-` digits, down to -2 ^ 31.
abbrev negative_digits : Text → Option ℤ
negative_digits [] = none
negative_digits (c ∷ s) =
    if c == b'+' then none else option_map negate (parse_unsigned (2 ^ 31 + 1) (c ∷ s))

-- `parse::<i32>`.
unfoldable pub parse_i32 : Text → Option ℤ
unfolding parse_unsigned
parse_i32 [] = none
parse_i32 (c ∷ s) =
    if c == b'-' then negative_digits s else option_map pos (parse_unsigned (2 ^ 31) (c ∷ s))

unfoldable pub show_int : ℤ → Text
unfolding show
show_int (pos n) = show n
show_int (negsuc n) = b'-' ∷ show (suc n)

parse_i32-negative : parse_i32 (codes "-2147483648") ≡ some (negsuc 2147483647)
unfolding parse_i32
parse_i32-negative = refl

parse_i32-signs : parse_i32 (codes "-+1") ≡ none
unfolding parse_i32
parse_i32-signs = refl
