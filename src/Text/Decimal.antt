-- ===== src/Text/Decimal.antt =====
-- Decimal numbers: `to_string` of an unsigned integer and `parse`.
use core_shift_engine.Base.{
  ℕ, zero, suc, ◌+◌, ◌-◌, ◌*◌, ◌/◌, ◌%◌, ◌<◌, ◌≡◌, refl, true, false, [], ◌∷◌, Option, none, some,
  ◌==◌, nat_ord, if◌then◌else◌, ltb, arith, is_empty, Bool-cases, inl, inr, all, ◌∙◌,
}
use core_shift_engine.Text.Chars.{Text, is_ascii_digit}

abbrev digit : ℕ → ℕ
digit n = b'0' + n % 10

-- The digits of `n` in front of `acc`, in at most `fuel` rounds.
show_loop : ℕ → ℕ → Text → Text
show_loop zero n acc = acc
show_loop (suc fuel) n acc =
    let rest = show_loop fuel (n / 10) (digit n ∷ acc) in if ltb n 10 then digit n ∷ acc else rest

-- `n.to_string()`.
unfoldable pub show : ℕ → Text
unfolding show_loop
show n = show_loop (suc n) n []

-- The value of a text of digits behind the value `acc`.
unfoldable pub digits_value : ℕ → Text → Option ℕ
unfolding is_ascii_digit
digits_value acc [] = some acc
digits_value acc (c ∷ s) =
    let rest = digits_value (acc * 10 + (c - b'0')) s in if is_ascii_digit c then rest else none

abbrev below : ℕ → Option ℕ → Option ℕ
below bound none = none
below bound (some n) = if ltb n bound then some n else none

abbrev unsigned_digits : ℕ → Text → Option ℕ
unsigned_digits bound [] = none
unsigned_digits bound (c ∷ s) = below bound (digits_value 0 (c ∷ s))

-- `parse` into an unsigned type of the values below `bound`: one `+` may lead, and there must be a
-- digit.
unfoldable pub parse_unsigned : ℕ → Text → Option ℕ
unfolding digits_value
parse_unsigned bound [] = none
parse_unsigned bound (c ∷ s) =
    if c == b'+' then unsigned_digits bound s else unsigned_digits bound (c ∷ s)

digits_value-show_loop :
    (fuel n : ℕ) (acc : Text)
    → n < fuel
    → digits_value 0 (show_loop fuel n acc) ≡ digits_value n acc
unfolding show_loop digits_value
digits_value-show_loop zero n acc h = elim h [ ]
digits_value-show_loop (suc fuel) n acc h =
    ground (arith, digits_value-show_loop fuel (n / 10) (digit n ∷ acc))

-- Text of ASCII digits.
abbrev pub IsDigits : Text → Type 0
IsDigits s = all is_ascii_digit s ≡ true

digit-is_ascii_digit : (n : ℕ) → is_ascii_digit (digit n) ≡ true
unfolding is_ascii_digit
digit-is_ascii_digit n = ground arith

show_loop-IsDigits : (fuel n : ℕ) (acc : Text) → IsDigits acc → IsDigits (show_loop fuel n acc)
unfolding show_loop
show_loop-IsDigits zero n acc h = h
show_loop-IsDigits (suc fuel) n acc h =
    ground (arith, show_loop-IsDigits fuel (n / 10) (digit n ∷ acc), digit-is_ascii_digit n)

show_loop-is_empty :
    (fuel n : ℕ) (acc : Text) → is_empty acc ≡ false → is_empty (show_loop fuel n acc) ≡ false
unfolding show_loop
show_loop-is_empty zero n acc h = h
show_loop-is_empty (suc fuel) n acc h =
    ground (arith, show_loop-is_empty fuel (n / 10) (digit n ∷ acc))

pub show-IsDigits : (n : ℕ) → IsDigits (show n)
unfolding show
show-IsDigits n = show_loop-IsDigits (suc n) n [] refl

pub show-is_empty : (n : ℕ) → is_empty (show n) ≡ false
unfolding show
show-is_empty n = ground (arith, show_loop-is_empty n (n / 10) (digit n ∷ []))

parse_unsigned-digits :
    (bound : ℕ) (s : Text)
    → IsDigits s
    → is_empty s ≡ false
    → parse_unsigned bound s ≡ below bound (digits_value 0 s)
unfolding parse_unsigned is_ascii_digit
parse_unsigned-digits bound [] d e = cc
parse_unsigned-digits bound (c ∷ s) d e = elim (Bool-cases (c == b'+')) [
  | inl p ↦ ground arith
  | inr p ↦ rw p refl
]

-- Reading back a printed number.
pub parse_unsigned-show : (bound n : ℕ) → n < bound → parse_unsigned bound (show n) ≡ some n
unfolding show
parse_unsigned-show bound n h =
    parse_unsigned-digits bound (show n) (show-IsDigits n) (show-is_empty n)
    ∙ rw (digits_value-show_loop (suc n) n [] (omega arith)) (ground (arith, digits_value_nil n))
  where
    digits_value_nil : (n : ℕ) → digits_value n [] ≡ some n
    digits_value_nil n = unfold digits_value in refl

unsigned_digits-lt : (bound : ℕ) (s : Text) {n : ℕ} → unsigned_digits bound s ≡ some n → n < bound
unsigned_digits-lt bound [] h = cc
unsigned_digits-lt bound (c ∷ s) h = below-lt (digits_value 0 (c ∷ s)) h
  where
    below-lt : (o : Option ℕ) {n : ℕ} → below bound o ≡ some n → n < bound
    below-lt none h = cc
    below-lt (some m) h = ground arith

-- What is parsed lies below the bound.
pub parse_unsigned-lt : (bound : ℕ) (s : Text) {n : ℕ} → parse_unsigned bound s ≡ some n → n < bound
unfolding parse_unsigned
parse_unsigned-lt bound [] h = cc
parse_unsigned-lt bound (c ∷ s) h = elim (Bool-cases (c == b'+')) [
  | inl p ↦ unsigned_digits-lt bound s (rw (p, parse_unsigned) at h)
  | inr p ↦ unsigned_digits-lt bound (c ∷ s) (rw (p, parse_unsigned) at h)
]
