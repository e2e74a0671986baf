-- ===== src/Text/Split.antt =====
-- `lines`, `split`, `split_whitespace`, `split_once`, `trim` and `contains`.
use core_shift_engine.Base.{
  ℕ, Bool, true, false, ◌&&◌, not, List, [], ◌∷◌, Option, none, some, ◌==◌, nat_ord, if◌then◌else◌,
  reverse, option_map,
}
use core_shift_engine.Text.Chars.{Text, is_whitespace, strip_prefix}

abbrev pub push_head : ℕ → List Text → List Text
push_head c [] = (c ∷ []) ∷ []
push_head c (l ∷ ls) = (c ∷ l) ∷ ls

abbrev starts_line_feed : Text → Bool
starts_line_feed [] = false
starts_line_feed (c ∷ s) = c == b'\n'

-- One more character in front of the lines `ls` of `s`: `\n` ends a line, and a `\r` before it goes.
abbrev push_line : ℕ → Text → List Text → List Text
push_line c s ls =
    if c == b'\n' then [] ∷ ls else if c == b'\r' && starts_line_feed s then ls else push_head c ls

-- The empty text has no line, and a final `\n` starts none.
unfoldable pub lines : Text → List Text
lines [] = []
lines (c ∷ s) = push_line c s (lines s)

-- The pieces between the separators: one more than there are separators.
unfoldable pub split : ℕ → Text → List Text
split p [] = [] ∷ []
split p (c ∷ s) = (λ (rest : List Text). if c == p then [] ∷ rest else push_head c rest) (split p s)

abbrev starts_word : Text → Bool
starts_word [] = false
starts_word (c ∷ s) = not (is_whitespace c)

abbrev push_word : ℕ → Text → List Text → List Text
push_word c s ws =
    if is_whitespace c then ws else if starts_word s then push_head c ws else (c ∷ []) ∷ ws

unfoldable pub split_whitespace : Text → List Text
unfolding is_whitespace
split_whitespace [] = []
split_whitespace (c ∷ s) = push_word c s (split_whitespace s)

unfoldable pub trim_start : Text → Text
unfolding is_whitespace
trim_start [] = []
trim_start (c ∷ s) = if is_whitespace c then trim_start s else c ∷ s

unfoldable pub trim : Text → Text
unfolding trim_start
trim s = reverse (trim_start (reverse (trim_start s)))

-- What stands before and after the first occurrence of a separator.
unfoldable pub split_once : Text → Text → Option (Text × Text)
unfolding strip_prefix
split_once p [] = option_map (λ r. ([], r)) (strip_prefix p [])
split_once p (c ∷ s) = elim (strip_prefix p (c ∷ s)) [
  | some r ↦ some ([], r)
  | none ↦ option_map (λ (e : Text × Text). (c ∷ e.0, e.1)) (split_once p s)
]

unfoldable pub contains_text : Text → Text → Bool
unfolding split_once
contains_text p s = elim (split_once p s) [ none ↦ false | some _ ↦ true ]
