-- ===== src/Text/Cells.antt =====
-- Text cut at separators that it does not hold.
use core_shift_engine.Base.{
  ℕ, ◌≡◌, refl, Bool, true, ◌&&◌, not, List, [], ◌∷◌, ◌++◌, ◌==◌, nat_ord, all, arith, ==_iff,
}
use core_shift_engine.Text.Chars.{Text}
use core_shift_engine.Text.Split.{lines, split, push_head}

-- Neither a tab nor the end of a line.
abbrev pub in_cell : ℕ → Bool
in_cell c = not (c == b'\t') && not (c == b'\n') && not (c == b'\r')

abbrev pub IsCell : Text → Type 0
IsCell s = all in_cell s ≡ true

abbrev pub in_line : ℕ → Bool
in_line c = not (c == b'\n') && not (c == b'\r')

abbrev pub IsLine : Text → Type 0
IsLine s = all in_line s ≡ true

pub lines-IsLine : (s rest : Text) → IsLine s → lines (s ++ b'\n' ∷ rest) ≡ s ∷ lines rest
unfolding lines
lines-IsLine [] rest h = refl
lines-IsLine (c ∷ s) rest h = ground (arith, lines-IsLine s rest)

pub split-cell : (a s : Text) → IsCell a → split b'\t' (a ++ b'\t' ∷ s) ≡ a ∷ split b'\t' s
unfolding split
split-cell [] s h = refl
split-cell (c ∷ a) s h = ground (arith, split-cell a s)

pub split_last : (a : Text) → IsCell a → split b'\t' a ≡ a ∷ []
unfolding split
split_last [] h = refl
split_last (c ∷ a) h = ground (arith, split_last a)

pub IsLine-cell : (a : Text) → IsCell a → IsLine a
IsLine-cell [] h = refl
IsLine-cell (c ∷ a) h = ground (arith, IsLine-cell a)

pub IsLine-append : (a s : Text) → IsLine a → IsLine s → IsLine (a ++ s)
IsLine-append [] s h k = k
IsLine-append (c ∷ a) s h k = ground (arith, IsLine-append a s)

push_head-IsCell :
    (c : ℕ) (pieces : List Text)
    → all (all in_cell) (push_head c pieces) ≡ true
    → (in_cell c ≡ true) × (all (all in_cell) pieces ≡ true)
push_head-IsCell c [] h = ground arith
push_head-IsCell c (l ∷ ls) h = ground arith

-- A text is a cell if its pieces between the dots are.
pub IsCell-split : (s : Text) → all (all in_cell) (split b'.' s) ≡ true → IsCell s
unfolding split
IsCell-split [] h = refl
IsCell-split (c ∷ s) h =
    ground (arith, push_head-IsCell c (split b'.' s), IsCell-split s, ==_iff c b'.')
