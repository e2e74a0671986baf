-- ===== src/Game/Rows.antt =====
-- The table of managed downscales, written and read back.
use core_shift_engine.Base.{
  ℕ, ◌≡◌, refl, ◌<◌, ◌^◌, ◌+◌, Bool, true, false, ◌||◌, not, List, [], ◌∷◌, ◌++◌, map, some, ap,
  ◌∙◌, all, lt, Each, text_ord, nat_ord, ◌==◌, arith, if◌then◌else◌, sym, subst,
}
use mathlib.Core.List.{append_assoc, append-nil}
use core_shift_engine.Btree.Keys.{Below, IsAscending}
use core_shift_engine.Btree.Map.{BtreeMap, keys, values}
use core_shift_engine.Btree.Map
use core_shift_engine.Text.Chars.{
  Text, is_ascii_alphabetic, is_ascii_alphanumeric, is_ascii_digit, is_ascii_hexdigit,
}
use core_shift_engine.Text.Split.{lines, split}
use core_shift_engine.Text.Cells.{
  in_cell, IsCell, IsLine, lines-IsLine, split-cell, split_last, IsLine-cell, IsLine-append,
  IsCell-split,
}
use core_shift_engine.Text.Decimal.{show, show-IsDigits, parse_unsigned-show}
use core_shift_engine.Game.{
  ManagedGameDownscale, ManagedGameDownscales, valid_package_segment, count_segments,
  valid_package_name, is_hash, columns_of, entry_of_columns, parse_rows,
  parse_managed_game_downscales, row_of, render_rows, render_managed_game_downscales,
  insert_downscale, insert_some, no_downscales,
}

-- An entry that a row can hold: a valid package name, a hash of hexadecimal digits, and a time of 64
-- bits.
pub record IsManaged (e : ManagedGameDownscale) : Type 0 where
  pub named : valid_package_name e.package_name ≡ true
  pub hashed : is_hash e.overlay_hash ≡ true
  pub timed : e.applied_ms < 2 ^ 64

all-imp :
    (p q : ℕ → Bool)
    → ((c : ℕ) → p c ≡ true → q c ≡ true)
    → (s : Text) → all p s ≡ true
    → all q s ≡ true
all-imp p q f [] h = refl
all-imp p q f (c ∷ s) h = ground (arith, f c, all-imp p q f s)

name_char-in_cell : (c : ℕ) → (is_ascii_alphanumeric c || c == b'_') ≡ true → in_cell c ≡ true
unfolding is_ascii_alphanumeric
name_char-in_cell c h = ground arith

hexdigit-in_cell : (c : ℕ) → is_ascii_hexdigit c ≡ true → in_cell c ≡ true
unfolding is_ascii_hexdigit
hexdigit-in_cell c h = ground arith

digit-in_cell : (c : ℕ) → is_ascii_digit c ≡ true → in_cell c ≡ true
unfolding is_ascii_digit
digit-in_cell c h = ground arith

valid_package_segment-IsCell : (s : Text) → valid_package_segment s ≡ true → IsCell s
unfolding valid_package_segment is_ascii_alphabetic
valid_package_segment-IsCell [] h = refl
valid_package_segment-IsCell (c ∷ s) h =
    ground
      (arith, all-imp (λ ch. is_ascii_alphanumeric ch || ch == b'_') in_cell name_char-in_cell s)

count_segments-IsCell :
    (n : ℕ) (segments : List Text)
    → count_segments n segments ≡ true
    → all (all in_cell) segments ≡ true
unfolding count_segments
count_segments-IsCell n [] h = refl
count_segments-IsCell n (s ∷ segments) h =
    ground (arith, valid_package_segment-IsCell s, count_segments-IsCell (n + 1) segments)

valid_package_name-IsCell : (s : Text) → valid_package_name s ≡ true → IsCell s
unfolding valid_package_name
valid_package_name-IsCell s h = IsCell-split s (by_pieces (split b'.' s) h)
  where
    by_pieces :
        (segments : List Text)
        → (elim segments [
          | [] ↦ false
          | first ∷ rest ↦
              if not (valid_package_segment first) then false else count_segments 1 rest
        ])
          ≡ true
        → all (all in_cell) segments ≡ true
    by_pieces [] k = refl
    by_pieces (first ∷ rest) k =
        ground (arith, valid_package_segment-IsCell first, count_segments-IsCell 1 rest)

module _ (e : ManagedGameDownscale) (m : IsManaged e) where
  name-IsCell : IsCell e.package_name
  name-IsCell = valid_package_name-IsCell e.package_name m.named

  hash-IsCell : IsCell e.overlay_hash
  hash-IsCell =
      all-imp is_ascii_hexdigit in_cell hexdigit-in_cell e.overlay_hash (ground (arith, m.hashed))

  time-IsCell : IsCell (show e.applied_ms)
  time-IsCell =
      all-imp is_ascii_digit in_cell digit-in_cell (show e.applied_ms) (show-IsDigits e.applied_ms)

  row_of-IsLine : IsLine (row_of e)
  row_of-IsLine =
      IsLine-append e.package_name (b'\t' ∷ (e.overlay_hash ++ b'\t' ∷ show e.applied_ms))
        (IsLine-cell e.package_name name-IsCell)
        (IsLine-append e.overlay_hash (b'\t' ∷ show e.applied_ms)
          (IsLine-cell e.overlay_hash hash-IsCell) (IsLine-cell (show e.applied_ms) time-IsCell))

  split-row_of : split b'\t' (row_of e) ≡ e.package_name ∷ e.overlay_hash ∷ show e.applied_ms ∷ []
  split-row_of =
      split-cell e.package_name (e.overlay_hash ++ b'\t' ∷ show e.applied_ms) name-IsCell
      ∙ ap (◌∷◌ e.package_name) (
          split-cell e.overlay_hash (show e.applied_ms) hash-IsCell
          ∙ ap (◌∷◌ e.overlay_hash) (split_last (show e.applied_ms) time-IsCell))

  read_row_of : entry_of_columns (columns_of (split b'\t' (row_of e))) ≡ some e
  unfolding columns_of entry_of_columns
  read_row_of =
      rw split-row_of
        (rw (m.named, parse_unsigned-show (2 ^ 64) e.applied_ms m.timed) (ground (arith, m.hashed)))

-- The rows are read back into a table that stands before them.
lines-render_rows :
    (es : List ManagedGameDownscale) → Each IsManaged es → lines (render_rows es) ≡ map row_of es
unfolding render_rows lines
lines-render_rows [] h = refl
lines-render_rows (e ∷ es) h =
    lines-IsLine (row_of e) (render_rows es) (row_of-IsLine e h.0)
    ∙ ap (◌∷◌ (row_of e)) (lines-render_rows es h.1)

abbrev pub Table : Type 0
Table = BtreeMap Text ManagedGameDownscale

-- The key of each row is the package that it names.
abbrev pub IsKeyed : Table → Type 0
IsKeyed m = Each (λ e. e.0 ≡ e.1.package_name) m

insert_last :
    (m : Table) (k : Text) (v : ManagedGameDownscale) (rest : Table)
    → IsAscending (keys (m ++ (k, v) ∷ rest))
    → Map.insert m k v ≡ m ++ (k, v) ∷ []
unfolding Map.insert
insert_last [] k v rest h = refl
insert_last ((j, w) ∷ m) k v rest h = ground (
  arith,
  insert_last m k v rest h.1,
  Below_last j m k v rest h.0,
  text_ord.eq_of_cmp k j,
  text_ord.cmp_refl j,
  text_ord.lt_trans j k j,
)
  where
    Below_last :
        (j : Text) (m : Table) (k : Text) (v : ManagedGameDownscale) (rest : Table)
        → Below j (keys (m ++ (k, v) ∷ rest))
        → text_ord.cmp j k ≡ lt
    Below_last j [] k v rest b = b.0
    Below_last j (e ∷ m) k v rest b = Below_last j m k v rest b.1

parse_rows-map :
    (m rest : Table)
    → IsKeyed rest
    → Each IsManaged (values rest)
    → IsAscending (keys (m ++ rest))
    → parse_rows (record { entries = m }) (map row_of (values rest))
      ≡ record { entries = m ++ rest }
unfolding parse_rows insert_downscale
parse_rows-map m [] k h a = ap (λ t. record { entries = t }) (sym (append-nil m))
parse_rows-map m ((p, e) ∷ rest) k h a =
    let rows = map row_of (values rest) in
    ap (λ o. parse_rows (insert_some (record { entries = m }) o) rows) (read_row_of e h.0)
    ∙ ap (λ t. parse_rows (record { entries = t }) rows)
        (ap (λ q. Map.insert m q e) (sym k.0) ∙ insert_last m p e rest a)
    ∙ parse_rows-map (m ++ (p, e) ∷ []) rest k.1 h.1
        (subst (λ t. IsAscending (keys t)) (sym (append_assoc m ((p, e) ∷ []) rest)) a)
    ∙ ap (λ t. record { entries = t }) (append_assoc m ((p, e) ∷ []) rest)

-- A table that is written is read back as it was, if it is sorted by distinct packages, each row is
-- kept under the package that it names, and each has a valid package name, a hash of one or more
-- hexadecimal digits, and a time below 2 ^ 64.
pub parse-render_managed_game_downscales :
    (s : ManagedGameDownscales)
    → IsAscending (keys s.entries)
    → IsKeyed s.entries
    → Each IsManaged (values s.entries)
    → parse_managed_game_downscales (render_managed_game_downscales s) ≡ s
unfolding parse_managed_game_downscales render_managed_game_downscales
parse-render_managed_game_downscales s a k h =
    ap (parse_rows no_downscales) (lines-render_rows (values s.entries) h)
    ∙ parse_rows-map [] s.entries k h a
