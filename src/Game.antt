-- ===== src/Game.antt =====
-- game.rs: the list of games, and the table of the games whose downscale is managed.
pub mod Rows
pub mod Parsed
pub mod Lists
mod Examples
use core_shift_engine.Base.{
  ℕ, ◌+◌, ◌^◌, Bool, true, false, ◌&&◌, ◌||◌, not, List, [], ◌∷◌, ◌++◌, Option, none, some, Result,
  ok, err, Act, leb, ◌==◌, nat_ord, text_ord, if◌then◌else◌, all, any, is_empty, keep, length,
}
use core_shift_engine.Host.{Host, IoError, IoErrorKind, not_found, invalid_data}
use core_shift_engine.Paths.{FilePath}
use core_shift_engine.Text.Utf8.{from_utf8}
use core_shift_engine.Btree.Map.{BtreeMap, values, contains_key}
use core_shift_engine.Btree.Map
use core_shift_engine.Btree.Set.{BtreeSet}
use core_shift_engine.Btree.Set
use core_shift_engine.Text.Chars.{
  Text, codes, is_ascii_alphabetic, is_ascii_alphanumeric, is_ascii_hexdigit, starts_with,
}
use core_shift_engine.Text.Split.{lines, split, trim}
use core_shift_engine.Text.Decimal.{show, parse_unsigned}

unfoldable pub valid_package_segment : Text → Bool
valid_package_segment [] = false
valid_package_segment (first ∷ chars) =
    (is_ascii_alphabetic first || first == b'_')
    && all (λ ch. is_ascii_alphanumeric ch || ch == b'_') chars

-- The loop over the segments after the first, with the count so far.
unfoldable pub count_segments : ℕ → List Text → Bool
count_segments segment_count [] = leb 2 segment_count
count_segments segment_count (segment ∷ segments) =
    let rest = count_segments (segment_count + 1) segments in
    if not (valid_package_segment segment) then false else rest

unfoldable pub valid_package_name : Text → Bool
valid_package_name value = elim (split b'.' value) [
  | [] ↦ false
  | first ∷ segments ↦
      if not (valid_package_segment first) then false else count_segments 1 segments
]

pub record GameList : Type 0 where
  pub packages : BtreeSet Text

-- A line that names a game.
abbrev pub is_game_line : Text → Bool
is_game_line line =
    not (is_empty line) && not (starts_with (codes "#") line) && valid_package_name line

abbrev pub trimmed : List Text → List Text
trimmed [] = []
trimmed (line ∷ ls) = trim line ∷ trimmed ls

unfoldable pub parse_game_list : Text → GameList
parse_game_list text = record {
  packages = Set.insert_all [] (keep is_game_line (trimmed (lines text)));
}

-- The games of the list that are installed.
unfoldable pub game_targets_from_installed : GameList → BtreeSet Text → GameList
game_targets_from_installed game_list installed = record {
  packages = Set.insert_all [] (keep (Set.contains installed) game_list.packages);
}

pub record ManagedGameDownscale : Type 0 where
  pub package_name : Text
  pub overlay_hash : Text
  pub applied_ms : ℕ

pub record ManagedGameDownscales : Type 0 where
  pub entries : BtreeMap Text ManagedGameDownscale

abbrev pub no_downscales : ManagedGameDownscales
no_downscales = record { entries = [] }

unfoldable pub insert_downscale :
    ManagedGameDownscales → ManagedGameDownscale → ManagedGameDownscales
insert_downscale s entry = record { entries = Map.insert s.entries entry.package_name entry }

abbrev is_mode : Text → Bool
is_mode mode = mode == codes "standard" || mode == codes "performance" || mode == codes "battery"

-- The three columns of a row; older rows have the mode in the second of four.
unfoldable pub columns_of : List Text → Option (Text × Text × Text)
columns_of (package_name ∷ overlay_hash ∷ applied_ms ∷ []) =
    some (package_name, overlay_hash, applied_ms)
columns_of (package_name ∷ mode ∷ overlay_hash ∷ applied_ms ∷ []) =
    if is_mode mode then some (package_name, overlay_hash, applied_ms) else none
columns_of _ = none

abbrev pub is_hash : Text → Bool
is_hash overlay_hash = not (is_empty overlay_hash) && all is_ascii_hexdigit overlay_hash

abbrev pub with_time : Text → Text → Option ℕ → Option ManagedGameDownscale
with_time package_name overlay_hash none = none
with_time package_name overlay_hash (some applied_ms) =
    some
      (record { package_name = package_name; overlay_hash = overlay_hash; applied_ms = applied_ms })

-- The entry of three columns, unless a check fails.
unfoldable pub entry_of_columns : Option (Text × Text × Text) → Option ManagedGameDownscale
entry_of_columns none = none
entry_of_columns (some (package_name, overlay_hash, applied_ms)) =
    if not (valid_package_name package_name)
    then none
    else if is_empty overlay_hash || not (all is_ascii_hexdigit overlay_hash)
    then none
    else with_time package_name overlay_hash (parse_unsigned (2 ^ 64) applied_ms)

abbrev pub insert_some : ManagedGameDownscales → Option ManagedGameDownscale → ManagedGameDownscales
insert_some s none = s
insert_some s (some entry) = insert_downscale s entry

-- The loop over the lines.
unfoldable pub parse_rows : ManagedGameDownscales → List Text → ManagedGameDownscales
parse_rows s [] = s
parse_rows s (line ∷ ls) =
    parse_rows (insert_some s (entry_of_columns (columns_of (split b'\t' line)))) ls

unfoldable pub parse_managed_game_downscales : Text → ManagedGameDownscales
parse_managed_game_downscales text = parse_rows no_downscales (lines text)

-- The row of an entry, without its end of line.
abbrev pub row_of : ManagedGameDownscale → Text
row_of e = e.package_name ++ b'\t' ∷ (e.overlay_hash ++ b'\t' ∷ show e.applied_ms)

unfoldable pub render_rows : List ManagedGameDownscale → Text
render_rows [] = []
render_rows (e ∷ es) = row_of e ++ b'\n' ∷ render_rows es

-- The text that `write_managed_game_downscales` writes.
unfoldable pub render_managed_game_downscales : ManagedGameDownscales → Text
render_managed_game_downscales s = render_rows (values s.entries)

-- `fs::read_to_string`: bytes that are not UTF-8 are an error of their own.
abbrev pub decoded : {W : Type 0} → Option Text → W → Result Text IoError × W
decoded none w =
    (err (record { kind = invalid_data; message = codes "stream did not contain valid UTF-8" }), w)
decoded (some text) w = (ok text, w)

abbrev pub text_of : {W : Type 0} → Result (List ℕ) IoError × W → Result Text IoError × W
text_of (err e, w) = (err e, w)
text_of (ok bytes, w) = decoded (from_utf8 bytes) w

abbrev pub read_to_string : (h : Host) → FilePath → Act IoError h.World Text
read_to_string h path w = text_of (h.read path w)

abbrev listed : {W : Type 0} → Result Text IoError × W → Result GameList IoError × W
listed (ok text, w) = (ok (parse_game_list text), w)
listed (err e, w) = (err e, w)

unfoldable pub load_game_list : (h : Host) → FilePath → Act IoError h.World GameList
load_game_list h path w = listed (read_to_string h path w)

-- A file that is not there is an empty table.
abbrev pub or_empty : IoErrorKind → Bool
or_empty not_found = true
or_empty _ = false

abbrev pub tabled :
    {W : Type 0} → Result Text IoError × W → Result ManagedGameDownscales IoError × W
tabled (ok text, w) = (ok (parse_managed_game_downscales text), w)
tabled (err e, w) = if or_empty e.kind then (ok no_downscales, w) else (err e, w)

unfoldable pub load_managed_game_downscales :
    (h : Host) → FilePath → Act IoError h.World ManagedGameDownscales
load_managed_game_downscales h path w = tabled (read_to_string h path w)
