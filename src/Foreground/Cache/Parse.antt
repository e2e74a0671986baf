-- ===== src/Foreground/Cache/Parse.antt =====
-- The listing of packages in services/foreground/cache.rs: parsing, name checks, and coherence.
pub mod Names
pub mod Sorting
use core_shift_engine.Base.{
  ℕ, suc, ◌+◌, ◌*◌, ◌^◌, Bool, true, false, ◌&&◌, ◌||◌, not, List, [], ◌∷◌, Option, none, some,
  Ordering, lt, eq, gt, ltb, leb, ◌==◌, nat_ord, text_ord, if◌then◌else◌, length, keep, any, all,
  compare,
}
use core_shift_engine.Text.Chars.{
  Text, codes, strip_prefix, is_ascii_alphabetic, is_ascii_alphanumeric,
}
use core_shift_engine.Text.Split.{lines, split, split_whitespace}
use core_shift_engine.Text.Decimal.{parse_unsigned}
use core_shift_engine.Text.Utf8.{from_utf8}
use core_shift_engine.Foreground.Cache.{PackageUidEntry}

unfoldable pub is_valid_package_segment : Text → Bool
is_valid_package_segment [] = false
is_valid_package_segment (first ∷ chars) =
    if not (is_ascii_alphabetic first)
    then false
    else all (λ ch. is_ascii_alphanumeric ch || ch == b'_') chars

-- The loop over the segments after the first, with the count so far.
unfoldable pub check_segments : ℕ → List Text → Bool
check_segments count [] = leb 2 count
check_segments count (segment ∷ segments) =
    let rest = check_segments (count + 1) segments in
    if not (is_valid_package_segment segment) then false else rest

unfoldable pub is_valid_package_name : Text → Bool
is_valid_package_name name = elim (split b'.' name) [
  | [] ↦ false
  | first ∷ segments ↦
      if not (is_valid_package_segment first) then false else check_segments 1 segments
]

-- What has been found on a line so far.
pub record Found : Type 0 where
  pub package_name : Option Text
  pub uid : Option ℕ

abbrev take_package : Found → Text → Found
take_package f value =
    if is_valid_package_name value then record f { package_name = some value } else f

-- A uid that does not parse takes an earlier one back.
abbrev take_uid : Found → Option Text → Found
take_uid f none = f
take_uid f (some value) = record f { uid = parse_unsigned (2 ^ 32) value }

-- One word of a line.
unfoldable pub read_token : Found → Text → Found
read_token f token = elim (strip_prefix (codes "package:") token) [
  | some value ↦ take_package f value
  | none ↦ take_uid f (strip_prefix (codes "uid:") token)
]

unfoldable pub read_tokens : Found → List Text → Found
read_tokens f [] = f
read_tokens f (token ∷ tokens) = read_tokens (read_token f token) tokens

abbrev entry_of : Found → List PackageUidEntry → List PackageUidEntry
entry_of f rest = elim f.package_name [
  | none ↦ rest
  | some name ↦ elim f.uid [
    | none ↦ rest
    | some uid ↦ record { package_name = name; uid = uid; base_apk_path = none } ∷ rest
  ]
]

-- The entries of the lines that name a package and a uid.
unfoldable pub read_lines : List Text → List PackageUidEntry
read_lines [] = []
read_lines (line ∷ ls) =
    entry_of (read_tokens (record { package_name = none; uid = none }) (split_whitespace line))
      (read_lines ls)

abbrev then_by : Ordering → Ordering → Ordering
then_by eq second = second
then_by first _ = first

-- The order of `sort_by`: by package, then by uid.
unfoldable pub entry_cmp : PackageUidEntry → PackageUidEntry → Ordering
entry_cmp a b = then_by (text_ord.cmp a.package_name b.package_name) (compare a.uid b.uid)

unfoldable pub insert_entry : PackageUidEntry → List PackageUidEntry → List PackageUidEntry
insert_entry a [] = a ∷ []
insert_entry a (b ∷ bs) = elim (entry_cmp a b) [ gt ↦ b ∷ insert_entry a bs | _ ↦ a ∷ b ∷ bs ]

-- A stable sort: equal entries keep their order.
unfoldable pub sort_entries : List PackageUidEntry → List PackageUidEntry
sort_entries [] = []
sort_entries (a ∷ rest) = insert_entry a (sort_entries rest)

unfoldable pub parse_cmd_package_list_stdout : List ℕ → List PackageUidEntry
parse_cmd_package_list_stdout stdout = elim (from_utf8 stdout) [
  | none ↦ []
  | some text ↦ sort_entries (read_lines (lines text))
]

abbrev pub non_app_uids : List ℕ
non_app_uids = 0 ∷ 1000 ∷ 1023 ∷ 2000 ∷ 9997 ∷ []

abbrev pub is_non_app : PackageUidEntry → Bool
is_non_app e = any (λ uid. uid == e.uid) non_app_uids

unfoldable pub is_coherent : List PackageUidEntry → ℕ → Bool
is_coherent entries min_entries =
    if ltb (length entries) min_entries
    then false
    else if not (any (λ e. leb 10000 e.uid) entries)
    then false
    else leb (length (keep is_non_app entries) * 2) (length entries)
