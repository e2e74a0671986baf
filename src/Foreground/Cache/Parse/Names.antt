-- ===== src/Foreground/Cache/Parse/Names.antt =====
-- What a listing lets through: the names and uids of its entries.
use core_shift_engine.Base.{
  ℕ, ◌+◌, ◌<◌, ◌^◌, ◌≡◌, refl, true, false, ◌&&◌, not, List, [], ◌∷◌, Option, none, some, leb,
  nat_ord, if◌then◌else◌, length, all, arith, Bool-cases, Option-cases, inl, inr, Each, subst,
}
use core_shift_engine.Text.Chars.{Text, codes, strip_prefix}
use core_shift_engine.Text.Split.{lines, split, split_whitespace}
use core_shift_engine.Text.Decimal.{parse_unsigned-lt}
use core_shift_engine.Text.Utf8.{from_utf8}
use mathlib.Core.Option.{some-injective}
use core_shift_engine.Foreground.Cache.Parse.Sorting.{
  IsSorted, sort_entries-Each, sort_entries-IsSorted,
}
use core_shift_engine.Foreground.Cache.{PackageUidEntry}
use core_shift_engine.Foreground.Cache.Parse.{
  take_package, take_uid, is_valid_package_segment, check_segments, is_valid_package_name, Found,
  read_token, read_tokens, entry_of, read_lines, parse_cmd_package_list_stdout,
}

check_segments_lem :
    (count : ℕ) (segments : List Text)
    → check_segments count segments
      ≡ (all is_valid_package_segment segments && leb 2 (count + length segments))
unfolding check_segments
check_segments_lem count [] = ground arith
check_segments_lem count (s ∷ segments) = ground (arith, check_segments_lem (count + 1) segments)

-- A valid name has two segments at least, separated by dots, and each of them is valid.
pub is_valid_package_name_lem :
    (name : Text)
    → is_valid_package_name name
      ≡ (all is_valid_package_segment (split b'.' name) && leb 2 (length (split b'.' name)))
unfolding is_valid_package_name
is_valid_package_name_lem name = by_segments (split b'.' name)
  where
    by_segments :
        (segments : List Text)
        → (elim segments [
          | [] ↦ false
          | first ∷ rest ↦
              if not (is_valid_package_segment first) then false else check_segments 1 rest
        ])
          ≡ (all is_valid_package_segment segments && leb 2 (length segments))
    by_segments [] = refl
    by_segments (first ∷ rest) = ground (arith, check_segments_lem 1 rest)

-- An entry that may stand in a listing.
abbrev pub IsListed : PackageUidEntry → Type 0
IsListed e =
    (is_valid_package_name e.package_name ≡ true) × (e.uid < 2 ^ 32) × (e.base_apk_path ≡ none)

-- What has been found may be listed.
abbrev Good : Found → Type 0
Good f =
    ((name : Text) → f.package_name ≡ some name → is_valid_package_name name ≡ true)
    × ((uid : ℕ) → f.uid ≡ some uid → uid < 2 ^ 32)

take_package-Good : (f : Found) (value : Text) → Good f → Good (take_package f value)
take_package-Good f value g = elim (Bool-cases (is_valid_package_name value)) [
  | inl valid ↦ rw valid (
    (λ name h. subst (λ v. is_valid_package_name v ≡ true) (some-injective value name h) valid),
    g.1,
  )
  | inr bad ↦ rw bad g
]

take_uid-Good : (f : Found) (o : Option Text) → Good f → Good (take_uid f o)
take_uid-Good f none g = g
take_uid-Good f (some value) g = (g.0, λ uid h. parse_unsigned-lt (2 ^ 32) value h)

read_token-Good : (f : Found) (token : Text) → Good f → Good (read_token f token)
unfolding read_token
read_token-Good f token g = elim (Option-cases (strip_prefix (codes "package:") token)) [
  | inl e ↦ rw (e, read_token) (take_uid-Good f (strip_prefix (codes "uid:") token) g)
  | inr (value, e) ↦ rw (e, read_token) (take_package-Good f value g)
]

read_tokens-Good : (f : Found) (tokens : List Text) → Good f → Good (read_tokens f tokens)
unfolding read_tokens
read_tokens-Good f [] g = g
read_tokens-Good f (token ∷ tokens) g =
    read_tokens-Good (read_token f token) tokens (read_token-Good f token g)

entry_of-IsListed :
    (name : Option Text) (uid : Option ℕ) (rest : List PackageUidEntry)
    → Good (record { package_name = name; uid = uid })
    → Each IsListed rest
    → Each IsListed (entry_of (record { package_name = name; uid = uid }) rest)
entry_of-IsListed none uid rest g r = r
entry_of-IsListed (some name) none rest g r = r
entry_of-IsListed (some name) (some uid) rest g r = ((g.0 name refl, g.1 uid refl, refl), r)

read_lines-IsListed : (ls : List Text) → Each IsListed (read_lines ls)
unfolding read_lines
read_lines-IsListed [] = tt
read_lines-IsListed (line ∷ ls) =
    let nothing : Found = record { package_name = none; uid = none } in
    let f = read_tokens nothing (split_whitespace line) in
    entry_of-IsListed f.package_name f.uid (read_lines ls)
      (read_tokens-Good nothing (split_whitespace line)
        ((λ name h. cc), (λ uid h. absurd (ground arith))))
      (read_lines-IsListed ls)

-- Whatever the command prints, each entry of the listing has a valid package name and a uid of 32
-- bits, and no path; and the entries are sorted by package and uid.
pub parse_cmd_package_list_stdout-IsListed :
    (stdout : List ℕ)
    → Each IsListed (parse_cmd_package_list_stdout stdout)
      × IsSorted (parse_cmd_package_list_stdout stdout)
unfolding parse_cmd_package_list_stdout
parse_cmd_package_list_stdout-IsListed stdout = elim (Option-cases (from_utf8 stdout)) [
  | inl e ↦ rw (e, parse_cmd_package_list_stdout) (tt, tt)
  | inr (text, e) ↦
      rw (e, parse_cmd_package_list_stdout)
        (
          sort_entries-Each IsListed (read_lines (lines text)) (read_lines-IsListed (lines text)),
          sort_entries-IsSorted (read_lines (lines text)),
        )
]
