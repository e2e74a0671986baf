-- ===== src/Game/Parsed.antt =====
-- What the parser of the table lets through, whatever the file holds, and what loading a table gives.
use core_shift_engine.Base.{
  ℕ, ◌≡◌, refl, ◌<◌, ◌^◌, true, false, ◌||◌, not, List, [], ◌∷◌, Option, none, some, all, is_empty,
  Each, text_ord, arith, if◌then◌else◌, subst, ◌≢◌, Result, ok, err, Bool-cases, inl, inr,
}
use mathlib.Core.Option.{some-injective}
use core_shift_engine.Host.{
  Host, IoError, IoErrorKind, not_found, permission_denied, invalid_data, other,
}
use core_shift_engine.Paths.{FilePath}
use core_shift_engine.Btree.Keys.{IsAscending}
use core_shift_engine.Btree.Map.{BtreeMap, keys, values, insert-IsAscending}
use core_shift_engine.Btree.Map
use core_shift_engine.Text.Chars.{Text, is_ascii_hexdigit}
use core_shift_engine.Text.Split.{lines, split}
use core_shift_engine.Text.Decimal.{parse_unsigned, parse_unsigned-lt}
use core_shift_engine.Text.Utf8.{from_utf8}
use core_shift_engine.Game.{
  ManagedGameDownscale, ManagedGameDownscales, valid_package_name, is_hash, columns_of,
  entry_of_columns, with_time, insert_some, insert_downscale, parse_rows,
  parse_managed_game_downscales, render_managed_game_downscales, no_downscales, tabled, or_empty,
  decoded, text_of, load_managed_game_downscales,
}
use core_shift_engine.Game.Rows.{IsManaged, IsKeyed, Table, parse-render_managed_game_downscales}

with_time-IsManaged :
    (p o : Text) (t : Option ℕ) (e : ManagedGameDownscale)
    → valid_package_name p ≡ true
    → is_hash o ≡ true
    → ((n : ℕ) → t ≡ some n → n < 2 ^ 64)
    → with_time p o t ≡ some e
    → IsManaged e
with_time-IsManaged p o none e v h b k = cc
with_time-IsManaged p o (some n) e v h b k =
    subst IsManaged (some-injective _ e k) (record { named = v; hashed = h; timed = b n refl })

entry_of_columns-IsManaged :
    (c : Option (Text × Text × Text)) (e : ManagedGameDownscale)
    → entry_of_columns c ≡ some e
    → IsManaged e
unfolding entry_of_columns
entry_of_columns-IsManaged none e k = cc
entry_of_columns-IsManaged (some (p, o, t)) e k = elim (Bool-cases (valid_package_name p)) [
  | inr bad ↦ cc (rw (bad, entry_of_columns) at k)
  | inl named ↦ elim (Bool-cases (is_hash o)) [
    | inr bad ↦ cc (rw (named, refused bad, entry_of_columns) at k)
    | inl hashed ↦
        with_time-IsManaged p o (parse_unsigned (2 ^ 64) t) e named hashed
          (λ n h. parse_unsigned-lt (2 ^ 64) t h)
          (rw (named, accepted hashed, entry_of_columns) at k)
  ]
]
  where
    refused : is_hash o ≡ false → (is_empty o || not (all is_ascii_hexdigit o)) ≡ true
    refused h = ground arith

    accepted : is_hash o ≡ true → (is_empty o || not (all is_ascii_hexdigit o)) ≡ false
    accepted h = ground arith

-- A table that can be written and read back.
pub record IsTable (s : ManagedGameDownscales) : Type 0 where
  pub sorted : IsAscending (keys s.entries)
  pub keyed : IsKeyed s.entries
  pub managed : Each IsManaged (values s.entries)

insert-IsKeyed :
    (m : Table) (e : ManagedGameDownscale) → IsKeyed m → IsKeyed (Map.insert m e.package_name e)
unfolding Map.insert
insert-IsKeyed [] e h = (refl, tt)
insert-IsKeyed ((j, w) ∷ m) e h = ground (arith, insert-IsKeyed m e h.1)

insert-IsManaged :
    (m : Table) (e : ManagedGameDownscale)
    → IsManaged e
    → Each IsManaged (values m)
    → Each IsManaged (values (Map.insert m e.package_name e))
unfolding Map.insert
insert-IsManaged [] e p h = (p, tt)
insert-IsManaged ((j, w) ∷ m) e p h = ground (arith, insert-IsManaged m e p h.1)

insert_some-IsTable :
    (s : ManagedGameDownscales) (o : Option ManagedGameDownscale)
    → ((e : ManagedGameDownscale) → o ≡ some e → IsManaged e)
    → IsTable s
    → IsTable (insert_some s o)
unfolding insert_downscale
insert_some-IsTable s none h t = t
insert_some-IsTable s (some e) h t = record {
  sorted = insert-IsAscending s.entries e.package_name e t.sorted;
  keyed = insert-IsKeyed s.entries e t.keyed;
  managed = insert-IsManaged s.entries e (h e refl) t.managed;
}

parse_rows-IsTable :
    (s : ManagedGameDownscales) (ls : List Text) → IsTable s → IsTable (parse_rows s ls)
unfolding parse_rows
parse_rows-IsTable s [] t = t
parse_rows-IsTable s (line ∷ ls) t =
    let o = entry_of_columns (columns_of (split b'\t' line)) in
    parse_rows-IsTable (insert_some s o) ls (
      insert_some-IsTable s o
        (λ e h. entry_of_columns-IsManaged (columns_of (split b'\t' line)) e h) t)

parse_managed_game_downscales-IsTable : (text : Text) → IsTable (parse_managed_game_downscales text)
unfolding parse_managed_game_downscales
parse_managed_game_downscales-IsTable text =
    parse_rows-IsTable no_downscales (lines text) (record { sorted = tt; keyed = tt; managed = tt })

-- Whatever the file holds, the table read from it is sorted by package without repetition, keeps
-- each row under its package, and has only rows with a valid package name, a hash of one or more
-- hexadecimal digits and a time below 2 ^ 64; and if it is written and read again, it is the same.
pub parse_managed_game_downscales_stable :
    (text : Text)
    → let s = parse_managed_game_downscales text in
      IsTable s × (parse_managed_game_downscales (render_managed_game_downscales s) ≡ s)
parse_managed_game_downscales_stable text =
    let t = parse_managed_game_downscales-IsTable text in
    (
      t,
      parse-render_managed_game_downscales (parse_managed_game_downscales text) t.sorted t.keyed
          t.managed,
    )

-- What loading a table gives, by what the file system answers.
pub data Loads (h : Host) (path : FilePath) (w : h.World)
    : Result ManagedGameDownscales IoError × h.World → Type 0 where
  absent :
      {e : IoError} {w' : h.World}
      → h.read path w ≡ (err e, w')
      → e.kind ≡ not_found
      → Loads h path w (ok no_downscales, w')
  fails :
      {e : IoError} {w' : h.World}
      → h.read path w ≡ (err e, w')
      → e.kind ≢ not_found
      → Loads h path w (err e, w')
  no_text :
      {bytes : List ℕ} {e : IoError} {w' : h.World}
      → h.read path w ≡ (ok bytes, w')
      → from_utf8 bytes ≡ none
      → e.kind ≡ invalid_data
      → Loads h path w (err e, w')
  parses :
      {bytes : List ℕ} {text : Text} {w' : h.World}
      → h.read path w ≡ (ok bytes, w')
      → from_utf8 bytes ≡ some text
      → IsTable (parse_managed_game_downscales text)
      → Loads h path w (ok (parse_managed_game_downscales text), w')

module _ (h : Host) (path : FilePath) (w : h.World) where
  read_error-Loads :
      (k : IoErrorKind) (e : IoError) (w' : h.World)
      → h.read path w ≡ (err e, w')
      → e.kind ≡ k
      → Loads h path w (if or_empty k then (ok no_downscales, w') else (err e, w'))
  read_error-Loads not_found e w' r kind = absent r kind
  read_error-Loads permission_denied e w' r kind = fails r (λ g. cc)
  read_error-Loads invalid_data e w' r kind = fails r (λ g. cc)
  read_error-Loads other e w' r kind = fails r (λ g. cc)

  decoded-Loads :
      (bytes : List ℕ) (w' : h.World)
      → h.read path w ≡ (ok bytes, w')
      → (o : Option Text) → from_utf8 bytes ≡ o
      → Loads h path w (tabled (decoded o w'))
  decoded-Loads bytes w' r none d = no_text r d refl
  decoded-Loads bytes w' r (some text) d = parses r d (parse_managed_game_downscales-IsTable text)

  text_of-Loads :
      (x : Result (List ℕ) IoError × h.World)
      → h.read path w ≡ x
      → Loads h path w (tabled (text_of x))
  text_of-Loads (err e, w') r = read_error-Loads e.kind e w' r refl
  text_of-Loads (ok bytes, w') r = decoded-Loads bytes w' r (from_utf8 bytes) refl

  -- If the file is not there, loading gives the empty table; on any other error of the read, that
  -- error. If the bytes read are not UTF-8, it gives an error of invalid data; else the table that the
  -- text of the file parses to, which is well-formed: sorted by package without repetition, each row
  -- kept under its package, and each with a valid name, hash and time.
  pub load_managed_game_downscales-Loads : Loads h path w (load_managed_game_downscales h path w)
  unfolding load_managed_game_downscales
  load_managed_game_downscales-Loads = text_of-Loads (h.read path w) refl
