-- ===== src/Foreground/CgroupV2/Parse.antt =====
-- What services/foreground/cgroup_v2.rs reads: the state of a control group and the name of its
-- directory.
use core_shift_engine.Base.{
  ℕ, ◌+◌, ◌*◌, ◌^◌, List, [], ◌∷◌, Option, none, some, ◌==◌, nat_ord, text_ord, ltb, if◌then◌else◌,
}
use core_shift_engine.Text.Chars.{Text, codes, strip_prefix}
use core_shift_engine.Text.Split.{lines, split_whitespace, split_once}
use core_shift_engine.Text.Decimal.{parse_unsigned}
use core_shift_engine.Text.Utf8.{from_utf8}
use core_shift_engine.Paths.{FilePath, file_name, is_utf8_name}

pub data CgroupV2Populated : Type 0 where
  active inactive unknown : CgroupV2Populated

-- What follows `populated` in its line.
abbrev populated_state : List Text → CgroupV2Populated
populated_state [] = unknown
populated_state (word ∷ words) =
    if word == codes "1" then active else if word == codes "0" then inactive else unknown

abbrev line_state : List Text → CgroupV2Populated → CgroupV2Populated
line_state [] rest = rest
line_state (word ∷ words) rest = if word == codes "populated" then populated_state words else rest

-- The first line of `populated` counts.
unfoldable pub populated_of : List Text → CgroupV2Populated
populated_of [] = unknown
populated_of (line ∷ ls) = line_state (split_whitespace line) (populated_of ls)

abbrev text_state : Option Text → CgroupV2Populated
text_state none = unknown
text_state (some text) = populated_of (lines text)

unfoldable pub parse_cgroup_events_populated : List ℕ → CgroupV2Populated
unfolding populated_of
parse_cgroup_events_populated content = text_state (from_utf8 content)

abbrev pub checked : ℕ → Option ℕ
checked n = if ltb n (2 ^ 32) then some n else none

abbrev pub bind : {A B : Type 0} → Option A → (A → Option B) → Option B
bind none f = none
bind (some a) f = f a

-- `user * 100000 + 10000 + app`, each step within 32 bits.
unfoldable pub user_app_uid : ℕ → ℕ → Option ℕ
user_app_uid user app =
    bind (checked (user * 100000)) λ a. bind (checked (a + 10000)) λ b. checked (b + app)

abbrev pub parse_u32 : Text → Option ℕ
parse_u32 = parse_unsigned (2 ^ 32)

abbrev pub user_uid : Text × Text → Option ℕ
user_uid (user, app) = bind (parse_u32 user) λ u. bind (parse_u32 app) λ a. user_app_uid u a

-- The name is that of an application of a user, unless it starts with `uid_`.
abbrev pub user_dir_uid : Option Text → Option ℕ
user_dir_uid none = none
user_dir_uid (some rest) = bind (split_once (codes "_a") rest) user_uid

abbrev pub dir_uid : Text → Option Text → Option ℕ
dir_uid name (some uid) = parse_u32 uid
dir_uid name none = user_dir_uid (strip_prefix (codes "u") name)

abbrev pub uid_of_name : Text → Option ℕ
uid_of_name name = dir_uid name (strip_prefix (codes "uid_") name)

-- `uid_N`, or `uN_aM` for the application M of the user N.
unfoldable pub parse_uid_dir_name : FilePath → Option ℕ
unfolding user_app_uid
parse_uid_dir_name path =
    bind (file_name path) λ name. if is_utf8_name name then uid_of_name name else none
