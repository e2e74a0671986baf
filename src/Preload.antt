-- ===== src/Preload.antt =====
-- preload.rs: files read ahead within limits.
pub mod Chunks
pub mod Accounting
mod Examples
use core_shift_engine.Base.{
  ℕ, zero, suc, ◌+◌, ◌-◌, ◌*◌, Bool, true, false, List, [], ◌∷◌, ◌++◌, Option, none, some, Result,
  ok, err, Act, ltb, if◌then◌else◌, min, max, and_then,
}
use core_shift_engine.Text.Chars.{Text}
use core_shift_engine.Paths.{FilePath}
use core_shift_engine.Host.{Host, IoError}
use core_shift_engine.Error.{EngineError, core, io, message}
use core_shift_engine.State.{saturating_add}

pub data PreloadMethod : Type 0 where
  readahead_all mmap_madvise mmap_madvise_touch chunked_readahead : PreloadMethod

pub record PreloadLimits : Type 0 where
  pub mmap_madvise_max_bytes : Option ℕ
  pub mmap_touch_max_bytes : Option ℕ
  pub asset_max_bytes : Option ℕ
  pub chunk_bytes : ℕ

abbrev pub default_limits : PreloadLimits
default_limits = record {
  mmap_madvise_max_bytes = none;
  mmap_touch_max_bytes = none;
  asset_max_bytes = none;
  chunk_bytes = 16 * 1024 * 1024;
}

pub record PreloadTarget : Type 0 where
  pub path : FilePath
  pub method : PreloadMethod
  pub len : ℕ

pub record PreloadFileError : Type 0 where
  pub path : FilePath
  pub error : Text

pub record PreloadReport : Type 0 where
  pub attempted_files : ℕ
  pub preloaded_files : ℕ
  pub preloaded_bytes : ℕ
  pub skipped : List PreloadFileError

abbrev pub empty_report : PreloadReport
empty_report = record {
  attempted_files = 0;
  preloaded_files = 0;
  preloaded_bytes = 0;
  skipped = [];
}

abbrev pub cap_of : PreloadMethod → PreloadLimits → Option ℕ
cap_of readahead_all l = none
cap_of mmap_madvise l = l.mmap_madvise_max_bytes
cap_of mmap_madvise_touch l = l.mmap_touch_max_bytes
cap_of chunked_readahead l = l.asset_max_bytes

unfoldable pub capped_len : PreloadTarget → PreloadLimits → ℕ
capped_len t l = elim (cap_of t.method l) [ none ↦ t.len | some cap ↦ min t.len cap ]

abbrev map_core :
    {h : Host}
    → Result (Unit {0}) h.CoreError × h.World
    → Result (Unit {0}) (EngineError h) × h.World
map_core (ok u, w) = (ok u, w)
map_core (err e, w) = (err (core e), w)

abbrev map_io : {h : Host} → Result h.Fd IoError × h.World → Result h.Fd (EngineError h) × h.World
map_io (ok fd, w) = (ok fd, w)
map_io (err e, w) = (err (io e), w)

-- The `while` loop of the chunked method, in at most `fuel` rounds.
unfoldable pub chunk_loop :
    {h : Host} → ℕ → h.Fd → ℕ → ℕ → ℕ → Act (EngineError h) h.World (Unit {0})
chunk_loop zero fd offset len chunk w = (ok tt, w)
chunk_loop {h} (suc fuel) fd offset len chunk w =
    let part = min (len - offset) chunk in
    let rest =
      and_then (map_core {h = h} (h.readahead fd offset part w))
        (λ (u : Unit {0}). chunk_loop {h = h} fuel fd (offset + part) len chunk) in
    if ltb offset len then rest else (ok tt, w)

-- The file read by the method of the target. A round reads at least a byte, so `len` rounds do. The
-- lengths are `u64` numbers cast by `as usize`, which is the identity where a `usize` has 64 bits; on
-- a target of 32 bits, which is not modelled, the cast would cut them.
unfoldable pub read_by :
    {h : Host} → PreloadMethod → h.Fd → ℕ → PreloadLimits → Act (EngineError h) h.World (Unit {0})
read_by {h} readahead_all fd len l w = map_core {h = h} (h.readahead fd 0 len w)
read_by {h} mmap_madvise fd len l w = map_core {h = h} (h.mmap_madvise fd 0 len false w)
read_by {h} mmap_madvise_touch fd len l w = map_core {h = h} (h.mmap_madvise fd 0 len true w)
read_by {h} chunked_readahead fd len l w = chunk_loop {h = h} len fd 0 len (max l.chunk_bytes 1) w

unfoldable pub preload_one :
    {h : Host} → PreloadTarget → PreloadLimits → Act (EngineError h) h.World ℕ
preload_one {h} t l w = and_then (map_io {h = h} (h.open_file t.path w)) λ fd w'.
    and_then (read_by {h = h} t.method fd (capped_len t l) l w')
      λ (u : Unit {0}) w''. (ok (capped_len t l), w'')

-- The report after the answer for one target.
unfoldable pub account :
    {h : Host} → PreloadTarget → Result ℕ (EngineError h) → PreloadReport → PreloadReport
account t (ok bytes) r = record r {
  attempted_files = r.attempted_files + 1;
  preloaded_files = r.preloaded_files + 1;
  preloaded_bytes = saturating_add r.preloaded_bytes bytes;
}
account t (err e) r = record r {
  attempted_files = r.attempted_files + 1;
  skipped = r.skipped ++ record { path = t.path; error = message e } ∷ [];
}

-- The loop over the targets.
unfoldable pub preload_each :
    (h : Host)
    → List PreloadTarget
    → PreloadLimits
    → PreloadReport
    → h.World
    → PreloadReport × h.World
preload_each h [] l r w = (r, w)
preload_each h (t ∷ ts) l r w =
    let (a, w') = preload_one {h = h} t l w in preload_each h ts l (account t a r) w'

-- `execute_preload_plan`, which never fails.
unfoldable pub execute_preload_plan :
    (h : Host) → List PreloadTarget → PreloadLimits → h.World → PreloadReport × h.World
execute_preload_plan h ts l w = preload_each h ts l empty_report w
