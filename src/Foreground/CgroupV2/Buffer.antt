-- ===== src/Foreground/CgroupV2/Buffer.antt =====
-- Reading the descriptor of a watch in services/foreground/cgroup_v2.rs.
use core_shift_engine.Base.{
  ℕ, zero, suc, ◌-◌, List, [], ◌∷◌, ◌++◌, Option, none, some, Result, ok, err, Act, ◌==◌, nat_ord,
  text_ord, if◌then◌else◌, length,
}
use core_shift_engine.Btree.Map.{BtreeMap, keys}
use core_shift_engine.Btree.Map
use core_shift_engine.Paths.{FilePath, path_ord}
use core_shift_engine.Host.{Host}
use core_shift_engine.Error.{EngineError, core}
use core_shift_engine.Foreground.CgroupV2.Parse.{
  CgroupV2Populated, unknown, parse_cgroup_events_populated,
}
use core_shift_engine.Foreground.CgroupV2.{CgroupV2EventsSource}

-- The loop that fills the buffer of 256 bytes: an empty read ends it, or a full buffer.
abbrev pub buffer_len : ℕ
buffer_len = 256

module _ {h : Host} where
  abbrev pub more_bytes :
      List ℕ
      → (List ℕ → Act (EngineError h) h.World (List ℕ))
      → Result (Option (List ℕ)) h.CoreError × h.World
      → Result (List ℕ) (EngineError h) × h.World
  more_bytes acc rest (err e, w) = (err (core e), w)
  more_bytes acc rest (ok none, w) = (ok acc, w)
  more_bytes acc rest (ok (some []), w) = (ok acc, w)
  more_bytes acc rest (ok (some (b ∷ bs)), w) =
      let acc' = acc ++ b ∷ bs in if length acc' == buffer_len then (ok acc', w) else rest acc' w

  -- Each round but the last puts a byte into the buffer, so there are at most as many as its length.
  unfoldable pub fill_buffer : ℕ → h.Fd → List ℕ → Act (EngineError h) h.World (List ℕ)
  fill_buffer zero fd acc w = (ok acc, w)
  fill_buffer (suc fuel) fd acc w =
      more_bytes acc (fill_buffer fuel fd) (h.read_slice fd (buffer_len - length acc) w)

  abbrev sought :
      (h.World → Result (List ℕ) (EngineError h) × h.World)
      → Result (Unit {0}) h.CoreError × h.World
      → Result (List ℕ) (EngineError h) × h.World
  sought rest (ok u, w) = rest w
  sought rest (err e, w) = (err (core e), w)

  abbrev read_from_start : h.Fd → Act (EngineError h) h.World (List ℕ)
  read_from_start fd w = sought (fill_buffer buffer_len fd []) (h.seek_set fd 0 w)

  -- `drain_events_fd` drops what it reads.
  abbrev drained :
      Result (List ℕ) (EngineError h) × h.World → Result (Unit {0}) (EngineError h) × h.World
  drained (ok content, w) = (ok tt, w)
  drained (err e, w) = (err e, w)

  unfoldable pub drain_events_fd :
      CgroupV2EventsSource h → FilePath → Act (EngineError h) h.World (Unit {0})
  unfolding fill_buffer
  drain_events_fd s path w = elim (Map.get s.watches path) [
    | none ↦ (ok tt, w)
    | some watch ↦ drained (read_from_start watch.events_fd w)
  ]

  abbrev populated_read :
      Result (List ℕ) (EngineError h) × h.World → Result CgroupV2Populated (EngineError h) × h.World
  populated_read (ok content, w) = (ok (parse_cgroup_events_populated content), w)
  populated_read (err e, w) = (err e, w)

  unfoldable pub read_events_fd_populated :
      CgroupV2EventsSource h → FilePath → Act (EngineError h) h.World CgroupV2Populated
  unfolding fill_buffer
  read_events_fd_populated s path w = elim (Map.get s.watches path) [
    | none ↦ (ok unknown, w)
    | some watch ↦ populated_read (read_from_start watch.events_fd w)
  ]
