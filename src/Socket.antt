-- ===== src/Socket.antt =====
-- services/socket.rs: the loops that write all bytes to a stream and read a line from it. A round that
-- finds the stream busy yields the thread and tries again; the fuel counts the rounds.
pub mod Sending
pub mod Receiving
mod Examples
use core_shift_engine.Base.{
  ℕ, zero, suc, Bool, true, false, ◌||◌, List, [], ◌∷◌, ◌++◌, Option, none, some, Result, ok, err,
  ◌==◌, nat_ord, leb, length, drop, if◌then◌else◌,
}
use core_shift_engine.Host.{Host}
use core_shift_engine.Error.{EngineError}
use core_shift_engine.Watch.Registrations.{core_result}

module _ {E W : Type 0} (write : List ℕ → W → Result (Option ℕ) E × W) where
  abbrev pub after_write :
      List ℕ
      → (List ℕ → W → Option (Result (Unit {0}) E × W))
      → Result (Option ℕ) E × W
      → Option (Result (Unit {0}) E × W)
  after_write buf rest (err e, w) = some (err e, w)
  after_write buf rest (ok none, w) = rest buf w
  after_write buf rest (ok (some n), w) = rest (drop n buf) w

  unfoldable pub write_loop : ℕ → List ℕ → W → Option (Result (Unit {0}) E × W)
  write_loop fuel [] w = some (ok tt, w)
  write_loop zero (b ∷ buf) w = none
  write_loop (suc fuel) (b ∷ buf) w = after_write (b ∷ buf) (write_loop fuel) (write (b ∷ buf) w)

module _ {E W : Type 0} (read_byte : W → Result (Option (List ℕ)) E × W) (max_len : ℕ) where
  -- A byte ends the line if it is a line feed, or if the line is then long enough.
  abbrev pub after_read :
      List ℕ
      → (List ℕ → W → Option (Result (Option (List ℕ)) E × W))
      → Result (Option (List ℕ)) E × W
      → Option (Result (Option (List ℕ)) E × W)
  after_read line rest (err e, w) = some (err e, w)
  after_read line rest (ok none, w) = rest line w
  after_read line rest (ok (some []), w) = some (ok none, w)
  after_read line rest (ok (some (b ∷ bs)), w) =
      let line' = line ++ b ∷ [] in
      if b == b'\n'
      then some (ok (some line'), w)
      else if leb max_len (length line')
      then some (ok (some line'), w)
      else rest line' w

  unfoldable pub read_loop : ℕ → List ℕ → W → Option (Result (Option (List ℕ)) E × W)
  read_loop zero line w = none
  read_loop (suc fuel) line w = after_read line (read_loop fuel) (read_byte w)

module _ (h : Host) (fd : h.Fd) where
  -- `EngineUnixStream::write_all`
  unfoldable pub write_all :
      ℕ → List ℕ → h.World → Option (Result (Unit {0}) (EngineError h) × h.World)
  unfolding write_loop
  write_all fuel buf w =
      write_loop (λ bytes w'. core_result {h = h} (h.write_slice fd bytes w')) fuel buf w

  -- `EngineUnixStream::read_line_blocking`
  unfoldable pub read_line_blocking :
      ℕ → ℕ → h.World → Option (Result (Option (List ℕ)) (EngineError h) × h.World)
  unfolding read_loop
  read_line_blocking max_len fuel w =
      read_loop (λ w'. core_result {h = h} (h.read_slice fd 1 w')) max_len fuel [] w

  abbrev wrote_all :
      ℕ → Result (Option ℕ) (EngineError h) × h.World → Result Bool (EngineError h) × h.World
  wrote_all len (err e, w) = (err e, w)
  wrote_all len (ok none, w) = (ok false, w)
  wrote_all len (ok (some n), w) = (ok (n == len), w)

  unfoldable pub try_write_all : List ℕ → h.World → Result Bool (EngineError h) × h.World
  try_write_all buf w = wrote_all (length buf) (core_result {h = h} (h.write_slice fd buf w))
