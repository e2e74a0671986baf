-- ===== src/Foreground/CgroupV2/Filling.antt =====
-- The loop that fills the buffer ends by itself.
use core_shift_engine.Base.{
  ℕ, zero, suc, ◌+◌, ◌-◌, ◌≤◌, ◌<◌, ◌≡◌, refl, List, [], ◌∷◌, ◌++◌, Option, none, some, Result, ok,
  err, ◌==◌, nat_ord, arith, length, length-append, Bool-cases, inl, inr, ==_iff,
}
use core_shift_engine.Host.{Host}
use core_shift_engine.Error.{EngineError}
use core_shift_engine.Foreground.CgroupV2.Buffer.{buffer_len, more_bytes, fill_buffer}

-- `read` puts at most as many bytes into a buffer as it is long.
abbrev pub ReadsAtMost : (h : Host) → h.Fd → Type 0
ReadsAtMost h fd =
    (n : ℕ) (w : h.World) (bytes : List ℕ)
    → (h.read_slice fd n w).0 ≡ ok (some bytes)
    → length bytes ≤ n

-- On success there are at most as many bytes as the buffer is long.
abbrev pub Fits : {h : Host} → Result (List ℕ) (EngineError h) × h.World → Type 0
Fits (ok bytes, w) = length bytes ≤ buffer_len
Fits (err e, w) = Unit

module _ (h : Host) (fd : h.Fd) (reads : ReadsAtMost h fd) where
  more_bytes-Fits :
      (acc : List ℕ) (rest rest' : List ℕ → h.World → Result (List ℕ) (EngineError h) × h.World)
      (r : Result (Option (List ℕ)) h.CoreError × h.World)
      → length acc < buffer_len
      → ((bytes : List ℕ) → r.0 ≡ ok (some bytes) → length bytes ≤ buffer_len - length acc)
      → ((acc' : List ℕ) (w : h.World)
          → length acc < length acc'
          → length acc' < buffer_len
          → (rest' acc' w ≡ rest acc' w) × Fits {h = h} (rest acc' w))
      → (more_bytes {h = h} acc rest' r ≡ more_bytes acc rest r)
        × Fits (more_bytes {h = h} acc rest r)
  more_bytes-Fits acc rest rest' (err e, w) l b k = (refl, tt)
  more_bytes-Fits acc rest rest' (ok none, w) l b k = (refl, omega arith)
  more_bytes-Fits acc rest rest' (ok (some []), w) l b k = (refl, omega arith)
  more_bytes-Fits acc rest rest' (ok (some (x ∷ bytes)), w) l b k =
      let bound = b (x ∷ bytes) refl in
      let sum = length-append acc (x ∷ bytes) in
      elim (Bool-cases (length (acc ++ x ∷ bytes) == buffer_len)) [
        | inl full ↦ rw full (refl, omega (arith, bound, sum))
        | inr more ↦ rw more (
            k (acc ++ x ∷ bytes) w (omega (arith, sum))
              (ground (arith, bound, sum, more, ==_iff (length (acc ++ x ∷ bytes)) buffer_len)))
      ]

  -- If a read puts at most as many bytes as asked for, then fuel for the room that is left is enough:
  -- whatever the fuel from there on, the loop ends with the same result, and on success with bytes
  -- that fit into the buffer.
  pub fill_buffer-Fits :
      (fuel fuel' : ℕ) (acc : List ℕ) (w : h.World)
      → length acc < buffer_len
      → buffer_len ≤ fuel + length acc
      → buffer_len ≤ fuel' + length acc
      → (fill_buffer {h = h} fuel' fd acc w ≡ fill_buffer fuel fd acc w)
        × Fits (fill_buffer {h = h} fuel fd acc w)
  unfolding fill_buffer
  fill_buffer-Fits zero fuel' acc w l f g = absurd (omega (arith, l, f))
  fill_buffer-Fits (suc fuel) zero acc w l f g = absurd (omega (arith, l, g))
  fill_buffer-Fits (suc fuel) (suc fuel') acc w l f g =
      more_bytes-Fits acc (fill_buffer fuel fd) (fill_buffer fuel' fd)
        (h.read_slice fd (buffer_len - length acc) w) l (reads (buffer_len - length acc) w)
        (λ acc' w' grows room.
          fill_buffer-Fits fuel fuel' acc' w' room (omega (arith, f, grows))
            (omega (arith, g, grows)))
