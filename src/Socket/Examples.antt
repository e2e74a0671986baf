-- ===== src/Socket/Examples.antt =====
-- A stream that takes one byte in every second round, and one that has the bytes it is made of.
use core_shift_engine.Base.{
  ℕ, ◌≤◌, refl, is_empty, Bool, true, false, List, [], ◌∷◌, ◌++◌, Option, none, some, Result, ok,
  arith,
}
use core_shift_engine.Text.Chars.{codes}
use core_shift_engine.Socket.{write_loop, read_loop}
use core_shift_engine.Socket.Sending.{Wrote, Sends, write_loop-Sends}
use core_shift_engine.Socket.Receiving.{Reads, Takes, read_loop-Reads}

-- The bytes sent, and whether the stream is busy now.
abbrev slow_write : List ℕ → List ℕ × Bool → Result (Option ℕ) (Unit {0}) × (List ℕ × Bool)
slow_write buf (sent, true) = (ok none, (sent, false))
slow_write [] (sent, false) = (ok none, (sent, false))
slow_write (b ∷ buf) (sent, false) = (ok (some 1), (sent ++ b ∷ [], true))

abbrev busy : List ℕ × Bool → ℕ
busy (sent, true) = 1
busy (sent, false) = 0

busy-le : (w : List ℕ × Bool) → busy w ≤ 1
busy-le (sent, true) = omega arith
busy-le (sent, false) = omega arith

slow_write-Wrote :
    (b : ℕ) (buf : List ℕ) (w : List ℕ × Bool)
    → Wrote {E = Unit {0}} (λ w. w.0) busy (b ∷ buf) w (slow_write (b ∷ buf) w)
slow_write-Wrote b buf (sent, true) = (refl, omega arith)
slow_write-Wrote b buf (sent, false) = (refl, omega arith)

write_loop-Sends_example :
    Sends {E = Unit {0}}
      (λ w. w.0)
      busy
      (codes "ok")
      ([], false)
      (write_loop slow_write 4 (codes "ok") ([], false))
write_loop-Sends_example =
    write_loop-Sends slow_write (λ w. w.0) busy 1 busy-le slow_write-Wrote 4 (codes "ok")
      ([], false) (omega arith)

-- The bytes taken, and those to come.
abbrev next : List ℕ × List ℕ → Result (Option (List ℕ)) (Unit {0}) × (List ℕ × List ℕ)
next (taken, []) = (ok (some []), (taken, []))
next (taken, b ∷ bytes) = (ok (some (b ∷ [])), (taken ++ b ∷ [], bytes))

abbrev all_taken : List ℕ × List ℕ → Bool
all_taken (taken, bytes) = is_empty bytes

next-Takes : (w : List ℕ × List ℕ) → Takes {E = Unit {0}} (λ w. w.0) all_taken (λ w. 0) w (next w)
next-Takes (taken, []) = (refl, refl)
next-Takes (taken, b ∷ bytes) = (refl, refl)

read_loop-Reads_example :
    Reads {E = Unit {0}}
      (λ w. w.0)
      all_taken
      (λ w. 0)
      8
      (codes "ok")
      (read_loop next 8 8 [] (codes "ok", codes "get it all now"))
read_loop-Reads_example =
    read_loop-Reads next 8 (λ w. w.0) all_taken (λ w. 0) 0 (λ w. omega arith) next-Takes 8
      (codes "ok", codes "get it all now") (omega arith)
