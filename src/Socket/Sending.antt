-- ===== src/Socket/Sending.antt =====
-- The loop that writes all bytes ends, and sends them in order.
use core_shift_engine.Base.{
  ℕ, zero, suc, ◌+◌, ◌≤◌, ◌<◌, ◌≡◌, refl, sym, ◌∙◌, ap, List, [], ◌∷◌, ◌++◌, Option, none, some,
  Result, ok, err, arith, length, take, drop, take-append-drop,
}
use mathlib.Core.List.{append_assoc, append-nil}
use core_shift_engine.Socket.{after_write, write_loop}

module _ {E W : Type 0} (sent : W → List ℕ) (stalls : W → ℕ) where
  -- A call sends the bytes that it counts, which the buffer has; one that sends none, but does not
  -- fail, leaves fewer rounds for which the stream is busy.
  abbrev pub Wrote : List ℕ → W → Result (Option ℕ) E × W → Type 0
  Wrote buf w (err e, w') = sent w' ≡ sent w
  Wrote buf w (ok none, w') = (sent w' ≡ sent w) × (stalls w' < stalls w)
  Wrote buf w (ok (some zero), w') = (sent w' ≡ sent w) × (stalls w' < stalls w)
  Wrote buf w (ok (some (suc n)), w') =
      (sent w' ≡ sent w ++ take (suc n) buf) × (suc n ≤ length buf)

  -- All bytes were sent, in order; or, on an error, those of a first part.
  abbrev pub Sends : List ℕ → W → Option (Result (Unit {0}) E × W) → Type 0
  Sends buf w none = ⊥
  Sends buf w (some (ok u, w')) = sent w' ≡ sent w ++ buf
  Sends buf w (some (err e, w')) =
      (part : List ℕ) × (rest : List ℕ) × (buf ≡ part ++ rest) × (sent w' ≡ sent w ++ part)

-- The rounds that a buffer can take, if the stream is never busy for more than `k` rounds in a row.
abbrev pub rounds : ℕ → List ℕ → ℕ
rounds k [] = 0
rounds k (b ∷ buf) = suc k + rounds k buf

rounds-drop : (k n : ℕ) (buf : List ℕ) → rounds k (drop n buf) ≤ rounds k buf
rounds-drop k zero buf = omega arith
rounds-drop k (suc n) [] = omega arith
rounds-drop k (suc n) (b ∷ buf) = omega (arith, rounds-drop k n buf)

module _ {E W : Type 0} (write : List ℕ → W → Result (Option ℕ) E × W) (sent : W → List ℕ)
    (stalls : W → ℕ) where
  same_sent :
      (buf : List ℕ) (w w' : W) (o : Option (Result (Unit {0}) E × W))
      → sent w' ≡ sent w
      → Sends sent stalls buf w' o
      → Sends sent stalls buf w o
  same_sent buf w w' none e s = absurd s
  same_sent buf w w' (some (ok u, v)) e s = rw e at s
  same_sent buf w w' (some (err x, v)) e (part, rest, p, s) = (part, rest, p, rw e at s)

  more_sent :
      (n : ℕ) (buf : List ℕ) (w w' : W) (o : Option (Result (Unit {0}) E × W))
      → sent w' ≡ sent w ++ take n buf
      → Sends sent stalls (drop n buf) w' o
      → Sends sent stalls buf w o
  more_sent n buf w w' none e s = absurd s
  more_sent n buf w w' (some (ok u, v)) e s =
      s
      ∙ (ap (λ x. x ++ drop n buf) e
          ∙ (append_assoc (sent w) (take n buf) (drop n buf)
              ∙ ap (λ x. sent w ++ x) (take-append-drop n buf)))
  more_sent n buf w w' (some (err x, v)) e (part, rest, p, s) = (
    take n buf ++ part,
    rest,
    sym (take-append-drop n buf)
        ∙ (ap (λ x. take n buf ++ x) p ∙ sym (append_assoc (take n buf) part rest)),
    s ∙ (ap (λ x. x ++ part) e ∙ append_assoc (sent w) (take n buf) part),
  )

  -- On a stream that counts what it sends and is never busy for more than `k` rounds in a row, the loop
  -- ends within the rounds for the buffer, and those for which it is busy now. On success the whole
  -- buffer was sent, each byte once and in order; on an error just a first part of it.
  pub write_loop-Sends :
      (k : ℕ)
      → ((w : W) → stalls w ≤ k)
      → ((b : ℕ) (buf : List ℕ) (w : W) → Wrote sent stalls (b ∷ buf) w (write (b ∷ buf) w))
      → (fuel : ℕ) (buf : List ℕ) (w : W) → rounds k buf + stalls w ≤ fuel
      → Sends sent stalls buf w (write_loop write fuel buf w)
  unfolding write_loop
  write_loop-Sends k bound wrote zero [] w f = sym (append-nil (sent w))
  write_loop-Sends k bound wrote (suc fuel) [] w f = sym (append-nil (sent w))
  write_loop-Sends k bound wrote zero (b ∷ buf) w f = absurd (omega (arith, f))
  write_loop-Sends k bound wrote (suc fuel) (b ∷ buf) w f =
      round (write (b ∷ buf) w) (wrote b buf w) (write_loop write fuel)
        (write_loop-Sends k bound wrote fuel)
    where
      round :
          (r : Result (Option ℕ) E × W)
          → Wrote sent stalls (b ∷ buf) w r
          → (rest : List ℕ → W → Option (Result (Unit {0}) E × W))
          → ((buf' : List ℕ) (w' : W)
              → rounds k buf' + stalls w' ≤ fuel
              → Sends sent stalls buf' w' (rest buf' w'))
          → Sends sent stalls (b ∷ buf) w (after_write write (b ∷ buf) rest r)
      round (err e, w') s rest go = ([], b ∷ buf, refl, s ∙ sym (append-nil (sent w)))
      round (ok none, w') (s, fewer) rest go =
          same_sent (b ∷ buf) w w' (rest (b ∷ buf) w') s (go (b ∷ buf) w' (omega (arith, f, fewer)))
      round (ok (some zero), w') (s, fewer) rest go =
          same_sent (b ∷ buf) w w' (rest (b ∷ buf) w') s (go (b ∷ buf) w' (omega (arith, f, fewer)))
      round (ok (some (suc n)), w') (s, fits) rest go =
          more_sent (suc n) (b ∷ buf) w w' (rest (drop n buf) w') s
            (go (drop n buf) w' (omega (arith, f, bound w', rounds-drop k n buf)))
