-- ===== src/Socket/Receiving.antt =====
-- The loop that reads a line ends, and what it gives is what it took from the stream.
use core_shift_engine.Base.{
  ℕ, zero, suc, ◌+◌, ◌≤◌, ◌<◌, ◌≡◌, refl, Bool, true, not, ◌||◌, List, [], ◌∷◌, ◌++◌, Option, none,
  some, Result, ok, err, arith, length, length-append, all, leb, ◌==◌, nat_ord, Bool-cases, inl,
  inr, max, false, sym, ◌∙◌, ap,
}
use mathlib.Core.List.{append_assoc, append-nil}
use core_shift_engine.Socket.{after_read, read_loop}

abbrev is_inner : ℕ → Bool
is_inner b = not (b == b'\n')

-- The line has one last byte: a line feed, or the one that makes it as long as allowed; and before it
-- no line feed, and fewer bytes than allowed. Where no length is allowed, the line is one byte.
pub record IsLineOf (max_len : ℕ) (line : List ℕ) : Type 0 where
  pub front : List ℕ
  pub last : ℕ
  pub parts : line ≡ front ++ last ∷ []
  pub inner : all is_inner front ≡ true
  pub short : length front < max max_len 1
  pub ended : (last == b'\n' || leb max_len (length line)) ≡ true

-- A line that has not ended.
pub record IsBegun (max_len : ℕ) (line : List ℕ) : Type 0 where
  pub inner : all is_inner line ≡ true
  pub short : length line < max max_len 1

-- The rounds for `n` bytes, if the stream is never busy for more than `k` rounds in a row.
abbrev pub rounds_for : ℕ → ℕ → ℕ
rounds_for k zero = 0
rounds_for k (suc n) = suc k + rounds_for k n

-- `taken` gives the bytes taken from the stream so far, and `is_over` says whether it was found at its
-- end.
module _ {E W : Type 0} (taken : W → List ℕ) (is_over : W → Bool) (stalls : W → ℕ) where
  -- A read of one byte takes one or none: none at the end of the stream, on an error, and when the
  -- stream is busy, which leaves fewer rounds for which it is.
  abbrev pub Takes : W → Result (Option (List ℕ)) E × W → Type 0
  Takes w (err e, w') = taken w' ≡ taken w
  Takes w (ok none, w') = (taken w' ≡ taken w) × (stalls w' < stalls w)
  Takes w (ok (some []), w') = (taken w' ≡ taken w) × (is_over w' ≡ true)
  Takes w (ok (some (b ∷ bs)), w') = (taken w' ≡ taken w ++ b ∷ bs) × (bs ≡ [])

  -- What the loop gives when the bytes before its line are `base`.
  abbrev pub Reads : ℕ → List ℕ → Option (Result (Option (List ℕ)) E × W) → Type 0
  Reads max_len base none = ⊥
  Reads max_len base (some (err e, w)) =
      (part : List ℕ) × (taken w ≡ base ++ part) × IsBegun max_len part
  Reads max_len base (some (ok none, w)) =
      (part : List ℕ) × (taken w ≡ base ++ part) × IsBegun max_len part × (is_over w ≡ true)
  Reads max_len base (some (ok (some line), w)) = (taken w ≡ base ++ line) × IsLineOf max_len line

all-append :
    (p : ℕ → Bool) (xs : List ℕ) (y : ℕ)
    → all p xs ≡ true
    → p y ≡ true
    → all p (xs ++ y ∷ []) ≡ true
all-append p [] y h k = ground arith
all-append p (x ∷ xs) y h k = ground (arith, all-append p xs y)

module _ {E W : Type 0} (read_byte : W → Result (Option (List ℕ)) E × W) (max_len : ℕ)
    (taken : W → List ℕ) (is_over : W → Bool) (stalls : W → ℕ) (k : ℕ)
    (bound : (w : W) → stalls w ≤ k)
    (takes : (w : W) → Takes taken is_over stalls w (read_byte w)) where
  abbrev Round : ℕ → List ℕ → (List ℕ → W → Option (Result (Option (List ℕ)) E × W)) → Type 0
  Round fuel base rest =
      (room : ℕ) (line : List ℕ) (w : W)
      → max max_len 1 ≤ room + length line
      → IsBegun max_len line
      → taken w ≡ base ++ line
      → rounds_for k room + stalls w ≤ fuel
      → Reads taken is_over stalls max_len base (rest line w)

  more :
      (fuel room : ℕ) (base line : List ℕ) (b : ℕ) (w w' : W)
      (rest : List ℕ → W → Option (Result (Option (List ℕ)) E × W))
      → Round fuel base rest
      → max max_len 1 ≤ room + length line
      → IsBegun max_len line
      → rounds_for k room + stalls w ≤ suc fuel
      → taken w' ≡ base ++ (line ++ b ∷ [])
      → (b == b'\n') ≡ false
      → leb max_len (length (line ++ b ∷ [])) ≡ false
      → Reads taken is_over stalls max_len base (rest (line ++ b ∷ []) w')
  more fuel zero base line b w w' rest go m i f e n l = absurd (omega (arith, m, i.short))
  more fuel (suc room) base line b w w' rest go m i f e n l =
      let len = length-append line (b ∷ []) in
      let below : length (line ++ b ∷ []) < max_len = ground (arith, l) in
      go room (line ++ b ∷ []) w' (omega (arith, m, len))
        (record {
          inner = all-append is_inner line b i.inner (rw n refl);
          short = omega (arith, below);
        })
        e (omega (arith, f, bound w'))

  ends :
      (base line : List ℕ) (b : ℕ) (w' : W)
      → IsBegun max_len line
      → taken w' ≡ base ++ (line ++ b ∷ [])
      → (b == b'\n' || leb max_len (length (line ++ b ∷ []))) ≡ true
      → (taken w' ≡ base ++ (line ++ b ∷ [])) × IsLineOf max_len (line ++ b ∷ [])
  ends base line b w' i e l = (
    e,
    record { front = line; last = b; parts = refl; inner = i.inner; short = i.short; ended = l },
  )

  one_byte :
      (fuel room : ℕ) (base line : List ℕ) (b : ℕ) (w w' : W)
      (rest : List ℕ → W → Option (Result (Option (List ℕ)) E × W))
      → Round fuel base rest
      → max max_len 1 ≤ room + length line
      → IsBegun max_len line
      → rounds_for k room + stalls w ≤ suc fuel
      → taken w' ≡ base ++ (line ++ b ∷ [])
      → Reads taken is_over stalls max_len base
          (after_read read_byte max_len line rest (ok (some (b ∷ [])), w'))
  one_byte fuel room base line b w w' rest go m i f e = elim (Bool-cases (b == b'\n')) [
    | inl feed ↦ rw feed (ends base line b w' i e (rw feed refl))
    | inr inner ↦ elim (Bool-cases (leb max_len (length (line ++ b ∷ [])))) [
      | inl full ↦ rw (inner, full) (ends base line b w' i e (rw (inner, full) refl))
      | inr below ↦ rw (inner, below) (more fuel room base line b w w' rest go m i f e inner below)
    ]
  ]

  round :
      (fuel room : ℕ) (base line : List ℕ) (w : W)
      (rest : List ℕ → W → Option (Result (Option (List ℕ)) E × W))
      → Round fuel base rest
      → max max_len 1 ≤ room + length line
      → IsBegun max_len line
      → taken w ≡ base ++ line
      → rounds_for k room + stalls w ≤ suc fuel
      → (r : Result (Option (List ℕ)) E × W) → Takes taken is_over stalls w r
      → Reads taken is_over stalls max_len base (after_read read_byte max_len line rest r)
  round fuel room base line w rest go m i t f (err e, w') q = (line, q ∙ t, i)
  round fuel room base line w rest go m i t f (ok none, w') (same, fewer) =
      go room line w' m i (same ∙ t) (omega (arith, f, fewer))
  round fuel room base line w rest go m i t f (ok (some []), w') (same, over) =
      (line, same ∙ t, i, over)
  round fuel room base line w rest go m i t f (ok (some (b ∷ [])), w') (more_taken, one) =
      one_byte fuel room base line b w w' rest go m i f
        (more_taken ∙ (ap (λ x. x ++ b ∷ []) t ∙ append_assoc base line (b ∷ [])))
  round fuel room base line w rest go m i t f (ok (some (b ∷ c ∷ bs)), w') (more_taken, one) = cc

  read_loop-Round : (base : List ℕ) (fuel : ℕ) → Round fuel base (read_loop read_byte max_len fuel)
  unfolding read_loop
  read_loop-Round base zero zero line w m i t f = absurd (omega (arith, m, i.short))
  read_loop-Round base zero (suc room) line w m i t f = absurd (omega (arith, f))
  read_loop-Round base (suc fuel) room line w m i t f =
      round fuel room base line w (read_loop read_byte max_len fuel) (read_loop-Round base fuel) m i
        t f (read_byte w) (takes w)

  -- On a stream that gives its bytes one by one and is never busy for more than `k` rounds in a row,
  -- the loop ends within the rounds for as many bytes as a line may have, one at least, and those for
  -- which the stream is busy now. If it gives a line, that is what was taken from the stream: it has
  -- no line feed but as its last byte, it ends with one or is as long as allowed, and before its last
  -- byte it is shorter. If it gives no line the stream was found at its end; then, and on an error, a
  -- first part of a line was taken, without a line feed and shorter than allowed. Where the length
  -- allowed is 0, it counts as 1.
  pub read_loop-Reads :
      (fuel : ℕ) (w : W)
      → rounds_for k (max max_len 1) + stalls w ≤ fuel
      → Reads taken is_over stalls max_len (taken w) (read_loop read_byte max_len fuel [] w)
  read_loop-Reads fuel w f =
      read_loop-Round (taken w) fuel (max max_len 1) [] w (omega arith)
        (record { inner = refl; short = omega arith }) (sym (append-nil (taken w))) f
