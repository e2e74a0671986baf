-- ===== src/Preload/Chunks.antt =====
-- The chunks that cover a file.
use core_shift_engine.Base.{
  ℕ, zero, suc, ◌+◌, ◌-◌, ◌≤◌, ◌<◌, ◌≡◌, refl, List, [], ◌∷◌, ok, Act, and_then, ltb, ltb→lt,
  if◌then◌else◌, min, max, arith, Bool-cases, inl, inr,
}
use core_shift_engine.Host.{Host}
use core_shift_engine.Error.{EngineError}
use core_shift_engine.Preload.{PreloadLimits, map_core, chunk_loop, chunked_readahead, read_by}

-- One `readahead` for each pair of an offset and a length, until one fails.
pub read_each : {h : Host} → h.Fd → List (ℕ × ℕ) → Act (EngineError h) h.World (Unit {0})
read_each fd [] w = (ok tt, w)
read_each {h} fd ((offset, part) ∷ rest) w =
    and_then (map_core {h = h} (h.readahead fd offset part w))
      (λ (u : Unit {0}). read_each {h = h} fd rest)

-- The chunks follow one another from `a` to `b`, and each has a byte at least and `chunk` at most.
abbrev pub Tiles : ℕ → ℕ → ℕ → List (ℕ × ℕ) → Type 0
Tiles chunk a b [] = a ≡ b
Tiles chunk a b ((offset, part) ∷ rest) =
    (offset ≡ a) × (0 < part) × (part ≤ chunk) × Tiles chunk (a + part) b rest

-- The chunks from an offset on.
chunk_plan : ℕ → ℕ → ℕ → ℕ → List (ℕ × ℕ)
chunk_plan zero offset len chunk = []
chunk_plan (suc fuel) offset len chunk =
    let part = min (len - offset) chunk in
    let rest = (offset, part) ∷ chunk_plan fuel (offset + part) len chunk in
    if ltb offset len then rest else []

chunk_plan-Tiles :
    (fuel offset len chunk : ℕ)
    → offset ≤ len
    → len ≤ offset + fuel
    → 0 < chunk
    → Tiles chunk offset len (chunk_plan fuel offset len chunk)
unfolding chunk_plan
chunk_plan-Tiles zero offset len chunk o f c = omega arith
chunk_plan-Tiles (suc fuel) offset len chunk o f c = elim (Bool-cases (ltb offset len)) [
  | inl more ↦
      let l = ltb→lt offset len more in
      rw more (
        refl,
        omega arith,
        omega arith,
        chunk_plan-Tiles fuel (offset + min (len - offset) chunk) len chunk (omega arith)
            (omega arith) c,
      )
  | inr done ↦ rw done (ground arith)
]

chunk_loop-read_each :
    (h : Host) (fuel : ℕ) (fd : h.Fd) (offset len chunk : ℕ) (w : h.World)
    → chunk_loop {h = h} fuel fd offset len chunk w
      ≡ read_each {h = h} fd (chunk_plan fuel offset len chunk) w
unfolding chunk_loop read_each chunk_plan
chunk_loop-read_each h zero fd offset len chunk w = refl
chunk_loop-read_each h (suc fuel) fd offset len chunk w = elim (Bool-cases (ltb offset len)) [
  | inl more ↦
      let part = min (len - offset) chunk in
      rw more λ i.
        and_then (map_core {h = h} (h.readahead fd offset part w))
          (λ (u : Unit {0}) w'. chunk_loop-read_each h fuel fd (offset + part) len chunk w' i)
  | inr done ↦ rw done refl
]

-- Chunked reading makes the calls of a list of chunks, up to the first that fails. The chunks run
-- from the start of the file to its capped length without a gap or an overlap, and none is longer
-- than the configured chunk, or than a byte where that is 0.
pub read_by-Tiles :
    (h : Host) (fd : h.Fd) (len : ℕ) (l : PreloadLimits) (w : h.World)
    → (plan : List (ℕ × ℕ)) × Tiles (max l.chunk_bytes 1) 0 len plan
      × (read_by {h = h} chunked_readahead fd len l w ≡ read_each {h = h} fd plan w)
unfolding read_by
read_by-Tiles h fd len l w = (
  chunk_plan len 0 len (max l.chunk_bytes 1),
  chunk_plan-Tiles len 0 len (max l.chunk_bytes 1) (omega arith) (omega arith) (omega arith),
  chunk_loop-read_each h len fd 0 len (max l.chunk_bytes 1) w,
)
