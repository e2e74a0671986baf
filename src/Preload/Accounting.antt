-- ===== src/Preload/Accounting.antt =====
-- What becomes of each target, and what the report counts and lists.
use core_shift_engine.Base.{
  ℕ, ◌+◌, ◌≤◌, ◌≡◌, refl, sym, ◌∙◌, List, [], ◌∷◌, ◌++◌, some, Result, ok, err, arith, length, min,
  and_then,
}
use mathlib.Core.List.{append_assoc, append-nil}
use core_shift_engine.Host.{Host, IoError}
use core_shift_engine.Error.{EngineError, io, message}
use core_shift_engine.State.{u64_max}
use core_shift_engine.Preload.{
  PreloadTarget, PreloadLimits, PreloadFileError, PreloadReport, cap_of, capped_len, preload_one,
  map_io, read_by, account, preload_each, execute_preload_plan, empty_report,
}

-- The lengths of the targets, each within its limit, added up.
abbrev pub total_len : List PreloadTarget → PreloadLimits → ℕ
total_len [] l = 0
total_len (t ∷ ts) l = capped_len t l + total_len ts l

-- Where the method of a target has a limit, its capped length is neither above the length of the
-- target nor above the limit.
pub capped_len_bounds :
    (t : PreloadTarget) (l : PreloadLimits) (limit : ℕ)
    → cap_of t.method l ≡ some limit
    → (capped_len t l ≤ t.len) × (capped_len t l ≤ limit)
unfolding capped_len
capped_len_bounds t l limit e = rw (e, capped_len) (omega arith, omega arith)

-- The attempt on one target, in the world before it: the file is opened, and if that succeeds read by
-- the method of the target, as far as the capped length.
pub data Tries (h : Host) (t : PreloadTarget) (l : PreloadLimits) (w : h.World)
    : Result ℕ (EngineError h) × h.World → Type 0 where
  no_file :
      {e : IoError} {w₁ : h.World}
      → h.open_file t.path w ≡ (err e, w₁)
      → Tries h t l w (err (io e), w₁)
  not_read :
      {fd : h.Fd} {e : EngineError h} {w₁ w₂ : h.World}
      → h.open_file t.path w ≡ (ok fd, w₁)
      → read_by {h = h} t.method fd (capped_len t l) l w₁ ≡ (err e, w₂)
      → Tries h t l w (err e, w₂)
  is_read :
      {fd : h.Fd} {w₁ w₂ : h.World}
      → h.open_file t.path w ≡ (ok fd, w₁)
      → read_by {h = h} t.method fd (capped_len t l) l w₁ ≡ (ok tt, w₂)
      → Tries h t l w (ok (capped_len t l), w₂)

-- A plan worked off from one world to another, each target tried once and in order: the targets that
-- were preloaded, and for each of the others its path and the message of its error.
pub data Works (h : Host) (l : PreloadLimits)
    : List PreloadTarget
      → h.World
      → List PreloadTarget
      → List PreloadFileError
      → h.World
      → Type 0 where
  nothing_left : {w : h.World} → Works h l [] w [] [] w
  preloads :
      {t : PreloadTarget} {ts loaded : List PreloadTarget} {skipped : List PreloadFileError}
      {bytes : ℕ} {w w₁ w₂ : h.World}
      → Tries h t l w (ok bytes, w₁)
      → Works h l ts w₁ loaded skipped w₂
      → Works h l (t ∷ ts) w (t ∷ loaded) skipped w₂
  skips :
      {t : PreloadTarget} {ts loaded : List PreloadTarget} {skipped : List PreloadFileError}
      {e : EngineError h} {w w₁ w₂ : h.World}
      → Tries h t l w (err e, w₁)
      → Works h l ts w₁ loaded skipped w₂
      → Works h l
          (t ∷ ts)
          w
          loaded
          (record { path = t.path; error = message {h = h} e } ∷ skipped)
          w₂

preload_one-Tries :
    (h : Host) (t : PreloadTarget) (l : PreloadLimits) (w : h.World)
    → Tries h t l w (preload_one {h = h} t l w)
unfolding preload_one
preload_one-Tries h t l w = opened (h.open_file t.path w) refl
  where
    read :
        (fd : h.Fd) (w₁ : h.World)
        → h.open_file t.path w ≡ (ok fd, w₁)
        → (r : Result (Unit {0}) (EngineError h) × h.World)
        → read_by {h = h} t.method fd (capped_len t l) l w₁ ≡ r
        → Tries h t l w (and_then r (λ (u : Unit {0}) (w' : h.World). (ok (capped_len t l), w')))
    read fd w₁ found (ok u, w₂) e = is_read found e
    read fd w₁ found (err x, w₂) e = not_read found e

    opened :
        (r : Result h.Fd IoError × h.World)
        → h.open_file t.path w ≡ r
        → Tries h t l w (
            and_then (map_io {h = h} r) (λ fd w'.
              and_then
                (read_by {h = h} t.method fd (capped_len t l) l w')
                (λ (u : Unit {0}) (w'' : h.World). (ok (capped_len t l), w''))))
    opened (ok fd, w₁) e = read fd w₁ e (read_by {h = h} t.method fd (capped_len t l) l w₁) refl
    opened (err x, w₁) e = no_file e

-- The bytes of a success are the capped length.
abbrev Bytes : {h : Host} → PreloadTarget → PreloadLimits → Result ℕ (EngineError h) → Type 0
Bytes t l (ok bytes) = bytes ≡ capped_len t l
Bytes t l (err e) = Unit {0}

Tries-Bytes :
    (h : Host) (t : PreloadTarget) (l : PreloadLimits) (w : h.World)
    (x : Result ℕ (EngineError h) × h.World)
    → Tries h t l w x
    → Bytes {h = h} t l x.0
Tries-Bytes h t l w x (no_file found) = tt
Tries-Bytes h t l w x (not_read found e) = tt
Tries-Bytes h t l w x (is_read found e) = refl

-- What the loop adds to a report.
record Adds (h : Host) (ts : List PreloadTarget) (l : PreloadLimits) (w : h.World)
    (r : PreloadReport) (x : PreloadReport × h.World) : Type 0 where
  pub loaded : List PreloadTarget
  pub skipped : List PreloadFileError
  pub works : Works h l ts w loaded skipped x.1
  pub attempted : x.0.attempted_files ≡ r.attempted_files + length ts
  pub preloaded : x.0.preloaded_files ≡ r.preloaded_files + length loaded
  pub bytes : x.0.preloaded_bytes ≡ min (r.preloaded_bytes + total_len loaded l) u64_max
  pub listed : x.0.skipped ≡ r.skipped ++ skipped

module _ (h : Host) (l : PreloadLimits) where
  account-Adds :
      (t : PreloadTarget) (ts : List PreloadTarget) (r : PreloadReport) (w : h.World)
      (a : Result ℕ (EngineError h) × h.World) (x : PreloadReport × h.World)
      → Tries h t l w a
      → Adds h ts l a.1 (account t a.0 r) x
      → Adds h (t ∷ ts) l w r x
  unfolding account
  account-Adds t ts r w (ok bytes, w₁) x tries g =
      let full = Tries-Bytes h t l w (ok bytes, w₁) tries in
      record {
        loaded = t ∷ g.loaded;
        skipped = g.skipped;
        works = preloads tries g.works;
        attempted = omega (arith, g.attempted);
        preloaded = omega (arith, g.preloaded);
        bytes = omega (arith, g.bytes, full);
        listed = g.listed;
      }
  account-Adds t ts r w (err e, w₁) x tries g = record {
    loaded = g.loaded;
    skipped = record { path = t.path; error = message {h = h} e } ∷ g.skipped;
    works = skips tries g.works;
    attempted = omega (arith, g.attempted);
    preloaded = g.preloaded;
    bytes = g.bytes;
    listed =
        g.listed
        ∙ append_assoc r.skipped (record { path = t.path; error = message {h = h} e } ∷ [])
            g.skipped;
  }

  account-fits :
      (t : PreloadTarget) (a : Result ℕ (EngineError h)) (r : PreloadReport)
      → r.preloaded_bytes ≤ u64_max
      → (account {h = h} t a r).preloaded_bytes ≤ u64_max
  unfolding account
  account-fits t (ok bytes) r f = omega arith
  account-fits t (err e) r f = f

  preload_each-Adds :
      (ts : List PreloadTarget) (r : PreloadReport) (w : h.World)
      → r.preloaded_bytes ≤ u64_max
      → Adds h ts l w r (preload_each h ts l r w)
  unfolding preload_each
  preload_each-Adds [] r w f = record {
    loaded = [];
    skipped = [];
    works = nothing_left;
    attempted = omega arith;
    preloaded = omega arith;
    bytes = omega (arith, f);
    listed = sym (append-nil r.skipped);
  }
  preload_each-Adds (t ∷ ts) r w f =
      let a = preload_one {h = h} t l w in
      account-Adds t ts r w a _ (preload_one-Tries h t l w)
        (preload_each-Adds ts (account t a.0 r) a.1 (account-fits t a.0 r f))

-- A plan is worked off whole, whatever fails: each target is attempted once and in order, each in the
-- world that the one before left. The targets counted as preloaded are those whose file was opened and
-- read by their method as far as their capped length, and the bytes are the capped lengths of these
-- together, at most the largest 64-bit number. The others are listed as skipped, in order, each with
-- the message of the error that opening or reading it gave.
pub execute_preload_plan-accounts :
    (h : Host) (ts : List PreloadTarget) (l : PreloadLimits) (w : h.World)
    → let (r, w') = execute_preload_plan h ts l w in
      (loaded : List PreloadTarget) × Works h l ts w loaded r.skipped w'
      × (r.attempted_files ≡ length ts)
      × (r.preloaded_files ≡ length loaded)
      × (r.preloaded_bytes ≡ min (total_len loaded l) u64_max)
unfolding execute_preload_plan
execute_preload_plan-accounts h ts l w =
    let g = preload_each-Adds h l ts empty_report w (omega arith) in
    (
      g.loaded,
      rw g.listed g.works,
      omega (arith, g.attempted),
      omega (arith, g.preloaded),
      omega (arith, g.bytes),
    )
