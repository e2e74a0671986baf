-- ===== src/Foreground/Resolver/Rebuilds.antt =====
-- When a change of the foreground rebuilds the cache, and from what.
use core_shift_engine.Base.{
  ℕ, ◌%◌, ◌≡◌, ◌≢◌, refl, ap, Bool, true, false, Option, none, some, Result, ok, err, Act, arith,
  nat_ord, int_ord, ◌==◌, ==_iff, ==_refl, Bool-cases, inl, inr, if◌then◌else◌,
}
use core_shift_engine.Text.Chars.{Text}
use core_shift_engine.Host.{Host}
use core_shift_engine.Error.{EngineError}
use core_shift_engine.Foreground.Cache.{
  Provider, PackageUidSnapshot, update_from, updated, update_from_snapshot,
}
use core_shift_engine.Foreground.Resolver.{
  ForegroundResolverState, PackageFileStat, same_stat, marker_changed, bump, Noted, rebuilt, kept,
  stat_checked, foreground_changed,
}

-- Two stats are the same if they agree in all fields.
same_stat_eq : (a b : PackageFileStat) → same_stat a b ≡ true → a ≡ b
unfolding same_stat
same_stat_eq a b h =
    let sec : a.mtime_sec ≡ b.mtime_sec = (==_iff a.mtime_sec b.mtime_sec).0 (ground arith) in
    let nsec : a.mtime_nsec ≡ b.mtime_nsec = (==_iff a.mtime_nsec b.mtime_nsec).0 (ground arith) in
    let size : a.size ≡ b.size = (==_iff a.size b.size).0 (ground arith) in
    λ i. record { mtime_sec = sec i; mtime_nsec = nsec i; size = size i }

same_stat_refl : (a : PackageFileStat) → same_stat a a ≡ true
unfolding same_stat
same_stat_refl a = rw (==_refl a.mtime_sec, ==_refl a.mtime_nsec, ==_refl a.size) refl

-- The state with one more change of the foreground.
abbrev pub counted : ForegroundResolverState → ForegroundResolverState
counted s = record s { foreground_changes = bump s.foreground_changes }

-- The stat of the marker is asked for at every `interval`-th change, and never if that is 0.
abbrev pub IsDue : ForegroundResolverState → ℕ → Type 0
IsDue s interval = (interval ≢ 0) × (bump s.foreground_changes % interval ≡ 0)

-- The marker was found before, and was another.
abbrev pub HasChanged : ForegroundResolverState → PackageFileStat → Type 0
HasChanged s new = (old : PackageFileStat) × (s.marker_fingerprint ≡ some old) × (old ≢ new)

-- The cases of a change, by the answers of `stat` and of `provider`, each asked in the world that the
-- call before left.
pub data Notes {h : Host} (provider : Provider (EngineError h) h.World)
    (stat : Act (EngineError h) h.World PackageFileStat) (interval : ℕ)
    (s : ForegroundResolverState) (w : h.World) : Noted h → Type 0 where
  passes : ¬ IsDue s interval → Notes provider stat interval s w (ok none, (counted s, w))
  finds_none :
      {e : EngineError h} {w₁ : h.World} {line : Text}
      → IsDue s interval
      → stat w ≡ (err e, w₁)
      → Notes provider stat interval s w (ok (some line), (counted s, w₁))
  keeps :
      {new : PackageFileStat} {w₁ : h.World} {line : Text}
      → IsDue s interval
      → stat w ≡ (ok new, w₁)
      → ¬ HasChanged s new
      → Notes provider stat interval s w
          (ok (some line), (record (counted s) { marker_fingerprint = some new }, w₁))
  fails :
      {new : PackageFileStat} {e : EngineError h} {w₁ w₂ : h.World}
      → IsDue s interval
      → stat w ≡ (ok new, w₁)
      → HasChanged s new
      → provider w₁ ≡ (err e, w₂)
      → Notes provider stat interval s w (err e, (counted s, w₂))
  rebuilds :
      {new : PackageFileStat} {snapshot : PackageUidSnapshot} {w₁ w₂ : h.World} {line : Text}
      → IsDue s interval
      → stat w ≡ (ok new, w₁)
      → HasChanged s new
      → provider w₁ ≡ (ok snapshot, w₂)
      → Notes provider stat interval s w (
        ok (some line),
        (
          record (counted s) {
            cache = update_from_snapshot s.cache snapshot;
            cache_rebuilds = bump s.cache_rebuilds;
            marker_fingerprint = some new;
          },
          w₂,
        ),
      )

marker_changed-HasChanged :
    (s : ForegroundResolverState) (o : Option PackageFileStat) (new : PackageFileStat)
    → s.marker_fingerprint ≡ o
    → marker_changed o new ≡ true
    → HasChanged s new
marker_changed-HasChanged s none new seen h = cc
marker_changed-HasChanged s (some old) new seen h =
    (old, seen, λ same. ground (arith, same_stat_refl new, ap (λ x. same_stat x new) same))

marker_unchanged :
    (s : ForegroundResolverState) (o : Option PackageFileStat) (new : PackageFileStat)
    → s.marker_fingerprint ≡ o
    → marker_changed o new ≡ false
    → ¬ HasChanged s new
marker_unchanged s none new seen h (old, found, differs) = cc
marker_unchanged s (some last) new seen h (old, found, differs) =
    let same : last ≡ new = same_stat_eq last new (ground arith) in differs (cc)

module _ (h : Host) (provider : Provider (EngineError h) h.World)
    (stat : Act (EngineError h) h.World PackageFileStat) (interval : ℕ)
    (s : ForegroundResolverState) (w : h.World) where
  rebuilt-Notes :
      (new : PackageFileStat) (w₁ : h.World)
      → IsDue s interval
      → stat w ≡ (ok new, w₁)
      → HasChanged s new
      → (r : Result PackageUidSnapshot (EngineError h) × h.World) → provider w₁ ≡ r
      → Notes {h = h} provider stat interval s w
          (rebuilt {h = h} (counted s) new (updated s.cache r))
  rebuilt-Notes new w₁ due found changed (ok snapshot, w₂) asked = rebuilds due found changed asked
  rebuilt-Notes new w₁ due found changed (err e, w₂) asked = fails due found changed asked

  stat_checked-Notes :
      IsDue s interval
      → (r : Result PackageFileStat (EngineError h) × h.World) → stat w ≡ r
      → Notes {h = h} provider stat interval s w (stat_checked {h = h} (counted s) provider r)
  stat_checked-Notes due (err e, w₁) found = finds_none due found
  stat_checked-Notes due (ok new, w₁) found =
      by_change (marker_changed s.marker_fingerprint new) refl
    where
      by_change :
          (b : Bool)
          → marker_changed s.marker_fingerprint new ≡ b
          → Notes {h = h} provider stat interval s w (
              if b
              then rebuilt {h = h} (counted s) new (update_from s.cache provider w₁)
              else kept {h = h} (counted s) new w₁)
      by_change true changed =
          rebuilt-Notes new w₁ due found
            (marker_changed-HasChanged s s.marker_fingerprint new refl changed) (provider w₁) refl
      by_change false same = keeps due found (marker_unchanged s s.marker_fingerprint new refl same)

-- A change of the foreground is counted. The interval being 0 or not dividing the count, that is all,
-- and neither the marker nor the provider is asked. Else the stat of the marker is asked for. If it
-- fails, nothing else changes; if the marker was not known or is the same, the one found is
-- remembered and the provider not asked. If it is another, the provider is asked: the cache is
-- rebuilt from the snapshot that it answers, the rebuild counted and the marker remembered; or its
-- error is given, and the state is as before but for the count, the marker too.
pub foreground_changed-Notes :
    (h : Host) (provider : Provider (EngineError h) h.World)
    (stat : Act (EngineError h) h.World PackageFileStat) (interval : ℕ)
    (s : ForegroundResolverState) (w : h.World)
    → Notes {h = h} provider stat interval s w
        (foreground_changed {h = h} provider stat interval (s, w))
unfolding foreground_changed
foreground_changed-Notes h provider stat interval s w = elim (Bool-cases (interval == 0)) [
  | inl off ↦ rw off (passes (λ due. due.0 (ground arith)))
  | inr on ↦ elim (Bool-cases (bump s.foreground_changes % interval == 0)) [
    | inl due ↦
        rw (on, due)
          (stat_checked-Notes h provider stat interval s w (ground arith, ground arith) (stat w)
            refl)
    | inr wait ↦ rw (on, wait) (passes (λ due. ground (arith, due.1)))
  ]
]
