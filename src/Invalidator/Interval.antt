-- ===== src/Invalidator/Interval.antt =====
-- When candidates lead to a check of the package file, and what a check finds.
use core_shift_engine.Base.{
  ℕ, zero, suc, ◌+◌, ◌<◌, ◌≤◌, ◌≡◌, refl, true, false, arith, nat_ord, int_ord, ◌∙◌, ap,
}
use native.Mathlib.Nat.{mod-eq_of_lt, mod_self}
use core_shift_engine.Host.{Host}
use core_shift_engine.Config.{enabled}
use core_shift_engine.State.{u64_max, saturating_add}
use core_shift_engine.Invalidator.{
  IdentityCacheInvalidator, is_due, check_packages_xml, mark_foreground_candidate,
  should_refresh_now,
}

-- `n` candidates, one after the other.
pub marks : (h : Host) → ℕ → IdentityCacheInvalidator → h.World → IdentityCacheInvalidator × h.World
marks h zero i w = (i, w)
marks h (suc n) i w = let (i', w') = mark_foreground_candidate h i w in marks h n i' w'

counted_lem : (c : ℕ) → c < u64_max → saturating_add c 1 ≡ suc c
counted_lem c h = omega arith

is_due_below :
    (i : IdentityCacheInvalidator)
    → i.foreground_count < i.config.foreground_check_interval
    → 0 < i.foreground_count
    → is_due i ≡ false
is_due_below i l p =
    ground (arith, mod-eq_of_lt {n = i.foreground_count} {m = i.config.foreground_check_interval} l)

is_due_at :
    (i : IdentityCacheInvalidator)
    → i.foreground_count ≡ i.config.foreground_check_interval
    → 0 < i.foreground_count
    → is_due i ≡ true
is_due_at i l p = rw l (ground (arith, mod_self i.config.foreground_check_interval))

mark_quiet :
    (h : Host) (i : IdentityCacheInvalidator) (w : h.World)
    → enabled i.config ≡ true
    → i.config.foreground_check_interval ≤ u64_max
    → suc i.foreground_count < i.config.foreground_check_interval
    → mark_foreground_candidate h i w ≡ (record i { foreground_count = suc i.foreground_count }, w)
unfolding mark_foreground_candidate
mark_quiet h i w on u l = rw (
  on,
  counted_lem i.foreground_count (omega arith),
  is_due_below (record i { foreground_count = suc i.foreground_count }) l (omega arith),
)

mark_due :
    (h : Host) (i : IdentityCacheInvalidator) (w : h.World)
    → enabled i.config ≡ true
    → i.config.foreground_check_interval ≤ u64_max
    → suc i.foreground_count ≡ i.config.foreground_check_interval
    → let (_, i', w') =
        check_packages_xml {h = h} (record i { foreground_count = suc i.foreground_count }) w in
      mark_foreground_candidate h i w ≡ (i', w')
unfolding mark_foreground_candidate
mark_due h i w on u l = rw (
  on,
  counted_lem i.foreground_count (omega arith),
  is_due_at (record i { foreground_count = suc i.foreground_count }) l (omega arith),
)

marks_quiet :
    (h : Host) (n : ℕ) (i : IdentityCacheInvalidator) (w : h.World)
    → enabled i.config ≡ true
    → i.config.foreground_check_interval ≤ u64_max
    → i.foreground_count + n < i.config.foreground_check_interval
    → marks h n i w ≡ (record i { foreground_count = i.foreground_count + n }, w)
unfolding marks
marks_quiet h zero i w on u l = ground arith
marks_quiet h (suc n) i w on u l = rw (mark_quiet h i w on u (omega arith)) (
    marks_quiet h n (record i { foreground_count = suc i.foreground_count }) w on u (omega arith)
    ∙ ap (λ (c : ℕ). (record i { foreground_count = c }, w)) (omega arith))

marks-suc :
    (h : Host) (n : ℕ) (i : IdentityCacheInvalidator) (w : h.World)
    → marks h (suc n) i w ≡ mark_foreground_candidate h (marks h n i w).0 (marks h n i w).1
unfolding marks
marks-suc h zero i w = refl
marks-suc h (suc n) i w =
    marks-suc h n (mark_foreground_candidate h i w).0 (mark_foreground_candidate h i w).1

-- With checks enabled and no candidate counted yet, the candidates before the interval is reached
-- change only the count and leave the world alone, and the one that reaches it checks the file,
-- with that count.
pub marks_check :
    (h : Host) (n : ℕ) (i : IdentityCacheInvalidator) (w : h.World)
    → enabled i.config ≡ true
    → i.config.foreground_check_interval ≡ suc n
    → suc n ≤ u64_max
    → i.foreground_count ≡ 0
    → let (_, i', w') = check_packages_xml {h = h} (record i { foreground_count = suc n }) w in
      (marks h n i w ≡ (record i { foreground_count = n }, w)) × (marks h (suc n) i w ≡ (i', w'))
marks_check h n i w on e u z = (
  quiet,
  marks-suc h n i w
      ∙ rw quiet (mark_due h (record i { foreground_count = n }) w on (omega arith) (omega arith)),
)
  where
    quiet : marks h n i w ≡ (record i { foreground_count = n }, w)
    quiet =
        marks_quiet h n i w on (omega arith) (omega arith)
        ∙ ap (λ (c : ℕ). (record i { foreground_count = c }, w)) (omega arith)

-- A candidate never takes a mark back: what is to be refreshed stays so until it is consumed.
pub mark-should_refresh_now :
    (h : Host) (i : IdentityCacheInvalidator) (w : h.World)
    → should_refresh_now i ≡ true
    → should_refresh_now (mark_foreground_candidate h i w).0 ≡ true
unfolding mark_foreground_candidate check_packages_xml should_refresh_now
mark-should_refresh_now h i w r = ground arith
