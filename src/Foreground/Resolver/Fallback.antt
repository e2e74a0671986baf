-- ===== src/Foreground/Resolver/Fallback.antt =====
-- Which report's package wins, and what is not asked any more.
use core_shift_engine.Base.{◌≡◌, true, false, Option, none, some, arith, is_some}
use core_shift_engine.Text.Chars.{Text}
use core_shift_engine.Foreground.Resolver.Reports.{
  ForegroundResolveReport, resolve_after_v1_unavailable_lazy, resolve_after_v1_v2_unavailable_lazy,
}

abbrev pub first_some : Option Text → Option Text → Option Text
first_some none o = o
first_some (some p) o = some p

-- The package of both fallbacks is that of the first report that has one, in the order of the first
-- layout, the second where there is one, and the activity manager. What comes behind a report with a
-- package is not asked: the world is the one that this report left.
pub fallbacks_lem :
    {W : Type 0} (v1 : ForegroundResolveReport) (v2 activity : W → ForegroundResolveReport × W)
    (w : W)
    → let one = resolve_after_v1_unavailable_lazy v1 activity w in
      let two = resolve_after_v1_v2_unavailable_lazy v1 v2 activity w in
      (one.0.package_name ≡ first_some v1.package_name (activity w).0.package_name)
      × (two.0.package_name
          ≡ first_some v1.package_name
              (first_some (v2 w).0.package_name (activity (v2 w).1).0.package_name))
      × (is_some v1.package_name ≡ true → (one ≡ (v1, w)) × (two ≡ (v1, w)))
      × (is_some v1.package_name ≡ false → is_some (v2 w).0.package_name ≡ true → two.1 ≡ (v2 w).1)
unfolding resolve_after_v1_unavailable_lazy resolve_after_v1_v2_unavailable_lazy
fallbacks_lem v1 v2 activity w =
    (ground arith, ground arith, (λ h. (ground arith, ground arith)), λ h k. ground arith)
