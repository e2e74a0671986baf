-- ===== src/Foreground/Resolver/Reports.antt =====
-- The reports of services/foreground/resolver.rs on what a payload or a uid is resolved to.
use core_shift_engine.Base.{
  ℕ, ℤ, not, List, [], ◌∷◌, ◌++◌, Option, none, some, Result, ok, err, Act, nat_ord, int_ord,
  text_ord, if◌then◌else◌, length, is_some,
}
use core_shift_engine.Btree.Set.{contains}
use core_shift_engine.Text.Chars.{Text, codes}
use core_shift_engine.Text.Split.{lines, trim}
use core_shift_engine.Text.Decimal.{show}
use core_shift_engine.Text.Signed.{parse_i32, show_int}
use core_shift_engine.Text.Utf8.{from_utf8_lossy}
use core_shift_engine.Foreground.Cache.{UidPackageState, exact, missing, ambiguous, uid_state}
use core_shift_engine.Foreground.Resolver.{ForegroundResolverState, accepts_app, words}

pub record ForegroundResolveReport : Type 0 where
  pub package_name : Option Text
  pub report_lines : List Text

abbrev pub failed : List Text → ForegroundResolveReport
failed line = record { package_name = none; report_lines = words line ∷ [] }

abbrev pub unknown_report : Text → ForegroundResolveReport
unknown_report source = failed (codes "source=" ∷ source ∷ codes " reason=unknown" ∷ [])

abbrev pub unavailable_report : Text → ForegroundResolveReport
unavailable_report source = failed (codes "source=" ∷ source ∷ codes " reason=unavailable" ∷ [])

-- `resolve_v2_uid_with_state`: what the cache tells of the uid, unless the package is blocked.
abbrev pub report_v2 : ForegroundResolverState → ℕ → UidPackageState → ForegroundResolveReport
report_v2 s uid (exact p) =
    if contains s.blocked_packages p
    then failed (codes "source=v2 package=" ∷ p ∷ codes " reason=blocked" ∷ [])
    else record {
      package_name = some p;
      report_lines =
          words (
            codes "source=v2 uid="
            ∷ show uid
            ∷ codes " package="
            ∷ p
            ∷ codes " reason=resolved"
            ∷ [])
          ∷ [];
    }
report_v2 s uid (ambiguous ps) = failed (
    codes "source=v2 uid="
    ∷ show uid
    ∷ codes " package_count="
    ∷ show (length ps)
    ∷ codes " reason=ambiguous"
    ∷ [])
report_v2 s uid missing = failed (codes "source=v2 uid=" ∷ show uid ∷ codes " reason=unmapped" ∷ [])

unfoldable pub resolve_v2_uid_with_state : ℕ → ForegroundResolverState → ForegroundResolveReport
resolve_v2_uid_with_state uid s =
    if not (accepts_app s.app_uid_filter uid)
    then failed (codes "source=v2 uid=" ∷ show uid ∷ codes " reason=skipped_non_app" ∷ [])
    else if contains s.accessibility_uids uid
    then failed (codes "source=v2 uid=" ∷ show uid ∷ codes " reason=skipped_accessibility" ∷ [])
    else report_v2 s uid (uid_state s.cache uid)

-- The package of a candidate of a payload, if it is resolved, and the line on it.
abbrev pub identify_v1 : ForegroundResolverState → ℤ → ℕ → UidPackageState → Option Text × Text
identify_v1 s pid uid (exact p) =
    if contains s.blocked_packages p
    then (none, words (codes "source=v1 package=" ∷ p ∷ codes " reason=blocked" ∷ []))
    else (
      some p,
      words (
          codes "source=v1 pid="
          ∷ show_int pid
          ∷ codes " uid="
          ∷ show uid
          ∷ codes " package="
          ∷ p
          ∷ codes " reason=resolved"
          ∷ []),
    )
identify_v1 s pid uid (ambiguous ps) = (
  none,
  words (
      codes "source=v1 uid="
      ∷ show uid
      ∷ codes " package_count="
      ∷ show (length ps)
      ∷ codes " reason=ambiguous"
      ∷ []),
)
identify_v1 s pid uid missing = (
  none,
  words (
      codes "source=v1 pid="
      ∷ show_int pid
      ∷ codes " uid="
      ∷ show uid
      ∷ codes " reason=unmapped"
      ∷ []),
)

unfoldable pub candidate_v1 : ForegroundResolverState → ℤ → ℕ → Option Text × Text
candidate_v1 s pid uid =
    if not (accepts_app s.app_uid_filter uid)
    then (none, words (codes "source=v1 uid=" ∷ show uid ∷ codes " reason=skipped_non_app" ∷ []))
    else if contains s.accessibility_uids uid
    then (
      none,
      words (codes "source=v1 uid=" ∷ show uid ∷ codes " reason=skipped_accessibility" ∷ []),
    )
    else identify_v1 s pid uid (uid_state s.cache uid)

abbrev pub unresolved_v1 : List Text → ForegroundResolveReport
unresolved_v1 [] = unknown_report (codes "v1")
unresolved_v1 (l ∷ ls) = record {
  package_name = none;
  report_lines = (l ∷ ls) ++ codes "source=v1 reason=unknown" ∷ [];
}

module _ {E W : Type 0} (uid_for_pid : ℤ → Act E W (Option ℕ)) (s : ForegroundResolverState) where
  -- A candidate that is resolved ends the loop, and any other leaves its line.
  abbrev pub settle_v1 :
      (List Text → W → ForegroundResolveReport × W)
      → List Text
      → Option Text × Text
      → W
      → ForegroundResolveReport × W
  settle_v1 rest acc (some p, line) w =
      (record { package_name = some p; report_lines = acc ++ line ∷ [] }, w)
  settle_v1 rest acc (none, line) w = rest (acc ++ line ∷ []) w

  abbrev pub answer_v1 :
      (List Text → W → ForegroundResolveReport × W)
      → List Text
      → ℤ
      → Result (Option ℕ) E × W
      → ForegroundResolveReport × W
  answer_v1 rest acc pid (ok (some uid), w) = settle_v1 rest acc (candidate_v1 s pid uid) w
  answer_v1 rest acc pid (ok none, w) =
      rest
        (acc
          ++ words (codes "source=v1 pid=" ∷ show_int pid ∷ codes " reason=pid_uid_failed" ∷ [])
            ∷ [])
        w
  answer_v1 rest acc pid (err e, w) =
      rest
        (acc
          ++ words (codes "source=v1 pid=" ∷ show_int pid ∷ codes " reason=pid_uid_failed" ∷ [])
            ∷ [])
        w

  -- The loop over the lines of the payload, with the lines of the report so far.
  unfoldable pub loop_v1 : List Text → List Text → W → ForegroundResolveReport × W
  loop_v1 [] acc w = (unresolved_v1 acc, w)
  loop_v1 (line ∷ ls) acc w = elim (parse_i32 (trim line)) [
    | none ↦ loop_v1 ls acc w
    | some pid ↦ answer_v1 (loop_v1 ls) acc pid (uid_for_pid pid w)
  ]

  -- From the decoded payload on.
  unfoldable pub resolve_v1_content : Text → W → ForegroundResolveReport × W
  resolve_v1_content content w = loop_v1 (lines content) [] w

  unfoldable pub resolve_v1_payload_with_uid_resolver : List ℕ → W → ForegroundResolveReport × W
  unfolding resolve_v1_content
  resolve_v1_payload_with_uid_resolver payload w = resolve_v1_content (from_utf8_lossy payload) w

-- A report with the lines of a later one behind its own, and the package of that one.
abbrev pub extended : ForegroundResolveReport → ForegroundResolveReport → ForegroundResolveReport
extended r later = record {
  package_name = later.package_name;
  report_lines = r.report_lines ++ later.report_lines;
}

abbrev pub noted : ForegroundResolveReport → Text → ForegroundResolveReport
noted r line = record r { report_lines = r.report_lines ++ line ∷ [] }

module _ {W : Type 0} where
  abbrev pub after_report :
      ForegroundResolveReport → ForegroundResolveReport × W → ForegroundResolveReport × W
  after_report r (later, w) = (extended r later, w)

  -- The activity manager is asked only if there is no package.
  unfoldable pub resolve_after_v1_unavailable_lazy :
      ForegroundResolveReport → (W → ForegroundResolveReport × W) → W → ForegroundResolveReport × W
  resolve_after_v1_unavailable_lazy v1_report activity w =
      if is_some v1_report.package_name
      then (v1_report, w)
      else after_report (noted v1_report (codes "source=v1 reason=unavailable fallback=activity"))
          (activity w)

  abbrev pub after_v2 :
      ForegroundResolveReport
      → (W → ForegroundResolveReport × W)
      → ForegroundResolveReport × W
      → ForegroundResolveReport × W
  after_v2 r activity (v2_report, w) =
      if is_some v2_report.package_name
      then (extended r v2_report, w)
      else after_report
          (noted (record r { report_lines = r.report_lines ++ v2_report.report_lines })
            (codes "source=v2 reason=unavailable fallback=activity"))
          (activity w)

  unfoldable pub resolve_after_v1_v2_unavailable_lazy :
      ForegroundResolveReport
      → (W → ForegroundResolveReport × W)
      → (W → ForegroundResolveReport × W)
      → W
      → ForegroundResolveReport × W
  resolve_after_v1_v2_unavailable_lazy v1_report v2 activity w =
      if is_some v1_report.package_name
      then (v1_report, w)
      else after_v2 (noted v1_report (codes "source=v1 reason=unavailable fallback=v2")) activity
          (v2 w)
