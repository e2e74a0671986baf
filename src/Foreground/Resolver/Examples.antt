-- ===== src/Foreground/Resolver/Examples.antt =====
-- The resolver at a rebuilt cache, a small payload and a changed marker.
use core_shift_engine.Base.{
  ◌≡◌, suc, ◌↔◌, refl, true, false, [], ◌∷◌, some, ok, pos, ℕ, ℤ, Act, Among, Option, text_ord,
}
use core_shift_engine.Btree.Set.{contains}
use core_shift_engine.Text.Chars.{Text, codes, is_whitespace, is_ascii_digit}
use core_shift_engine.Text.Split.{lines, trim, trim_start}
use core_shift_engine.Text.Signed.{parse_i32}
use core_shift_engine.Text.Decimal.{parse_unsigned, digits_value}
use core_shift_engine.Samples.{sample_host, sample_snapshot, stale_cache, chat_app, mail_app}
use core_shift_engine.Foreground.Cache.{update_from_snapshot}
use core_shift_engine.Foreground.Cache.Examples.{chat_app_known}
use core_shift_engine.Foreground.Resolver.{
  ForegroundResolverState, PackageFileStat, foreground_changed, accepts_app,
}
use core_shift_engine.Foreground.Resolver.Reports.{
  ForegroundResolveReport, resolve_v2_uid_with_state, unknown_report,
  resolve_after_v1_unavailable_lazy, resolve_after_v1_v2_unavailable_lazy, resolve_v1_content,
  loop_v1, candidate_v1,
}
use core_shift_engine.Foreground.Resolver.Rebuilds.{Notes, foreground_changed-Notes}
use core_shift_engine.Foreground.Resolver.Verdict.{
  Resolves, resolve_v2_uid_with_state_iff, Names, resolve_v1_content-Names,
}
use core_shift_engine.Foreground.Resolver.Fallback.{fallbacks_lem}

abbrev sample_stat : PackageFileStat
sample_stat = record { mtime_sec = pos 5; mtime_nsec = pos 0; size = 9 }

abbrev sample_state : ForegroundResolverState
sample_state = record {
  cache = update_from_snapshot stale_cache sample_snapshot;
  blocked_packages = mail_app ∷ [];
  accessibility_uids = [];
  app_uid_filter = record { modulus = 100000; min_app_id = 10000 };
  cache_rebuilds = 1;
  foreground_changes = 2;
  marker_fingerprint = some (record sample_stat { size = 8 });
}

resolve_v2_uid_with_state_iff_example :
    ((resolve_v2_uid_with_state 10001 sample_state).package_name ≡ some chat_app)
    ↔ Resolves sample_state 10001 chat_app
resolve_v2_uid_with_state_iff_example = resolve_v2_uid_with_state_iff 10001 sample_state chat_app

foreground_changed-Notes_example :
    Notes {h = sample_host}
      (λ w. (ok sample_snapshot, suc w))
      (λ w. (ok sample_stat, suc w))
      3
      sample_state
      0
      (foreground_changed {h = sample_host}
        (λ w. (ok sample_snapshot, suc w))
        (λ w. (ok sample_stat, suc w))
        3
        (sample_state, 0))
foreground_changed-Notes_example =
    foreground_changed-Notes sample_host (λ w. (ok sample_snapshot, suc w))
      (λ w. (ok sample_stat, suc w)) 3 sample_state 0

abbrev no_report : ForegroundResolveReport
no_report = unknown_report (codes "v1")

abbrev ask : ℕ → ForegroundResolveReport × ℕ
ask w = (record { package_name = some chat_app; report_lines = [] }, 1)

fallbacks_lem_example :
    let one = resolve_after_v1_unavailable_lazy no_report ask 0 in
    let two = resolve_after_v1_v2_unavailable_lazy no_report ask ask 0 in
    (one.0.package_name ≡ some chat_app)
    × (two.0.package_name ≡ some chat_app)
    × (false ≡ true → (one ≡ (no_report, 0)) × (two ≡ (no_report, 0)))
    × (false ≡ false → true ≡ true → two.1 ≡ 1)
fallbacks_lem_example = fallbacks_lem no_report ask ask 0

abbrev uid_10001 : ℤ → Act (Unit {0}) ℕ (Option ℕ)
uid_10001 pid w = (ok (some 10001), w)

chat_found :
    (resolve_v1_content uid_10001 sample_state (codes "41") 0).0.package_name ≡ some chat_app
unfolding resolve_v1_content loop_v1 candidate_v1 accepts_app lines trim trim_start is_whitespace
    parse_i32 parse_unsigned digits_value is_ascii_digit contains text_ord
chat_found = rw chat_app_known refl

resolve_v1_content-Names_example :
    (line : Text) × Among line (lines (codes "41")) × Names uid_10001 sample_state chat_app line
resolve_v1_content-Names_example =
    resolve_v1_content-Names uid_10001 sample_state (codes "41") 0 chat_app chat_found
