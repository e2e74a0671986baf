-- ===== src/Foreground/Source/Examples.antt =====
-- The candidate filter at a rebuilt cache.
use core_shift_engine.Base.{◌≡◌, ◌↔◌, refl, true, some, [], ◌∷◌, pos, Each, Among, text_ord}
use core_shift_engine.Btree.Set.{contains}
use core_shift_engine.Text.Chars.{Text}
use core_shift_engine.Samples.{
  sample_filter, sample_snapshot, sample_entries, stale_cache, chat_candidate, mail_app,
}
use core_shift_engine.Foreground.Cache.{update_from_snapshot}
use core_shift_engine.Foreground.Cache.Rebuild.{packages_of}
use core_shift_engine.Foreground.Cache.Examples.{chat_app_known}
use core_shift_engine.Foreground.Source.{accepts, is_valid_uid, candidate_for_uid, cgroup_v1}
use core_shift_engine.Foreground.Source.Filter.{
  Admits, is_valid_uid_iff, candidate_for_uid-resolved,
}

is_valid_uid_iff_example : (is_valid_uid sample_filter 10001 ≡ true) ↔ Admits sample_filter 10001
is_valid_uid_iff_example = is_valid_uid_iff sample_filter 10001

pub chat_resolved :
    candidate_for_uid sample_filter cgroup_v1
      (some (pos 41))
      10001
      (some (update_from_snapshot stale_cache sample_snapshot))
    ≡ some chat_candidate
unfolding candidate_for_uid is_valid_uid accepts contains text_ord
chat_resolved = rw chat_app_known refl

candidate_for_uid-resolved_example :
    (p : Text) × (chat_candidate.package_name ≡ some p)
    × (chat_candidate.uid ≡ some 10001)
    × Admits sample_filter 10001
    × (¬ Among p (mail_app ∷ []))
    × Among p (packages_of 10001 sample_entries)
    × Each (λ q. q ≡ p) (packages_of 10001 sample_entries)
candidate_for_uid-resolved_example =
    candidate_for_uid-resolved sample_filter cgroup_v1 (some (pos 41)) 10001 stale_cache
      sample_snapshot chat_candidate chat_resolved refl
