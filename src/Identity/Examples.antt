-- ===== src/Identity/Examples.antt =====
-- The identity of a candidate at a cache that does not know it.
use core_shift_engine.Base.{◌≡◌, refl, some, none, false, pos}
use core_shift_engine.Btree.Map
use core_shift_engine.Btree.Set.{contains}
use core_shift_engine.Samples.{sample_filter, stale_cache}
use core_shift_engine.Foreground.Source.{
  ForegroundCandidate, candidate_for_uid, is_valid_uid, accepts, cgroup_v2,
}
use core_shift_engine.Foreground.Cache.{uid_state, packages_for_uid}
use core_shift_engine.Identity.{resolve}
use core_shift_engine.Identity.Agreement.{identity_of, resolve-candidate_for_uid}

abbrev unresolved_candidate : ForegroundCandidate
unresolved_candidate = record {
  source = cgroup_v2;
  pid = some (pos 7);
  uid = some 10001;
  package_name = none;
  identity_resolved = false;
}

made :
    candidate_for_uid sample_filter cgroup_v2 (some (pos 7)) 10001 (some stale_cache)
    ≡ some unresolved_candidate
unfolding candidate_for_uid is_valid_uid accepts contains uid_state packages_for_uid Map.get
made = refl

resolve-candidate_for_uid_example :
    (unresolved_candidate.uid ≡ some 10001)
    × (resolve (record { package_cache = some stale_cache }) (some (pos 7)) (some 10001)
        ≡ some (identity_of unresolved_candidate))
resolve-candidate_for_uid_example =
    resolve-candidate_for_uid sample_filter cgroup_v2 (some (pos 7)) 10001 stale_cache
      unresolved_candidate made
