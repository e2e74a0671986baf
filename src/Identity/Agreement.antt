-- ===== src/Identity/Agreement.antt =====
-- The identity service and the candidate filter, on the same cache.
use core_shift_engine.Base.{
  ℕ, ◌≡◌, refl, false, Option, none, some, ℤ, if◌then◌else◌, Bool-cases, inl, inr, subst, text_ord,
}
use mathlib.Core.Option.{some-injective}
use core_shift_engine.Btree.Set.{contains}
use core_shift_engine.Foreground.Cache.{UidPackageCache, UidPackageState, uid_state}
use core_shift_engine.Foreground.Source.{
  ForegroundSourceKind, ForegroundCandidate, ForegroundCandidateFilter, candidate_for_uid,
  is_valid_uid, identify,
}
use core_shift_engine.Identity.{ResolvedIdentity, exact, missing, cache_only, resolve}

-- The identity that a candidate promises.
abbrev pub identity_of : ForegroundCandidate → ResolvedIdentity
identity_of c = record {
  pid = c.pid;
  uid = c.uid;
  package_name = c.package_name;
  state = if c.identity_resolved then exact else missing;
  source = cache_only;
}

Agrees : UidPackageCache → ℕ → ForegroundCandidate → Type 0
Agrees cache uid c =
    (c.uid ≡ some uid)
    × (resolve (record { package_cache = some cache }) c.pid c.uid ≡ some (identity_of c))

-- The candidate before the cache is asked.
abbrev bare : ForegroundSourceKind → Option ℤ → ℕ → ForegroundCandidate
bare source pid uid = record {
  source = source;
  pid = pid;
  uid = some uid;
  package_name = none;
  identity_resolved = false;
}

identify-Agrees :
    (f : ForegroundCandidateFilter) (source : ForegroundSourceKind) (pid : Option ℤ) (uid : ℕ)
    (cache : UidPackageCache) (st : UidPackageState) (c : ForegroundCandidate)
    → uid_state cache uid ≡ st
    → identify f (bare source pid uid) st ≡ some c
    → Agrees cache uid c
unfolding Agrees resolve
identify-Agrees f source pid uid cache (UidPackageState.exact p) c known h =
    elim (Bool-cases (contains f.blocked_packages p)) [
      | inl blocked ↦ cc (rw blocked at h)
      | inr free ↦
          subst (Agrees cache uid) (some-injective _ c (rw free at h)) (refl, rw known refl)
    ]
identify-Agrees f source pid uid cache UidPackageState.missing c known h =
    subst (Agrees cache uid) (some-injective _ c h) (refl, rw known refl)
identify-Agrees f source pid uid cache (UidPackageState.ambiguous ps) c known h = cc

-- A candidate that the filter makes with a cache carries the uid asked for, and is resolved by the identity service with the same
-- cache to the pid, the uid and the package of the candidate, as exact if the candidate is resolved
-- and as missing otherwise.
pub resolve-candidate_for_uid :
    (f : ForegroundCandidateFilter) (source : ForegroundSourceKind) (pid : Option ℤ) (uid : ℕ)
    (cache : UidPackageCache) (c : ForegroundCandidate)
    → candidate_for_uid f source pid uid (some cache) ≡ some c
    → (c.uid ≡ some uid)
      × (resolve (record { package_cache = some cache }) c.pid c.uid ≡ some (identity_of c))
unfolding candidate_for_uid Agrees
resolve-candidate_for_uid f source pid uid cache c h = elim (Bool-cases (is_valid_uid f uid)) [
  | inl valid ↦
      identify-Agrees f source pid uid cache (uid_state cache uid) c refl
        (rw (valid, candidate_for_uid) at h)
  | inr refused ↦ cc (rw (refused, candidate_for_uid) at h)
]
