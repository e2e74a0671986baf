-- ===== src/Foreground/Source/Filter.antt =====
-- Which uids become candidates, and what a resolved candidate is.
use core_shift_engine.Base.{
  List, ℕ, ◌%◌, ◌≤◌, ◌≡◌, ◌≢◌, ◌↔◌, ◌⊎◌, refl, true, false, Option, none, some, ℤ, arith, nat_ord,
  text_ord, Among, Each, inl, inr, Bool-cases, subst, ap,
}
use core_shift_engine.Btree.Set.{contains, contains→Among, Among→contains}
use core_shift_engine.Text.Chars.{Text}
use core_shift_engine.Foreground.Cache.{
  UidPackageCache, UidPackageState, PackageUidSnapshot, exact, missing, ambiguous, uid_state,
  update_from_snapshot,
}
use core_shift_engine.Foreground.Cache.Rebuild.{packages_of}
use core_shift_engine.Foreground.Cache.States.{Describes, uid_state-Describes}
use core_shift_engine.Foreground.Source.{
  ForegroundSourceKind, ForegroundCandidate, ForegroundCandidateFilter, UidRemainderFilter, accepts,
  refuses, is_valid_uid, identify, candidate_for_uid,
}

-- What the filter is configured to let through.
abbrev pub Fits : Option UidRemainderFilter → ℕ → Type 0
Fits none uid = Unit {0}
Fits (some f) uid = (f.modulus ≢ 0) × (f.min_remainder ≤ uid % f.modulus)

pub record Admits (f : ForegroundCandidateFilter) (uid : ℕ) : Type 0 where
  pub not_blocked : ¬ Among uid f.blocked_uids
  pub not_accessibility : ¬ Among uid f.accessibility_uids
  pub fits : Fits f.uid_remainder_filter uid
  pub app_uid : (f.allow_system_uids ≡ true) ⊎ (10000 ≤ uid)

not_contained : (s : List ℕ) (uid : ℕ) → contains s uid ≡ false → ¬ Among uid s
not_contained s uid h m = cc (Among→contains s uid m)

not_Among : (s : List ℕ) (uid : ℕ) → ¬ Among uid s → contains s uid ≡ false
not_Among s uid h = elim (Bool-cases (contains s uid)) [
  | inl e ↦ absurd (h (contains→Among s uid e))
  | inr e ↦ e
]

refuses→Fits : (o : Option UidRemainderFilter) (uid : ℕ) → refuses o uid ≡ false → Fits o uid
unfolding accepts
refuses→Fits none uid h = tt
refuses→Fits (some f) uid h = ground arith

Fits→refuses : (o : Option UidRemainderFilter) (uid : ℕ) → Fits o uid → refuses o uid ≡ false
unfolding accepts
Fits→refuses none uid h = refl
Fits→refuses (some f) uid h = ground arith

-- The test decides the configuration: no blocked uid, no accessibility uid, the remainder in range
-- by a modulus that is not 0, and no system uid unless these are allowed.
pub is_valid_uid_iff :
    (f : ForegroundCandidateFilter) (uid : ℕ) → (is_valid_uid f uid ≡ true) ↔ Admits f uid
unfolding is_valid_uid
is_valid_uid_iff f uid = (to, from)
  where
    to : is_valid_uid f uid ≡ true → Admits f uid
    to h = record {
      not_blocked = not_contained f.blocked_uids uid (ground arith);
      not_accessibility = not_contained f.accessibility_uids uid (ground arith);
      fits = refuses→Fits f.uid_remainder_filter uid (ground arith);
      app_uid = ground arith;
    }

    from : Admits f uid → is_valid_uid f uid ≡ true
    from a = ground (
      arith,
      not_Among f.blocked_uids uid a.not_blocked,
      not_Among f.accessibility_uids uid a.not_accessibility,
      Fits→refuses f.uid_remainder_filter uid a.fits,
    )

identify_inversion :
    (f : ForegroundCandidateFilter) (d : ForegroundCandidate) (st : UidPackageState)
    (c : ForegroundCandidate)
    → identify f d st ≡ some c
    → d.identity_resolved ≡ false
    → c.identity_resolved ≡ true
    → (p : Text) × (st ≡ exact p)
      × (contains f.blocked_packages p ≡ false)
      × (c ≡ record d { package_name = some p; identity_resolved = true })
identify_inversion f d (exact p) c h u r = (p, refl, ground arith, ground arith)
identify_inversion f d missing c h u r = absurd (ground arith)
identify_inversion f d (ambiguous ps) c h u r = cc

candidate_inversion :
    (f : ForegroundCandidateFilter) (source : ForegroundSourceKind) (pid : Option ℤ) (uid : ℕ)
    (cache : UidPackageCache) (c : ForegroundCandidate)
    → candidate_for_uid f source pid uid (some cache) ≡ some c
    → c.identity_resolved ≡ true
    → (p : Text) × (uid_state cache uid ≡ exact p)
      × (contains f.blocked_packages p ≡ false)
      × (is_valid_uid f uid ≡ true)
      × (c ≡ record {
        source = source;
        pid = pid;
        uid = some uid;
        package_name = some p;
        identity_resolved = true;
      })
unfolding candidate_for_uid
candidate_inversion f source pid uid cache c h r = elim (Bool-cases (is_valid_uid f uid)) [
  | inl valid ↦
      let (p, known, free, shape) =
        identify_inversion f _ (uid_state cache uid) c (rw (valid, candidate_for_uid) at h) refl
          r in
      (p, known, free, valid, shape)
  | inr refused ↦ cc (rw (refused, candidate_for_uid) at h)
]

-- A candidate that is resolved from a cache rebuilt from a snapshot carries the uid that was asked
-- for, which the filter admits, and a package that is not blocked and is the one and only package
-- that the snapshot's entries give to that uid.
pub candidate_for_uid-resolved :
    (f : ForegroundCandidateFilter) (source : ForegroundSourceKind) (pid : Option ℤ) (uid : ℕ)
    (old : UidPackageCache) (s : PackageUidSnapshot) (c : ForegroundCandidate)
    → candidate_for_uid f source pid uid (some (update_from_snapshot old s)) ≡ some c
    → c.identity_resolved ≡ true
    → (p : Text) × (c.package_name ≡ some p)
      × (c.uid ≡ some uid)
      × Admits f uid
      × (¬ Among p f.blocked_packages)
      × Among p (packages_of uid s.entries)
      × Each (λ q. q ≡ p) (packages_of uid s.entries)
candidate_for_uid-resolved f source pid uid old s c h r =
    let (p, known, free, valid, shape) =
      candidate_inversion f source pid uid (update_from_snapshot old s) c h r in
    let says =
      subst (Describes (packages_of uid s.entries)) known (uid_state-Describes old s uid) in
    (
      p,
      ap (λ (d : ForegroundCandidate). d.package_name) shape,
      ap (λ (d : ForegroundCandidate). d.uid) shape,
      (is_valid_uid_iff f uid).0 valid,
      (λ m. cc (Among→contains f.blocked_packages p m)),
      says.0,
      says.1,
    )
