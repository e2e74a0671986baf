-- ===== src/Watch/Reaction.antt =====
-- What a new candidate sets off.
use core_shift_engine.Base.{◌≡◌, refl, sym, ok, some, [], ◌∷◌, ◌++◌, Option, ℕ, ℤ, subst, arith}
use core_shift_engine.Host.{Host}
use core_shift_engine.Events.{foreground_candidate_changed, identity_resolved}
use core_shift_engine.Dispatch.{dispatch, resolve_identity}
use core_shift_engine.State.{apply}
use core_shift_engine.Foreground.Cache.{UidPackageCache}
use core_shift_engine.Foreground.Source.{
  ForegroundSourceKind, ForegroundCandidate, ForegroundCandidateFilter, candidate_for_uid,
}
use core_shift_engine.Identity.{resolve, ResolvedIdentity}
use core_shift_engine.Identity.Agreement.{identity_of, resolve-candidate_for_uid}
use core_shift_engine.Services.{SystemServices, perform}
use core_shift_engine.Watch.{Emission, emit, emit_all, perform_all, apply_events}

dispatch-candidate :
    (h : Host) (c : ForegroundCandidate) (uid : ℕ)
    → c.uid ≡ some uid
    → dispatch {h = h} (foreground_candidate_changed c) ≡ resolve_identity c.pid c.uid ∷ []
unfolding dispatch
dispatch-candidate h c uid e = ground arith

perform-resolve_identity :
    {h : Host} (s : SystemServices h) (pid : Option ℤ) (uid : Option ℕ) (i : ResolvedIdentity)
    (w : h.World)
    → resolve s.identity pid uid ≡ some i
    → perform s (resolve_identity pid uid) w ≡ (ok (identity_resolved i ∷ []), w)
unfolding perform
perform-resolve_identity s pid uid i w e = rw e refl

-- A candidate that the filter makes with the cache of the services, told as an event, is resolved
-- at once: the two events are emitted in this order, no error is returned, the world is left alone,
-- and the state holds the identity of the candidate, with its package.
pub apply_events-candidate :
    {h : Host} (s : SystemServices h) (f : ForegroundCandidateFilter)
    (source : ForegroundSourceKind) (pid : Option ℤ) (uid : ℕ) (cache : UidPackageCache)
    (c : ForegroundCandidate) (t : Emission h)
    → s.identity.package_cache ≡ some cache
    → candidate_for_uid f source pid uid (some cache) ≡ some c
    → apply_events s (foreground_candidate_changed c ∷ []) t ≡ (
      ok tt,
      record {
        state = record t.state { last_identity = some (identity_of c) };
        emitted =
            (t.emitted ++ foreground_candidate_changed c ∷ [])
            ++ identity_resolved (identity_of c) ∷ [];
        world = t.world;
      },
    )
unfolding apply_events perform_all emit_all emit apply
apply_events-candidate {h} s f source pid uid cache c t known made =
    let (asked, found) = resolve-candidate_for_uid f source pid uid cache c made in
    rw
      (
        dispatch-candidate h c uid asked,
        perform-resolve_identity s c.pid c.uid (identity_of c) t.world (
            subst (λ o. resolve (record { package_cache = o }) c.pid c.uid ≡ some (identity_of c))
              (sym known) found),
      )
      refl
