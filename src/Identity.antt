-- ===== src/Identity.antt =====
-- services/identity.rs: a process or a uid resolved by the cache.
pub mod Agreement
mod Examples
use core_shift_engine.Base.{ℕ, ℤ, Option, none, some, option_map}
use core_shift_engine.Text.Chars.{Text}
use core_shift_engine.Foreground.Cache.{UidPackageCache, UidPackageState, uid_state}

pub data ResolvedIdentityState : Type 0 where
  exact missing ambiguous unresolved : ResolvedIdentityState

pub data ResolvedIdentitySource : Type 0 where
  cache_only : ResolvedIdentitySource

pub record ResolvedIdentity : Type 0 where
  pub pid : Option ℤ
  pub uid : Option ℕ
  pub package_name : Option Text
  pub state : ResolvedIdentityState
  pub source : ResolvedIdentitySource

pub record IdentityService : Type 0 where
  pub package_cache : Option UidPackageCache

abbrev pub described : UidPackageState → Option Text × ResolvedIdentityState
described (UidPackageState.exact p) = (some p, exact)
described UidPackageState.missing = (none, missing)
described (UidPackageState.ambiguous ps) = (none, ambiguous)

abbrev pub look_up : Option UidPackageCache → ℕ → Option Text × ResolvedIdentityState
look_up none uid = (none, unresolved)
look_up (some cache) uid = described (uid_state cache uid)

-- With no uid there is nothing to look up: the cache knows no processes.
unfoldable pub resolve : IdentityService → Option ℤ → Option ℕ → Option ResolvedIdentity
resolve s pid none =
    option_map
      (λ p. record {
        pid = some p;
        uid = none;
        package_name = none;
        state = unresolved;
        source = cache_only;
      })
      pid
resolve s pid (some uid) =
    let (package_name, state) = look_up s.package_cache uid in
    some (record {
      pid = pid;
      uid = some uid;
      package_name = package_name;
      state = state;
      source = cache_only;
    })
