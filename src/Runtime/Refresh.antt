-- ===== src/Runtime/Refresh.antt =====
-- What a refresh leaves in the runtime.
use core_shift_engine.Base.{
  ℕ, ◌≡◌, ◌⊎◌, refl, sym, subst, true, [], none, Result, ok, err, inl, inr, if◌then◌else◌,
}
use core_shift_engine.Host.{Host}
use core_shift_engine.Error.{EngineError}
use core_shift_engine.Config.{EngineConfig, IdentityCacheProviderMode, disabled, cmd_package_list}
use core_shift_engine.Exec.{request, run_capture_stdout}
use core_shift_engine.Foreground.Cache.{
  PackageUidSnapshot, missing, empty_cache, uid_state, update_from_snapshot,
}
use core_shift_engine.Foreground.Cache.Parse.{parse_cmd_package_list_stdout}
use core_shift_engine.Foreground.Cache.Rebuild.{packages_of, update_from_snapshot_marks}
use core_shift_engine.Foreground.Cache.States.{Describes, uid_state-Describes, empty_cache-missing}
use core_shift_engine.Foreground.Cache.Provider.{load, list_packages, snapshot_of}
use core_shift_engine.Runtime.{
  EngineRuntime, Loaded, warmed, loaded, provider_of, load_identity_cache, settled,
  refresh_identity_cache, new_runtime, default_warmup_state,
}

-- The cache and what is told of it agree.
pub record IsConsistent {h : Host} (r : EngineRuntime h) : Type 0 where
  pub same_source : r.identity_cache_state.source ≡ r.identity_cache.source
  pub same_coherence : r.identity_cache_state.coherent ≡ r.identity_cache.coherent
  pub one_outcome :
      (r.identity_cache_state.source ≡ none) ⊎ (r.identity_cache_state.last_cache_error ≡ none)
  pub empty_without_source :
      r.identity_cache_state.source ≡ none → (uid : ℕ) → uid_state r.identity_cache uid ≡ missing

-- A new runtime is consistent.
new_runtime-IsConsistent :
    {h : Host} (c : EngineConfig h) (w : h.World) → IsConsistent (new_runtime c w).0
unfolding new_runtime
new_runtime-IsConsistent c w = record {
  same_source = refl;
  same_coherence = refl;
  one_outcome = inl refl;
  empty_without_source = λ e. empty_cache-missing;
}

abbrev WellLoaded : {h : Host} → Loaded h → Type 0
WellLoaded {h} l = (r : EngineRuntime h) → IsConsistent (settled r l)

warmed-WellLoaded : {h : Host} (s : PackageUidSnapshot) → WellLoaded {h = h} (ok (warmed s))
warmed-WellLoaded s r = record {
  same_source = sym (update_from_snapshot_marks empty_cache s).0;
  same_coherence = sym (update_from_snapshot_marks empty_cache s).1;
  one_outcome = inr refl;
  empty_without_source = λ e. cc;
}

failed-WellLoaded : {h : Host} (e : EngineError h) → WellLoaded {h = h} (err e)
failed-WellLoaded e r = record {
  same_source = refl;
  same_coherence = refl;
  one_outcome = inl refl;
  empty_without_source = λ k. empty_cache-missing;
}

disabled-WellLoaded : {h : Host} → WellLoaded {h = h} (ok (empty_cache, default_warmup_state))
disabled-WellLoaded r = record {
  same_source = refl;
  same_coherence = refl;
  one_outcome = inl refl;
  empty_without_source = λ k. empty_cache-missing;
}

load-WellLoaded :
    {h : Host} (c : EngineConfig h) (w : h.World) → WellLoaded (load_identity_cache c w).0
unfolding load_identity_cache
load-WellLoaded {h} c w = by_mode c.identity_cache.provider_mode
  where
    by_answer : (a : Result PackageUidSnapshot (EngineError h) × h.World) → WellLoaded (loaded a).0
    by_answer (ok s, w') = warmed-WellLoaded s
    by_answer (err e, w') = failed-WellLoaded e

    by_mode :
        (m : IdentityCacheProviderMode)
        → WellLoaded {h = h}
            (elim m as (λ x. Loaded h × h.World) [
              | disabled ↦ (ok (empty_cache, default_warmup_state), w)
              | cmd_package_list ↦ loaded (load (provider_of c) w)
            ]).0
    by_mode disabled = disabled-WellLoaded
    by_mode cmd_package_list = by_answer (load (provider_of c) w)

-- A refresh leaves a consistent runtime, whatever it found and whether or not the provider answers:
-- the state tells the source and the coherence of the cache, it never tells both a source and an
-- error, and without a source no uid has a package.
pub refresh_identity_cache-IsConsistent :
    {h : Host} (r : EngineRuntime h) (w : h.World) → IsConsistent (refresh_identity_cache r w).0
unfolding refresh_identity_cache
refresh_identity_cache-IsConsistent r w = load-WellLoaded r.config w r

-- What is loaded when the package command runs and exits with 0.
load_identity_cache-listed :
    {h : Host} (c : EngineConfig h) (w w' : h.World) (output : h.Output)
    → c.identity_cache.provider_mode ≡ cmd_package_list
    → h.spawn
        (request c.exec (list_packages c.identity_cache.cmd_path c.identity_cache.user_id) true)
        w
      ≡ (ok output, w')
    → load_identity_cache c w ≡ (ok (warmed (snapshot_of h output 5)), w')
unfolding load_identity_cache load run_capture_stdout
load_identity_cache-listed c w w' output mode ran = rw (mode, ran) refl

snapshot_of-Describes :
    (h : Host) (output : h.Output) (uid : ℕ)
    → h.exited_zero output ≡ true
    → Describes
        (packages_of uid (parse_cmd_package_list_stdout (h.stdout output)))
        (uid_state (update_from_snapshot empty_cache (snapshot_of h output 5)) uid)
snapshot_of-Describes h output uid zero_exit =
    subst
      (λ b.
        Describes
          (packages_of uid (if b then parse_cmd_package_list_stdout (h.stdout output) else []))
          (uid_state (update_from_snapshot empty_cache (snapshot_of h output 5)) uid))
      zero_exit (uid_state-Describes empty_cache (snapshot_of h output 5) uid)

-- If the package command is configured, runs and exits with 0, then after a refresh the state of a
-- uid is what the listing printed by the command says of it.
pub refresh_identity_cache-Describes :
    {h : Host} (r : EngineRuntime h) (w w' : h.World) (output : h.Output) (uid : ℕ)
    → r.config.identity_cache.provider_mode ≡ cmd_package_list
    → h.spawn
        (request r.config.exec
          (list_packages r.config.identity_cache.cmd_path r.config.identity_cache.user_id)
          true)
        w
      ≡ (ok output, w')
    → h.exited_zero output ≡ true
    → Describes
        (packages_of uid (parse_cmd_package_list_stdout (h.stdout output)))
        (uid_state (refresh_identity_cache r w).0.identity_cache uid)
unfolding refresh_identity_cache
refresh_identity_cache-Describes {h} r w w' output uid mode ran zero_exit =
    subst
      (λ l.
        Describes (packages_of uid (parse_cmd_package_list_stdout (h.stdout output)))
          (uid_state (settled r l.0).identity_cache uid))
      (sym (load_identity_cache-listed r.config w w' output mode ran))
      (snapshot_of-Describes h output uid zero_exit)
