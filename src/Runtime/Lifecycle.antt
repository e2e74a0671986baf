-- ===== src/Runtime/Lifecycle.antt =====
-- When a runtime starts.
use core_shift_engine.Base.{
  ◌≡◌, refl, true, false, Result, ok, err, if◌then◌else◌, Bool-cases, inl, inr, ap, sym, subst,
}
use core_shift_engine.Host.{Host}
use core_shift_engine.Error.{EngineError, already_started}
use core_shift_engine.Config.{validate}
use core_shift_engine.Config.Validation.{IsValid, validate_iff}
use core_shift_engine.Runtime.{
  EngineRuntime, validated, start, refresh_identity_cache, load_identity_cache, settled, Loaded,
}

-- A start that fails changes nothing; one that succeeds leaves the configuration as it was, and the
-- runtime started.
abbrev pub Starts :
    {h : Host}
    → EngineRuntime h × h.World
    → Result (Unit {0}) (EngineError h) × (EngineRuntime h × h.World)
    → Type 0
Starts (r, w) (ok u, (r', w')) =
    (r.started ≡ false) × IsValid r.config × (r'.started ≡ true) × (r'.config ≡ r.config)
Starts (r, w) (err e, (r', w')) = (¬ ((r.started ≡ false) × IsValid r.config)) × (r' ≡ r) × (w' ≡ w)

settled_config :
    {h : Host} (r : EngineRuntime h) (w : h.World)
    → (refresh_identity_cache r w).0.config ≡ r.config
unfolding refresh_identity_cache
settled_config {h} r w = unchanged (load_identity_cache r.config w).0
  where
    unchanged : (l : Loaded h) → (settled r l).config ≡ r.config
    unchanged (ok (c, s)) = refl
    unchanged (err e) = refl

-- A runtime starts exactly if it is not started and its configuration is valid, and then it is
-- started; a start that fails leaves the runtime and the world as they were.
pub start-Starts : {h : Host} (r : EngineRuntime h) (w : h.World) → Starts (r, w) (start (r, w))
unfolding start
start-Starts {h} r w = elim (Bool-cases r.started) [
  | inl on ↦
      subst (Starts (r, w))
        (sym (
          ap (λ b. if b then (err already_started, (r, w)) else validated r w (validate r.config))
            on))
        ((λ p. cc), refl, refl)
  | inr off ↦
      subst (Starts (r, w))
        (sym (
          ap (λ b. if b then (err already_started, (r, w)) else validated r w (validate r.config))
            off))
        (by_validation off (validate r.config) refl)
]
  where
    by_validation :
        r.started ≡ false
        → (v : Result (Unit {0}) (EngineError h)) → validate r.config ≡ v
        → Starts (r, w) (validated r w v)
    by_validation off (ok u) e = (off, (validate_iff r.config).0 e, refl, settled_config r w)
    by_validation off (err x) e = ((λ p. cc ((validate_iff r.config).1 p.1)), refl, refl)
