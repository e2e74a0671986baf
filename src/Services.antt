-- ===== src/Services.antt =====
-- services/mod.rs: the actions performed.
use core_shift_engine.Base.{List, [], ◌∷◌, Option, none, some, Result, ok, err, Act, if◌then◌else◌}
use core_shift_engine.Host.{Host}
use core_shift_engine.Error.{EngineError}
use core_shift_engine.Events.{EngineEvent, exec_completed, identity_resolved, runtime_stopped}
use core_shift_engine.Dispatch.{EngineAction, run_exec, resolve_identity, shutdown}
use core_shift_engine.Config.{ExecConfig}
use core_shift_engine.Exec.{run, run_capture_stdout}
use core_shift_engine.Identity.{IdentityService, ResolvedIdentity, resolve}
use core_shift_engine.Foreground.Cache.{UidPackageCache}

pub record SystemServices (h : Host) : Type 0 where
  pub exec : ExecConfig h
  pub identity : IdentityService

abbrev pub new_services : {h : Host} → ExecConfig h → SystemServices h
new_services exec = record { exec = exec; identity = record { package_cache = none } }

abbrev pub with_uid_package_cache :
    {h : Host} → SystemServices h → UidPackageCache → SystemServices h
with_uid_package_cache s cache = record s { identity = record { package_cache = some cache } }

abbrev completed :
    {h : Host}
    → Result h.Output (EngineError h) × h.World
    → Result (List (EngineEvent h)) (EngineError h) × h.World
completed (ok output, w) = (ok (exec_completed output ∷ []), w)
completed (err e, w) = (err e, w)

abbrev event_of : {h : Host} → Option ResolvedIdentity → List (EngineEvent h)
event_of none = []
event_of (some identity) = identity_resolved identity ∷ []

unfoldable pub perform :
    {h : Host}
    → SystemServices h
    → EngineAction
    → Act (EngineError h) h.World (List (EngineEvent h))
unfolding run run_capture_stdout resolve
perform s (run_exec argv capture_stdout) w =
    completed (if capture_stdout then run_capture_stdout s.exec argv w else run s.exec argv w)
perform s (resolve_identity pid uid) w = (ok (event_of (resolve s.identity pid uid)), w)
perform s shutdown w = (ok (runtime_stopped ∷ []), w)
