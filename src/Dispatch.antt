-- ===== src/Dispatch.antt =====
-- dispatch.rs: the actions that an event asks for.
use core_shift_engine.Base.{ℕ, ℤ, Bool, ◌||◌, Option, List, [], ◌∷◌, is_some, if◌then◌else◌}
use core_shift_engine.Text.Chars.{Text}
use core_shift_engine.Host.{Host}
use core_shift_engine.Events.{EngineEvent, foreground_candidate_changed}

pub data EngineAction : Type 0 where
  run_exec : List Text → Bool → EngineAction
  resolve_identity : Option ℤ → Option ℕ → EngineAction
  shutdown : EngineAction

unfoldable pub dispatch : {h : Host} → EngineEvent h → List EngineAction
dispatch (foreground_candidate_changed c) =
    if is_some c.pid || is_some c.uid then resolve_identity c.pid c.uid ∷ [] else []
dispatch _ = []
