-- ===== src/Watch.antt =====
-- services/watch.rs: how the events of a source reach the reducer and the services.
pub mod Replay
pub mod Reaction
pub mod Registrations
pub mod Poll
pub mod Sockets
pub mod Examples
use core_shift_engine.Base.{List, [], ◌∷◌, ◌++◌, Result, ok, err, Act}
use core_shift_engine.Host.{Host}
use core_shift_engine.Error.{EngineError}
use core_shift_engine.Events.{EngineEvent}
use core_shift_engine.State.{EngineState, apply}
use core_shift_engine.Dispatch.{EngineAction, dispatch}
use core_shift_engine.Services.{SystemServices, perform}

-- What `apply_events` changes: the state, the events emitted so far, and the world.
pub record Emission (h : Host) : Type 0 where
  pub state : EngineState
  pub emitted : List (EngineEvent h)
  pub world : h.World

-- The pair of `Reducer::apply` and `emitted.push`.
unfoldable pub emit : {h : Host} → EngineEvent h → Emission h → Emission h
emit event t = record t { state = apply event t.state; emitted = t.emitted ++ event ∷ [] }

-- The events of one action.
unfoldable pub emit_all : {h : Host} → List (EngineEvent h) → Emission h → Emission h
unfolding emit
emit_all [] t = t
emit_all (e ∷ es) t = emit_all es (emit e t)

abbrev performed :
    {h : Host}
    → (Emission h → Result (Unit {0}) (EngineError h) × Emission h)
    → Emission h
    → Result (List (EngineEvent h)) (EngineError h) × h.World
    → Result (Unit {0}) (EngineError h) × Emission h
performed rest t (ok events, w) = rest (emit_all events (record t { world = w }))
performed rest t (err e, w) = (err e, record t { world = w })

-- The loop over the actions of an event: an action that fails ends it.
unfoldable pub perform_all :
    {h : Host} → SystemServices h → List EngineAction → Act (EngineError h) (Emission h) (Unit {0})
unfolding emit_all
perform_all s [] t = (ok tt, t)
perform_all s (a ∷ actions) t = performed (perform_all s actions) t (perform s a t.world)

abbrev continued :
    {h : Host}
    → (Emission h → Result (Unit {0}) (EngineError h) × Emission h)
    → Result (Unit {0}) (EngineError h) × Emission h
    → Result (Unit {0}) (EngineError h) × Emission h
continued rest (ok u, t) = rest t
continued rest (err e, t) = (err e, t)

-- `apply_events`
unfoldable pub apply_events :
    {h : Host}
    → SystemServices h
    → List (EngineEvent h)
    → Act (EngineError h) (Emission h) (Unit {0})
unfolding perform_all
apply_events s [] t = (ok tt, t)
apply_events s (e ∷ es) t = continued (apply_events s es) (perform_all s (dispatch e) (emit e t))
