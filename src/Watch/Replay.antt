-- ===== src/Watch/Replay.antt =====
-- The state is the replay of what was emitted.
use core_shift_engine.Base.{◌≡◌, refl, sym, ◌∙◌, List, [], ◌∷◌, ◌++◌, Result, ok, err}
use mathlib.Core.List.{append_assoc, append-nil}
use core_shift_engine.Host.{Host}
use core_shift_engine.Error.{EngineError}
use core_shift_engine.Events.{EngineEvent}
use core_shift_engine.State.{EngineState, apply, apply_all}
use core_shift_engine.Dispatch.{EngineAction, dispatch}
use core_shift_engine.Services.{SystemServices, perform}
use core_shift_engine.Watch.{
  Emission, emit, emit_all, performed, perform_all, continued, apply_events,
}

-- From one point to another only events were emitted, each applied to the state in turn.
abbrev pub Replays : {h : Host} → Emission h → Emission h → Type 0
Replays {h} t u =
    (es : List (EngineEvent h)) × (u.emitted ≡ t.emitted ++ es) × (u.state ≡ apply_all es t.state)

module _ {h : Host} where
  pub apply_all-append :
      (es fs : List (EngineEvent h)) (s : EngineState)
      → apply_all (es ++ fs) s ≡ apply_all fs (apply_all es s)
  unfolding apply_all
  apply_all-append [] fs s = refl
  apply_all-append (e ∷ es) fs s = apply_all-append es fs (apply e s)

  pub Replays-refl : (t : Emission h) → Replays t t
  unfolding apply_all
  Replays-refl t = ([], sym (append-nil t.emitted), refl)

  pub Replays-trans : (t u v : Emission h) → Replays t u → Replays u v → Replays t v
  Replays-trans t u v (es, a, b) (fs, c, d) = (
    es ++ fs,
    c ∙ rw a (append_assoc t.emitted es fs),
    d ∙ rw b (sym (apply_all-append es fs t.state)),
  )

  pub emit-Replays : (e : EngineEvent h) (t : Emission h) → Replays t (emit e t)
  unfolding emit apply_all
  emit-Replays e t = (e ∷ [], refl, refl)

  emit_all-Replays : (es : List (EngineEvent h)) (t : Emission h) → Replays t (emit_all es t)
  unfolding emit_all
  emit_all-Replays [] t = Replays-refl t
  emit_all-Replays (e ∷ es) t =
      Replays-trans t (emit e t) (emit_all es (emit e t)) (emit-Replays e t)
        (emit_all-Replays es (emit e t))

  performed-Replays :
      (rest : Emission h → Result (Unit {0}) (EngineError h) × Emission h)
      → ((t : Emission h) → Replays t (rest t).1)
      → (t : Emission h) (r : Result (List (EngineEvent h)) (EngineError h) × h.World)
      → Replays t (performed rest t r).1
  performed-Replays rest k t (ok events, w) =
      let u : Emission h = record t { world = w } in
      Replays-trans t (emit_all events u) (rest (emit_all events u)).1 (emit_all-Replays events u)
        (k (emit_all events u))
  performed-Replays rest k t (err e, w) = Replays-refl (record t { world = w })

  perform_all-Replays :
      (s : SystemServices h) (actions : List EngineAction) (t : Emission h)
      → Replays t (perform_all s actions t).1
  unfolding perform_all
  perform_all-Replays s [] t = Replays-refl t
  perform_all-Replays s (a ∷ actions) t =
      performed-Replays (perform_all s actions) (perform_all-Replays s actions) t
        (perform s a t.world)

  continued-Replays :
      (rest : Emission h → Result (Unit {0}) (EngineError h) × Emission h)
      → ((t : Emission h) → Replays t (rest t).1)
      → (r : Result (Unit {0}) (EngineError h) × Emission h) → Replays r.1 (continued rest r).1
  continued-Replays rest k (ok u, t) = k t
  continued-Replays rest k (err e, t) = Replays-refl t

  -- Whether it succeeds or fails on the way, `apply_events` only appends to the emitted events, and
  -- the state it leaves is the state it found with just these events applied, each once and in the
  -- order in which they were emitted.
  pub apply_events-Replays :
      (s : SystemServices h) (es : List (EngineEvent h)) (t : Emission h)
      → Replays t (apply_events s es t).1
  unfolding apply_events
  apply_events-Replays s [] t = Replays-refl t
  apply_events-Replays s (e ∷ es) t =
      let r = perform_all s (dispatch e) (emit e t) in
      Replays-trans t (emit e t) (continued (apply_events s es) r).1 (emit-Replays e t) (
        Replays-trans (emit e t) r.1 (continued (apply_events s es) r).1
          (perform_all-Replays s (dispatch e) (emit e t))
          (continued-Replays (apply_events s es) (apply_events-Replays s es) r))
