-- ===== src/Runtime/Step.antt =====
-- `EngineRuntime::step` of runtime.rs: one poll of the watch, and the refresh that it may ask for.
use core_shift_engine.Base.{
  ℤ, ◌≡◌, refl, ◌∙◌, sym, ap, false, not, List, [], ◌∷◌, Option, none, some, Result, ok, err, Act,
  if◌then◌else◌, if_both, Bool-cases, inl, inr,
}
use core_shift_engine.Btree.Set.{BtreeSet}
use core_shift_engine.Host.{Host}
use core_shift_engine.Error.{EngineError, not_started}
use core_shift_engine.Events.{EngineEvent}
use core_shift_engine.State.{EngineState, apply_all}
use core_shift_engine.Foreground.Source.{ForegroundSource}
use core_shift_engine.Watch.{Emission, emit}
use core_shift_engine.Watch.Replay.{apply_all-append, Replays, Replays-refl, emit-Replays}
use core_shift_engine.Watch.Registrations.{EngineWatch}
use core_shift_engine.Watch.Registrations.Shape.{IsWatch}
use core_shift_engine.Watch.Poll.{
  EngineWatchPoll, Polling, polling, poll_once, poll_once_with_socket_events, events_of,
}
use core_shift_engine.Watch.Poll.Ready.{
  Replayed, poll_once_with_socket_events-Replayed, poll_once_with_socket_events-IsWatch,
}
use core_shift_engine.Runtime.{
  EngineRuntime, system_services, refresh_identity_cache, apply_identity_cache_state, cache_event,
}

-- What a step changes: the runtime, the watch and the state that it is given, and the world.
pub record Stepping (h : Host) (S : Type 0) : Type 0 where
  pub runtime : EngineRuntime h
  pub watch : EngineWatch h S
  pub state : EngineState
  pub world : h.World

module _ {h : Host} {S : Type 0} where
  abbrev pub polled : Stepping h S → Polling h S → Stepping h S
  polled t p = record {
    runtime = record t.runtime { identity_cache_invalidator = p.invalidator };
    watch = p.watch;
    state = p.emission.state;
    world = p.emission.world;
  }

  abbrev pub refreshed_step :
      Stepping h S → List (EngineEvent h) → List (EngineEvent h) × Stepping h S
  refreshed_step t events =
      let (runtime, w) = refresh_identity_cache t.runtime t.world in
      let told =
        apply_identity_cache_state runtime
          (record { state = t.state; emitted = events; world = w }) in
      (
        told.emitted,
        record { runtime = runtime; watch = t.watch; state = told.state; world = told.world },
      )

  abbrev pub stepped :
      Stepping h S
      → Result (List (EngineEvent h)) (EngineError h) × Polling h S
      → Result (List (EngineEvent h)) (EngineError h) × Stepping h S
  stepped t (ok events, p) =
      if p.refreshed
      then (let (emitted, t') = refreshed_step (polled t p) events in (ok emitted, t'))
      else (ok events, polled t p)
  stepped t (err e, p) = (err e, polled t p)

module _ {h : Host} {S : Type 0} (ops : ForegroundSource h S) where
  unfoldable pub step : ℤ → Act (EngineError h) (Stepping h S) (List (EngineEvent h))
  unfolding poll_once refresh_identity_cache apply_identity_cache_state system_services
  step timeout_ms t =
      if not t.runtime.started
      then (err not_started, t)
      else stepped t (
          poll_once ops (system_services t.runtime) timeout_ms
            (polling t.watch t.runtime.identity_cache_invalidator t.state t.world))

  -- The state that steps leave, whatever they return.
  unfoldable pub steps : List ℤ → Stepping h S → Stepping h S
  unfolding step
  steps [] t = t
  steps (timeout_ms ∷ timeouts) t = steps timeouts (step timeout_ms t).1

-- What a step returns, for the state before and after it.
abbrev pub Returned :
    {h : Host} {S : Type 0}
    → EngineState
    → Result (List (EngineEvent h)) (EngineError h) × Stepping h S
    → Type 0
Returned before (ok events, t) = t.state ≡ apply_all events before
Returned {h} before (err e, t) = (es : List (EngineEvent h)) × (t.state ≡ apply_all es before)

-- The watch is well formed, with the sockets `s`, and the runtime has the configuration, the cache and
-- the cache state of `r`, and is started if `r` is.
pub record Keeps {h : Host} {S : Type 0} (s : BtreeSet h.Token) (r : EngineRuntime h)
    (t : Stepping h S) : Type 0 where
  pub well_formed : IsWatch s t.watch
  pub same_cache : t.runtime.identity_cache ≡ r.identity_cache
  pub same_state : t.runtime.identity_cache_state ≡ r.identity_cache_state
  pub same_config : t.runtime.config ≡ r.config
  pub same_started : t.runtime.started ≡ r.started

apply_identity_cache_state-Replays :
    {h : Host} (r : EngineRuntime h) (t : Emission h) → Replays t (apply_identity_cache_state r t)
unfolding apply_identity_cache_state
apply_identity_cache_state-Replays {h} r t = by_event (cache_event r.identity_cache_state)
  where
    by_event :
        (o : Option (EngineEvent h))
        → Replays t (elim o as (λ x. Emission h) [ none ↦ t | some event ↦ emit event t ])
    by_event none = Replays-refl t
    by_event (some event) = emit-Replays event t

module _ {h : Host} {S : Type 0} where
  refreshed_step-Returned :
      (t : Stepping h S) (events : List (EngineEvent h)) (before : EngineState)
      → t.state ≡ apply_all events before
      → (refreshed_step t events).1.state ≡ apply_all (refreshed_step t events).0 before
  refreshed_step-Returned t events before k =
      let (runtime, w) = refresh_identity_cache t.runtime t.world in
      let before_refresh : Emission h = record { state = t.state; emitted = events; world = w } in
      let (es, more, after) = apply_identity_cache_state-Replays runtime before_refresh in
      after
      ∙ (ap (apply_all es) k
          ∙ (sym (apply_all-append events es before) ∙ sym (ap (λ x. apply_all x before) more)))

  stepped-Returned :
      (t : Stepping h S) (r : Result (EngineWatchPoll h) (EngineError h) × Polling h S)
      → Replayed t.state r
      → Returned t.state (stepped t (events_of r))
  stepped-Returned t (ok poll, p) k = elim (Bool-cases p.refreshed) [
    | inl asked ↦ rw asked (refreshed_step-Returned (polled t p) poll.events t.state k)
    | inr quiet ↦ rw quiet k
  ]
  stepped-Returned t (err e, p) k = k

  stepped-Keeps :
      (s : BtreeSet h.Token) (t : Stepping h S)
      (r : Result (EngineWatchPoll h) (EngineError h) × Polling h S)
      → IsWatch s r.1.watch
      → r.1.refreshed ≡ false
      → Keeps s t.runtime (stepped t (events_of r)).1
  stepped-Keeps s t (ok poll, p) i quiet = rw quiet (record {
    well_formed = i;
    same_cache = refl;
    same_state = refl;
    same_config = refl;
    same_started = refl;
  })
  stepped-Keeps s t (err e, p) i quiet = record {
    well_formed = i;
    same_cache = refl;
    same_state = refl;
    same_config = refl;
    same_started = refl;
  }

module _ {h : Host} {S : Type 0} (ops : ForegroundSource h S) where
  -- When a step succeeds, the state it leaves is the state it was given with just the returned events
  -- applied, in order; when it fails, it is that state with some events applied.
  pub step-Returned : (timeout_ms : ℤ) (t : Stepping h S) → Returned t.state (step ops timeout_ms t)
  unfolding step apply_all poll_once
  step-Returned timeout_ms t =
      if_both (Returned t.state) (not t.runtime.started) ([], refl)
        (stepped-Returned t
          (poll_once_with_socket_events ops (system_services t.runtime) timeout_ms
            (polling t.watch t.runtime.identity_cache_invalidator t.state t.world))
          (poll_once_with_socket_events-Replayed ops (system_services t.runtime) timeout_ms t.watch
            t.runtime.identity_cache_invalidator t.state t.world))

  step-Keeps :
      (s : BtreeSet h.Token) (timeout_ms : ℤ) (t : Stepping h S)
      → IsWatch s t.watch
      → Keeps s t.runtime (step ops timeout_ms t).1
  unfolding step poll_once
  step-Keeps s timeout_ms t i =
      let (j, quiet, told) =
        poll_once_with_socket_events-IsWatch ops (system_services t.runtime) s timeout_ms t.watch
          t.runtime.identity_cache_invalidator t.state t.world i in
      if_both
        (λ (r : Result (List (EngineEvent h)) (EngineError h) × Stepping h S).
          Keeps s t.runtime r.1)
        (not t.runtime.started)
        (record {
          well_formed = i;
          same_cache = refl;
          same_state = refl;
          same_config = refl;
          same_started = refl;
        })
        (stepped-Keeps s t
          (poll_once_with_socket_events ops (system_services t.runtime) timeout_ms
            (polling t.watch t.runtime.identity_cache_invalidator t.state t.world))
          j quiet)

  -- Any number of steps with a well formed watch, whatever the source tells and however the calls
  -- fail, leave the watch well formed, with its sockets, and the configuration, the identity cache
  -- and its state as they were: no step refreshes the cache, also where the invalidator holds it dirty.
  pub steps-Keeps :
      (s : BtreeSet h.Token) (timeouts : List ℤ) (t : Stepping h S)
      → IsWatch s t.watch
      → Keeps s t.runtime (steps ops timeouts t)
  unfolding steps
  steps-Keeps s [] t i = record {
    well_formed = i;
    same_cache = refl;
    same_state = refl;
    same_config = refl;
    same_started = refl;
  }
  steps-Keeps s (timeout_ms ∷ timeouts) t i =
      let k = step-Keeps s timeout_ms t i in
      let l = steps-Keeps s timeouts (step ops timeout_ms t).1 k.well_formed in
      record {
        well_formed = l.well_formed;
        same_cache = l.same_cache ∙ k.same_cache;
        same_state = l.same_state ∙ k.same_state;
        same_config = l.same_config ∙ k.same_config;
        same_started = l.same_started ∙ k.same_started;
      }
