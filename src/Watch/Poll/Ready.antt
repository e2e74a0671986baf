-- ===== src/Watch/Poll/Ready.antt =====
-- What one poll does.
use core_shift_engine.Base.{
  ◌≡◌, refl, ℕ, ℤ, false, List, [], ◌∷◌, ◌++◌, map, keep, Result, ok, err, Act, and_then,
  Bool-cases, inl, inr, nat_ord, ◌==◌, ◌∙◌, sym, ap, if◌then◌else◌,
}
use mathlib.Core.List.{append_assoc, append-nil}
use core_shift_engine.Btree.Map
use core_shift_engine.Btree.Set.{BtreeSet}
use core_shift_engine.Btree.Set
use core_shift_engine.Host.{Host, ReadyEvent}
use core_shift_engine.Error.{EngineError}
use core_shift_engine.Events.{EngineEvent}
use core_shift_engine.State.{EngineState, apply_all}
use core_shift_engine.Services.{SystemServices}
use core_shift_engine.Invalidator.{IdentityCacheInvalidator}
use core_shift_engine.Foreground.Source.{ForegroundSource}
use core_shift_engine.Watch.Replay.{Replays, Replays-refl, Replays-trans}
use core_shift_engine.Watch.Registrations.{EngineWatch, core_result}
use core_shift_engine.Watch.Registrations.Shape.{IsWatch}
use core_shift_engine.Watch.Poll.{
  Polling, EngineWatchPoll, put_world, on_token, ready_one, ready_each, handle_ready, reported,
  polling, poll_once_with_socket_events,
}
use core_shift_engine.Watch.Poll.Follow.{Follows, Follows-refl, on_token-Follows}

-- The tokens among those that are ready that are of sockets, in order.
abbrev pub sockets_among : (h : Host) → BtreeSet h.Token → List (ReadyEvent h.Token) → List h.Token
sockets_among h s ready = keep (Set.contains ⦃o = h.token_ord⦄ s) (map (λ e. e.token) ready)

-- The token of an event, if it is of a socket.
abbrev socket_of : (h : Host) → BtreeSet h.Token → ReadyEvent h.Token → List h.Token
socket_of h s event = if Set.contains ⦃o = h.token_ord⦄ s event.token then event.token ∷ [] else []

-- What is to be reported of sockets after a wait.
abbrev pub awaited :
    (h : Host)
    → BtreeSet h.Token
    → Result (ℕ × List (ReadyEvent h.Token)) h.CoreError × h.World
    → List h.Token
awaited h s (ok (count, ready), w) = if count == 0 then [] else sockets_among h s ready
awaited h s (err e, w) = []

module _ {h : Host} {S : Type 0} (s : BtreeSet h.Token) where
  -- On success the given tokens were reported.
  abbrev Reports :
      List h.Token → Polling h S → Result (Unit {0}) (EngineError h) × Polling h S → Type 0
  Reports tokens t (ok u, v) = v.socket_ready ≡ t.socket_ready ++ tokens
  Reports tokens t (err e, v) = Unit

  record Answers (tokens : List h.Token) (t : Polling h S)
      (r : Result (Unit {0}) (EngineError h) × Polling h S) : Type 0 where
    replayed : Replays t.emission r.1.emission
    watching :
        IsWatch s t.watch → IsWatch s r.1.watch × (r.1.refreshed ≡ t.refreshed) × Reports tokens t r

  Follows-Answers :
      (tokens : List h.Token) (t : Polling h S)
      (r : Result (Unit {0}) (EngineError h) × Polling h S)
      → (IsWatch s t.watch → tokens ≡ [])
      → Follows s t r.1
      → Answers tokens t r
  Follows-Answers tokens t (ok u, v) n f = record {
    replayed = f.replayed;
    watching = λ i.
        let (j, same) = f.watching i in
        (j, same, rw (n i) (f.silent ∙ sym (append-nil t.socket_ready)));
  }
  Follows-Answers tokens t (err e, v) n f = record {
    replayed = f.replayed;
    watching = λ i. let (j, same) = f.watching i in (j, same, tt);
  }

  and_then-Answers :
      (a b : List h.Token) (t : Polling h S) (r : Result (Unit {0}) (EngineError h) × Polling h S)
      (rest : Act (EngineError h) (Polling h S) (Unit {0}))
      → Answers a t r
      → ((p : Polling h S) → Answers b p (rest p))
      → Answers (a ++ b) t (and_then r (λ (u : Unit {0}). rest))
  and_then-Answers a b t (ok u, p) rest f k = record {
    replayed = Replays-trans t.emission p.emission (rest p).1.emission f.replayed (k p).replayed;
    watching = λ i.
        let (j, same, told) = f.watching i in
        let (j', same', told') = (k p).watching j in
        (j', same' ∙ same, Reports-append (rest p) told told');
  }
    where
      Reports-append :
          (q : Result (Unit {0}) (EngineError h) × Polling h S)
          → p.socket_ready ≡ t.socket_ready ++ a
          → Reports b p q
          → Reports (a ++ b) t q
      Reports-append (ok v, q) m n = n ∙ rw m (append_assoc t.socket_ready a b)
      Reports-append (err e, q) m n = tt
  and_then-Answers a b t (err e, p) rest f k = record {
    replayed = f.replayed;
    watching = λ i. let (j, same, told) = f.watching i in (j, same, tt);
  }

sockets-step :
    (h : Host) (s : BtreeSet h.Token) (event : ReadyEvent h.Token)
    (events : List (ReadyEvent h.Token))
    → sockets_among h s (event ∷ events) ≡ socket_of h s event ++ sockets_among h s events
sockets-step h s event events = elim (Bool-cases (Set.contains ⦃o = h.token_ord⦄ s event.token)) [
  | inl known ↦ rw known refl
  | inr other ↦ rw other refl
]

module _ {h : Host} {S : Type 0} (s : BtreeSet h.Token) (ops : ForegroundSource h S)
    (services : SystemServices h) where
  ready_one-Answers :
      (event : ReadyEvent h.Token) (p : Polling h S)
      → Answers s (socket_of h s event) p (ready_one ops services event p)
  unfolding ready_one
  ready_one-Answers event p =
      elim (Bool-cases (Set.contains ⦃o = h.token_ord⦄ p.watch.socket_tokens event.token)) [
        | inl known ↦ rw known (record {
          replayed = Replays-refl p.emission;
          watching = λ i. (
            i,
            refl,
            ap (λ b. p.socket_ready ++ (if b then event.token ∷ [] else []))
                (sym known ∙ ap (λ t. Set.contains ⦃o = h.token_ord⦄ t event.token) i.sockets),
          );
        })
        | inr other ↦ rw other (
            Follows-Answers s (socket_of h s event) p
              (on_token ops services event
                (Map.get ⦃o = h.token_ord⦄ p.watch.foreground_priority_tokens event.token) p)
              (λ i.
                ap (λ b. if b then event.token ∷ [] else [])
                  (sym (ap (λ t. Set.contains ⦃o = h.token_ord⦄ t event.token) i.sockets) ∙ other))
              (on_token-Follows ops services event _ p))
      ]

  ready_each-Answers :
      (events : List (ReadyEvent h.Token)) (p : Polling h S)
      → Answers s (sockets_among h s events) p (ready_each ops services events p)
  unfolding ready_each
  ready_each-Answers [] p = Follows-Answers s [] p (ok tt, p) (λ i. refl) (Follows-refl p)
  ready_each-Answers (event ∷ events) p = rw (sockets-step h s event events) (
      and_then-Answers s (socket_of h s event) (sockets_among h s events) p
        (ready_one ops services event p) (ready_each ops services events)
        (ready_one-Answers event p) (ready_each-Answers events))

  waited-Answers :
      (p : Polling h S) (r : Result (ℕ × List (ReadyEvent h.Token)) h.CoreError × h.World)
      → Answers s
          (awaited h s r)
          p
          (and_then (put_world p (core_result r)) (handle_ready ops services))
  waited-Answers p (ok (count, ready), w) =
      let q : Polling h S = record p { emission = record p.emission { world = w } } in
      moved _ _ (elim (Bool-cases (count == 0)) [
        | inl zero_ready ↦
            rw zero_ready (Follows-Answers s [] q (ok tt, q) (λ i. refl) (Follows-refl q))
        | inr some_ready ↦ rw some_ready (ready_each-Answers ready q)
      ])
    where
      moved :
          (tokens : List h.Token) (r : Result (Unit {0}) (EngineError h) × Polling h S)
          → Answers s tokens (record p { emission = record p.emission { world = w } }) r
          → Answers s tokens p r
      moved tokens (ok u, v) a = record { replayed = a.replayed; watching = a.watching }
      moved tokens (err x, v) a = record { replayed = a.replayed; watching = a.watching }
  waited-Answers p (err e, w) = record {
    replayed = Replays-refl p.emission;
    watching = λ i. (i, refl, tt);
  }

-- What a poll reports, for the state after it, and what it reports of sockets.
module _ {h : Host} {S : Type 0} where
  abbrev pub Replayed :
      EngineState → Result (EngineWatchPoll h) (EngineError h) × Polling h S → Type 0
  Replayed state (ok poll, p) = p.emission.state ≡ apply_all poll.events state
  Replayed state (err e, p) = (es : List (EngineEvent h)) × (p.emission.state ≡ apply_all es state)

abbrev pub Reported :
    {h : Host} → List h.Token → Result (EngineWatchPoll h) (EngineError h) → Type 0
Reported tokens (ok poll) = poll.socket_tokens ≡ tokens
Reported tokens (err e) = Unit

module _ {h : Host} {S : Type 0} (ops : ForegroundSource h S) (services : SystemServices h) where
  reported-Replayed :
      (e : EngineWatch h S) (i : IdentityCacheInvalidator) (state : EngineState) (w : h.World)
      (r : Result (Unit {0}) (EngineError h) × Polling h S)
      → Replays (polling e i state w).emission r.1.emission
      → Replayed state (reported r)
  reported-Replayed e i state w (ok u, p) (es, a, b) = rw (a, b) refl
  reported-Replayed e i state w (err x, p) (es, a, b) = (es, b)

  -- On success the state that a poll leaves is the state it was given with just the returned events
  -- applied, in order; on an error it is that state with some events applied.
  pub poll_once_with_socket_events-Replayed :
      (timeout_ms : ℤ) (e : EngineWatch h S) (i : IdentityCacheInvalidator) (state : EngineState)
      (w : h.World)
      → Replayed state (poll_once_with_socket_events ops services timeout_ms (polling e i state w))
  unfolding poll_once_with_socket_events
  poll_once_with_socket_events-Replayed timeout_ms e i state w =
      reported-Replayed e i state w _
        (waited-Answers [] ops services (polling e i state w) (h.wait 16 timeout_ms w)).replayed

  -- A poll of a well formed watch leaves it well formed, with its sockets, whether it succeeds or
  -- not, and never asks for a refresh of the identity cache. On success it reports the tokens of
  -- its sockets that the wait found ready, all of these and in their order, and none when the wait
  -- counts no event.
  pub poll_once_with_socket_events-IsWatch :
      (s : BtreeSet h.Token) (timeout_ms : ℤ) (e : EngineWatch h S) (i : IdentityCacheInvalidator)
      (state : EngineState) (w : h.World)
      → IsWatch s e
      → let (r, p) = poll_once_with_socket_events ops services timeout_ms (polling e i state w) in
        IsWatch s p.watch
        × (p.refreshed ≡ false)
        × Reported (awaited h s (h.wait 16 timeout_ms w)) r
  unfolding poll_once_with_socket_events
  poll_once_with_socket_events-IsWatch s timeout_ms e i state w k =
      after _
        ((waited-Answers s ops services (polling e i state w) (h.wait 16 timeout_ms w)).watching k)
    where
      after :
          (r : Result (Unit {0}) (EngineError h) × Polling h S)
          → IsWatch s r.1.watch
            × (r.1.refreshed ≡ false)
            × Reports s (awaited h s (h.wait 16 timeout_ms w)) (polling e i state w) r
          → IsWatch s (reported r).1.watch
            × ((reported r).1.refreshed ≡ false)
            × Reported (awaited h s (h.wait 16 timeout_ms w)) (reported r).0
      after (ok u, p) (a, b, c) = (a, b, c)
      after (err x, p) (a, b, c) = (a, b, tt)
