-- ===== src/Watch/Sockets.antt =====
-- The operations of `EngineWatch` that are called between polls: the registration of sockets, and a
-- question for the current candidate (services/watch.rs).
use core_shift_engine.Base.{
  refl, subst, Bool, true, false, Option, Result, ok, err, Act, and_then, if◌then◌else◌,
}
use core_shift_engine.Btree.Set.{BtreeSet}
use core_shift_engine.Btree.Set
use core_shift_engine.Host.{Host}
use core_shift_engine.Error.{EngineError}
use core_shift_engine.Foreground.Source.{ForegroundSource, ForegroundCandidate}
use core_shift_engine.Watch.Registrations.{
  EngineWatch, core_result, sync_foreground_watch_paths, sync_foreground_priority_fds,
}
use core_shift_engine.Watch.Registrations.Shape.{IsWatch}

module _ {h : Host} {S : Type 0} where
  abbrev with_sockets : EngineWatch h S → BtreeSet h.Token → EngineWatch h S
  with_sockets e tokens = record e { socket_tokens = tokens }

  abbrev registered_socket :
      EngineWatch h S
      → Result h.Token (EngineError h) × h.World
      → Result h.Token (EngineError h) × (EngineWatch h S × h.World)
  registered_socket e (err x, w) = (err x, (e, w))
  registered_socket e (ok token, w) =
      (ok token, (with_sockets e (Set.insert ⦃o = h.token_ord⦄ e.socket_tokens token), w))

  -- `register_socket_listener` and `register_socket_stream`, for the descriptor of the socket.
  unfoldable pub register_socket : h.Fd → Act (EngineError h) (EngineWatch h S × h.World) h.Token
  register_socket fd (e, w) = registered_socket e (core_result {h = h} (h.add_readable fd w))

  abbrev unregistered_socket :
      EngineWatch h S
      → Result (Unit {0}) (EngineError h) × h.World
      → Result Bool (EngineError h) × (EngineWatch h S × h.World)
  unregistered_socket e (err x, w) = (err x, (e, w))
  unregistered_socket e (ok u, w) = (ok true, (e, w))

  -- The token goes first, also where the call of the reactor then fails.
  unfoldable pub unregister_socket_stream :
      h.Token → h.Fd → Act (EngineError h) (EngineWatch h S × h.World) Bool
  unregister_socket_stream token fd (e, w) =
      if Set.contains ⦃o = h.token_ord⦄ e.socket_tokens token
      then unregistered_socket (with_sockets e (Set.remove ⦃o = h.token_ord⦄ e.socket_tokens token))
          (core_result {h = h} (h.del fd w))
      else (ok false, (e, w))

  abbrev put_answer :
      EngineWatch h S
      → Result (Option ForegroundCandidate) (EngineError h) × (S × h.World)
      → Result (Option ForegroundCandidate) (EngineError h) × (EngineWatch h S × h.World)
  put_answer e (r, (source, w)) =
      (r, (record e { foreground = record e.foreground { source = source } }, w))

module _ {h : Host} {S : Type 0} (ops : ForegroundSource h S) where
  -- The source is asked past the manager, which does not remember the candidate.
  unfoldable pub poll_current_foreground :
      Act (EngineError h) (EngineWatch h S × h.World) (Option ForegroundCandidate)
  poll_current_foreground (e, w) =
      and_then (put_answer e (ops.poll_current (e.foreground.source, w))) λ candidate t.
        and_then (sync_foreground_priority_fds ops (sync_foreground_watch_paths ops t))
          λ (u : Unit {0}) t'. (ok candidate, t')

-- The sockets that are left after a socket was registered or unregistered.
abbrev SocketsOf :
    {h : Host} {S A : Type 0}
    → BtreeSet h.Token
    → (A → BtreeSet h.Token)
    → Result A (EngineError h) × (EngineWatch h S × h.World)
    → Type 0
SocketsOf s f (ok a, (e, w)) = IsWatch (f a) e
SocketsOf s f (err x, (e, w)) = IsWatch s e

module _ {h : Host} {S : Type 0} {s : BtreeSet h.Token} where
  with_sockets-IsWatch :
      (e : EngineWatch h S) (tokens : BtreeSet h.Token)
      → IsWatch s e
      → IsWatch tokens (with_sockets e tokens)
  with_sockets-IsWatch e tokens i = record {
    watched = i.watched;
    sockets = refl;
    tokened = i.tokened;
    keyed = i.keyed;
  }

  -- Registering a socket adds its token to the sockets of a well formed watch; on an error they stay.
  pub register_socket-IsWatch :
      (fd : h.Fd) (e : EngineWatch h S) (w : h.World)
      → IsWatch s e
      → SocketsOf s (λ token. Set.insert ⦃o = h.token_ord⦄ s token) (register_socket fd (e, w))
  unfolding register_socket
  register_socket-IsWatch fd e w i = by_answer (core_result {h = h} (h.add_readable fd w))
    where
      by_answer :
          (r : Result h.Token (EngineError h) × h.World)
          → SocketsOf s (λ token. Set.insert ⦃o = h.token_ord⦄ s token) (registered_socket e r)
      by_answer (err x, w') = i
      by_answer (ok token, w') =
          subst
            (λ t.
              IsWatch (Set.insert ⦃o = h.token_ord⦄ t token)
                (with_sockets e (Set.insert ⦃o = h.token_ord⦄ e.socket_tokens token)))
            i.sockets
            (with_sockets-IsWatch e (Set.insert ⦃o = h.token_ord⦄ e.socket_tokens token) i)
