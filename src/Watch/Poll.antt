-- ===== src/Watch/Poll.antt =====
-- `EngineWatch::poll_once` of services/watch.rs: one wait, and what each ready token sets off.
pub mod Follow
pub mod Ready
pub mod Examples
use core_shift_engine.Base.{
  ℕ, ℤ, Bool, true, false, not, ◌&&◌, ◌||◌, List, [], ◌∷◌, ◌++◌, Option, none, some, Result, ok,
  err, Act, and_then, Ord, ◌==◌, nat_ord, int_ord, if◌then◌else◌,
}
use Prim.Native.Nat.{bit_and}
use core_shift_engine.Btree.Map
use core_shift_engine.Btree.Set
use core_shift_engine.Text.Chars.{Text}
use core_shift_engine.Text.Utf8.{from_utf8}
use core_shift_engine.Paths.{FilePath, path_of_text, join}
use core_shift_engine.Host.{Host, InotifyEvent, ReadyEvent}
use core_shift_engine.Error.{EngineError}
use core_shift_engine.Events.{EngineEvent}
use core_shift_engine.State.{EngineState}
use core_shift_engine.Services.{SystemServices}
use core_shift_engine.Invalidator.{IdentityCacheInvalidator, mark_event, should_refresh_now}
use core_shift_engine.Foreground.Source.{ForegroundSource}
use core_shift_engine.Foreground.Manager.{
  Piped, handle_fs_event_changed, handle_priority_event_changed,
  handle_stale_priority_event_changed,
}
use core_shift_engine.Watch.{Emission, apply_events}
use core_shift_engine.Watch.Registrations.{
  EngineWatch, WatchTarget, foreground, identity_cache_hint, core_result,
  sync_foreground_watch_paths, sync_foreground_priority_fds,
}

pub record EngineWatchPoll (h : Host) : Type 0 where
  pub events : List (EngineEvent h)
  pub socket_tokens : List h.Token

-- What a poll changes. The closure that refreshes the identity cache is called once if `refreshed`
-- is set at the end, and else not.
pub record Polling (h : Host) (S : Type 0) : Type 0 where
  pub watch : EngineWatch h S
  pub invalidator : IdentityCacheInvalidator
  pub emission : Emission h
  pub socket_ready : List h.Token
  pub refreshed : Bool

abbrev pub in_q_overflow_mask : ℕ
in_q_overflow_mask = 0x4000

abbrev named : FilePath → Option Text → FilePath
named path none = path
named path (some []) = path
named path (some (c ∷ name)) = join path (path_of_text (c ∷ name))

-- A name that is empty or not UTF-8 leaves the path of the watch.
unfoldable pub named_event_path : FilePath → Option (List ℕ) → FilePath
named_event_path path none = path
named_event_path path (some name) = named path (from_utf8 name)

abbrev pub is_token : (h : Host) → h.Token → Option h.Token → Bool
is_token h token none = false
is_token h token (some t) = ◌==◌ ⦃o = h.token_ord⦄ token t

-- The four ways in which a part of the watch acts on what the poll holds.
module _ {h : Host} {S : Type 0} where
  abbrev pub put_source :
      {A : Type 0}
      → Polling h S
      → Result A (EngineError h) × Piped h S
      → Result A (EngineError h) × Polling h S
  put_source p (r, (m, i, w)) = (
    r,
    record p {
      watch = record p.watch { foreground = m };
      invalidator = i;
      emission = record p.emission { world = w };
    },
  )

  abbrev pub on_source :
      {A : Type 0} → Act (EngineError h) (Piped h S) A → Act (EngineError h) (Polling h S) A
  on_source act p = put_source p (act (p.watch.foreground, p.invalidator, p.emission.world))

  abbrev pub put_watch : Polling h S → EngineWatch h S × h.World → Polling h S
  put_watch p (e, w) = record p { watch = e; emission = record p.emission { world = w } }

  abbrev pub put_watch_result :
      Polling h S
      → Result (Unit {0}) (EngineError h) × (EngineWatch h S × h.World)
      → Result (Unit {0}) (EngineError h) × Polling h S
  put_watch_result p (r, t) = (r, put_watch p t)

  abbrev pub put_emission :
      Polling h S
      → Result (Unit {0}) (EngineError h) × Emission h
      → Result (Unit {0}) (EngineError h) × Polling h S
  put_emission p (r, t) = (r, record p { emission = t })

  abbrev pub put_world :
      {A : Type 0}
      → Polling h S
      → Result A (EngineError h) × h.World
      → Result A (EngineError h) × Polling h S
  put_world p (r, w) = (r, record p { emission = record p.emission { world = w } })

module _ {h : Host} {S : Type 0} (ops : ForegroundSource h S) (services : SystemServices h) where
  abbrev pub follow_watch_paths : Polling h S → Polling h S
  follow_watch_paths p = put_watch p (sync_foreground_watch_paths ops (p.watch, p.emission.world))

  abbrev pub follow_priority_fds : Act (EngineError h) (Polling h S) (Unit {0})
  follow_priority_fds p =
      put_watch_result p (sync_foreground_priority_fds ops (p.watch, p.emission.world))

  -- The events of the source, applied.
  abbrev pub take_events :
      Act (EngineError h) (Piped h S) (List (EngineEvent h))
      → Act (EngineError h) (Polling h S) (Unit {0})
  take_events act p =
      and_then (on_source act p)
        λ events p'. put_emission p' (apply_events services events p'.emission)

  unfoldable pub on_priority :
      Act (EngineError h) (Piped h S) (List (EngineEvent h))
      → Act (EngineError h) (Polling h S) (Unit {0})
  on_priority act p = and_then (take_events act p) λ (u : Unit {0}). follow_priority_fds

  unfoldable pub on_fs_event : FilePath → ℕ → Act (EngineError h) (Polling h S) (Unit {0})
  on_fs_event path mask p =
      and_then (take_events (handle_fs_event_changed ops path mask) p)
        λ (u : Unit {0}) p'. follow_priority_fds (follow_watch_paths p')

  -- A hint at the identity cache: the closure is called at most once in a poll.
  unfoldable pub on_hint : FilePath → Polling h S → Polling h S
  on_hint path p =
      let i = mark_event path p.invalidator in
      let marked : Polling h S = record p { invalidator = i } in
      if should_refresh_now i && not p.refreshed then record marked { refreshed = true } else marked

  abbrev pub on_target :
      InotifyEvent → Option (FilePath × WatchTarget) → Act (EngineError h) (Polling h S) (Unit {0})
  on_target event none p = (ok tt, p)
  on_target event (some (path, foreground)) p =
      on_fs_event (named_event_path path event.name) event.mask p
  on_target event (some (path, identity_cache_hint)) p =
      (ok tt, on_hint (named_event_path path event.name) p)

  unfoldable pub inotify_one : InotifyEvent → Act (EngineError h) (Polling h S) (Unit {0})
  unfolding on_fs_event on_hint named_event_path
  inotify_one event p =
      if not (bit_and event.mask in_q_overflow_mask == 0)
      then on_fs_event [] event.mask p
      else on_target event (Map.get p.watch.watches event.wd) p

  unfoldable pub inotify_each : List InotifyEvent → Act (EngineError h) (Polling h S) (Unit {0})
  unfolding inotify_one
  inotify_each [] p = (ok tt, p)
  inotify_each (event ∷ events) p =
      and_then (inotify_one event p) λ (u : Unit {0}). inotify_each events

  abbrev pub on_registered :
      ReadyEvent h.Token → FilePath → Act (EngineError h) (Polling h S) (Unit {0})
  on_registered event path p =
      if event.error
      then on_priority (handle_stale_priority_event_changed ops path) p
      else if event.priority
      then on_priority (handle_priority_event_changed ops path) p
      else (ok tt, p)

  -- The events that inotify has for a token that is the one of inotify and can be read.
  abbrev pub on_inotify : ReadyEvent h.Token → Act (EngineError h) (Polling h S) (Unit {0})
  on_inotify event p =
      if not (is_token h event.token (h.inotify_token p.emission.world)) || not event.readable
      then (ok tt, p)
      else and_then (put_world p (core_result (h.read_events p.emission.world))) inotify_each

  abbrev pub on_token :
      ReadyEvent h.Token → Option FilePath → Act (EngineError h) (Polling h S) (Unit {0})
  on_token event (some path) p = on_registered event path p
  on_token event none p = on_inotify event p

  unfoldable pub ready_one : ReadyEvent h.Token → Act (EngineError h) (Polling h S) (Unit {0})
  unfolding inotify_each on_priority
  ready_one event p =
      if Set.contains ⦃o = h.token_ord⦄ p.watch.socket_tokens event.token
      then (ok tt, record p { socket_ready = p.socket_ready ++ event.token ∷ [] })
      else on_token event (Map.get ⦃o = h.token_ord⦄ p.watch.foreground_priority_tokens event.token)
          p

  unfoldable pub ready_each :
      List (ReadyEvent h.Token) → Act (EngineError h) (Polling h S) (Unit {0})
  unfolding ready_one
  ready_each [] p = (ok tt, p)
  ready_each (event ∷ events) p = and_then (ready_one event p) λ (u : Unit {0}). ready_each events

module _ {h : Host} {S : Type 0} where
  abbrev pub polling :
      EngineWatch h S → IdentityCacheInvalidator → EngineState → h.World → Polling h S
  polling e i state w = record {
    watch = e;
    invalidator = i;
    emission = record { state = state; emitted = []; world = w };
    socket_ready = [];
    refreshed = false;
  }

  abbrev pub reported :
      Result (Unit {0}) (EngineError h) × Polling h S
      → Result (EngineWatchPoll h) (EngineError h) × Polling h S
  reported (ok u, p) =
      (ok (record { events = p.emission.emitted; socket_tokens = p.socket_ready }), p)
  reported (err error, p) = (err error, p)

  abbrev pub events_of :
      Result (EngineWatchPoll h) (EngineError h) × Polling h S
      → Result (List (EngineEvent h)) (EngineError h) × Polling h S
  events_of (ok poll, p) = (ok poll.events, p)
  events_of (err error, p) = (err error, p)

module _ {h : Host} {S : Type 0} (ops : ForegroundSource h S) (services : SystemServices h) where
  -- The ready events, unless the count is zero.
  abbrev pub handle_ready :
      ℕ × List (ReadyEvent h.Token) → Act (EngineError h) (Polling h S) (Unit {0})
  handle_ready (count, ready) p = if count == 0 then (ok tt, p) else ready_each ops services ready p

  -- At most 16 events are taken. An error loses what was emitted, and keeps what was done.
  unfoldable pub poll_once_with_socket_events :
      ℤ → Act (EngineError h) (Polling h S) (EngineWatchPoll h)
  unfolding ready_each
  poll_once_with_socket_events timeout_ms p =
      reported
        (and_then (put_world p (core_result (h.wait 16 timeout_ms p.emission.world))) handle_ready)

  unfoldable pub poll_once : ℤ → Act (EngineError h) (Polling h S) (List (EngineEvent h))
  unfolding poll_once_with_socket_events
  poll_once timeout_ms p = events_of (poll_once_with_socket_events timeout_ms p)
