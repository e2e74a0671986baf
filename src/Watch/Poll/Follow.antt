-- ===== src/Watch/Poll/Follow.antt =====
-- What the handling of one event keeps.
use core_shift_engine.Base.{
  ◌≡◌, refl, ℕ, ℤ, true, not, ◌&&◌, ◌||◌, List, [], ◌∷◌, Option, none, some, Result, ok, err, Act,
  and_then, Each-apply, inl, inr, int_ord, nat_ord, ◌==◌, ◌∙◌, if_both, Option-cases,
}
use Prim.Native.Nat.{bit_and}
use core_shift_engine.Btree.Map.{BtreeMap, Among-get}
use core_shift_engine.Btree.Map
use core_shift_engine.Btree.Set.{BtreeSet}
use core_shift_engine.Paths.{FilePath}
use core_shift_engine.Host.{Host, InotifyEvent, ReadyEvent}
use core_shift_engine.Error.{EngineError}
use core_shift_engine.Events.{EngineEvent}
use core_shift_engine.Invalidator.{mark_event, should_refresh_now}
use core_shift_engine.Services.{SystemServices}
use core_shift_engine.Foreground.Source.{ForegroundSource}
use core_shift_engine.Foreground.Manager.{Piped, handle_fs_event_changed}
use core_shift_engine.Watch.{Emission, apply_events}
use core_shift_engine.Watch.Replay.{Replays, Replays-refl, Replays-trans, apply_events-Replays}
use core_shift_engine.Watch.Registrations.{
  EngineWatch, WatchTarget, foreground, identity_cache_hint, core_result,
  sync_foreground_watch_paths, sync_foreground_priority_fds,
}
use core_shift_engine.Watch.Registrations.Shape.{IsWatch}
use core_shift_engine.Watch.Registrations.Sync.{
  sync_foreground_watch_paths-IsWatch, sync_foreground_priority_fds-IsWatch,
}
use core_shift_engine.Watch.Poll.{
  Polling, on_hint, put_source, on_source, put_watch, put_emission, put_world, follow_watch_paths,
  follow_priority_fds, take_events, on_priority, on_fs_event, on_target, inotify_one, inotify_each,
  on_registered, on_inotify, on_token, in_q_overflow_mask, named_event_path, is_token,
}

-- From one point of a poll to another: the state follows the events, a well formed watch stays so,
-- with its sockets, and the identity cache is not refreshed while it is; no socket is reported.
pub record Follows {h : Host} {S : Type 0} (s : BtreeSet h.Token) (t u : Polling h S) : Type 0 where
  pub replayed : Replays t.emission u.emission
  pub watching : IsWatch s t.watch → IsWatch s u.watch × (u.refreshed ≡ t.refreshed)
  pub silent : u.socket_ready ≡ t.socket_ready

module _ {h : Host} {S : Type 0} {s : BtreeSet h.Token} where
  pub Follows-refl : (t : Polling h S) → Follows s t t
  Follows-refl t = record {
    replayed = Replays-refl t.emission;
    watching = λ i. (i, refl);
    silent = refl;
  }

  pub Follows-trans : (t u v : Polling h S) → Follows s t u → Follows s u v → Follows s t v
  Follows-trans t u v f g = record {
    replayed = Replays-trans t.emission u.emission v.emission f.replayed g.replayed;
    watching =
        λ i. let (j, same) = f.watching i in let (k, same') = g.watching j in (k, same' ∙ same);
    silent = g.silent ∙ f.silent;
  }

  pub and_then-Follows :
      {A B : Type 0} (t : Polling h S) (r : Result A (EngineError h) × Polling h S)
      (rest : A → Act (EngineError h) (Polling h S) B)
      → Follows s t r.1
      → ((a : A) (p : Polling h S) → Follows s p (rest a p).1)
      → Follows s t (and_then r rest).1
  and_then-Follows t (ok a, p) rest f k = Follows-trans t p (rest a p).1 f (k a p)
  and_then-Follows t (err e, p) rest f k = f

  put_source-Follows :
      {A : Type 0} (p : Polling h S) (r : Result A (EngineError h) × Piped h S)
      → Follows s p (put_source p r).1
  put_source-Follows p (r, (m, i, w)) = record {
    replayed = Replays-refl p.emission;
    watching = λ i. (
      record { watched = i.watched; sockets = i.sockets; tokened = i.tokened; keyed = i.keyed },
      refl,
    );
    silent = refl;
  }

  put_watch-Follows :
      (p : Polling h S) (t : EngineWatch h S × h.World)
      → (IsWatch s p.watch → IsWatch s t.0)
      → Follows s p (put_watch p t)
  put_watch-Follows p (e, w) k = record {
    replayed = Replays-refl p.emission;
    watching = λ i. (k i, refl);
    silent = refl;
  }

  put_emission-Follows :
      (p : Polling h S) (r : Result (Unit {0}) (EngineError h) × Emission h)
      → Replays p.emission r.1
      → Follows s p (put_emission p r).1
  put_emission-Follows p (r, t) k = record {
    replayed = k;
    watching = λ i. (
      record { watched = i.watched; sockets = i.sockets; tokened = i.tokened; keyed = i.keyed },
      refl,
    );
    silent = refl;
  }

  pub put_world-Follows :
      {A : Type 0} (p : Polling h S) (r : Result A (EngineError h) × h.World)
      → Follows s p (put_world p r).1
  put_world-Follows p (r, w) = record {
    replayed = Replays-refl p.emission;
    watching = λ i. (i, refl);
    silent = refl;
  }

module _ {h : Host} {S : Type 0} {s : BtreeSet h.Token} (ops : ForegroundSource h S)
    (services : SystemServices h) where
  follow_watch_paths-Follows : (p : Polling h S) → Follows s p (follow_watch_paths ops services p)
  follow_watch_paths-Follows p =
      put_watch-Follows p (sync_foreground_watch_paths ops (p.watch, p.emission.world))
        (sync_foreground_watch_paths-IsWatch ops (p.watch, p.emission.world))

  follow_priority_fds-Follows :
      (p : Polling h S) → Follows s p (follow_priority_fds ops services p).1
  follow_priority_fds-Follows p =
      let r = sync_foreground_priority_fds ops (p.watch, p.emission.world) in
      put_watch-Follows p r.1 (sync_foreground_priority_fds-IsWatch ops (p.watch, p.emission.world))

  take_events-Follows :
      (act : Act (EngineError h) (Piped h S) (List (EngineEvent h))) (p : Polling h S)
      → Follows s p (take_events ops services act p).1
  take_events-Follows act p =
      and_then-Follows p (on_source act p) _
        (put_source-Follows p (act (p.watch.foreground, p.invalidator, p.emission.world)))
        (λ events q.
          put_emission-Follows q (apply_events services events q.emission)
            (apply_events-Replays services events q.emission))

  pub on_priority-Follows :
      (act : Act (EngineError h) (Piped h S) (List (EngineEvent h))) (p : Polling h S)
      → Follows s p (on_priority ops services act p).1
  unfolding on_priority
  on_priority-Follows act p =
      and_then-Follows p (take_events ops services act p) _ (take_events-Follows act p)
        (λ u q. follow_priority_fds-Follows q)

  on_fs_event-Follows :
      (path : FilePath) (mask : ℕ) (p : Polling h S)
      → Follows s p (on_fs_event ops services path mask p).1
  unfolding on_fs_event
  on_fs_event-Follows path mask p =
      let act = handle_fs_event_changed ops path mask in
      and_then-Follows p (take_events ops services act p) _ (take_events-Follows act p) (λ u q.
        let q' = follow_watch_paths ops services q in
        Follows-trans q q' (follow_priority_fds ops services q').1 (follow_watch_paths-Follows q)
          (follow_priority_fds-Follows q'))

-- The target of a watch that is found.
abbrev Targets : Option (FilePath × WatchTarget) → Type 0
Targets none = Unit
Targets (some (path, target)) = target ≡ foreground

module _ {h : Host} {S : Type 0} {s : BtreeSet h.Token} where
  get-Targets : (e : EngineWatch h S) (wd : ℤ) → IsWatch s e → Targets (Map.get e.watches wd)
  get-Targets e wd i = elim (Option-cases (Map.get e.watches wd)) [
    | inl none_found ↦ rw none_found tt
    | inr (v, found) ↦
        rw found (Each-apply _ (wd, v) e.watches i.watched (Among-get e.watches wd v found)).0
  ]

  hint-Follows :
      (p q : Polling h S)
      → ¬ IsWatch s p.watch
      → Replays p.emission q.emission
      → q.socket_ready ≡ p.socket_ready
      → Follows s p q
  hint-Follows p q n r e = record { replayed = r; watching = λ i. absurd (n i); silent = e }

module _ {h : Host} {S : Type 0} {s : BtreeSet h.Token} (ops : ForegroundSource h S)
    (services : SystemServices h) where
  on_target-Follows :
      (event : InotifyEvent) (o : Option (FilePath × WatchTarget)) (p : Polling h S)
      → (IsWatch s p.watch → Targets o)
      → Follows s p (on_target ops services event o p).1
  unfolding on_hint
  on_target-Follows event none p k = Follows-refl p
  on_target-Follows event (some (path, foreground)) p k =
      on_fs_event-Follows ops services (named_event_path path event.name) event.mask p
  on_target-Follows event (some (path, identity_cache_hint)) p k =
      let none_such : ¬ IsWatch s p.watch = λ i. cc (k i) in
      let i = mark_event (named_event_path path event.name) p.invalidator in
      let marked : Polling h S = record p { invalidator = i } in
      let called : Polling h S = record marked { refreshed = true } in
      if_both (Follows s p) (should_refresh_now i && not p.refreshed)
        (hint-Follows p called none_such (Replays-refl p.emission) refl)
        (hint-Follows p marked none_such (Replays-refl p.emission) refl)

  inotify_one-Follows :
      (event : InotifyEvent) (p : Polling h S) → Follows s p (inotify_one ops services event p).1
  unfolding inotify_one
  inotify_one-Follows event p =
      if_both (λ (r : Result (Unit {0}) (EngineError h) × Polling h S). Follows s p r.1)
        (not (bit_and event.mask in_q_overflow_mask == 0))
        (on_fs_event-Follows ops services [] event.mask p)
        (on_target-Follows event (Map.get p.watch.watches event.wd) p
          (get-Targets p.watch event.wd))

  inotify_each-Follows :
      (events : List InotifyEvent) (p : Polling h S)
      → Follows s p (inotify_each ops services events p).1
  unfolding inotify_each
  inotify_each-Follows [] p = Follows-refl p
  inotify_each-Follows (event ∷ events) p =
      and_then-Follows p (inotify_one ops services event p) _ (inotify_one-Follows event p)
        (λ u q. inotify_each-Follows events q)

  on_registered-Follows :
      (event : ReadyEvent h.Token) (path : FilePath) (p : Polling h S)
      → Follows s p (on_registered ops services event path p).1
  on_registered-Follows event path p =
      if_both (λ (r : Result (Unit {0}) (EngineError h) × Polling h S). Follows s p r.1) event.error
        (on_priority-Follows ops services _ p)
        (if_both (λ (r : Result (Unit {0}) (EngineError h) × Polling h S). Follows s p r.1)
          event.priority (on_priority-Follows ops services _ p) (Follows-refl p))

  on_inotify-Follows :
      (event : ReadyEvent h.Token) (p : Polling h S)
      → Follows s p (on_inotify ops services event p).1
  on_inotify-Follows event p =
      let r = put_world p (core_result (h.read_events p.emission.world)) in
      if_both (λ (r : Result (Unit {0}) (EngineError h) × Polling h S). Follows s p r.1)
        (not (is_token h event.token (h.inotify_token p.emission.world)) || not event.readable)
        (Follows-refl p)
        (and_then-Follows p r (inotify_each ops services)
          (put_world-Follows p (core_result (h.read_events p.emission.world))) inotify_each-Follows)

  pub on_token-Follows :
      (event : ReadyEvent h.Token) (o : Option FilePath) (p : Polling h S)
      → Follows s p (on_token ops services event o p).1
  on_token-Follows event none p = on_inotify-Follows event p
  on_token-Follows event (some path) p = on_registered-Follows event path p
