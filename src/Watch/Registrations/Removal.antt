-- ===== src/Watch/Registrations/Removal.antt =====
-- Taking watches off.
use core_shift_engine.Base.{
  ℤ, ◌≡◌, refl, Bool, true, false, List, [], ◌∷◌, Result, ok, err, arith, Each, Each-imp, keep,
  ◌==◌, ==_iff, int_ord, nat_ord, if◌then◌else◌, Bool-cases, inl, inr,
}
use core_shift_engine.Btree.Map.{BtreeMap, keys, insert-Each, remove-Each}
use core_shift_engine.Btree.Map
use core_shift_engine.Btree.Set.{BtreeSet, contains}
use core_shift_engine.Paths.{FilePath, path_ord}
use core_shift_engine.Host.{Host}
use core_shift_engine.Watch.Registrations.{
  EngineWatch, WatchTarget, foreground, is_watch, wds_of, removed, remove_wds, remove_watch_path,
  remove_watch_paths, is_gone,
}
use core_shift_engine.Watch.Registrations.Shape.{IsWatch, contains_left}

-- The keys of the entries that pass a test on the values hold the key of each such entry.
keys-keep-Each :
    {V : Type 0} (p : V → Bool) (m : BtreeMap ℤ V)
    → Each (λ x. p x.1 ≡ true → contains (keys (keep (λ e. p e.1) m)) x.0 ≡ true) m
unfolding contains
keys-keep-Each p [] = tt
keys-keep-Each {V} p (y ∷ m) = (
  here (p y.1) (keep (λ e. p e.1) m),
  Each-imp _ _ (λ x k h. there (p y.1) (keep (λ e. p e.1) m) x.0 (k h)) m (keys-keep-Each p m),
)
  where
    here :
        (b : Bool) (rest : BtreeMap ℤ V)
        → b ≡ true
        → contains (keys (if b then y ∷ rest else rest)) y.0 ≡ true
    here b rest h = ground (arith, ==_iff y.0 y.0)

    there :
        (b : Bool) (rest : BtreeMap ℤ V) (k : ℤ)
        → contains (keys rest) k ≡ true
        → contains (keys (if b then y ∷ rest else rest)) k ≡ true
    there b rest k h = ground arith

-- All but the watches and the failures.
record SameRest {h : Host} {S : Type 0} (e f : EngineWatch h S) : Type 0 where
  tokens_of_sockets : f.socket_tokens ≡ e.socket_tokens
  paths : f.foreground_paths ≡ e.foreground_paths
  tokens : f.foreground_priority_tokens ≡ e.foreground_priority_tokens
  priority_keys : f.foreground_priority_keys ≡ e.foreground_priority_keys
  priority_paths : f.foreground_priority_paths ≡ e.foreground_priority_paths

module _ {h : Host} {S : Type 0} where
  removed-watches :
      (e : EngineWatch h S) (path : FilePath) (wd : ℤ) (r : Result (Unit {0}) h.CoreError × h.World)
      → ((removed e path wd r).0.watches ≡ Map.remove e.watches wd)
        × SameRest e (removed e path wd r).0
  removed-watches e path wd (ok u, w) = (
    refl,
    record {
      tokens_of_sockets = refl;
      paths = refl;
      tokens = refl;
      priority_keys = refl;
      priority_paths = refl;
    },
  )
  removed-watches e path wd (err x, w) = elim (Bool-cases (is_gone (h.raw_os_error x))) [
    | inl gone ↦ rw gone (
      refl,
      record {
        tokens_of_sockets = refl;
        paths = refl;
        tokens = refl;
        priority_keys = refl;
        priority_paths = refl;
      },
    )
    | inr other ↦ rw other (
      refl,
      record {
        tokens_of_sockets = refl;
        paths = refl;
        tokens = refl;
        priority_keys = refl;
        priority_paths = refl;
      },
    )
  ]

  remove_wds-watches :
      (Q : ℤ × (FilePath × WatchTarget) → Type 0) (wds : List ℤ) (path : FilePath)
      (e : EngineWatch h S) (w : h.World)
      → Each Q e.watches
      → Each (λ x. Q x × (contains wds x.0 ≡ false)) (remove_wds wds path (e, w)).0.watches
        × SameRest e (remove_wds wds path (e, w)).0
  unfolding remove_wds contains
  remove_wds-watches Q [] path e w q = (
    Each-imp _ _ (λ x k. (k, refl)) e.watches q,
    record {
      tokens_of_sockets = refl;
      paths = refl;
      tokens = refl;
      priority_keys = refl;
      priority_paths = refl;
    },
  )
  remove_wds-watches Q (wd ∷ wds) path e w q =
      let t = removed e path wd (h.remove_watch wd w) in
      let (shrunk, same) = removed-watches e path wd (h.remove_watch wd w) in
      let (left, same') =
        remove_wds-watches (λ x. Q x × ((x.0 == wd) ≡ false)) wds path t.0 t.1
          (rw shrunk (remove-Each Q e.watches wd q)) in
      (
        Each-imp _ _ (λ x k. (k.0.0, ground (arith, k.0.1, k.1, ==_iff wd x.0, ==_iff x.0 wd))) _
            left,
        record {
          tokens_of_sockets = rw (same'.tokens_of_sockets, same.tokens_of_sockets) refl;
          paths = rw (same'.paths, same.paths) refl;
          tokens = rw (same'.tokens, same.tokens) refl;
          priority_keys = rw (same'.priority_keys, same.priority_keys) refl;
          priority_paths = rw (same'.priority_paths, same.priority_paths) refl;
        },
      )

  remove_watch_path-IsWatch :
      {s : BtreeSet h.Token} (path : FilePath) (e : EngineWatch h S) (w : h.World)
      → IsWatch s e
      → IsWatch s (remove_watch_path path foreground (e, w)).0
  unfolding remove_watch_path
  remove_watch_path-IsWatch path e w i =
      let wds = wds_of e.watches path foreground in
      let (left, same) =
        remove_wds-watches _ wds path e w (
          Each-both _ _ e.watches i.watched
            (keys-keep-Each (is_watch path foreground) e.watches)) in
      record {
        watched =
            Each-imp _ _
              (λ x k. (
                k.0.0.0,
                rw same.paths (
                    contains_left e.foreground_paths path x.1.0 k.0.0.1
                      (other x k.0.0.0 k.0.1 k.1)),
              ))
              _ left;
        sockets = rw same.tokens_of_sockets i.sockets;
        tokened = rw (same.tokens, same.priority_paths) i.tokened;
        keyed = rw (same.priority_keys, same.priority_paths) i.keyed;
      }
    where
      Each-both :
          {A : Type 0} (P Q : A → Type 0) (xs : List A)
          → Each P xs
          → Each Q xs
          → Each (λ x. P x × Q x) xs
      Each-both P Q [] p q = tt
      Each-both P Q (x ∷ xs) p q = ((p.0, q.0), Each-both P Q xs p.1 q.1)

      other :
          (x : ℤ × (FilePath × WatchTarget))
          → x.1.1 ≡ foreground
          → (is_watch path foreground x.1 ≡ true
              → contains (wds_of e.watches path foreground) x.0 ≡ true)
          → contains (wds_of e.watches path foreground) x.0 ≡ false
          → (x.1.0 == path) ≡ false
      other x f k n = elim (Bool-cases (x.1.0 == path)) [
        | inl same ↦ cc (k (rw (f, same) refl))
        | inr differs ↦ differs
      ]

  pub remove_watch_paths-IsWatch :
      {s : BtreeSet h.Token} (paths : List FilePath) (t : EngineWatch h S × h.World)
      → IsWatch s t.0
      → IsWatch s (remove_watch_paths paths foreground t).0
  unfolding remove_watch_paths
  remove_watch_paths-IsWatch [] t i = i
  remove_watch_paths-IsWatch (path ∷ paths) t i =
      remove_watch_paths-IsWatch paths (remove_watch_path path foreground t)
        (remove_watch_path-IsWatch path t.0 t.1 i)
