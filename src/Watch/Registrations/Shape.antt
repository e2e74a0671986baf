-- ===== src/Watch/Registrations/Shape.antt =====
-- What holds of the registrations whatever happens.
use core_shift_engine.Base.{
  ℤ, ◌≡◌, refl, true, false, not, List, [], ◌∷◌, Result, ok, err, arith, Each, Each-imp, keep-Each,
  ◌==◌, ==_iff, int_ord, nat_ord,
}
use core_shift_engine.Btree.Map.{insert-Each, remove-Each}
use core_shift_engine.Btree.Set.{BtreeSet, contains, contains-insert, contains-keep}
use core_shift_engine.Btree.Set
use core_shift_engine.Paths.{FilePath, path_ord}
use core_shift_engine.Host.{Host}
use core_shift_engine.Watch.Registrations.{
  EngineWatch, foreground, added, drop_priority_path, drop_priority_paths,
}

-- Each watch is for the foreground, at a path that is recorded as watched; each token and each key of
-- a priority registration is for a path that is recorded as registered; and the sockets are `s`.
pub record IsWatch {h : Host} {S : Type 0} (s : BtreeSet h.Token) (e : EngineWatch h S)
    : Type 0 where
  pub watched :
      Each (λ x. (x.1.1 ≡ foreground) × (contains e.foreground_paths x.1.0 ≡ true)) e.watches
  pub tokened :
      Each (λ x. contains e.foreground_priority_paths x.1 ≡ true) e.foreground_priority_tokens
  pub sockets : e.socket_tokens ≡ s
  pub keyed : Each (λ x. contains e.foreground_priority_paths x.0 ≡ true) e.foreground_priority_keys

-- An item put into a set is in it, and what was in it is.
pub contains_put :
    (s : List FilePath) (p q : FilePath) → contains s q ≡ true → contains (Set.insert s p) q ≡ true
contains_put s p q h = ground (arith, contains-insert s p q)

pub contains_new : (s : List FilePath) (p : FilePath) → contains (Set.insert s p) p ≡ true
contains_new s p = ground (arith, contains-insert s p p, ==_iff p p)

-- What was in a set and is not taken out is in it.
pub contains_left :
    (s : List FilePath) (p q : FilePath)
    → contains s q ≡ true
    → (q == p) ≡ false
    → contains (Set.remove s p) q ≡ true
contains_left s p q h n = ground (arith, contains-keep (λ x. not (x == p)) s q)

module _ {h : Host} {S : Type 0} where
  pub added-IsWatch :
      {s : BtreeSet h.Token} (e : EngineWatch h S) (path : FilePath)
      (r : Result ℤ h.CoreError × h.World)
      → IsWatch s e
      → IsWatch s (added e path foreground r).0
  added-IsWatch e path (err x, w) i = record {
    watched = i.watched;
    tokened = i.tokened;
    keyed = i.keyed;
    sockets = i.sockets;
  }
  added-IsWatch e path (ok wd, w) i = record {
    watched =
        insert-Each _ e.watches wd (path, foreground) (refl, contains_new e.foreground_paths path)
          (Each-imp _ _ (λ x k. (k.0, contains_put e.foreground_paths path x.1.0 k.1)) e.watches
            i.watched);
    sockets = i.sockets;
    tokened = i.tokened;
    keyed = i.keyed;
  }

  pub drop_priority_path-IsWatch :
      {s : BtreeSet h.Token} (e : EngineWatch h S) (path : FilePath)
      → IsWatch s e
      → IsWatch s (drop_priority_path e path)
  unfolding drop_priority_path
  drop_priority_path-IsWatch e path i = record {
    watched = i.watched;
    sockets = i.sockets;
    tokened =
        keep-Each _ _ (λ entry. not (entry.1 == path)) e.foreground_priority_tokens
          (λ x k n. contains_left e.foreground_priority_paths path x.1 k (ground arith)) i.tokened;
    keyed =
        Each-imp _ _ (λ x k. contains_left e.foreground_priority_paths path x.0 k.0 k.1) _
          (remove-Each _ e.foreground_priority_keys path i.keyed);
  }

  pub drop_priority_paths-IsWatch :
      {s : BtreeSet h.Token} (e : EngineWatch h S) (paths : List FilePath)
      → IsWatch s e
      → IsWatch s (drop_priority_paths e paths)
  unfolding drop_priority_paths
  drop_priority_paths-IsWatch e [] i = i
  drop_priority_paths-IsWatch e (path ∷ paths) i =
      drop_priority_paths-IsWatch (drop_priority_path e path) paths
        (drop_priority_path-IsWatch e path i)
