-- ===== src/Watch/Registrations/Entries.antt =====
-- The entries of priority registrations.
use core_shift_engine.Base.{
  ℕ, Bool, List, [], ◌∷◌, Option, none, some, Result, ok, err, Act, Each, Each-imp, int_ord,
  nat_ord,
}
use core_shift_engine.Btree.Map.{BtreeMap, keys, insert-Each, remove-Each}
use core_shift_engine.Btree.Map
use core_shift_engine.Btree.Set.{BtreeSet}
use core_shift_engine.Paths.{FilePath, path_ord}
use core_shift_engine.Host.{Host}
use core_shift_engine.Error.{EngineError}
use core_shift_engine.Watch.Registrations.{
  EngineWatch, drop_priority_path, insert_key, insert_registrations, registered, unregistered,
}
use core_shift_engine.Watch.Registrations.Shape.{
  IsWatch, contains_put, contains_new, drop_priority_path-IsWatch,
}

-- What holds of the old keys, and of a current key of the path, holds after `insert_key`.
insert_key-Each :
    (P : FilePath × ℕ → Type 0) (m : BtreeMap FilePath ℕ) (path : FilePath) (key : Option ℕ)
    → ((k : ℕ) → P (path, k))
    → Each P m
    → Each P (insert_key m path key)
insert_key-Each P m path none p e = e
insert_key-Each P m path (some k) p e = insert-Each P m path k (p k) e

module _ {h : Host} {S : Type 0} where
  insert_registrations-IsWatch :
      {s : BtreeSet h.Token} (current : BtreeMap FilePath ℕ) (rs : List (h.Token × FilePath))
      (e : EngineWatch h S)
      → IsWatch s e
      → IsWatch s (insert_registrations current rs e)
  unfolding insert_registrations
  insert_registrations-IsWatch current [] e i = i
  insert_registrations-IsWatch current ((token, path) ∷ rest) e i =
      insert_registrations-IsWatch current rest _ (record {
        watched = i.watched;
        sockets = i.sockets;
        tokened =
            insert-Each ⦃o = h.token_ord⦄ _ e.foreground_priority_tokens token path
              (contains_new e.foreground_priority_paths path)
              (Each-imp _ _ (λ x k. contains_put e.foreground_priority_paths path x.1 k) _
                i.tokened);
        keyed =
            insert_key-Each _ e.foreground_priority_keys path (Map.get current path)
              (λ k. contains_new e.foreground_priority_paths path)
              (Each-imp _ _ (λ x k. contains_put e.foreground_priority_paths path x.0 k) _ i.keyed);
      })

  pub registered-IsWatch :
      {s : BtreeSet h.Token} (current : BtreeMap FilePath ℕ) (e : EngineWatch h S)
      (r : Result (List (h.Token × FilePath)) (EngineError h) × h.World)
      → IsWatch s e
      → IsWatch s (registered current e r).1.0
  registered-IsWatch current e (ok rs, w) i = insert_registrations-IsWatch current rs e i
  registered-IsWatch current e (err x, w) i = i

  pub unregistered-IsWatch :
      {s : BtreeSet h.Token} (e : EngineWatch h S) (path : FilePath)
      (rest : Act (EngineError h) (EngineWatch h S × h.World) (Unit {0}))
      (r : Result Bool (EngineError h) × h.World)
      → ((t : EngineWatch h S × h.World) → IsWatch s t.0 → IsWatch s (rest t).1.0)
      → IsWatch s e
      → IsWatch s (unregistered e path rest r).1.0
  unregistered-IsWatch e path rest (ok b, w) k i =
      k (drop_priority_path e path, w) (drop_priority_path-IsWatch e path i)
  unregistered-IsWatch e path rest (err x, w) k i = i
