-- ===== src/Foreground/Cache/States.antt =====
-- What `uid_state` tells about the entries that the cache was rebuilt from.
use core_shift_engine.Base.{
  ℕ, ◌≤◌, ◌≡◌, ◌↔◌, refl, sym, ap, ◌∙◌, subst, List, [], ◌∷◌, Option, none, some, arith, ◌==◌,
  ==_iff, nat_ord, text_ord, length, Among, Each, Each-of, inl, inr, Bool-cases, Option-cases,
}
use mathlib.Core.Option.{some-injective}
use core_shift_engine.Btree.Keys.{IsAscending}
use core_shift_engine.Btree.Map
use core_shift_engine.Btree.Set
use core_shift_engine.Text.Chars.{Text}
use core_shift_engine.Foreground.Cache.{
  PackageUidEntry, PackageUidSnapshot, UidPackageCache, UidPackageState, exact, missing, ambiguous,
  update_from_snapshot, packages_for_uid, uid_for_package, state_of, uid_state, empty_cache, only,
  exact_package_for_uid,
}
use core_shift_engine.Foreground.Cache.Rebuild.{
  packages_of, last_uid, expected, packages_for_uid-update_from_snapshot,
  uid_for_package-update_from_snapshot,
}

-- What each state says of the packages that a uid has.
abbrev pub Describes : List Text → UidPackageState → Type 0
Describes ps (exact p) = Among p ps × Each (λ q. q ≡ p) ps
Describes ps missing = ps ≡ []
Describes ps (ambiguous qs) =
    IsAscending qs × (2 ≤ length qs) × ((q : Text) → Among q qs ↔ Among q ps)

SameContents : List Text → List Text → Type 0
SameContents s ps = (q : Text) → Set.contains s q ≡ Set.contains ps q

Among-same : (s ps : List Text) → SameContents s ps → (q : Text) → Among q s → Among q ps
unfolding SameContents
Among-same s ps same q m = Set.contains→Among ps q (sym (same q) ∙ Set.Among→contains s q m)

Among-same⁻¹ : (s ps : List Text) → SameContents s ps → (q : Text) → Among q ps → Among q s
unfolding SameContents
Among-same⁻¹ s ps same q m = Set.contains→Among s q (same q ∙ Set.Among→contains ps q m)

state_of-Describes :
    (s : List Text) (p : Text) (ps : List Text)
    → SameContents s (p ∷ ps)
    → IsAscending s
    → Describes (p ∷ ps) (state_of (some s))
state_of-Describes [] p ps same h = absurd (Among-same⁻¹ [] (p ∷ ps) same p (inl refl))
state_of-Describes (a ∷ []) p ps same h = (
  Among-same (a ∷ []) (p ∷ ps) same a (inl refl),
  Each-of _ (p ∷ ps) λ q m. one q (Among-same⁻¹ (a ∷ []) (p ∷ ps) same q m),
)
  where
    one : (q : Text) → Among q (a ∷ []) → q ≡ a
    one q (inl e) = e
    one q (inr m) = absurd m
state_of-Describes (a ∷ b ∷ s) p ps same h = (
  h,
  omega arith,
  λ q. (Among-same (a ∷ b ∷ s) (p ∷ ps) same q, Among-same⁻¹ (a ∷ b ∷ s) (p ∷ ps) same q),
)

insert_all-SameContents :
    (p : Text) (ps : List Text) → SameContents (Set.insert_all [] (p ∷ ps)) (p ∷ ps)
unfolding SameContents Set.contains
insert_all-SameContents p ps q = Set.contains-insert_all [] (p ∷ ps) q

expected-Describes : (ps : List Text) → Describes ps (state_of (expected ps))
expected-Describes [] = refl
expected-Describes (p ∷ ps) =
    state_of-Describes (Set.insert_all [] (p ∷ ps)) p ps (insert_all-SameContents p ps)
      (Set.insert_all-IsAscending [] (p ∷ ps) tt)

-- After an update the state of a uid tells what the snapshot's entries say of it: `exact p` that
-- they give it `p` and no other package, `missing` that they give it none, and `ambiguous ps` that
-- `ps` is the sorted list, without repetition, of the two or more packages that they give it.
pub uid_state-Describes :
    (c : UidPackageCache) (s : PackageUidSnapshot) (uid : ℕ)
    → Describes (packages_of uid s.entries) (uid_state (update_from_snapshot c s) uid)
unfolding uid_state
uid_state-Describes c s uid =
    rw (packages_for_uid-update_from_snapshot c s uid)
      (expected-Describes (packages_of uid s.entries))

only→state : (o : Option (List Text)) (p : Text) → only o ≡ some p → state_of o ≡ exact p
only→state none p h = cc
only→state (some []) p h = cc
only→state (some (q ∷ [])) p h = ap exact (some-injective q p h)
only→state (some (q ∷ r ∷ s)) p h = cc

state→only : (o : Option (List Text)) (p : Text) → state_of o ≡ exact p → only o ≡ some p
state→only none p h = cc
state→only (some []) p h = cc
state→only (some (q ∷ [])) p h = cc
state→only (some (q ∷ r ∷ s)) p h = cc

-- The exact package of a uid is there just if the state of the uid tells it, in any cache.
pub exact_package_for_uid_iff :
    (c : UidPackageCache) (uid : ℕ) (p : Text)
    → (exact_package_for_uid c uid ≡ some p) ↔ (uid_state c uid ≡ exact p)
unfolding exact_package_for_uid uid_state
exact_package_for_uid_iff c uid p =
    (only→state (packages_for_uid c uid) p, state→only (packages_for_uid c uid) p)

-- The default cache has no package for any uid.
pub empty_cache-missing : (uid : ℕ) → uid_state empty_cache uid ≡ missing
unfolding uid_state packages_for_uid Map.get
empty_cache-missing uid = refl

last_uid-eq :
    (p : Text) (uid : ℕ) (es : List PackageUidEntry) (u : ℕ)
    → Each (λ e. e.package_name ≡ p → e.uid ≡ uid) es
    → last_uid p es ≡ some u
    → u ≡ uid
last_uid-eq p uid [] u h k = cc
last_uid-eq p uid (e ∷ es) u h k =
    ground (arith, last_uid-eq p uid es u h.1, ==_iff e.package_name p, h.0)

Among-packages_of-last_uid :
    (p : Text) (uid : ℕ) (es : List PackageUidEntry)
    → Each (λ e. e.package_name ≡ p → e.uid ≡ uid) es
    → Among p (packages_of uid es)
    → last_uid p es ≡ some uid
Among-packages_of-last_uid p uid [] h m = absurd m
Among-packages_of-last_uid p uid (e ∷ es) h m = elim (Option-cases (last_uid p es)) [
  | inr (u, found) ↦ rw found (ap some (last_uid-eq p uid es u h.1 found))
  | inl absent ↦ elim (Bool-cases (e.uid == uid)) [
    | inl hit ↦ elim (rw hit at m) [
      | inl here ↦ ground (arith, ==_iff e.package_name p, ==_iff e.uid uid)
      | inr later ↦ ground (arith, Among-packages_of-last_uid p uid es h.1 later)
    ]
    | inr miss ↦ ground (arith, Among-packages_of-last_uid p uid es h.1 (rw miss at m))
  ]
]

-- If the snapshot gives the package `p` no other uid than `uid`, and the rebuilt cache has `p` as
-- the exact package of `uid`, then it has `uid` as the uid of `p`.
pub uid_for_package-exact :
    (c : UidPackageCache) (s : PackageUidSnapshot) (uid : ℕ) (p : Text)
    → Each (λ e. e.package_name ≡ p → e.uid ≡ uid) s.entries
    → uid_state (update_from_snapshot c s) uid ≡ exact p
    → uid_for_package (update_from_snapshot c s) p ≡ some uid
uid_for_package-exact c s uid p one e =
    uid_for_package-update_from_snapshot c s p
    ∙ Among-packages_of-last_uid p uid s.entries one
        (subst (Describes (packages_of uid s.entries)) e (uid_state-Describes c s uid)).0
