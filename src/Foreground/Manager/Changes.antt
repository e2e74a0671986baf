-- ===== src/Foreground/Manager/Changes.antt =====
-- What `filter_changed` lets through over a run of answers of a source.
use core_shift_engine.Base.{
  ◌≡◌, ◌≢◌, refl, ap, Bool, true, false, List, [], ◌∷◌, Option, none, some, arith, Ord, ==_iff,
  ==_refl, nat_ord, int_ord, text_ord, Bool-cases, inl, inr,
}
use core_shift_engine.Foreground.Source.{
  ForegroundSourceKind, ForegroundCandidate, cgroup_v1, cgroup_v2, activity_manager, auto_source,
  cleared_source,
}
use core_shift_engine.Foreground.Manager.{
  ForegroundManager, ForegroundUpdateResult, active, unknown, kind_code, option_eq, bool_eq,
  same_candidate, repeats, filter_changed,
}

option_eq→eq : {A : Type 0} ⦃o : Ord A⦄ (a b : Option A) → option_eq a b ≡ true → a ≡ b
option_eq→eq none none h = refl
option_eq→eq none (some b) h = cc
option_eq→eq (some a) none h = cc
option_eq→eq (some a) (some b) h = ap some ((==_iff a b).0 h)

option_eq_self : {A : Type 0} ⦃o : Ord A⦄ (a : Option A) → option_eq a a ≡ true
option_eq_self none = refl
option_eq_self (some a) = ==_refl a

kind_code→eq : (a b : ForegroundSourceKind) → kind_code a ≡ kind_code b → a ≡ b
kind_code→eq cgroup_v1 b h = ground arith
kind_code→eq cgroup_v2 b h = ground arith
kind_code→eq activity_manager b h = ground arith
kind_code→eq auto_source b h = ground arith
kind_code→eq cleared_source b h = ground arith

bool_eq→eq : (a b : Bool) → bool_eq a b ≡ true → a ≡ b
bool_eq→eq a b h = ground arith

same_candidate→eq : (a b : ForegroundCandidate) → same_candidate a b ≡ true → a ≡ b
unfolding same_candidate
same_candidate→eq a b h = ground (
  arith,
  kind_code→eq a.source b.source,
  option_eq→eq a.pid b.pid,
  option_eq→eq a.uid b.uid,
  option_eq→eq a.package_name b.package_name,
  bool_eq→eq a.identity_resolved b.identity_resolved,
)

same_candidate_self : (a : ForegroundCandidate) → same_candidate a a ≡ true
unfolding same_candidate
same_candidate_self a =
    ground (arith, option_eq_self a.pid, option_eq_self a.uid, option_eq_self a.package_name)

pub repeats→eq :
    (o : Option ForegroundCandidate) (c : ForegroundCandidate) → repeats o c ≡ true → o ≡ some c
repeats→eq none c h = cc
repeats→eq (some last) c h = ap some (same_candidate→eq last c h)

pub repeats_ne :
    (o : Option ForegroundCandidate) (c : ForegroundCandidate) → repeats o c ≡ false → o ≢ some c
repeats_ne none c h e = cc
repeats_ne (some last) c h e = ground (arith, same_candidate_self c)

-- The candidates that an update tells.
abbrev pub told : ForegroundUpdateResult → List ForegroundCandidate → List ForegroundCandidate
told r rest = elim r.update [ none ↦ rest | some (active c) ↦ c ∷ rest | some (unknown u) ↦ rest ]

-- A run of answers through `filter_changed`: the candidates told, and the manager behind them.
pub filter_run :
    {S : Type 0}
    → ForegroundManager S
    → List (Option ForegroundCandidate)
    → List ForegroundCandidate × ForegroundManager S
filter_run m [] = ([], m)
filter_run m (a ∷ rest) =
    let (r, m') = filter_changed m a in
    let (later, last) = filter_run m' rest in (told r later, last)

-- No candidate is the one before it, which for the first is `last`.
abbrev pub Alternates : Option ForegroundCandidate → List ForegroundCandidate → Type 0
Alternates last [] = Unit
Alternates last (c ∷ cs) = (last ≢ some c) × Alternates (some c) cs

-- The last candidate among the answers, or `last`.
abbrev pub last_seen :
    Option ForegroundCandidate → List (Option ForegroundCandidate) → Option ForegroundCandidate
last_seen last [] = last
last_seen last (none ∷ rest) = last_seen last rest
last_seen last (some c ∷ rest) = last_seen (some c) rest

-- The last candidate of a list, or `last`.
abbrev pub last_told :
    Option ForegroundCandidate → List ForegroundCandidate → Option ForegroundCandidate
last_told last [] = last
last_told last (c ∷ cs) = last_told (some c) cs

-- Over any run of answers no candidate is told twice in a row, also not the one that the manager
-- held before; and in the end the manager holds the last candidate of the answers, which is also
-- the last one that was told.
pub filter_run-Alternates :
    {S : Type 0} (m : ForegroundManager S) (answers : List (Option ForegroundCandidate))
    → Alternates m.last_payload (filter_run m answers).0
      × ((filter_run m answers).1.last_payload ≡ last_seen m.last_payload answers)
      × (last_told m.last_payload (filter_run m answers).0 ≡ last_seen m.last_payload answers)
unfolding filter_run filter_changed
filter_run-Alternates m [] = (tt, refl, refl)
filter_run-Alternates m (none ∷ rest) = filter_run-Alternates m rest
filter_run-Alternates m (some c ∷ rest) = elim (Bool-cases (repeats m.last_payload c)) [
  | inl same ↦ rw (same, ← repeats→eq m.last_payload c same) (filter_run-Alternates m rest)
  | inr other ↦
      let (alternates, held, told_last) =
        filter_run-Alternates (record m { last_payload = some c }) rest in
      rw other ((repeats_ne m.last_payload c other, alternates), held, told_last)
]
