-- ===== src/Foreground/Resolver/Verdict.antt =====
-- Which uids and payloads the resolver resolves, and to which package.
use core_shift_engine.Base.{
  ℕ, ℤ, ◌≡◌, ◌↔◌, refl, true, false, List, [], ◌∷◌, Option, none, some, Result, ok, err, Act, arith,
  Among, ◌≢◌, text_ord, nat_ord, inl, inr,
}
use core_shift_engine.Btree.Set.{contains}
use core_shift_engine.Text.Chars.{Text}
use core_shift_engine.Text.Split.{lines, trim}
use core_shift_engine.Text.Signed.{parse_i32}
use core_shift_engine.Foreground.Cache.{UidPackageState, uid_state, exact, missing, ambiguous}
use core_shift_engine.Foreground.Resolver.{ForegroundResolverState, accepts_app}
use core_shift_engine.Foreground.Resolver.Reports.{
  ForegroundResolveReport, report_v2, resolve_v2_uid_with_state, identify_v1, candidate_v1,
  settle_v1, answer_v1, loop_v1, resolve_v1_content, unresolved_v1,
}

-- The uid may be resolved to the package.
pub record Resolves (s : ForegroundResolverState) (uid : ℕ) (p : Text) : Type 0 where
  pub app_uid : accepts_app s.app_uid_filter uid ≡ true
  pub not_accessibility : contains s.accessibility_uids uid ≡ false
  pub known : uid_state s.cache uid ≡ exact p
  pub not_blocked : contains s.blocked_packages p ≡ false

-- A uid is resolved to a package just if the filter accepts it, it is no accessibility uid, the cache
-- has the package as its exact one, and the package is not blocked.
pub resolve_v2_uid_with_state_iff :
    (uid : ℕ) (s : ForegroundResolverState) (p : Text)
    → ((resolve_v2_uid_with_state uid s).package_name ≡ some p) ↔ Resolves s uid p
unfolding resolve_v2_uid_with_state
resolve_v2_uid_with_state_iff uid s p = (to, from)
  where
    reported :
        (st : UidPackageState)
        → (report_v2 s uid st).package_name ≡ some p
        → (st ≡ exact p) × (contains s.blocked_packages p ≡ false)
    reported (exact q) h = ground arith
    reported missing h = cc
    reported (ambiguous ps) h = cc

    to : (resolve_v2_uid_with_state uid s).package_name ≡ some p → Resolves s uid p
    to h = record {
      app_uid = ground arith;
      not_accessibility = ground arith;
      known = ground (arith, reported (uid_state s.cache uid));
      not_blocked = ground (arith, reported (uid_state s.cache uid));
    }

    from : Resolves s uid p → (resolve_v2_uid_with_state uid s).package_name ≡ some p
    from r = rw (r.app_uid, r.not_accessibility, r.known, r.not_blocked) refl

candidate_v1-Resolves :
    (s : ForegroundResolverState) (pid : ℤ) (uid : ℕ) (p : Text)
    → (candidate_v1 s pid uid).0 ≡ some p
    → Resolves s uid p
unfolding candidate_v1
candidate_v1-Resolves s pid uid p h = record {
  app_uid = ground arith;
  not_accessibility = ground arith;
  known = ground (arith, identified (uid_state s.cache uid));
  not_blocked = ground (arith, identified (uid_state s.cache uid));
}
  where
    identified :
        (st : UidPackageState)
        → (identify_v1 s pid uid st).0 ≡ some p
        → (st ≡ exact p) × (contains s.blocked_packages p ≡ false)
    identified (exact q) k = ground arith
    identified missing k = cc
    identified (ambiguous ps) k = cc

module _ {E W : Type 0} (uid_for_pid : ℤ → Act E W (Option ℕ)) (s : ForegroundResolverState) where
  -- A line that names a process whose uid, when it was asked for, was one that resolves to `p`.
  abbrev pub Names : Text → Text → Type 0
  Names p line =
      (pid : ℤ) × (parse_i32 (trim line) ≡ some pid)
      × ((uid : ℕ) × Resolves s uid p × ((w : W) × ((uid_for_pid pid w).0 ≡ ok (some uid))))

  unresolved_v1-none : (acc : List Text) (p : Text) → (unresolved_v1 acc).package_name ≢ some p
  unresolved_v1-none [] p h = cc
  unresolved_v1-none (l ∷ ls) p h = cc

  abbrev Found : List Text → Text → Type 0
  Found ls p = (line : Text) × Among line ls × Names p line

  answer_v1-Names :
      (rest : List Text → W → ForegroundResolveReport × W) (acc ls : List Text) (line : Text)
      (pid : ℤ) (p : Text) (w : W) (r : Result (Option ℕ) E × W)
      → ((acc' : List Text) (w' : W) → (rest acc' w').0.package_name ≡ some p → Found ls p)
      → parse_i32 (trim line) ≡ some pid
      → uid_for_pid pid w ≡ r
      → (answer_v1 uid_for_pid s rest acc pid r).0.package_name ≡ some p
      → Found (line ∷ ls) p
  answer_v1-Names rest acc ls line pid p w (ok (some uid), w') k parsed asked h =
      concluded (candidate_v1 s pid uid) refl h
    where
      concluded :
          (c : Option Text × Text)
          → candidate_v1 s pid uid ≡ c
          → (settle_v1 uid_for_pid s rest acc c w').0.package_name ≡ some p
          → Found (line ∷ ls) p
      concluded (some q, note) e g =
          (line, inl refl, (pid, parsed, (uid, candidate_v1-Resolves s pid uid p cc, (w, cc))))
      concluded (none, note) e g = let (l, m, n) = k _ w' g in (l, inr m, n)
  answer_v1-Names rest acc ls line pid p w (ok none, w') k parsed asked h =
      let (l, m, n) = k _ w' h in (l, inr m, n)
  answer_v1-Names rest acc ls line pid p w (err e, w') k parsed asked h =
      let (l, m, n) = k _ w' h in (l, inr m, n)

  loop_v1-Names :
      (ls acc : List Text) (w : W) (p : Text)
      → (loop_v1 uid_for_pid s ls acc w).0.package_name ≡ some p
      → Found ls p
  unfolding loop_v1
  loop_v1-Names [] acc w p h = absurd (unresolved_v1-none acc p h)
  loop_v1-Names (line ∷ ls) acc w p h =
      by_pid (λ acc' w'. loop_v1-Names ls acc' w' p) (parse_i32 (trim line)) refl h
    where
      by_pid :
          ((acc' : List Text) (w' : W)
            → (loop_v1 uid_for_pid s ls acc' w').0.package_name ≡ some p
            → Found ls p)
          → (o : Option ℤ) → parse_i32 (trim line) ≡ o
          → (elim o as (λ x. ForegroundResolveReport × W) [
            | none ↦ loop_v1 uid_for_pid s ls acc w
            | some pid ↦
                answer_v1 uid_for_pid s (loop_v1 uid_for_pid s ls) acc pid (uid_for_pid pid w)
          ]).0.package_name
            ≡ some p
          → Found (line ∷ ls) p
      by_pid k none e g = let (l, m, n) = k acc w g in (l, inr m, n)
      by_pid k (some pid) e g =
          answer_v1-Names (loop_v1 uid_for_pid s ls) acc ls line pid p w (uid_for_pid pid w) k e
            refl g

  -- A payload is resolved only to a package that a line of it accounts for: the line is a pid, and
  -- the uid that was found for it is one that resolves to the package.
  pub resolve_v1_content-Names :
      (content : Text) (w : W) (p : Text)
      → (resolve_v1_content uid_for_pid s content w).0.package_name ≡ some p
      → (line : Text) × Among line (lines content) × Names p line
  unfolding resolve_v1_content
  resolve_v1_content-Names content w p h = loop_v1-Names (lines content) [] w p h
