-- ===== src/Foreground/Cache/Provider/Coherence.antt =====
-- Which listings count as coherent.
use core_shift_engine.Base.{
  ℕ, ◌*◌, ◌≤◌, ◌≡◌, ◌↔◌, refl, Bool, true, List, [], ◌∷◌, arith, nat_ord, any, keep, length, leb,
  Among, inl, inr, leb→le, le→leb, Bool-cases,
}
use core_shift_engine.Foreground.Cache.{PackageUidEntry}
use core_shift_engine.Foreground.Cache.Parse.{is_non_app, is_coherent}

any_found :
    (p : PackageUidEntry → Bool) (es : List PackageUidEntry)
    → any p es ≡ true
    → (e : PackageUidEntry) × Among e es × (p e ≡ true)
any_found p [] h = cc
any_found p (e ∷ es) h = elim (Bool-cases (p e)) [
  | inl here ↦ (e, inl refl, here)
  | inr there ↦ let (f, m, q) = any_found p es (rw there at h) in (f, inr m, q)
]

any_of :
    (p : PackageUidEntry → Bool) (es : List PackageUidEntry) (e : PackageUidEntry)
    → Among e es
    → p e ≡ true
    → any p es ≡ true
any_of p [] e m q = absurd m
any_of p (f ∷ es) e m q = ground (arith, any_of p es e)

-- A listing is coherent exactly if it is as long as asked, has an application's uid, and at most
-- half of its entries belong to the well-known system uids.
pub is_coherent_iff :
    (es : List PackageUidEntry) (min_entries : ℕ)
    → (is_coherent es min_entries ≡ true) ↔ (
        (min_entries ≤ length es)
        × ((e : PackageUidEntry) × Among e es × (10000 ≤ e.uid))
        × (length (keep is_non_app es) * 2 ≤ length es))
unfolding is_coherent
is_coherent_iff es min_entries = (to, from)
  where
    to :
        is_coherent es min_entries ≡ true
        → (min_entries ≤ length es)
          × ((e : PackageUidEntry) × Among e es × (10000 ≤ e.uid))
          × (length (keep is_non_app es) * 2 ≤ length es)
    to h =
        let (e, m, big) = any_found (λ e. leb 10000 e.uid) es (ground arith) in
        (ground arith, (e, m, leb→le 10000 e.uid big), ground arith)

    from :
        (min_entries ≤ length es)
          × ((e : PackageUidEntry) × Among e es × (10000 ≤ e.uid))
          × (length (keep is_non_app es) * 2 ≤ length es)
        → is_coherent es min_entries ≡ true
    from (long, (e, m, big), few) =
        ground (arith, any_of (λ e. leb 10000 e.uid) es e m (le→leb 10000 e.uid big))
