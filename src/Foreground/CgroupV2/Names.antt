-- ===== src/Foreground/CgroupV2/Names.antt =====
-- Which directory names stand for which uid.
use core_shift_engine.Base.{
  ℕ, ◌+◌, ◌*◌, ◌^◌, ◌<◌, ◌≡◌, refl, ◌∙◌, ap, true, false, [], ◌∷◌, ◌++◌, Option, none, some,
  nat_ord, ltb, if◌then◌else◌, arith, Bool-cases, inl, inr, is_empty,
}
use core_shift_engine.Text.Chars.{Text, codes, strip_prefix, strip_prefix_complete, is_ascii_digit}
use core_shift_engine.Text.Split.{split_once}
use core_shift_engine.Text.Decimal.{
  show, parse_unsigned-show, parse_unsigned-lt, IsDigits, show-IsDigits, show-is_empty,
}
use core_shift_engine.Paths.{FilePath, file_name, join_name, file_name-join_name, is_utf8_name}
use core_shift_engine.Foreground.CgroupV2.Parse.{
  bind, checked, user_app_uid, parse_u32, user_uid, user_dir_uid, dir_uid, uid_of_name,
  parse_uid_dir_name,
}

bind-lt :
    {A : Type 0} (o : Option A) (f : A → Option ℕ) (n : ℕ)
    → ((a : A) → f a ≡ some n → n < 2 ^ 32)
    → bind o f ≡ some n
    → n < 2 ^ 32
bind-lt none f n k h = cc
bind-lt (some a) f n k h = k a h

checked-lt : (m n : ℕ) → checked m ≡ some n → n < 2 ^ 32
checked-lt m n h = ground arith

user_app_uid-lt : (user app n : ℕ) → user_app_uid user app ≡ some n → n < 2 ^ 32
unfolding user_app_uid
user_app_uid-lt user app n h =
    bind-lt (checked (user * 100000)) _ n
      (λ a. bind-lt (checked (a + 10000)) _ n (λ b. checked-lt (b + app) n)) h

user_uid-lt : (e : Text × Text) (n : ℕ) → user_uid e ≡ some n → n < 2 ^ 32
user_uid-lt (user, app) n h =
    bind-lt (parse_u32 user) _ n (λ u. bind-lt (parse_u32 app) _ n (λ a. user_app_uid-lt u a n)) h

uid_of_name-lt : (name : Text) (n : ℕ) → uid_of_name name ≡ some n → n < 2 ^ 32
uid_of_name-lt name n h = by_prefix (strip_prefix (codes "uid_") name) h
  where
    by_user : (o : Option Text) → user_dir_uid o ≡ some n → n < 2 ^ 32
    by_user none k = cc
    by_user (some rest) k =
        bind-lt (split_once (codes "_a") rest) user_uid n (λ e. user_uid-lt e n) k

    by_prefix : (o : Option Text) → dir_uid name o ≡ some n → n < 2 ^ 32
    by_prefix none k = by_user (strip_prefix (codes "u") name) k
    by_prefix (some uid) k = parse_unsigned-lt (2 ^ 32) uid k

-- The sum of the parts of a uid, where it fits into 32 bits.
user_app_uid_lem :
    (user app : ℕ)
    → user_app_uid user app ≡ (
        if ltb (user * 100000 + 10000 + app) (2 ^ 32)
        then some (user * 100000 + 10000 + app)
        else none)
unfolding user_app_uid
user_app_uid_lem user app = ground arith

-- A uid that a directory is named for is below 2 ^ 32.
pub parse_uid_dir_name-lt :
    (path : FilePath) (n : ℕ) → parse_uid_dir_name path ≡ some n → n < 2 ^ 32
unfolding parse_uid_dir_name
parse_uid_dir_name-lt path n h = bind-lt (file_name path) _ n by_name h
  where
    by_name :
        (name : Text) → (if is_utf8_name name then uid_of_name name else none) ≡ some n → n < 2 ^ 32
    by_name name k = elim (Bool-cases (is_utf8_name name)) [
      | inl good ↦ uid_of_name-lt name n (rw good at k)
      | inr bad ↦ cc (rw bad at k)
    ]

IsDigits-is_utf8_name : (s : Text) → IsDigits s → is_utf8_name s ≡ true
unfolding is_ascii_digit
IsDigits-is_utf8_name [] d = refl
IsDigits-is_utf8_name (c ∷ s) d = ground (arith, IsDigits-is_utf8_name s)

digits-is_utf8_name :
    (s t : Text) → IsDigits s → is_utf8_name t ≡ true → is_utf8_name (s ++ t) ≡ true
unfolding is_ascii_digit
digits-is_utf8_name [] t d u = u
digits-is_utf8_name (c ∷ s) t d u = ground (arith, digits-is_utf8_name s t)

digits_not_uid :
    (s t : Text)
    → IsDigits s
    → is_empty s ≡ false
    → strip_prefix (codes "uid_") (b'u' ∷ (s ++ t)) ≡ none
unfolding strip_prefix is_ascii_digit
digits_not_uid [] t d e = cc
digits_not_uid (c ∷ s) t d e = ground arith

split_once-digits :
    (s t : Text) → IsDigits s → split_once (codes "_a") (s ++ (codes "_a" ++ t)) ≡ some (s, t)
unfolding split_once strip_prefix is_ascii_digit
split_once-digits [] t d = refl
split_once-digits (c ∷ s) t d = ground (arith, split_once-digits s t)

named :
    (path : FilePath) (name : Text)
    → is_utf8_name name ≡ true
    → parse_uid_dir_name (join_name path name) ≡ uid_of_name name
unfolding parse_uid_dir_name
named path name u = rw (file_name-join_name path name, u) refl

uid_of_name-uid : (uid : ℕ) → uid < 2 ^ 32 → uid_of_name (codes "uid_" ++ show uid) ≡ some uid
uid_of_name-uid uid l =
    ap (dir_uid (codes "uid_" ++ show uid)) (strip_prefix_complete (codes "uid_") (show uid))
    ∙ parse_unsigned-show (2 ^ 32) uid l

uid_of_name-user :
    (user app : ℕ)
    → user < 2 ^ 32
    → app < 2 ^ 32
    → uid_of_name (b'u' ∷ (show user ++ (codes "_a" ++ show app))) ≡ user_app_uid user app
uid_of_name-user user app l m =
    let rest = show user ++ (codes "_a" ++ show app) in
    ap (dir_uid (b'u' ∷ rest)) (
      digits_not_uid (show user) (codes "_a" ++ show app) (show-IsDigits user) (show-is_empty user))
    ∙ (ap user_dir_uid (strip_prefix_complete (codes "u") rest)
        ∙ (ap (λ o. bind o user_uid) (split_once-digits (show user) (show app) (show-IsDigits user))
            ∙ (ap (λ o. bind o λ u. bind (parse_u32 (show app)) λ a. user_app_uid u a)
                  (parse_unsigned-show (2 ^ 32) user l)
                ∙ ap (λ o. bind o λ a. user_app_uid user a) (parse_unsigned-show (2 ^ 32) app m))))

-- Both forms of a directory name are read back. A directory that is named `uid_` and a uid of 32 bits,
-- as printed, stands for this uid. One that is named `u`, a user, `_a` and an application, both of 32
-- bits, stands for 100000 times the user and 10000 and the application, if this has 32 bits, and
-- else for none.
pub parse_uid_dir_name-show :
    (path : FilePath) (uid user app : ℕ)
    → uid < 2 ^ 32
    → user < 2 ^ 32
    → app < 2 ^ 32
    → (parse_uid_dir_name (join_name path (codes "uid_" ++ show uid)) ≡ some uid)
      × (parse_uid_dir_name (join_name path (b'u' ∷ (show user ++ (codes "_a" ++ show app)))) ≡ (
          if ltb (user * 100000 + 10000 + app) (2 ^ 32)
          then some (user * 100000 + 10000 + app)
          else none))
parse_uid_dir_name-show path uid user app k l m = (
  named path (codes "uid_" ++ show uid) (IsDigits-is_utf8_name (show uid) (show-IsDigits uid))
      ∙ uid_of_name-uid uid k,
  named path (b'u' ∷ (show user ++ (codes "_a" ++ show app))) (
        digits-is_utf8_name (show user) (codes "_a" ++ show app) (show-IsDigits user)
          (IsDigits-is_utf8_name (show app) (show-IsDigits app)))
      ∙ (uid_of_name-user user app l m ∙ user_app_uid_lem user app),
)
