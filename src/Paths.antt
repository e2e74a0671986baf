-- ===== src/Paths.antt =====
-- `std::path`: a path is the list of its components, since that is what its `Eq` and `Ord` compare.
-- `as_os_str().is_empty()` holds of the path with no component.
use core_shift_engine.Base.{
  Bool, not, ◌&&◌, keep, all, map, ltb, is_empty, ◌==◌, if◌then◌else◌, nat_ord, ℕ, ◌≡◌, refl, List,
  [], ◌∷◌, ◌++◌, Option, none, some, Ord, Ordering, lt, eq, gt, IsTotal, list_cmp, list_cmp-IsTotal,
  text_ord, arith, option_map, compare,
}
use core_shift_engine.Text.Chars.{Text, codes}
use core_shift_engine.Text.Split.{split}

pub data Component : Type 0 where
  root_dir cur_dir parent_dir : Component
  normal : Text → Component

abbrev rank : Component → ℕ
rank root_dir = 0
rank cur_dir = 1
rank parent_dir = 2
rank (normal name) = 3

abbrev name_of : Component → Text
name_of (normal name) = name
name_of _ = []

eq_of_parts : (a b : Component) → rank a ≡ rank b → name_of a ≡ name_of b → a ≡ b
eq_of_parts root_dir b h k = ground arith
eq_of_parts cur_dir b h k = ground arith
eq_of_parts parent_dir b h k = ground arith
eq_of_parts (normal a) b h k = ground arith

pub component_cmp : Component → Component → Ordering
component_cmp a b = elim (compare (rank a) (rank b)) [
  | lt ↦ lt
  | eq ↦ text_ord.cmp (name_of a) (name_of b)
  | gt ↦ gt
]

component_eq_of_cmp : (a b : Component) → component_cmp a b ≡ eq → a ≡ b
unfolding component_cmp
component_eq_of_cmp a b h =
    ground (arith, eq_of_parts a b, text_ord.eq_of_cmp (name_of a) (name_of b))

component_cmp_refl : (a : Component) → component_cmp a a ≡ eq
unfolding component_cmp
component_cmp_refl a = ground (arith, text_ord.cmp_refl (name_of a))

component_lt_of_gt : (a b : Component) → component_cmp a b ≡ gt → component_cmp b a ≡ lt
unfolding component_cmp
component_lt_of_gt a b h = ground (arith, text_ord.lt_of_gt (name_of a) (name_of b))

component_lt_trans :
    (a b c : Component) → component_cmp a b ≡ lt → component_cmp b c ≡ lt → component_cmp a c ≡ lt
unfolding component_cmp
component_lt_trans a b c h k = ground (arith, text_ord.lt_trans (name_of a) (name_of b) (name_of c))

pub component_cmp-IsTotal : IsTotal component_cmp
component_cmp-IsTotal = record {
  cmp_refl = component_cmp_refl;
  eq_of_cmp = component_eq_of_cmp;
  lt_of_gt = component_lt_of_gt;
  lt_trans = component_lt_trans;
}

instance unfoldable pub component_ord : Ord Component
unfolding component_cmp text_ord
component_ord = record { cmp = component_cmp; total = component_cmp-IsTotal }

abbrev pub FilePath : Type 0
FilePath = List Component

instance unfoldable pub path_ord : Ord FilePath
unfolding component_ord list_cmp
path_ord = record { cmp = list_cmp; total = list_cmp-IsTotal }

-- All components but the last, which must not be the root.
unfoldable pub parent : FilePath → Option FilePath
parent [] = none
parent (root_dir ∷ []) = none
parent (c ∷ []) = some []
parent (c ∷ d ∷ p) = option_map (◌∷◌ c) (parent (d ∷ p))

-- The last component, if it is a name.
unfoldable pub file_name : FilePath → Option Text
file_name [] = none
file_name (normal name ∷ []) = some name
file_name (c ∷ []) = none
file_name (c ∷ d ∷ p) = file_name (d ∷ p)

-- A name hung below a path.
unfoldable pub join_name : FilePath → Text → FilePath
join_name p name = p ++ normal name ∷ []

pub parent-join_name : (p : FilePath) (name : Text) → parent (join_name p name) ≡ some p
unfolding parent join_name
parent-join_name [] name = refl
parent-join_name (c ∷ []) name = ground arith
parent-join_name (c ∷ d ∷ p) name = ground (arith, parent-join_name (d ∷ p) name)

pub file_name-join_name : (p : FilePath) (name : Text) → file_name (join_name p name) ≡ some name
unfolding file_name join_name
file_name-join_name [] name = refl
file_name-join_name (c ∷ []) name = ground arith
file_name-join_name (c ∷ d ∷ p) name = ground (arith, file_name-join_name (d ∷ p) name)

-- The components that a text is read as: pieces between slashes, where empty pieces and a `.` that is
-- not the first are dropped.
abbrev component_of : Text → Component
component_of piece =
    if piece == codes "." then cur_dir else if piece == codes ".." then parent_dir else normal piece

abbrev counts_as : Text → Bool
counts_as piece = not (is_empty piece) && not (piece == codes ".")

abbrev components_of : List Text → FilePath
components_of pieces = map component_of (keep counts_as pieces)

abbrev relative_path : List Text → FilePath
relative_path [] = []
relative_path (first ∷ pieces) =
    if is_empty first then components_of pieces else component_of first ∷ components_of pieces

-- `PathBuf::from`
unfoldable pub path_of_text : Text → FilePath
path_of_text [] = []
path_of_text (c ∷ s) =
    if c == b'/'
    then root_dir ∷ components_of (split b'/' s)
    else relative_path (split b'/' (c ∷ s))

abbrev drop_cur_dir : FilePath → FilePath
drop_cur_dir (cur_dir ∷ q) = q
drop_cur_dir q = q

-- `Path::join`: an absolute path takes the place of the first.
unfoldable pub join : FilePath → FilePath → FilePath
join p (root_dir ∷ q) = root_dir ∷ q
join [] q = q
join (c ∷ p) q = (c ∷ p) ++ drop_cur_dir q

-- A byte of a name that is no part of UTF-8 stands above the code points.
abbrev pub is_utf8_name : Text → Bool
is_utf8_name = all (λ c. ltb c 0x110000)

-- Whether `Path::to_str` has a text.
unfoldable pub is_utf8 : FilePath → Bool
is_utf8 = all (λ c. is_utf8_name (name_of c))
