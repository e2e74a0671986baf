-- ===== src/Base/Int.antt =====
-- Signed integers over the native numbers, with their order.
use Prim.Native.Nat.{ℕ, compare, Ordering}
use Prim.Native.Nat.Ordering.{lt, gt}
use mathlib.Core.Bool.{Bool, true, false}
use native.Mathlib.Omega.{arith}
use core_shift_engine.Base.Orders.{Ord, IsTotal}

-- `negsuc n` is -(n + 1).
pub data ℤ : Type 0 where
  pos : ℕ → ℤ
  negsuc : ℕ → ℤ

abbrev pub int_cmp : ℤ → ℤ → Ordering
int_cmp (pos m) (pos n) = compare m n
int_cmp (pos m) (negsuc n) = gt
int_cmp (negsuc m) (pos n) = lt
int_cmp (negsuc m) (negsuc n) = compare n m

pub int_cmp-IsTotal : IsTotal int_cmp
int_cmp-IsTotal = ground arith

instance abbrev pub int_ord : Ord ℤ
int_ord = record { cmp = int_cmp; total = int_cmp-IsTotal }

abbrev pub ltb_ℤ : ℤ → ℤ → Bool
ltb_ℤ a b = elim (int_cmp a b) [ lt ↦ true | _ ↦ false ]
