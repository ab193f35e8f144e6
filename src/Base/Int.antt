-- ===== src/Base/Int.antt =====
-- C's `int` results, where their sign matters: `negsuc n` is -(n + 1).
use Prim.Native.Nat.{ℕ, compare, Ordering}
use mathlib.Core.Bool.{Bool, true, false}

pub data ℤ : Type 0 where
  pos : ℕ → ℤ
  negsuc : ℕ → ℤ

abbrev pub is_one : ℤ → Bool
is_one (pos n) = elim (compare n 1) [ Ordering.eq ↦ true | _ ↦ false ]
is_one (negsuc n) = false

abbrev pub is_minus_one : ℤ → Bool
is_minus_one (pos n) = false
is_minus_one (negsuc n) = elim (compare n 0) [ Ordering.eq ↦ true | _ ↦ false ]

abbrev pub is_zero : ℤ → Bool
is_zero (pos n) = elim (compare n 0) [ Ordering.eq ↦ true | _ ↦ false ]
is_zero (negsuc n) = false

-- `(int)(a > b) - (int)(a < b)`
abbrev pub uint_cmp : ℕ → ℕ → ℤ
uint_cmp a b = elim (compare a b) [
  | Ordering.lt ↦ negsuc 0
  | Ordering.eq ↦ pos 0
  | Ordering.gt ↦ pos 1
]
