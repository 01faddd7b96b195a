-- ===== src/Common/Ints.antt =====
-- Go's signed integers. `negsuc n` is -(n + 1).
use Prim.Native.Nat.{ℕ, compare, Ordering}
use mathlib.Core.Bool.{Bool, true, false}

pub data ℤ : Type 0 where
  pos : ℕ → ℤ
  negsuc : ℕ → ℤ

-- `i < n` and `i <= n` for a constant or a length `n`
abbrev pub ltz : ℤ → ℕ → Bool
ltz (pos m) n = elim (compare m n) [ Ordering.lt ↦ true | _ ↦ false ]
ltz (negsuc _) n = true

abbrev pub lez : ℤ → ℕ → Bool
lez (pos m) n = elim (compare m n) [ Ordering.gt ↦ false | _ ↦ true ]
lez (negsuc _) n = true

-- `i > n`
abbrev pub gtz : ℤ → ℕ → Bool
gtz (pos m) n = elim (compare m n) [ Ordering.gt ↦ true | _ ↦ false ]
gtz (negsuc _) n = false

-- `i == n`
abbrev pub eqz : ℤ → ℕ → Bool
eqz (pos m) n = elim (compare m n) [ Ordering.eq ↦ true | _ ↦ false ]
eqz (negsuc _) n = false

-- `i > j`
abbrev pub gt_int : ℤ → ℤ → Bool
gt_int (pos m) (pos n) = elim (compare m n) [ Ordering.gt ↦ true | _ ↦ false ]
gt_int (pos m) (negsuc n) = true
gt_int (negsuc m) (pos n) = false
gt_int (negsuc m) (negsuc n) = elim (compare m n) [ Ordering.lt ↦ true | _ ↦ false ]
