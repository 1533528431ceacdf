-- ===== src/Workflow/Position.antt =====
-- Positions on the canvas, in whole pixels. They may be negative; what the program needs of them
-- is their distance on each axis and a shift to the right or down.
use cont_ained.Base.{ℕ, suc, ◌+◌, ◌-◌, ltb, leb, if◌then◌else◌}

-- `negsuc n` is -(n + 1).
pub data ℤ : Type 0 where
  pos : ℕ → ℤ
  negsuc : ℕ → ℤ

-- `Math.abs(a - b)`.
unfoldable pub abs_diff : ℤ → ℤ → ℕ
abs_diff (pos m) (pos n) = if leb m n then n - m else m - n
abs_diff (negsuc m) (negsuc n) = if leb m n then n - m else m - n
abs_diff (pos m) (negsuc n) = suc (m + n)
abs_diff (negsuc m) (pos n) = suc (m + n)

-- `a + k` for a constant `k` of the program.
unfoldable pub shift : ℤ → ℕ → ℤ
shift (pos m) k = pos (m + k)
shift (negsuc m) k = if ltb m k then pos (k - suc m) else negsuc (m - k)

pub record Position : Type 0 where
  pub x : ℤ
  pub y : ℤ
