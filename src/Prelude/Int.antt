-- ===== src/Prelude/Int.antt =====
-- The signed integers that configuration and checkpoints hold, over the native numbers.
use Prim.Native.Nat.{ℕ}
use mathlib.Core.Bool.{Bool, true, false}
use r.Prelude.{leb}

-- `negsuc n` is -(n + 1).
pub data ℤ : Type 0 where
  pos : ℕ → ℤ
  negsuc : ℕ → ℤ

-- n > 0
abbrev pub is_positive : ℤ → Bool
is_positive (pos n) = leb 1 n
is_positive (negsuc _) = false

-- n >= 0
abbrev pub is_natural : ℤ → Bool
is_natural (pos _) = true
is_natural (negsuc _) = false

-- The number of an integer that is not negative.
abbrev pub to_ℕ : ℤ → ℕ
to_ℕ (pos n) = n
to_ℕ (negsuc _) = 0

-- k >= n, for a counter k.
abbrev pub reaches : ℕ → ℤ → Bool
reaches k (pos n) = leb n k
reaches k (negsuc _) = true
