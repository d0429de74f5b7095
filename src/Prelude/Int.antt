-- ===== src/Prelude/Int.antt =====
-- Signed integers over the native numbers, as far as the program's `int`, `ssize_t` and `off_t`
-- need them.
use Prim.Native.Nat.{ℕ, zero, suc}

-- `negsuc n` is -(n + 1).
pub data ℤ : Type 0 where
  pos : ℕ → ℤ
  negsuc : ℕ → ℤ

-- minus a number
abbrev pub neg : ℕ → ℤ
neg zero = pos 0
neg (suc n) = negsuc n
