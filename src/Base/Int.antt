-- ===== src/Base/Int.antt =====
-- Signed integers over the native numbers, under the library's names, and the two readings of a
-- machine word: the number of its bit pattern and the integer in two's complement.
use uwasm_vm.Base.Tests.{ltb, if◌then◌else◌}
use Prim.Native.Nat.{ℕ, suc, ◌+◌, ◌-◌, ◌*◌, ◌%◌}
use mathlib.Core.Bool.{Bool}

-- `negsuc n` is -(n + 1).
pub data ℤ : Type 0 where
  pos : ℕ → ℤ
  negsuc : ℕ → ℤ

abbrev pub pos_part : ℤ → ℕ
pos_part (pos n) = n
pos_part (negsuc n) = 0

abbrev pub neg_part : ℤ → ℕ
neg_part (pos n) = 0
neg_part (negsuc n) = suc n

abbrev pub ltb_ℤ : ℤ → ℤ → Bool
ltb_ℤ a b = ltb (pos_part a + neg_part b) (pos_part b + neg_part a)

-- The integer that the pattern `x` of a word with `m` values stands for.
abbrev pub signed : ℕ → ℕ → ℤ
signed m x = if ltb (2 * x) m then pos x else negsuc (m - x - 1)

-- The pattern of an integer, as a conversion to a word with `m` values wraps it.
abbrev pub wrap : ℕ → ℤ → ℕ
wrap m (pos n) = n % m
wrap m (negsuc n) = m - 1 - n % m

-- A conversion from `m` to `n` values: sign extension, or the low bits.
abbrev pub convert : ℕ → ℕ → ℕ → ℕ
convert m n x = wrap n (signed m x)
