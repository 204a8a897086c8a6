-- ===== src/Exec/Word.antt =====
-- Operations on machine words as bit patterns (`m` is the number of patterns, 2^32 or 2^64), and
-- the floating-point arithmetic that the C++ implementation supplies, as a parameter.
use uwasm_vm.Base.{ℕ, ◌+◌, ◌-◌, ◌*◌, ◌/◌, ◌%◌, ◌^◌, Bool, not, ltb, ◌==◌, ◌&&◌, if◌then◌else◌}
use uwasm_vm.Base.{Option, Result, ok, ◌>>◌, defined_if}
use uwasm_vm.Base.Int.{ℤ}
use uwasm_vm.Isa.Opcode.{Valty, i32, i64, f32, f64}

-- `float` or `double` on bit patterns. `of_int` and `to_int` are the conversions from and to
-- integers, the latter towards 0, with no result for NaN and infinity.
pub record FloatOps : Type 0 where
  pub eq : ℕ → ℕ → Bool
  pub lt : ℕ → ℕ → Bool
  pub le : ℕ → ℕ → Bool
  pub add : ℕ → ℕ → ℕ
  pub sub : ℕ → ℕ → ℕ
  pub mul : ℕ → ℕ → ℕ
  pub div : ℕ → ℕ → ℕ
  pub fmin : ℕ → ℕ → ℕ
  pub fmax : ℕ → ℕ → ℕ
  pub ceil : ℕ → ℕ
  pub floor : ℕ → ℕ
  pub sqrt : ℕ → ℕ
  pub fabs : ℕ → ℕ
  pub of_int : ℤ → ℕ
  pub to_int : ℕ → Option ℤ

pub record Floats : Type 0 where
  pub f32 : FloatOps
  pub f64 : FloatOps
  pub f32_to_f64 : ℕ → ℕ
  pub f64_to_f32 : ℕ → ℕ

abbrev pub modulus : Valty → ℕ
modulus i32 = 2 ^ 32
modulus i64 = 2 ^ 64
modulus f32 = 2 ^ 32
modulus f64 = 2 ^ 64

-- Signed arithmetic wraps, as the supported compilers do it.
abbrev pub add_word : ℕ → ℕ → ℕ → ℕ
add_word m a b = (a + b) % m

abbrev pub sub_word : ℕ → ℕ → ℕ → ℕ
sub_word m a b = (a + m - b) % m

abbrev pub mul_word : ℕ → ℕ → ℕ → ℕ
mul_word m a b = a * b % m

-- The magnitude of the signed reading, its sign, and a number with a sign as a pattern.
abbrev pub magnitude : ℕ → ℕ → ℕ
magnitude m a = if ltb (2 * a) m then a else m - a

abbrev pub is_negative : ℕ → ℕ → Bool
is_negative m a = not (ltb (2 * a) m)

abbrev pub signed_word : ℕ → Bool → ℕ → ℕ
signed_word m neg n = if neg then (m - n) % m else n % m

abbrev xor : Bool → Bool → Bool
xor a b = if a then not b else b

-- C++ `/` and `%` on signed operands truncate; by 0, and for the least number by -1, they are
-- undefined.
abbrev pub div_is_defined : ℕ → ℕ → ℕ → Bool
div_is_defined m a b = not (b == 0) && not (2 * a == m && b == m - 1)

unfoldable pub div_signed : ℕ → ℕ → ℕ → Result ℕ
div_signed m a b =
    defined_if (div_is_defined m a b)
    >> ok (signed_word m (xor (is_negative m a) (is_negative m b)) (magnitude m a / magnitude m b))

unfoldable pub rem_signed : ℕ → ℕ → ℕ → Result ℕ
rem_signed m a b =
    defined_if (div_is_defined m a b)
    >> ok (signed_word m (is_negative m a) (magnitude m a % magnitude m b))

-- A shift by the width or more is undefined. `shr_signed` copies the sign.
unfoldable pub shl_word : ℕ → ℕ → ℕ → Result ℕ
shl_word w a n = defined_if (ltb n w) >> ok (a * 2 ^ n % 2 ^ w)

unfoldable pub shr_unsigned : ℕ → ℕ → ℕ → Result ℕ
shr_unsigned w a n = defined_if (ltb n w) >> ok (a / 2 ^ n)

unfoldable pub shr_signed : ℕ → ℕ → ℕ → Result ℕ
shr_signed w a n =
    defined_if (ltb n w)
    >> ok (if is_negative (2 ^ w) a then 2 ^ w - 1 - (2 ^ w - 1 - a) / 2 ^ n else a / 2 ^ n)
