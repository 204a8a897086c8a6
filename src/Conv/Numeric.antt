-- ===== src/Conv/Numeric.antt =====
-- The integer and floating-point operations of the wasm specification, on the numbers that stand for
-- the values, apart from the interpreter; and where the interpreter computes them.
use uwasm_vm.Base.{
  ℕ, ◌+◌, ◌-◌, ◌*◌, ◌/◌, ◌%◌, ◌^◌, ◌≡◌, ◌<◌, Bool, true, false, not, ◌&&◌, ◌==◌, leb, ltb,
  if◌then◌else◌, Option, some, none, bit_and, bit_or, bit_xor,
}
use uwasm_vm.Isa.Opcode.{Cmp, eq, ne, lt, le, gt, ge, lt_u, le_u, gt_u, ge_u}
use uwasm_vm.Exec.Word.{Floats, FloatOps}
use uwasm_vm.Conv.Winst.{
  IntTy, int32, int64, IntBinary, div_s, div_u, and, or, xor, shl, shr_u, shr_s, rem_u, rem_s,
  FloatTy, float32, float64, FloatBinary,
}

-- Two's complement with `m` numbers.
abbrev is_neg : ℕ → ℕ → Bool
is_neg m x = leb m (2 * x)

abbrev abs_of : ℕ → ℕ → ℕ
abs_of m x = if is_neg m x then m - x else x

abbrev with_sign : ℕ → Bool → ℕ → ℕ
with_sign m neg n = if neg then (m - n) % m else n % m

abbrev differ : Bool → Bool → Bool
differ a b = if a then not b else b

-- The least number by -1.
abbrev pub overflows : ℕ → ℕ → ℕ → Bool
overflows m x y = (2 * x == m) && (y == m - 1)

abbrev unless : Bool → ℕ → Option ℕ
unless trap n = if trap then none else some n

-- Signed division rounds to 0 and traps where its result has no number; the remainder has the sign of
-- the dividend. Shifts count modulo the width. The rotations are left aside.
abbrev pub int_value : IntBinary → ℕ → ℕ → ℕ → Option ℕ
int_value IntBinary.add w x y = some ((x + y) % 2 ^ w)
int_value IntBinary.sub w x y = some ((x + 2 ^ w - y) % 2 ^ w)
int_value IntBinary.mul w x y = some (x * y % 2 ^ w)
int_value div_s w x y =
    if y == 0
    then none
    else (unless (overflows (2 ^ w) x y) (
        with_sign (2 ^ w) (differ (is_neg (2 ^ w) x) (is_neg (2 ^ w) y))
          (abs_of (2 ^ w) x / abs_of (2 ^ w) y)))
int_value div_u w x y = unless (y == 0) (x / y)
int_value rem_s w x y =
    unless (y == 0) (with_sign (2 ^ w) (is_neg (2 ^ w) x) (abs_of (2 ^ w) x % abs_of (2 ^ w) y))
int_value rem_u w x y = unless (y == 0) (x % y)
int_value and w x y = some (bit_and x y)
int_value or w x y = some (bit_or x y)
int_value xor w x y = some (bit_xor x y)
int_value shl w x y = some (x * 2 ^ (y % w) % 2 ^ w)
int_value shr_u w x y = some (x / 2 ^ (y % w))
int_value shr_s w x y =
    some (if is_neg (2 ^ w) x then 2 ^ w - 1 - (2 ^ w - 1 - x) / 2 ^ (y % w) else x / 2 ^ (y % w))
int_value _ w x y = none

-- The order of the signed values, by sign and, of two negative ones, by complement.
abbrev pub signed_less : ℕ → ℕ → ℕ → Bool
signed_less m x y =
    if is_neg m x
    then (if is_neg m y then ltb (m - 1 - y) (m - 1 - x) else true)
    else (if is_neg m y then false else ltb x y)

abbrev pub int_relation : Cmp → ℕ → ℕ → ℕ → Bool
int_relation eq w x y = x == y
int_relation ne w x y = not (x == y)
int_relation lt w x y = signed_less (2 ^ w) x y
int_relation gt w x y = signed_less (2 ^ w) y x
int_relation le w x y = not (signed_less (2 ^ w) y x)
int_relation ge w x y = not (signed_less (2 ^ w) x y)
int_relation lt_u w x y = ltb x y
int_relation gt_u w x y = ltb y x
int_relation le_u w x y = leb x y
int_relation ge_u w x y = leb y x

abbrev pub bits : IntTy → ℕ
bits int32 = 32
bits int64 = 64

-- The operands with which the interpreter computes the operation: unsigned division only below half
-- the range, the remainder of the least number by -1 not at all, and shifts by less than the width.
abbrev pub IsCommon : IntBinary → ℕ → ℕ → ℕ → Type 0
IsCommon div_u w x y = (2 * x < 2 ^ w) × (2 * y < 2 ^ w)
IsCommon rem_u w x y = (2 * x < 2 ^ w) × (2 * y < 2 ^ w)
IsCommon rem_s w x y = overflows (2 ^ w) x y ≡ false
IsCommon shl w x y = y < w
IsCommon shr_u w x y = y < w
IsCommon shr_s w x y = y < w
IsCommon _ w x y = Unit

abbrev pub ops_of : Floats → FloatTy → FloatOps
ops_of fl float32 = fl.f32
ops_of fl float64 = fl.f64

abbrev pub float_value : FloatOps → FloatBinary → ℕ → ℕ → ℕ
float_value f FloatBinary.add x y = f.add x y
float_value f FloatBinary.sub x y = f.sub x y
float_value f FloatBinary.mul x y = f.mul x y
float_value f FloatBinary.div x y = f.div x y
