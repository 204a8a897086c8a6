-- ===== src/Conv/Arithmetic.antt =====
-- The arithmetic of the interpreter (src/interpreter/exec_unit_func.h) computes the operations of the
-- wasm specification, on the operands that Numeric names.
use uwasm_vm.Base.{
  ℕ, ◌-◌, ◌*◌, ◌/◌, ◌%◌, ◌^◌, ◌≡◌, ◌<◌, refl, ◌∙◌, ap, arith, false, not, ◌==◌, leb, lt→ltb,
  if◌then◌else◌, some, none, ok, some-injective, Bool-cases, inl, inr,
}
use mathlib.Core.Path.{subst}
use uwasm_vm.Isa.Opcode
use uwasm_vm.Isa.Opcode.{Valty, i32, i64, Arith, Cmp}
use uwasm_vm.Base.Int.{signed, ltb_ℤ}
use uwasm_vm.Exec.Jump.{int_compare}
use native.Mathlib.Nat.{mod-eq_of_lt}
use uwasm_vm.Exec.Word.{
  Floats, modulus, div_signed, rem_signed, shl_word, shr_unsigned, shr_signed, is_negative,
  magnitude,
}
use uwasm_vm.Exec.Arith.{int_arith, arith_value}
use uwasm_vm.Exec.Unsigned.{div_u-small}
use uwasm_vm.Conv.Winst.{
  IntTy, int32, int64, IntBinary, div_s, div_u, and, or, xor, shl, shr_u, shr_s, rem_u, rem_s,
  FloatTy, float32, float64, FloatBinary,
}
use uwasm_vm.Conv.OpMap.{int_valty, float_valty}
use uwasm_vm.Conv.Straight.{arith_of, float_arith_of}
use uwasm_vm.Conv.Numeric.{
  int_value, signed_less, int_relation, overflows, bits, IsCommon, ops_of, float_value,
}

is_negative_lem : (m x : ℕ) → is_negative m x ≡ leb m (2 * x)
is_negative_lem m x = ground arith

magnitude_lem : (m x : ℕ) → magnitude m x ≡ (if leb m (2 * x) then m - x else x)
magnitude_lem m x = ground arith

div_signed_lem :
    (w x y : ℕ) {z : ℕ} → int_value div_s w x y ≡ some z → div_signed (2 ^ w) x y ≡ ok z
unfolding div_signed
div_signed_lem w x y {z} value = elim (Bool-cases (y == 0)) [
  | inl zero_div ↦ absurd (cc)
  | inr nonzero ↦ elim (Bool-cases (overflows (2 ^ w) x y)) [
    | inl trap ↦ absurd (cc)
    | inr fits ↦
        rw
          (
            nonzero,
            fits,
            is_negative_lem (2 ^ w) x,
            is_negative_lem (2 ^ w) y,
            magnitude_lem (2 ^ w) x,
            magnitude_lem (2 ^ w) y,
          )
          cc
  ]
]

rem_signed_lem :
    (w x y : ℕ) {z : ℕ}
    → overflows (2 ^ w) x y ≡ false
    → int_value rem_s w x y ≡ some z
    → rem_signed (2 ^ w) x y ≡ ok z
unfolding rem_signed
rem_signed_lem w x y {z} fits value = elim (Bool-cases (y == 0)) [
  | inl zero_div ↦ absurd (cc)
  | inr nonzero ↦
      rw
        (nonzero, fits, is_negative_lem (2 ^ w) x, magnitude_lem (2 ^ w) x, magnitude_lem (2 ^ w) y)
        cc
]

unsigned_lem :
    (v : Valty) (x y : ℕ) {z : ℕ}
    → 2 * x < modulus v
    → 2 * y < modulus v
    → ((if y == 0 then none else some (x / y)) ≡ some z → int_arith Opcode.div_u v x y ≡ ok z)
      × ((if y == 0 then none else some (x % y)) ≡ some z → int_arith Opcode.rem_u v x y ≡ ok z)
unsigned_lem v x y {z} small_x small_y = elim (Bool-cases (y == 0)) [
  | inl zero_div ↦ (λ e. absurd (cc), λ e. absurd (cc))
  | inr nonzero ↦
      let (quotient, rest) = div_u-small v x y small_x small_y (ground arith) in
      (λ e. cc (quotient, e, nonzero), λ e. cc (rest, e, nonzero))
]

module _ (w x y : ℕ) (small : y < w) where
  shl_lem : {z : ℕ} → int_value shl w x y ≡ some z → shl_word w x y ≡ ok z
  unfolding shl_word
  shl_lem value = let at : y % w ≡ y = mod-eq_of_lt small in cc (lt→ltb y w small, at, value)

  shr_u_lem : {z : ℕ} → int_value shr_u w x y ≡ some z → shr_unsigned w x y ≡ ok z
  unfolding shr_unsigned
  shr_u_lem value = let at : y % w ≡ y = mod-eq_of_lt small in cc (lt→ltb y w small, at, value)

  shr_s_lem : {z : ℕ} → int_value shr_s w x y ≡ some z → shr_signed w x y ≡ ok z
  unfolding shr_signed
  shr_s_lem value =
      let at : y % w ≡ y = mod-eq_of_lt small in
      cc (lt→ltb y w small, at, value, is_negative_lem (2 ^ w) x)

int_value_at :
    (t : IntTy) (x y z : ℕ) (b : Arith) {a : Arith}
    → int_arith b (int_valty t) x y ≡ ok z
    → some b ≡ some a
    → int_arith a (int_valty t) x y ≡ ok z
int_value_at t x y z b {a} done same =
    subst (λ u. int_arith u (int_valty t) x y ≡ ok z) (some-injective same) done

-- Where the operands are common, the interpreter's operation for a wasm operation gives its value.
pub int_value_lem :
    (t : IntTy) (o : IntBinary) (x y : ℕ) {a : Arith} {z : ℕ}
    → arith_of t o ≡ some a
    → IsCommon o (bits t) x y
    → int_value o (bits t) x y ≡ some z
    → int_arith a (int_valty t) x y ≡ ok z
unfolding int_arith
int_value_lem int32 IntBinary.add x y {z = z} is common e =
    int_value_at int32 x y z Opcode.add (cc) is
int_value_lem int64 IntBinary.add x y {z = z} is common e =
    int_value_at int64 x y z Opcode.add (cc) is
int_value_lem int32 IntBinary.sub x y {z = z} is common e =
    int_value_at int32 x y z Opcode.sub (cc) is
int_value_lem int64 IntBinary.sub x y {z = z} is common e =
    int_value_at int64 x y z Opcode.sub (cc) is
int_value_lem int32 IntBinary.mul x y {z = z} is common e =
    int_value_at int32 x y z Opcode.mul (cc) is
int_value_lem int64 IntBinary.mul x y {z = z} is common e =
    int_value_at int64 x y z Opcode.mul (cc) is
int_value_lem int32 div_s x y {z = z} is common e =
    int_value_at int32 x y z Opcode.div (div_signed_lem 32 x y e) is
int_value_lem int64 div_s x y {z = z} is common e =
    int_value_at int64 x y z Opcode.div (div_signed_lem 64 x y e) is
int_value_lem int32 rem_s x y {z = z} is common e =
    int_value_at int32 x y z Opcode.rem (rem_signed_lem 32 x y common e) is
int_value_lem int64 rem_s x y {z = z} is common e =
    int_value_at int64 x y z Opcode.rem (rem_signed_lem 64 x y common e) is
int_value_lem int32 div_u x y {z = z} is (small_x, small_y) e =
    int_value_at int32 x y z Opcode.div_u ((unsigned_lem i32 x y small_x small_y).0 e) is
int_value_lem int64 div_u x y {z = z} is (small_x, small_y) e =
    int_value_at int64 x y z Opcode.div_u ((unsigned_lem i64 x y small_x small_y).0 e) is
int_value_lem int32 rem_u x y {z = z} is (small_x, small_y) e =
    int_value_at int32 x y z Opcode.rem_u ((unsigned_lem i32 x y small_x small_y).1 e) is
int_value_lem int64 rem_u x y {z = z} is (small_x, small_y) e =
    int_value_at int64 x y z Opcode.rem_u ((unsigned_lem i64 x y small_x small_y).1 e) is
int_value_lem int32 and x y {z = z} is common e = int_value_at int32 x y z Opcode.and (cc) is
int_value_lem int64 and x y {z = z} is common e = int_value_at int64 x y z Opcode.and (cc) is
int_value_lem int32 or x y {z = z} is common e = int_value_at int32 x y z Opcode.or (cc) is
int_value_lem int64 or x y {z = z} is common e = int_value_at int64 x y z Opcode.or (cc) is
int_value_lem int32 xor x y {z = z} is common e = int_value_at int32 x y z Opcode.xor (cc) is
int_value_lem int64 xor x y {z = z} is common e = int_value_at int64 x y z Opcode.xor (cc) is
int_value_lem int32 shl x y {z = z} is small e =
    int_value_at int32 x y z Opcode.shl (shl_lem 32 x y small e) is
int_value_lem int32 shr_u x y {z = z} is small e =
    int_value_at int32 x y z Opcode.shr_u (shr_u_lem 32 x y small e) is
int_value_lem int32 shr_s x y {z = z} is small e =
    int_value_at int32 x y z Opcode.shr (shr_s_lem 32 x y small e) is
int_value_lem _ _ x y is common e = absurd (cc)

pub int_arith_value :
    (fl : Floats) (t : IntTy) (a : Arith) (x y : ℕ) {z : ℕ}
    → int_arith a (int_valty t) x y ≡ ok z
    → arith_value fl a (int_valty t) x y ≡ ok z
int_arith_value fl int32 a x y e = e
int_arith_value fl int64 a x y e = e

pub float_value_lem :
    (fl : Floats) (t : FloatTy) (o : FloatBinary) (x y : ℕ)
    → arith_value fl (float_arith_of o) (float_valty t) x y ≡ ok (float_value (ops_of fl t) o x y)
float_value_lem fl float32 FloatBinary.add x y = refl
float_value_lem fl float32 FloatBinary.sub x y = refl
float_value_lem fl float32 FloatBinary.mul x y = refl
float_value_lem fl float32 FloatBinary.div x y = refl
float_value_lem fl float64 FloatBinary.add x y = refl
float_value_lem fl float64 FloatBinary.sub x y = refl
float_value_lem fl float64 FloatBinary.mul x y = refl
float_value_lem fl float64 FloatBinary.div x y = refl

signed_less_lem : (m x y : ℕ) → ltb_ℤ (signed m x) (signed m y) ≡ signed_less m x y
signed_less_lem m x y = ground arith

pub int_relation_lem :
    (t : IntTy) (c : Cmp) (x y : ℕ)
    → int_compare c (modulus (int_valty t)) x y ≡ int_relation c (bits t) x y
int_relation_lem t c x y = ap (λ m. int_compare c m x y) (modulus_lem t) ∙ relation c
  where
    modulus_lem : (t : IntTy) → modulus (int_valty t) ≡ 2 ^ bits t
    modulus_lem int32 = refl
    modulus_lem int64 = refl

    relation : (c : Cmp) → int_compare c (2 ^ bits t) x y ≡ int_relation c (bits t) x y
    relation Opcode.lt = signed_less_lem (2 ^ bits t) x y
    relation Opcode.gt = signed_less_lem (2 ^ bits t) y x
    relation Opcode.le = ap not (signed_less_lem (2 ^ bits t) y x)
    relation Opcode.ge = ap not (signed_less_lem (2 ^ bits t) x y)
    relation _ = refl
