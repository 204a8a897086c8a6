-- ===== src/Exec/Unsigned.antt =====
-- Where the unsigned divisions and the rotations of src/interpreter/exec_unit_func.h agree with the
-- wasm instructions, and where they do not.
use uwasm_vm.Base.{ℕ, ◌-◌, ◌*◌, ◌/◌, ◌%◌, ◌<◌, ◌≤◌, ◌≡◌, ◌≢◌, ◌∙◌, ap, refl, arith, true, false}
use uwasm_vm.Base.{Bool, ◌&&◌, ◌==◌, ok-injective, ltb, lt→ltb, ok, err, undefined}
use native.Mathlib.Nat.{
  div-mul-le_self, div-le_self, mul-le-mul_left, mod-le, mod-eq_of_lt, mod_self, le-div_iff_mul-le,
}
use uwasm_vm.Isa.Opcode.{Valty, i32, i64, div_u, rem_u}
use uwasm_vm.Isa.Expand.{AmExpand}
use uwasm_vm.Machine.State.{Machine, get_reg}
use uwasm_vm.Exec.Word.{modulus, div_is_defined, div_signed, rem_signed, shl_word, shr_unsigned}
use uwasm_vm.Exec.Arith.{int_arith, rotate_left, rotate_right, rotl, rotr}

&&-false : (b : Bool) → (b && false) ≡ false
&&-false true = refl
&&-false false = refl

defined-small : (m a b : ℕ) → 2 * b < m → 1 ≤ b → div_is_defined m a b ≡ true
defined-small m a b hb nz =
    let not_zero : (b == 0) ≡ false = ground arith in
    let not_last : (b == m - 1) ≡ false = ground arith in
    rw (not_zero, not_last, &&-false (2 * a == m)) refl

div_signed-small : (m a b : ℕ) → 2 * a < m → 2 * b < m → 1 ≤ b → div_signed m a b ≡ ok (a / b)
unfolding div_signed
div_signed-small m a b ha hb nz =
    let keeps : a / b % m ≡ a / b = mod-eq_of_lt (omega (arith, div-le_self a b)) in
    rw (defined-small m a b hb nz, lt→ltb (2 * a) m ha, lt→ltb (2 * b) m hb, keeps) refl

rem_signed-small : (m a b : ℕ) → 2 * a < m → 2 * b < m → 1 ≤ b → rem_signed m a b ≡ ok (a % b)
unfolding rem_signed
rem_signed-small m a b ha hb nz =
    let keeps : a % b % m ≡ a % b = mod-eq_of_lt (omega (arith, mod-le a b)) in
    rw (defined-small m a b hb nz, lt→ltb (2 * a) m ha, lt→ltb (2 * b) m hb, keeps) refl

-- On operands below half the range, Div_u and Rem_u are the unsigned quotient and remainder.
pub div_u-small :
    (v : Valty) (a b : ℕ)
    → 2 * a < modulus v
    → 2 * b < modulus v
    → 1 ≤ b
    → (int_arith div_u v a b ≡ ok (a / b)) × (int_arith rem_u v a b ≡ ok (a % b))
unfolding int_arith
div_u-small v a b ha hb nz =
    (div_signed-small (modulus v) a b ha hb nz, rem_signed-small (modulus v) a b ha hb nz)

at_most_half : (a b : ℕ) → 2 ≤ b → 2 * (a / b) ≤ a
at_most_half a b two = omega (arith, div-mul-le_self a b, mul-le-mul_left (a / b) two)

div_signed-large :
    (m a b : ℕ) → m ≤ 2 * a → a < m → 2 ≤ b → 2 * b < m → div_signed m a b ≢ ok (a / b)
unfolding div_signed
div_signed-large m a b big fits two small e =
    let not_small : ltb (2 * a) m ≡ false = ground arith in
    let q : ℕ = (m - a) / b in
    let same : (m - q) % m ≡ a / b =
      ok-injective
        (rw (defined-small m a b small (omega arith), not_small, lt→ltb (2 * b) m small) at e) in
    let at_most : 2 * q ≤ m - a = at_most_half (m - a) b two in
    let half : 2 * (a / b) ≤ a = at_most_half a b two in
    let some_b : 1 ≤ a / b =
      (le-div_iff_mul-le {k = b} {x = 1} {y = a} (omega arith)).1 (omega arith) in
    let none_left : q ≡ 0 → (m - q) % m ≡ 0 =
      λ z. let all : m - q ≡ m = omega arith in ap (λ n. n % m) all ∙ mod_self m in
    let rest : 1 ≤ q → (m - q) % m ≡ m - q = λ p. mod-eq_of_lt (omega arith) in ground arith

-- For a dividend from half the range on and a divisor from 2 to below half the range, Div_u writes
-- something else than the unsigned quotient.
pub div_u-large :
    (v : Valty) (a b : ℕ)
    → modulus v ≤ 2 * a
    → a < modulus v
    → 2 ≤ b
    → 2 * b < modulus v
    → int_arith div_u v a b ≢ ok (a / b)
unfolding int_arith
div_u-large v a b big fits two small = div_signed-large (modulus v) a b big fits two small

rotate_left_64 : (n : ℕ) → rotate_left 64 n ≡ err undefined
unfolding rotate_left shl_word shr_unsigned
rotate_left_64 n = ground arith

rotate_right_64 : (n : ℕ) → rotate_right 64 n ≡ err undefined
unfolding rotate_right shl_word shr_unsigned
rotate_right_64 n = ground arith

-- Rotl_i64 and Rotr_i64 shift a UINT32 by 32 or more for every count: no execution of them is
-- defined.
pub rotate_64-undefined :
    (e : AmExpand) (m : Machine) (num_bit : ℕ)
    → get_reg i32 m e.expand3 ≡ ok num_bit
    → (rotl i64 e m ≡ err undefined) × (rotr i64 e m ≡ err undefined)
unfolding rotl rotr
rotate_64-undefined e m num_bit has =
    (rw (has, rotate_left_64) refl, rw (has, rotate_right_64) refl)
