-- ===== src/Exec/Arith.antt =====
-- Arithmetic of src/interpreter/exec_unit_func.h: the operations on three registers, the additions
-- of a register or an immediate, and the rotations.
use uwasm_vm.Base.{ℕ, ◌+◌, ◌-◌, ◌^◌, ◌%◌, Bool, true}
use uwasm_vm.Base.{Result, ok, ◌>>=◌, ◌>>◌, is_true, err, undefined}
use uwasm_vm.Base.{bit_and, bit_or, bit_xor}
use uwasm_vm.Base.Int.{signed, convert}
use uwasm_vm.Isa.Opcode.{is_int, is_float, Valty, i32, i64, f32, f64}
use uwasm_vm.Isa.Opcode.{
  Arith, add, sub, mul, div, div_u, rem, rem_u, and, or, xor, shl, shr, shr_u, min, max,
}
use uwasm_vm.Isa.Expand.{AmExpand}
use uwasm_vm.Machine.State.{Machine, get_reg, set_reg}
use uwasm_vm.Exec.Word.{FloatOps, Floats, modulus, add_word, sub_word, mul_word}
use uwasm_vm.Exec.Word.{div_signed, rem_signed, shl_word, shr_unsigned, shr_signed}

abbrev pub width : Valty → ℕ
width i32 = 32
width i64 = 64
width f32 = 32
width f64 = 64

-- The immediate, an INT32, as an operand of the register's type.
abbrev pub imm_of : Valty → ℕ → ℕ
imm_of v n = convert (2 ^ 32) (modulus v) n

-- The three-register instructions that the switch of Exec_start has a case for.
abbrev pub has_arith : Arith → Valty → Bool
has_arith add v = true
has_arith sub v = true
has_arith mul v = true
has_arith div v = true
has_arith min v = is_float v
has_arith max v = is_float v
has_arith _ v = is_int v

-- Div_u and Rem_u divide the signed registers, and convert the quotient.
unfoldable pub int_arith : Arith → Valty → ℕ → ℕ → Result ℕ
unfolding div_signed rem_signed shl_word shr_signed shr_unsigned
int_arith add v a b = ok (add_word (modulus v) a b)
int_arith sub v a b = ok (sub_word (modulus v) a b)
int_arith mul v a b = ok (mul_word (modulus v) a b)
int_arith div v a b = div_signed (modulus v) a b
int_arith div_u v a b = div_signed (modulus v) a b
int_arith rem v a b = rem_signed (modulus v) a b
int_arith rem_u v a b = rem_signed (modulus v) a b
int_arith and v a b = ok (bit_and a b)
int_arith or v a b = ok (bit_or a b)
int_arith xor v a b = ok (bit_xor a b)
int_arith shl v a b = shl_word (width v) a b
int_arith shr v a b = shr_signed (width v) a b
int_arith shr_u v a b = shr_unsigned (width v) a b
int_arith _ v a b = err undefined

-- Min and Max go through double, and their second operand is an i32 register.
abbrev pub float_arith : Floats → Arith → FloatOps → (ℕ → ℕ) → (ℕ → ℕ) → ℕ → ℕ → Result ℕ
float_arith fl add f to from a b = ok (f.add a b)
float_arith fl sub f to from a b = ok (f.sub a b)
float_arith fl mul f to from a b = ok (f.mul a b)
float_arith fl div f to from a b = ok (f.div a b)
float_arith fl min f to from a b =
    ok (from (fl.f64.fmin (to a) (fl.f64.of_int (signed (2 ^ 32) b))))
float_arith fl max f to from a b =
    ok (from (fl.f64.fmax (to a) (fl.f64.of_int (signed (2 ^ 32) b))))
float_arith fl _ f to from a b = err undefined

abbrev same_double : ℕ → ℕ
same_double x = x

abbrev pub arith_value : Floats → Arith → Valty → ℕ → ℕ → Result ℕ
arith_value fl o i32 a b = int_arith o i32 a b
arith_value fl o i64 a b = int_arith o i64 a b
arith_value fl o f32 a b = float_arith fl o fl.f32 fl.f32_to_f64 fl.f64_to_f32 a b
arith_value fl o f64 a b = float_arith fl o fl.f64 same_double same_double a b

-- Shifts count in an i32 register. Min and Max read the i32 register rs in place of rt.
abbrev pub second_operand : Arith → Valty → AmExpand → Machine → Result ℕ
second_operand shl v e m = get_reg i32 m e.expand3
second_operand shr v e m = get_reg i32 m e.expand3
second_operand shr_u v e m = get_reg i32 m e.expand3
second_operand min v e m = get_reg i32 m e.expand2
second_operand max v e m = get_reg i32 m e.expand2
second_operand _ v e m = get_reg v m e.expand3

-- Add_i32_am64_r_r_r to Max_f64_am64_r_r_r.
unfoldable pub arith_op : Floats → Arith → Valty → AmExpand → Machine → Result Machine
unfolding int_arith
arith_op fl o v e m = is_true (has_arith o v) >> (do
  a ← get_reg v m e.expand2
  b ← second_operand o v e m
  x ← arith_value fl o v a b
  set_reg v m e.expand1 x)

-- Add_i32_am32s_r_r_r to Sub_f64_am32s_r_r_r.
unfoldable pub adds : Floats → Valty → AmExpand → Machine → Result Machine
unfolding int_arith
adds fl v e m = do
  a ← get_reg v m e.expand2
  b ← get_reg v m e.expand3
  x ← arith_value fl add v a b
  set_reg v m e.expand1 x

unfoldable pub subs : Floats → Valty → AmExpand → Machine → Result Machine
unfolding int_arith
subs fl v e m = do
  a ← get_reg v m e.expand2
  b ← get_reg v m e.expand3
  x ← arith_value fl sub v a b
  set_reg v m e.expand1 x

-- Add_i32_am32_r_r to Add_f64_am32_r_r, which add to rd.
unfoldable pub add_rr : Floats → Valty → AmExpand → Machine → Result Machine
unfolding int_arith
add_rr fl v e m = do
  a ← get_reg v m e.expand1
  b ← get_reg v m e.expand2
  x ← arith_value fl add v a b
  set_reg v m e.expand1 x

-- Add_i32_am32_r_imm and Add_i64_am32_r_imm.
unfoldable pub add_ri : Valty → AmExpand → Machine → Result Machine
add_ri v e m = is_true (is_int v) >> (do
  a ← get_reg v m e.expand1
  set_reg v m e.expand1 (add_word (modulus v) a (imm_of v e.expand3)))

-- Add_i32_am32s_r_r_imm and Add_i64_am32s_r_r_imm, and the same bodies under am64.
unfoldable pub add_rri : Valty → AmExpand → Machine → Result Machine
add_rri v e m = is_true (is_int v) >> (do
  a ← get_reg v m e.expand2
  set_reg v m e.expand1 (add_word (modulus v) a (imm_of v e.expand3)))

-- `(num_bit << num_bit) | (num_bit >> (width - num_bit))` on a UINT32 `num_bit`.
unfoldable pub rotate_left : ℕ → ℕ → Result ℕ
unfolding shl_word shr_unsigned
rotate_left w n = do
  high ← shl_word 32 n n
  low ← shr_unsigned 32 n ((w + 2 ^ 32 - n) % 2 ^ 32)
  ok (bit_or high low)

unfoldable pub rotate_right : ℕ → ℕ → Result ℕ
unfolding shl_word shr_unsigned
rotate_right w n = do
  low ← shr_unsigned 32 n n
  high ← shl_word 32 n ((w + 2 ^ 32 - n) % 2 ^ 32)
  ok (bit_or low high)

-- Rotl_i32_am32s_r_r_r to Rotr_i64_am32s_r_r_r: rs is not read.
unfoldable pub rotl : Valty → AmExpand → Machine → Result Machine
unfolding rotate_left
rotl v e m = is_true (is_int v) >> (do
  num_bit ← get_reg i32 m e.expand3
  x ← rotate_left (width v) num_bit
  set_reg v m e.expand1 x)

unfoldable pub rotr : Valty → AmExpand → Machine → Result Machine
unfolding rotate_right
rotr v e m = is_true (is_int v) >> (do
  num_bit ← get_reg i32 m e.expand3
  x ← rotate_right (width v) num_bit
  set_reg v m e.expand1 x)
