-- ===== src/Exec/Const.antt =====
-- Moves, constants and the counting instructions of src/interpreter/exec_unit_func.h.
use uwasm_vm.Base.{ℕ, zero, suc, ◌+◌, ◌-◌, ◌*◌, ◌/◌, ◌^◌, ◌%◌, true, false, ◌==◌}
use uwasm_vm.Base.{Result, ok, err, undefined, assertion, ◌>>=◌, ◌>>◌, is_true}
use uwasm_vm.Isa.Opcode.{is_int, Valty, i32, i64, f32, f64}
use uwasm_vm.Isa.Expand.{AmExpand}
use uwasm_vm.Machine.State.{Machine, get_reg, set_reg}
use uwasm_vm.Exec.Arith.{imm_of, width}

-- Mov_i32_am32_r_r to Mov_f64_am32_r_r.
unfoldable pub mov : Valty → AmExpand → Machine → Result Machine
mov v e m = do a ← get_reg v m e.expand2; set_reg v m e.expand1 a

-- Const_i32_am32_r_imm and Const_i64_am32_r_imm.
unfoldable pub const_short : Valty → AmExpand → Machine → Result Machine
const_short v e m = is_true (is_int v) >> set_reg v m e.expand1 (imm_of v e.expand3)

-- Const_l_i32_am64_r_imm to Const_l_f64_am64_r_imm: for a double, the low half of the register.
unfoldable pub const_l : Valty → AmExpand → Machine → Result Machine
const_l i32 e m = set_reg i32 m e.expand1 (imm_of i32 e.expand3)
const_l i64 e m = set_reg i64 m e.expand1 (imm_of i64 e.expand3)
const_l f32 e m = set_reg f32 m e.expand1 e.expand3
const_l f64 e m = do
  val ← get_reg f64 m e.expand1
  set_reg f64 m e.expand1 (val / 2 ^ 32 * 2 ^ 32 + e.expand3)

-- Const_l_high_i64_am64_r_imm and Const_l_high_f64_am64_r_imm set the high half.
unfoldable pub const_l_high : Valty → AmExpand → Machine → Result Machine
const_l_high i64 e m = do
  val ← get_reg i64 m e.expand1
  set_reg i64 m e.expand1 (val % 2 ^ 32 + e.expand3 * 2 ^ 32)
const_l_high f64 e m = do
  val ← get_reg f64 m e.expand1
  set_reg f64 m e.expand1 (val % 2 ^ 32 + e.expand3 * 2 ^ 32)
const_l_high _ e m = err assertion

-- `while (ofs << non_zero) non_zero++;`, where a shift of a UINT32 by 32 is undefined. The fuel is
-- what is left to 32.
unfoldable pub shift_out : ℕ → ℕ → ℕ → Result ℕ
shift_out zero ofs non_zero = err undefined
shift_out (suc fuel) ofs non_zero = elim (ofs * 2 ^ non_zero % 2 ^ 32 == 0) [
  | true ↦ ok non_zero
  | false ↦ shift_out fuel ofs (non_zero + 1)
]

-- Ctz_i32_am64_r_ofs and Ctz_i64_am64_r_ofs, which count in the immediate.
unfoldable pub ctz : Valty → AmExpand → Machine → Result Machine
unfolding shift_out
ctz v e m =
    is_true (is_int v)
    >> (do non_zero ← shift_out 32 e.expand3 0; set_reg v m e.expand1 (width v - non_zero))

-- `for (i = 0; i < w; i++) one_bit += (ofs >> i) & 1;` with `left` steps to go.
unfoldable pub count_bits : ℕ → ℕ → ℕ → ℕ → ℕ
count_bits zero i ofs one_bit = one_bit
count_bits (suc left) i ofs one_bit = count_bits left (i + 1) ofs (one_bit + ofs / 2 ^ i % 2)

-- Popcnt_i32_am64_r_ofs and Popcnt_i64_am64_r_ofs, which count in the immediate.
unfoldable pub popcnt : Valty → AmExpand → Machine → Result Machine
unfolding count_bits
popcnt v e m = is_true (is_int v) >> set_reg v m e.expand1 (count_bits (width v) 0 e.expand3 0)
