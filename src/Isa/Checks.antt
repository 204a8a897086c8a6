-- ===== src/Isa/Checks.antt =====
-- When the checks of src/ubh/u_inst.h pass, and what the two fields that all layouts share hold.
use uwasm_vm.Base.{ℕ, ◌%◌, ◌^◌, ◌<◌, ◌≤◌, ◌≡◌, arith}
use uwasm_vm.Base.{some, ◌⊎◌, ok}
use uwasm_vm.Isa.Opcode.{TyAm, Valty, valty_code, i32, i64, f32, f64}
use uwasm_vm.Isa.Table.{ty_am_of}
use uwasm_vm.Isa.Word.{opcode, ty}
use uwasm_vm.Isa.Encode.{init_head, check_reg, check_imm}
use uwasm_vm.Isa.Expand.{AmExpand, opcode_to_opcode_l, expand_fields32, expand_fields64}
use uwasm_vm.Isa.Expand.{expand_inst32, expand_inst64}
use uwasm_vm.Isa.Operands.{FitsSigned}

pub check_reg-ok : (max idx : ℕ) → idx ≤ max → check_reg max idx ≡ ok tt
unfolding check_reg
check_reg-ok max idx h = ground arith

pub check_imm_8 : (c : ℕ) → (c < 2 ^ 8) ⊎ FitsSigned 8 c → check_imm 8 c ≡ ok tt
unfolding check_imm
check_imm_8 c h = ground arith

-- The short R_IMM and R_OFS layouts have 10 bits for what is checked against 22.
pub check_imm_22 : (c : ℕ) → (c < 2 ^ 22) ⊎ FitsSigned 22 c → check_imm 22 c ≡ ok tt
unfolding check_imm
check_imm_22 c h = ground arith

pub check_imm_32 : (c : ℕ) → c < 2 ^ 32 → check_imm 32 c ≡ ok tt
unfolding check_imm
check_imm_32 c h = ground arith

pub init_head_fields :
    (x op : ℕ) (v : Valty)
    → (opcode (init_head x op v) ≡ op % 256) × (ty (init_head x op v) ≡ valty_code v)
init_head_fields x op i32 = omega arith
init_head_fields x op i64 = omega arith
init_head_fields x op f32 = omega arith
init_head_fields x op f64 = omega arith

pub expand_inst32-eq :
    (w op c : ℕ) (t : TyAm) (e : AmExpand)
    → opcode w ≡ op
    → ty w ≡ c
    → ty_am_of op ≡ some t
    → expand_inst32 w e ≡ expand_fields32 t w (record e { opcode_l = opcode_to_opcode_l op c })
unfolding expand_inst32
expand_inst32-eq w op c t e ho hc known = rw (ho, hc, known)

pub expand_inst64-eq :
    (w op c : ℕ) (t : TyAm) (e : AmExpand)
    → opcode w ≡ op
    → ty w ≡ c
    → ty_am_of op ≡ some t
    → expand_inst64 w e ≡ expand_fields64 t w (record e { opcode_l = opcode_to_opcode_l op c })
unfolding expand_inst64
expand_inst64-eq w op c t e ho hc known = rw (ho, hc, known)
