-- ===== src/Tests/Encoding.antt =====
-- The theorems on the encoding of instructions, at concrete instructions.
use uwasm_vm.Base.{ℕ, ◌≡◌, ◌≢◌, refl, arith, inl, List, [], ◌∷◌, ok}
use uwasm_vm.Isa.Opcode.{i32, f64, am32_r_imm, am64_r_r_imm}
use uwasm_vm.Isa.Table.{ty_am_of, opcode_table}
use uwasm_vm.Isa.Word.{opcode, is_32bit_opcode, is_32bit_ty}
use uwasm_vm.Isa.Encode.{init_inst32}
use uwasm_vm.Isa.Expand.{AmExpand, expand_inst32}
use uwasm_vm.Isa.Operands.{Short, Long, mode, content, place, r_r}
use uwasm_vm.Isa.RoundTrip.{with_opcode, expand-init_inst32}
use uwasm_vm.Isa.Code.{Expanded, expand_words}
use uwasm_vm.Isa.CodeRoundTrip.{Inst, short, long, add_all, expanded_all, expand_words-add_all}
use uwasm_vm.Isa.Limits.{init_inst32-loses_imm, is_32bit_opcode-eq_ty}
use uwasm_vm.Tests.Sample.{entry}

abbrev blank : ℕ → AmExpand
blank n = entry 0 0 0 0

-- MOV of f64 registers 3 and 500, and ADD of i32 with an immediate.
abbrev moving : Short
moving = r_r 3 500

abbrev adding : Long
adding = Long.r_r_imm 3 700 1000

expand-init_inst32_example :
    (w : ℕ) × (init_inst32 7 (mode moving) 0x12 f64 (content moving) ≡ ok w)
    × (opcode w ≡ 0x12)
    × (expand_inst32 w (blank 0) ≡ ok (place moving (with_opcode 0x12 f64 (blank 0))))
unfolding ty_am_of opcode_table
expand-init_inst32_example =
    expand-init_inst32 7 0x12 f64 (blank 0) moving refl (omega arith, omega arith)

abbrev program : List Inst
program = short 0x12 f64 moving ∷ long 0x84 i32 adding ∷ []

expand_words-add_all_example :
    (ws : List ℕ) × (r : Expanded) × (add_all [] program ≡ ok ws)
    × (expand_words blank ws 0 0 ≡ ok r)
    × (r.insts ≡ expanded_all blank 0 program)
unfolding ty_am_of opcode_table
expand_words-add_all_example = expand_words-add_all blank 0 0 program (
  (refl, (omega arith, omega arith)),
  ((refl, (omega arith, omega arith, inl (omega arith))), tt),
)

-- 0x14 is the short CONST.
init_inst32-loses_imm_example :
    (w : ℕ) × (e' : AmExpand) × (init_inst32 0 am32_r_imm 0x14 i32 (1 ∷ 1000 ∷ []) ≡ ok w)
    × (expand_inst32 w (blank 0) ≡ ok e')
    × (e'.expand3 ≢ 1000)
unfolding ty_am_of opcode_table
init_inst32-loses_imm_example =
    init_inst32-loses_imm 0 0x14 1 1000 i32 (blank 0) refl (omega arith) (omega arith) (omega arith)

is_32bit_opcode-eq_ty_example : is_32bit_opcode 0x84 ≡ is_32bit_ty am64_r_r_imm
unfolding ty_am_of opcode_table
is_32bit_opcode-eq_ty_example = is_32bit_opcode-eq_ty 0x84 am64_r_r_imm refl
