-- ===== src/Isa/Encode.antt =====
-- U_INST_UTIL::Init_inst32 and Init_inst64 (src/ubh/u_inst.cxx) with the checks that they make
-- (src/ubh/u_inst.h), which end the program when they fail.
use uwasm_vm.Base.{ℕ, ◌-◌, ◌^◌, not, ◌&&◌, ◌||◌, ltb, leb, ◌==◌}
use uwasm_vm.Base.{List, length, get_elem?}
use uwasm_vm.Base.{Result, ok, err, assertion, ◌>>=◌, ◌>>◌, is_true, in_bounds}
use uwasm_vm.Base.Int.{pos, negsuc, ltb_ℤ, signed}
use uwasm_vm.Isa.Opcode.{Valty, valty_code, TyAm}
use uwasm_vm.Isa.Opcode.{am32, am32_ofs, am32_r, am32_r_imm, am32_r_ofs, am32_r_r}
use uwasm_vm.Isa.Opcode.{am32s_r_r_imm, am32s_r_r_ofs, am32s_r_r_r}
use uwasm_vm.Isa.Opcode.{am64_r_imm, am64_r_ofs, am64_r_r_imm, am64_r_r_ofs, am64_r_r_r}
use uwasm_vm.Isa.Word.{set_field}

-- _7BIT_REG_MAX and _10BIT_REG_MAX.
abbrev pub reg_max_7 : ℕ
reg_max_7 = 128

abbrev pub reg_max_10 : ℕ
reg_max_10 = 1024

unfoldable pub check_content_size : ℕ → ℕ → Result (Unit {0})
check_content_size required actual = is_true (required == actual)

-- The immediate is read as an unsigned and as a signed number, and one of the two must fit.
unfoldable pub check_imm : ℕ → ℕ → Result (Unit {0})
check_imm bit imm =
    let value = signed (2 ^ 32) imm in
    let in_u_bound = ltb imm (2 ^ bit) in
    let in_i_bound =
      not (ltb_ℤ value (negsuc (2 ^ (bit - 1) - 1))) && ltb_ℤ value (pos (2 ^ (bit - 1))) in
    is_true (in_u_bound || in_i_bound)

unfoldable pub check_reg : ℕ → ℕ → Result (Unit {0})
check_reg max_idx reg_idx = is_true (leb reg_idx max_idx)

-- The opcode and the type field, which are stored first.
abbrev pub init_head : ℕ → ℕ → Valty → ℕ
init_head x opcode v = set_field 8 2 (valty_code v) (set_field 0 8 opcode x)

abbrev at : List ℕ → ℕ → Result ℕ
at content i = in_bounds (get_elem? content i)

-- One register, and two, checked and stored in fields of `w` bits.
abbrev reg_at : ℕ → List ℕ → ℕ → Result ℕ
reg_at max content i = do r ← at content i; check_reg max r; ok r

abbrev imm_at : ℕ → List ℕ → ℕ → Result ℕ
imm_at bit content i = do c ← at content i; check_imm bit c; ok c

unfoldable pub init_inst32 : ℕ → TyAm → ℕ → Valty → List ℕ → Result ℕ
unfolding check_content_size check_imm check_reg
init_inst32 x am32 opcode v content = do
  check_content_size 0 (length content)
  ok (init_head x opcode v)
init_inst32 x am32_ofs opcode v content = do
  check_content_size 1 (length content)
  o ← imm_at 22 content 0
  ok (set_field 10 22 o (init_head x opcode v))
init_inst32 x am32_r opcode v content = do
  check_content_size 1 (length content)
  r1 ← reg_at reg_max_10 content 0
  ok (set_field 22 10 r1 (init_head x opcode v))
init_inst32 x am32_r_imm opcode v content = do
  check_content_size 2 (length content)
  r1 ← reg_at reg_max_10 content 0
  i ← imm_at 22 content 1
  ok (set_field 22 10 i (set_field 10 10 r1 (init_head x opcode v)))
init_inst32 x am32_r_ofs opcode v content = do
  check_content_size 2 (length content)
  r1 ← reg_at reg_max_10 content 0
  o ← imm_at 22 content 1
  ok (set_field 22 10 o (set_field 10 10 r1 (init_head x opcode v)))
init_inst32 x am32_r_r opcode v content = do
  check_content_size 2 (length content)
  r1 ← reg_at reg_max_10 content 0
  r2 ← reg_at reg_max_10 content 1
  ok (set_field 22 10 r2 (set_field 10 10 r1 (init_head x opcode v)))
init_inst32 x am32s_r_r_imm opcode v content = do
  check_content_size 3 (length content)
  r1 ← reg_at reg_max_7 content 0
  r2 ← reg_at reg_max_7 content 1
  i ← imm_at 8 content 2
  ok (set_field 24 8 i (set_field 17 7 r2 (set_field 10 7 r1 (init_head x opcode v))))
init_inst32 x am32s_r_r_ofs opcode v content = do
  check_content_size 3 (length content)
  r1 ← reg_at reg_max_7 content 0
  r2 ← reg_at reg_max_7 content 1
  o ← imm_at 8 content 2
  ok (set_field 24 8 o (set_field 17 7 r2 (set_field 10 7 r1 (init_head x opcode v))))
init_inst32 x am32s_r_r_r opcode v content = do
  check_content_size 3 (length content)
  r1 ← reg_at reg_max_7 content 0
  r2 ← reg_at reg_max_7 content 1
  r3 ← reg_at reg_max_7 content 2
  ok (set_field 25 7 r3 (set_field 17 7 r2 (set_field 10 7 r1 (init_head x opcode v))))
init_inst32 x _ opcode v content = err assertion

unfoldable pub init_inst64 : ℕ → TyAm → ℕ → Valty → List ℕ → Result ℕ
unfolding check_content_size check_imm check_reg
init_inst64 x am64_r_imm opcode v content = do
  check_content_size 2 (length content)
  r1 ← reg_at reg_max_10 content 0
  i ← imm_at 32 content 1
  ok (set_field 32 32 i (set_field 10 10 r1 (init_head x opcode v)))
init_inst64 x am64_r_ofs opcode v content = do
  check_content_size 2 (length content)
  r1 ← reg_at reg_max_10 content 0
  o ← imm_at 32 content 1
  ok (set_field 32 32 o (set_field 10 10 r1 (init_head x opcode v)))
init_inst64 x am64_r_r_imm opcode v content = do
  check_content_size 3 (length content)
  r1 ← reg_at reg_max_10 content 0
  r2 ← reg_at reg_max_10 content 1
  i ← imm_at 22 content 2
  ok (set_field 32 22 i (set_field 54 10 r2 (set_field 10 10 r1 (init_head x opcode v))))
init_inst64 x am64_r_r_ofs opcode v content = do
  check_content_size 3 (length content)
  r1 ← reg_at reg_max_10 content 0
  r2 ← reg_at reg_max_10 content 1
  o ← imm_at 22 content 2
  ok (set_field 32 22 o (set_field 54 10 r2 (set_field 10 10 r1 (init_head x opcode v))))
init_inst64 x am64_r_r_r opcode v content = do
  check_content_size 3 (length content)
  r1 ← reg_at reg_max_10 content 0
  r2 ← reg_at reg_max_10 content 1
  r3 ← reg_at reg_max_10 content 2
  ok (set_field 54 10 r3 (set_field 44 10 r2 (set_field 34 10 r1 (init_head x opcode v))))
init_inst64 x _ opcode v content = err assertion
