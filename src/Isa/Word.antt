-- ===== src/Isa/Word.antt =====
-- The bit fields of U_INST32 and U_INST64 (src/ubh/u_inst.h) on little-endian words: a field
-- takes `w` bits from bit `k` on, and the compiler places fields from bit 0 up.
use uwasm_vm.Base.{ℕ, ◌+◌, ◌-◌, ◌*◌, ◌/◌, ◌%◌, ◌^◌}
use uwasm_vm.Isa.Opcode.{TyAm, am64_r_imm, am64_r_ofs, am64_r_r_imm, am64_r_r_ofs, am64_r_r_r}
use uwasm_vm.Base.{Bool, true, false, ltb, ◌==◌, if◌then◌else◌, bit_and}

abbrev pub field : ℕ → ℕ → ℕ → ℕ
field k w x = x / 2 ^ k % 2 ^ w

-- A store keeps the low `w` bits of the value and leaves the other bits of the word.
abbrev pub set_field : ℕ → ℕ → ℕ → ℕ → ℕ
set_field k w v x = x / 2 ^ (k + w) * 2 ^ (k + w) + v % 2 ^ w * 2 ^ k + x % 2 ^ k

-- A read of a signed field of `w` bits, converted to UINT32.
abbrev pub sign_field : ℕ → ℕ → ℕ
sign_field w v = if ltb v (2 ^ (w - 1)) then v else 2 ^ 32 - 2 ^ w + v

-- The fields that all layouts of U_INST32 and U_INST64 share.
abbrev pub opcode : ℕ → ℕ
opcode x = field 0 8 x

abbrev pub ty : ℕ → ℕ
ty x = field 8 2 x

-- U_INST_UTIL::Is_32bit(UINT32 opcode): bit 7 of the opcode is clear.
unfoldable pub is_32bit_opcode : ℕ → Bool
is_32bit_opcode o = bit_and (o % 256) 0x80 == 0

-- U_INST_UTIL::Is_32bit(TY_AM).
unfoldable pub is_32bit_ty : TyAm → Bool
is_32bit_ty am64_r_imm = false
is_32bit_ty am64_r_ofs = false
is_32bit_ty am64_r_r_imm = false
is_32bit_ty am64_r_r_ofs = false
is_32bit_ty am64_r_r_r = false
is_32bit_ty _ = true
