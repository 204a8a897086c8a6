-- ===== src/Isa/Expand.antt =====
-- AM_EXPAND (src/ubh/u_module.h) and the body of the loop of U_MODULE::Expand_code
-- (src/ubh/u_module.cxx), which takes an instruction word apart.
use uwasm_vm.Base.{ℕ, ◌+◌, ◌*◌, Result, ok, err, assertion, ◌>>=◌, in_bounds}
use uwasm_vm.Isa.Opcode.{TyAm}
use uwasm_vm.Isa.Opcode.{am32, am32_ofs, am32_r, am32_r_imm, am32_r_ofs, am32_r_r}
use uwasm_vm.Isa.Opcode.{am32s_r_r_imm, am32s_r_r_ofs, am32s_r_r_r}
use uwasm_vm.Isa.Opcode.{am64_r_imm, am64_r_ofs, am64_r_r_imm, am64_r_r_ofs, am64_r_r_r}
use uwasm_vm.Isa.Table.{ty_am_of}
use uwasm_vm.Isa.Word.{field, sign_field, opcode, ty}

-- `expand3` holds rt, an offset or the bit pattern of an immediate.
pub record AmExpand : Type 0 where
  pub opcode_l : ℕ
  pub expand1 : ℕ
  pub expand2 : ℕ
  pub expand3 : ℕ

-- U_INST_UTIL::Opcode_to_opcode_l.
abbrev pub opcode_to_opcode_l : ℕ → ℕ → ℕ
opcode_to_opcode_l o t = o * 4 + t

-- The two switches: a field that the address mode lacks is left as it was.
unfoldable pub expand_fields32 : TyAm → ℕ → AmExpand → Result AmExpand
expand_fields32 am32 x e = ok e
expand_fields32 am32_ofs x e = ok (record e { expand3 = field 10 22 x })
expand_fields32 am32_r x e = ok (record e { expand1 = field 22 10 x })
expand_fields32 am32_r_imm x e =
    ok (record e { expand1 = field 10 10 x; expand3 = sign_field 10 (field 22 10 x) })
expand_fields32 am32_r_ofs x e =
    ok (record e { expand1 = field 10 10 x; expand3 = sign_field 10 (field 22 10 x) })
expand_fields32 am32_r_r x e = ok (record e { expand1 = field 10 10 x; expand2 = field 22 10 x })
expand_fields32 am32s_r_r_imm x e = ok (record e {
  expand1 = field 10 7 x;
  expand2 = field 17 7 x;
  expand3 = sign_field 8 (field 24 8 x);
})
expand_fields32 am32s_r_r_ofs x e =
    ok (record e { expand1 = field 10 7 x; expand2 = field 17 7 x; expand3 = field 24 8 x })
expand_fields32 am32s_r_r_r x e =
    ok (record e { expand1 = field 10 7 x; expand2 = field 17 7 x; expand3 = field 25 7 x })
expand_fields32 _ x e = err assertion

unfoldable pub expand_fields64 : TyAm → ℕ → AmExpand → Result AmExpand
expand_fields64 am64_r_imm x e = ok (record e { expand1 = field 10 10 x; expand3 = field 32 32 x })
expand_fields64 am64_r_ofs x e = ok (record e { expand1 = field 10 10 x; expand3 = field 32 32 x })
expand_fields64 am64_r_r_imm x e = ok (record e {
  expand1 = field 10 10 x;
  expand2 = field 54 10 x;
  expand3 = sign_field 22 (field 32 22 x);
})
expand_fields64 am64_r_r_ofs x e =
    ok (record e { expand1 = field 10 10 x; expand2 = field 54 10 x; expand3 = field 32 22 x })
expand_fields64 am64_r_r_r x e =
    ok (record e { expand1 = field 34 10 x; expand2 = field 44 10 x; expand3 = field 54 10 x })
expand_fields64 _ x e = err assertion

unfoldable pub expand_inst32 : ℕ → AmExpand → Result AmExpand
unfolding expand_fields32
expand_inst32 x e = do
  t ← in_bounds (ty_am_of (opcode x))
  expand_fields32 t x (record e { opcode_l = opcode_to_opcode_l (opcode x) (ty x) })

unfoldable pub expand_inst64 : ℕ → AmExpand → Result AmExpand
unfolding expand_fields64
expand_inst64 x e = do
  t ← in_bounds (ty_am_of (opcode x))
  expand_fields64 t x (record e { opcode_l = opcode_to_opcode_l (opcode x) (ty x) })
