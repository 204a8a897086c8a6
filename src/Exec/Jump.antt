-- ===== src/Exec/Jump.antt =====
-- Jumps, tests and comparisons of src/interpreter/exec_unit_func.h.
use uwasm_vm.Base.{ℕ, Bool, true, not, ltb, leb, ◌==◌, if◌then◌else◌, get_elem?, set}
use uwasm_vm.Base.{Result, ok, err, undefined, ◌>>=◌, ◌>>◌, is_true, in_bounds}
use uwasm_vm.Base.Int.{pos, ltb_ℤ, signed}
use uwasm_vm.Isa.Opcode.{is_int, Valty, i32, i64, f32, f64, ZeroTest, ez, nz, lz, lez, gz, gez}
use uwasm_vm.Isa.Opcode.{Cmp, eq, ne, lt, le, gt, ge, lt_u, le_u, gt_u, ge_u}
use uwasm_vm.Isa.Expand.{AmExpand}
use uwasm_vm.Machine.State.{Machine, get_reg, set_reg}
use uwasm_vm.Machine.Call.{inc_machine_pc}
use uwasm_vm.Exec.Word.{FloatOps, Floats, modulus}

-- Set_pc(Get_label(ofs)).
unfoldable pub jmp : ℕ → Machine → Result Machine
jmp ofs m = do
  pc ← in_bounds (get_elem? m.current.label_tab ofs)
  ok (record m { current = record m.current { pc = pc } })

-- A conditional jump goes to the label or to the next instruction.
abbrev pub branch : Bool → AmExpand → Machine → Result Machine
branch taken e m = if taken then jmp e.expand3 m else ok (inc_machine_pc m)

-- Jmp_indirect writes the register's value into the instruction, and jumps by it.
unfoldable pub jmp_indirect : ℕ → AmExpand → Machine → Result Machine
unfolding jmp
jmp_indirect pc e m = do
  ofs ← get_reg i32 m e.expand1
  jmp ofs (record m { table = set m.table pc (record e { expand3 = ofs }) })

abbrev pub int_zero_test : ZeroTest → ℕ → ℕ → Bool
int_zero_test ez n x = x == 0
int_zero_test nz n x = not (x == 0)
int_zero_test lz n x = ltb_ℤ (signed n x) (pos 0)
int_zero_test lez n x = not (ltb_ℤ (pos 0) (signed n x))
int_zero_test gz n x = ltb_ℤ (pos 0) (signed n x)
int_zero_test gez n x = not (ltb_ℤ (signed n x) (pos 0))

abbrev pub float_zero_test : FloatOps → ZeroTest → ℕ → Bool
float_zero_test f ez x = f.eq x (f.of_int (pos 0))
float_zero_test f nz x = not (f.eq x (f.of_int (pos 0)))
float_zero_test f lz x = f.lt x (f.of_int (pos 0))
float_zero_test f lez x = f.le x (f.of_int (pos 0))
float_zero_test f gz x = f.lt (f.of_int (pos 0)) x
float_zero_test f gez x = f.le (f.of_int (pos 0)) x

abbrev pub zero_test : Floats → Valty → ZeroTest → ℕ → Bool
zero_test fl i32 t x = int_zero_test t (modulus i32) x
zero_test fl i64 t x = int_zero_test t (modulus i64) x
zero_test fl f32 t x = float_zero_test fl.f32 t x
zero_test fl f64 t x = float_zero_test fl.f64 t x

-- Jez_i32_am32_r_ofs to Jgez_f64_am32_r_ofs.
unfoldable pub jump_zero : Floats → ZeroTest → Valty → AmExpand → Machine → Result Machine
unfolding jmp
jump_zero fl t v e m = do x ← get_reg v m e.expand1; branch (zero_test fl v t x) e m

abbrev pub int_compare : Cmp → ℕ → ℕ → ℕ → Bool
int_compare eq n a b = a == b
int_compare ne n a b = not (a == b)
int_compare lt n a b = ltb_ℤ (signed n a) (signed n b)
int_compare le n a b = not (ltb_ℤ (signed n b) (signed n a))
int_compare gt n a b = ltb_ℤ (signed n b) (signed n a)
int_compare ge n a b = not (ltb_ℤ (signed n a) (signed n b))
int_compare lt_u n a b = ltb a b
int_compare le_u n a b = leb a b
int_compare gt_u n a b = ltb b a
int_compare ge_u n a b = leb b a

-- The switch of Exec_start has no case for an unsigned comparison of floats.
abbrev pub has_compare : Cmp → Valty → Bool
has_compare lt_u v = is_int v
has_compare le_u v = is_int v
has_compare gt_u v = is_int v
has_compare ge_u v = is_int v
has_compare _ v = true

abbrev pub float_compare : FloatOps → Cmp → ℕ → ℕ → Result Bool
float_compare f eq a b = ok (f.eq a b)
float_compare f ne a b = ok (not (f.eq a b))
float_compare f lt a b = ok (f.lt a b)
float_compare f le a b = ok (f.le a b)
float_compare f gt a b = ok (f.lt b a)
float_compare f ge a b = ok (f.le b a)
float_compare f _ a b = err undefined

abbrev pub compare_values : Floats → Valty → Cmp → ℕ → ℕ → Result Bool
compare_values fl i32 c a b = ok (int_compare c (modulus i32) a b)
compare_values fl i64 c a b = ok (int_compare c (modulus i64) a b)
compare_values fl f32 c a b = float_compare fl.f32 c a b
compare_values fl f64 c a b = float_compare fl.f64 c a b

-- Jeq_i32_am32s_r_r_ofs to Jge_u_i64_am32s_r_r_ofs, and the same bodies under am64.
unfoldable pub jump_cmp : Floats → Cmp → Valty → AmExpand → Machine → Result Machine
unfolding jmp
jump_cmp fl c v e m = do
  is_true (has_compare c v)
  a ← get_reg v m e.expand1
  b ← get_reg v m e.expand2
  taken ← compare_values fl v c a b
  branch taken e m

unfoldable pub jump_cmp_l : Floats → Cmp → Valty → AmExpand → Machine → Result Machine
unfolding jmp
jump_cmp_l fl c v e m = do
  is_true (has_compare c v)
  a ← get_reg v m e.expand1
  b ← get_reg v m e.expand2
  taken ← compare_values fl v c a b
  branch taken e m

-- 0 or 1 as a value of the register's type.
abbrev pub of_bool : Floats → Valty → Bool → ℕ
of_bool fl i32 b = if b then 1 else 0
of_bool fl i64 b = if b then 1 else 0
of_bool fl f32 b = fl.f32.of_int (if b then pos 1 else pos 0)
of_bool fl f64 b = fl.f64.of_int (if b then pos 1 else pos 0)

-- Where a comparison leaves its result: in a register of the operands' type, but Le_f32 uses an
-- i32 register.
abbrev pub result_type : Cmp → Valty → Valty
result_type le f32 = i32
result_type _ v = v

-- Eq_i32_am64_r_r_r to Ge_u_i64_am64_r_r_r.
unfoldable pub compare : Floats → Cmp → Valty → AmExpand → Machine → Result Machine
compare fl c v e m = do
  is_true (has_compare c v)
  a ← get_reg v m e.expand2
  b ← get_reg v m e.expand3
  holds ← compare_values fl v c a b
  set_reg (result_type c v) m e.expand1 (of_bool fl (result_type c v) holds)

-- Eqz_i32_am32_r_r to Eqz_f64_am32_r_r.
unfoldable pub eqz : Floats → Valty → AmExpand → Machine → Result Machine
eqz fl v e m = do
  x ← get_reg v m e.expand2
  set_reg v m e.expand1 (of_bool fl v (zero_test fl v ez x))
