-- ===== src/Machine/State.antt =====
-- The fields of UWASM_MACHINE (src/interpreter/exec_unit.h) that its instructions work on, and
-- what they read of U_MODULE (src/ubh/u_module.h) once it is prepared.
use uwasm_vm.Base.{ℕ, ◌+◌, ◌*◌, ◌^◌, Bool, List, Result, ok, ◌>>=◌}
use uwasm_vm.Isa.Opcode.{Valty, i32, i64, f32, f64}
use uwasm_vm.Isa.Expand.{AmExpand}
use uwasm_vm.Machine.Register
use uwasm_vm.Machine.Register.{Register}
use uwasm_vm.Machine.Context.{ExecContext, ContextStack}

-- `mem` holds bytes, from _mem_p on; `mem_valid` says that _mem_p still points to the memory. The
-- stack begins at _sta_p, which is `sta` bytes further. `table` is the expanded
-- table, which indirect calls and jumps write. `globals` are the 8-byte entries of the global table.
pub record Machine : Type 0 where
  pub reg_i32 : Register
  pub reg_i64 : Register
  pub reg_f32 : Register
  pub reg_f64 : Register
  pub ctx_stack : ContextStack
  pub current : ExecContext
  pub mem : ℕ → ℕ
  pub mem_size : ℕ
  pub mem_valid : Bool
  pub sta : ℕ
  pub globals : List ℕ
  pub table : List AmExpand

-- Four UINT16, as they are kept in one UINT64.
pub record Counts : Type 0 where
  pub i32 : ℕ
  pub i64 : ℕ
  pub f32 : ℕ
  pub f64 : ℕ

abbrev pub packed : Counts → ℕ
packed c = c.i32 + c.i64 * 2 ^ 16 + c.f32 * 2 ^ 32 + c.f64 * 2 ^ 48

-- UBH_CODE: the register counts and the stack size.
pub record UbhCode : Type 0 where
  pub local : Counts
  pub io : Counts
  pub stack_size : ℕ

-- What Decode_type_and_cache puts in _reg_num_tab and _fp_shs_tab for a function with code.
abbrev pub reg_num : UbhCode → Counts
reg_num c = record {
  i32 = c.local.i32 + c.io.i32;
  i64 = c.local.i64 + c.io.i64;
  f32 = c.local.f32 + c.io.f32;
  f64 = c.local.f64 + c.io.f64;
}

abbrev pub no_counts : Counts
no_counts = record { i32 = 0; i64 = 0; f32 = 0; f64 = 0 }

-- A function of the module: the flags F_EXTERN and F_NATIVE, its code, its start in the expanded
-- table and its label table. An extern function has no code, and its counts stay 0.
pub record Func : Type 0 where
  pub is_extern : Bool
  pub is_native : Bool
  pub code : UbhCode
  pub base : ℕ
  pub labels : List ℕ

pub record Module : Type 0 where
  pub funcs : List Func
  pub end_pc : ℕ
  pub data_idx : List ℕ

abbrev pub with_reg : Valty → Register → Machine → Machine
with_reg i32 r m = record m { reg_i32 = r }
with_reg i64 r m = record m { reg_i64 = r }
with_reg f32 r m = record m { reg_f32 = r }
with_reg f64 r m = record m { reg_f64 = r }

abbrev pub reg : Valty → Machine → Register
reg i32 m = m.reg_i32
reg i64 m = m.reg_i64
reg f32 m = m.reg_f32
reg f64 m = m.reg_f64

-- `_reg_x[i]`, and `_reg_x.Set(i, value)`.
unfoldable pub get_reg : Valty → Machine → ℕ → Result ℕ
get_reg v m i = Register.get (reg v m) i

unfoldable pub set_reg : Valty → Machine → ℕ → ℕ → Result Machine
set_reg v m i x = do r ← Register.set (reg v m) i x; ok (with_reg v r m)
