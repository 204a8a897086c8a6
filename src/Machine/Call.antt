-- ===== src/Machine/Call.antt =====
-- Calls and returns: Init_env, Func_prologue, Func_epilogue (src/interpreter/exec_unit.cxx) and
-- Allocate_stack (src/interpreter/exec_unit.h).
use uwasm_vm.Base.{ℕ, not, is_true, ◌-◌, ltb, leb, ◌==◌, if◌then◌else◌, ◌||◌, get_elem?}
use uwasm_vm.Base.{Result, ok, ◌>>=◌, ◌>>◌, in_bounds, defined_if}
use uwasm_vm.Machine.Register
use uwasm_vm.Machine.Register.{Register}
use uwasm_vm.Machine.Context
use uwasm_vm.Machine.Context.{ExecContext, inc_pc}
use uwasm_vm.Machine.State.{Machine, Module, Func, Counts, packed, reg_num, no_counts}

abbrev pub inc_machine_pc : Machine → Machine
inc_machine_pc m = record m { current = inc_pc m.current }

abbrev pub get_func : Module → ℕ → Result Func
get_func mod_ i = in_bounds (get_elem? mod_.funcs i)

-- Get_reg_num and Get_fp_shs_num.
abbrev pub reg_num_of : Func → Counts
reg_num_of f = if f.is_extern then no_counts else reg_num f.code

abbrev pub fp_shs_of : Func → Counts
fp_shs_of f = if f.is_extern then no_counts else f.code.local

-- Get_code_idx asserts that the function has code. The stack grows down; below the memory the
-- pointer is undefined.
unfoldable pub allocate_stack : Func → ExecContext → Result ExecContext
allocate_stack f ctx =
    is_true (not f.is_extern)
    >> (if ltb 0 f.code.stack_size
        then (defined_if (leb f.code.stack_size ctx.sp)
            >> ok (record ctx { sp = ctx.sp - f.code.stack_size }))
        else ok ctx)

-- `if (n != 0) { Reg().Increment(n); Cur_env().Set_fp(Reg().Fp()); }`
abbrev shift : Register → ℕ → Register
shift r n = if n == 0 then r else Register.increment r n

abbrev shift_fp : ℕ → Register → ℕ → ℕ
shift_fp old r n = if n == 0 then old else (Register.increment r n).fp

-- "Update frame pointer" of Func_prologue.
unfoldable pub shift_frames : Counts → Machine → Machine
unfolding Register.increment
shift_frames n m =
    if ltb 0xffff (packed n)
    then record m {
      reg_i32 = Register.increment m.reg_i32 n.i32;
      reg_i64 = shift m.reg_i64 n.i64;
      reg_f32 = shift m.reg_f32 n.f32;
      reg_f64 = shift m.reg_f64 n.f64;
      current = record m.current {
        fp_i32 = (Register.increment m.reg_i32 n.i32).fp;
        fp_i64 = shift_fp m.current.fp_i64 m.reg_i64 n.i64;
        fp_f32 = shift_fp m.current.fp_f32 m.reg_f32 n.f32;
        fp_f64 = shift_fp m.current.fp_f64 m.reg_f64 n.f64;
      };
    }
    else record m {
      reg_i32 = Register.increment m.reg_i32 (packed n);
      current = record m.current { fp_i32 = (Register.increment m.reg_i32 (packed n)).fp };
    }

abbrev pub alloc_some : Register → ℕ → Register
alloc_some r n = if n == 0 then r else Register.alloc r n

-- The allocation of the callee's registers.
unfoldable pub alloc_registers : Counts → Machine → Machine
unfolding Register.alloc
alloc_registers n m =
    if ltb 0xffff (packed n)
    then record m {
      reg_i32 = Register.alloc m.reg_i32 n.i32;
      reg_i64 = alloc_some m.reg_i64 n.i64;
      reg_f32 = alloc_some m.reg_f32 n.f32;
      reg_f64 = alloc_some m.reg_f64 n.f64;
    }
    else record m { reg_i32 = Register.alloc m.reg_i32 (packed n) }

-- The frame pointers of the four files follow the restored context; those of i64, f32 and f64 only
-- where the caller uses such registers.
unfoldable pub restore_frames : Counts → Machine → Machine
unfolding Register.set_fp
restore_frames n m =
    if ltb 0xffff (packed n)
    then record m {
      reg_i32 = Register.set_fp m.reg_i32 m.current.fp_i32;
      reg_i64 = Register.set_fp m.reg_i64 m.current.fp_i64;
      reg_f32 = Register.set_fp m.reg_f32 m.current.fp_f32;
      reg_f64 = Register.set_fp m.reg_f64 m.current.fp_f64;
    }
    else record m { reg_i32 = Register.set_fp m.reg_i32 m.current.fp_i32 }

unfoldable pub func_epilogue : Module → Machine → Result Machine
func_epilogue mod_ m = do
  prev ← Context.top m.ctx_stack
  rest ← Context.pop m.ctx_stack
  caller ← get_func mod_ prev.func_idx
  ok (restore_frames (fp_shs_of caller) (record m { current = prev; ctx_stack = rest }))

-- The two branches of Func_prologue. `call_sys_call` is U_RUNTIME::Call_sys_call.
unfoldable pub enter_native : Module → (ℕ → Machine → Result Machine) → ℕ → Machine → Result Machine
enter_native mod_ call_sys_call callee_idx m = do
  done ← call_sys_call callee_idx m
  back ← func_epilogue mod_ done
  ok (inc_machine_pc back)

unfoldable pub enter_code : Func → Machine → Result Machine
unfolding allocate_stack alloc_registers
enter_code callee m = do
  ctx ← allocate_stack callee (record m.current { label_tab = callee.labels; pc = callee.base })
  ok (alloc_registers (reg_num_of callee) (record m { current = ctx }))

unfoldable pub func_prologue :
    Module → (ℕ → Machine → Result Machine) → ℕ → Machine → Result Machine
func_prologue mod_ call_sys_call callee_idx m = do
  callee ← get_func mod_ callee_idx
  caller ← get_func mod_ m.current.func_idx
  stack ← Context.push m.ctx_stack m.current
  let entered =
      shift_frames (fp_shs_of caller)
        (record m { ctx_stack = stack; current = record m.current { func_idx = callee_idx } })
  if callee.is_extern || callee.is_native
      then enter_native mod_ call_sys_call callee_idx entered
      else enter_code callee entered

-- Init_env: the frame of the break instruction, then the first function's context.
unfoldable pub init_env : Module → ℕ → Machine → Result Machine
unfolding Context.push allocate_stack
init_env mod_ func_idx m = do
  f ← get_func mod_ func_idx
  let bottom = record m.current { func_idx = func_idx; pc = mod_.end_pc }
  stack ← Context.push m.ctx_stack bottom
  ctx ← allocate_stack f (record bottom { label_tab = f.labels; pc = f.base; sp = m.sta })
  ok (record m {
    ctx_stack = stack;
    current = ctx;
    reg_i32 = alloc_some m.reg_i32 (reg_num_of f).i32;
    reg_i64 = alloc_some m.reg_i64 (reg_num_of f).i64;
    reg_f32 = alloc_some m.reg_f32 (reg_num_of f).f32;
    reg_f64 = alloc_some m.reg_f64 (reg_num_of f).f64;
  })
