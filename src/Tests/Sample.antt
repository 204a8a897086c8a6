-- ===== src/Tests/Sample.antt =====
-- A module of two functions and a machine that is about to call the second, for the tests.
use uwasm_vm.Base.{ℕ, ◌+◌, ◌*◌, true, false, ltb, leb, ◌==◌, List, [], ◌∷◌, some}
use uwasm_vm.Base.{Result, ok}
use uwasm_vm.Base.Int.{pos}
use uwasm_vm.Isa.Expand.{AmExpand}
use uwasm_vm.Machine.Register.{new_register}
use uwasm_vm.Machine.Context.{ExecContext, new_stack}
use uwasm_vm.Machine.State.{Machine, Counts, no_counts, Func, Module}
use uwasm_vm.Exec.Word.{FloatOps, Floats}
use uwasm_vm.Exec.Global.{Realloc}
use uwasm_vm.Exec.Step.{Host}

abbrev pub i32_counts : ℕ → Counts
i32_counts n = record { i32 = n; i64 = 0; f32 = 0; f64 = 0 }

-- Two i32 registers, and no stack.
abbrev pub caller : Func
caller = record {
  is_extern = false;
  is_native = false;
  code = record { local = i32_counts 2; io = no_counts; stack_size = 0 };
  base = 0;
  labels = [];
}

-- Three i32 registers, one of them for an argument, and 16 bytes of stack.
abbrev pub callee : Func
callee = record {
  is_extern = false;
  is_native = false;
  code = record { local = i32_counts 2; io = i32_counts 1; stack_size = 16 };
  base = 4;
  labels = 4 ∷ [];
}

abbrev pub two_functions : Module
two_functions = record { funcs = caller ∷ callee ∷ []; end_pc = 9; data_idx = [] }

abbrev pub zeros : ℕ → ℕ
zeros i = 0

abbrev pub blank : ℕ → ExecContext
blank i = record {
  fp_i32 = 0;
  fp_i64 = 0;
  fp_f32 = 0;
  fp_f64 = 0;
  func_idx = 0;
  pc = 0;
  label_tab = [];
  sp = 256;
}

abbrev pub entry : ℕ → ℕ → ℕ → ℕ → AmExpand
entry o a b c = record { opcode_l = o; expand1 = a; expand2 = b; expand3 = c }

-- CONST 5 to R0, CALL 1; the callee adds 7 to its R0 and returns; then BREAK.
abbrev pub table : List AmExpand
table =
    entry 0x200 0 0 5
    ∷ entry 0x0c 0 0 1
    ∷ entry 0x120 0 0 0
    ∷ entry 0x00 0 0 0
    ∷ entry 0x200 0 0 7
    ∷ entry 0x08 0 0 0
    ∷ []

abbrev pub machine : Machine
machine = record {
  reg_i32 = new_register zeros;
  reg_i64 = new_register zeros;
  reg_f32 = new_register zeros;
  reg_f64 = new_register zeros;
  ctx_stack = new_stack blank;
  current = blank 0;
  mem = zeros;
  mem_size = 256;
  mem_valid = true;
  sta = 256;
  globals = [];
  table = table;
}

abbrev pub no_sys_call : ℕ → Machine → Result Machine
no_sys_call i m = ok m

-- Numbers in place of floating point, which the tests do not use.
abbrev ops : FloatOps
ops = record {
  eq = λ a b. a == b;
  lt = λ a b. ltb a b;
  le = λ a b. leb a b;
  add = λ a b. a + b;
  sub = λ a b. a;
  mul = λ a b. a * b;
  div = λ a b. a;
  fmin = λ a b. a;
  fmax = λ a b. a;
  ceil = λ a. a;
  floor = λ a. a;
  sqrt = λ a. a;
  fabs = λ a. a;
  of_int = λ z. 0;
  to_int = λ x. some (pos x);
}

abbrev pub floats : Floats
floats = record { f32 = ops; f64 = ops; f32_to_f64 = λ x. x; f64_to_f32 = λ x. x }

abbrev pub host : Host
host = record { floats = floats; call_sys_call = no_sys_call; realloc = λ n. Realloc.in_place }
