-- ===== src/Tests/Calls.antt =====
-- The theorems on calls, at the call that the sample machine is about to make, and a run of the
-- sample program.
use uwasm_vm.Base.{
  ℕ, ◌≡◌, refl, arith, [], ◌∷◌, Result, ok, err, undefined, ◌>>=◌, Option, some, none,
  if◌then◌else◌, ◌==◌,
}
use uwasm_vm.Base.{◌+◌}
use uwasm_vm.Isa.Opcode.{i32}
use uwasm_vm.Isa.Table.{op_of, opcode_table}
use uwasm_vm.Machine.Register
use uwasm_vm.Machine.Context
use uwasm_vm.Machine.Context.{ContextStack, ExecContext, new_stack}
use uwasm_vm.Machine.State.{Machine, get_reg, set_reg}
use uwasm_vm.Machine.Call.{
  func_prologue, func_epilogue, init_env, allocate_stack, shift_frames, alloc_registers,
  restore_frames, enter_code,
}
use uwasm_vm.Machine.Frames.{IsSynced, IsBalanced, func_prologue-IsSynced}
use uwasm_vm.Machine.Return.{func_epilogue-func_prologue}
use uwasm_vm.Machine.Overflow.{push_all, push_all-ok, push_all-overflow}
use uwasm_vm.Exec.Const.{const_l}
use uwasm_vm.Exec.Step.{dispatch, step, exec_start}
use uwasm_vm.Tests.Sample.{machine, two_functions, callee, no_sys_call, host, blank}

-- The sample machine with the frame of Init_env.
abbrev begun : Machine
begun = record machine {
  ctx_stack = record machine.ctx_stack { ctx_sta = Context.update blank 0 (blank 0); depth = 1 };
}

-- The machine once the call has been entered, and after a body that wrote to the memory.
abbrev entered : Machine
entered = record begun {
  reg_i32 = record begun.reg_i32 { fp = 2 };
  ctx_stack = record begun.ctx_stack {
    ctx_sta = Context.update begun.ctx_stack.ctx_sta 1 begun.current;
    depth = 2;
  };
  current = record begun.current { fp_i32 = 2; func_idx = 1; pc = 4; label_tab = 4 ∷ []; sp = 240 };
}

abbrev worked : Machine
worked = record entered { mem = λ i. if i == 250 then 9 else 0 }

synced : IsSynced begun
synced = record { i32 = refl; i64 = refl; f32 = refl; f64 = refl }

enters : func_prologue two_functions no_sys_call 1 begun ≡ ok entered
unfolding func_prologue enter_code Context.push allocate_stack shift_frames alloc_registers
    Register.increment Register.alloc
enters = refl

func_prologue-IsSynced_example : IsSynced entered
func_prologue-IsSynced_example =
    func_prologue-IsSynced two_functions no_sys_call 1 begun callee entered refl refl enters synced

func_epilogue-func_prologue_example :
    (m3 : Machine) × (func_epilogue two_functions worked ≡ ok m3)
    × (m3.current ≡ begun.current)
    × IsBalanced begun m3
    × IsSynced m3
    × (m3.mem ≡ worked.mem)
    × (m3.globals ≡ worked.globals)
func_epilogue-func_prologue_example =
    func_epilogue-func_prologue two_functions no_sys_call 1 begun entered worked callee refl refl
      synced (omega arith) enters
      (record {
        depth = refl;
        frames = λ i h. refl;
        i32 = refl;
        i64 = refl;
        f32 = refl;
        f64 = refl;
      })

-- A stack of two frames in place of DEFAULT_STACK_SIZE.
abbrev small_stack : ContextStack
small_stack = record (new_stack blank) { capacity = 2 }

push_all-ok_example :
    (t : ContextStack) × (push_all small_stack (blank 0 ∷ blank 1 ∷ []) ≡ ok t) × (t.depth ≡ 0 + 2)
push_all-ok_example = push_all-ok small_stack (blank 0 ∷ blank 1 ∷ []) (omega arith)

push_all-overflow_example : push_all small_stack (blank 0 ∷ blank 1 ∷ blank 2 ∷ []) ≡ err undefined
push_all-overflow_example =
    push_all-overflow small_stack (blank 0 ∷ blank 1 ∷ blank 2 ∷ []) (omega arith) (omega arith)

-- The first instruction of the program sets R0 to 5, the function it calls sets its own R0 to 7,
-- and the program ends with 5.
abbrev result : Result (Option Machine) → Result ℕ
result r = r >>= λ o. elim o [ some m ↦ get_reg i32 m 0 | none ↦ err undefined ]

runs : result (init_env two_functions 0 machine >>= λ m. exec_start 10 two_functions host m) ≡ ok 5
unfolding exec_start step dispatch op_of opcode_table func_prologue func_epilogue init_env
    enter_code Context.push Context.pop Context.top allocate_stack shift_frames alloc_registers
    restore_frames Register.increment Register.alloc Register.set_fp Register.get Register.set
    get_reg set_reg const_l
runs = refl
