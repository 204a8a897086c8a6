-- ===== src/Tests/Running.antt =====
-- The theorems on runs, at the sample program.
use uwasm_vm.Base.{◌-◌, ◌≡◌, refl, arith, ok, [], ◌∷◌}
use uwasm_vm.Isa.Table.{op_of, opcode_table}
use uwasm_vm.Machine.Register
use uwasm_vm.Machine.Context
use uwasm_vm.Machine.State.{Machine, set_reg}
use uwasm_vm.Machine.Call.{
  init_env, func_prologue, func_epilogue, allocate_stack, shift_frames, alloc_registers, enter_code,
}
use uwasm_vm.Machine.Frames.{IsSynced}
use uwasm_vm.Exec.Const.{const_l}
use uwasm_vm.Exec.Step.{running, dispatch, step}
use uwasm_vm.Exec.Keeps.{ok-Keeps, SameFrames-refl}
use uwasm_vm.Exec.Linked.{IsSafe}
use uwasm_vm.Exec.SafeOps.{HostKeeps}
use uwasm_vm.Exec.SafeRun.{Reaches, start, next, reached_from_init-IsSafe, func_epilogue-reached}
use uwasm_vm.Tests.Sample.{machine, two_functions, host, blank, zeros}

synced : IsSynced machine
synced = record { i32 = refl; i64 = refl; f32 = refl; f64 = refl }

host-Keeps : HostKeeps host
host-Keeps i m = ok-Keeps m (SameFrames-refl m)

-- The machine that the first function starts with, and the one after its first instruction.
abbrev started : Machine
started = record machine {
  ctx_stack = record machine.ctx_stack {
    ctx_sta = Context.update blank 0 (record machine.current { func_idx = 0; pc = 9 });
    depth = 1;
  };
}

starts : init_env two_functions 0 machine ≡ ok started
unfolding init_env Context.push allocate_stack Register.alloc
starts = refl

abbrev after_const : Machine
after_const = record started {
  reg_i32 = record started.reg_i32 {
    cells = Register.update (Register.new_register zeros).cells 0 5;
  };
  current = record started.current { pc = 1 };
}

first_step : step two_functions host started ≡ ok (running after_const)
unfolding step dispatch op_of opcode_table set_reg const_l Register.set
first_step = refl

-- The machine in the function that the second instruction calls.
abbrev after_call : Machine
after_call = record after_const {
  reg_i32 = record after_const.reg_i32 { fp = 2 };
  ctx_stack = record after_const.ctx_stack {
    ctx_sta = Context.update after_const.ctx_stack.ctx_sta 1 after_const.current;
    depth = 2;
  };
  current = record after_const.current {
    fp_i32 = 2;
    func_idx = 1;
    pc = 4;
    label_tab = 4 ∷ [];
    sp = 240;
  };
}

second_step : step two_functions host after_const ≡ ok (running after_call)
unfolding step dispatch op_of opcode_table func_prologue enter_code Context.push allocate_stack
    shift_frames alloc_registers Register.increment Register.alloc
second_step = refl

reached : Reaches two_functions host started after_call
reached = next (next start first_step) second_step

reached_from_init-IsSafe_example : IsSafe two_functions after_call
reached_from_init-IsSafe_example =
    reached_from_init-IsSafe two_functions host host-Keeps 0 machine started after_call synced refl
      starts reached

func_epilogue-reached_example :
    (n' : Machine) × (func_epilogue two_functions after_call ≡ ok n')
    × (n'.current ≡ after_call.ctx_stack.ctx_sta (after_call.ctx_stack.depth - 1))
    × IsSynced n'
func_epilogue-reached_example =
    func_epilogue-reached two_functions host host-Keeps 0 machine started after_call synced refl
      starts reached (omega arith)
