-- ===== src/Exec/Step.antt =====
-- The loop of UWASM_MACHINE::Exec_start (src/interpreter/exec_unit.cxx) with its dispatch
-- (src/interpreter/exec_unit_op.def).
use uwasm_vm.Base.{ℕ, zero, suc, ◌/◌, ◌%◌, Option, some, none, get_elem?, set}
use uwasm_vm.Base.{Result, ok, err, assertion, ◌>>=◌, in_bounds}
use uwasm_vm.Isa.Opcode
use uwasm_vm.Isa.Opcode.{Valty, Op, i32, i64, f32, f64}
use uwasm_vm.Isa.Table.{op_of}
use uwasm_vm.Isa.Expand.{AmExpand}
use uwasm_vm.Machine.State.{Machine, Module, get_reg}
use uwasm_vm.Machine.Call.{inc_machine_pc, func_prologue, func_epilogue}
use uwasm_vm.Exec.Word.{Floats}
use uwasm_vm.Exec.Jump
use uwasm_vm.Exec.Arith
use uwasm_vm.Exec.Const
use uwasm_vm.Exec.Memory
use uwasm_vm.Exec.Global
use uwasm_vm.Exec.Global.{Realloc}
use uwasm_vm.Exec.Convert

-- What the machine relies on: floating point, the system calls and `realloc`.
pub record Host : Type 0 where
  pub floats : Floats
  pub call_sys_call : ℕ → Machine → Result Machine
  pub realloc : ℕ → Realloc

-- The type bits of a long opcode, TYPE_MASK.
abbrev pub valty_of : ℕ → Valty
valty_of zero = i32
valty_of (suc zero) = i64
valty_of (suc (suc zero)) = f32
valty_of _ = f64

-- What the loop does after a case: `break`, and then Inc_pc; `continue`; or `goto exec_end`.
pub data Next : Type 0 where
  advance : Machine → Next
  stay : Machine → Next
  stop : Machine → Next

abbrev pub advancing : Result Machine → Result Next
advancing r = do m ← r; ok (advance m)

abbrev pub staying : Result Machine → Result Next
staying r = do m ← r; ok (stay m)

-- Call_indirect_am32_r writes the register's value into the instruction, and calls by it.
unfoldable pub call_indirect : Module → Host → ℕ → AmExpand → Machine → Result Machine
unfolding func_prologue
call_indirect mod_ h pc e m = do
  ofs ← get_reg i32 m e.expand1
  func_prologue mod_ h.call_sys_call ofs
      (record m { table = set m.table pc (record e { expand3 = ofs }) })

-- The switch on the long opcode, as an opcode and a type.
unfoldable pub dispatch : Module → Host → ℕ → Op → Valty → AmExpand → Machine → Result Next
unfolding call_indirect
dispatch mod_ h pc Opcode.break v e m = ok (stop m)
dispatch mod_ h pc Opcode.call v e m = staying (func_prologue mod_ h.call_sys_call e.expand3 m)
dispatch mod_ h pc Opcode.call_indirect v e m = staying (call_indirect mod_ h pc e m)
dispatch mod_ h pc Opcode.jmp v e m = staying (Jump.jmp e.expand3 m)
dispatch mod_ h pc Opcode.jmp_indirect v e m = staying (Jump.jmp_indirect pc e m)
dispatch mod_ h pc (Opcode.jump_zero t) v e m = staying (Jump.jump_zero h.floats t v e m)
dispatch mod_ h pc (Opcode.jump_cmp c) v e m = staying (Jump.jump_cmp h.floats c v e m)
dispatch mod_ h pc (Opcode.jump_cmp_l c) v e m = staying (Jump.jump_cmp_l h.floats c v e m)
dispatch mod_ h pc Opcode.nop v e m = ok (advance m)
dispatch mod_ h pc Opcode.return v e m = advancing (func_epilogue mod_ m)
dispatch mod_ h pc Opcode.memorysize v e m = advancing (Global.memorysize e m)
dispatch mod_ h pc Opcode.memorygrow v e m = advancing (Global.memorygrow h.realloc e m)
dispatch mod_ h pc Opcode.add_ri v e m = advancing (Arith.add_ri v e m)
dispatch mod_ h pc Opcode.llda v e m = advancing (Global.llda v e m)
dispatch mod_ h pc Opcode.glda v e m = advancing (Global.glda mod_ v e m)
dispatch mod_ h pc Opcode.mov v e m = advancing (Const.mov v e m)
dispatch mod_ h pc Opcode.add_rr v e m = advancing (Arith.add_rr h.floats v e m)
dispatch mod_ h pc Opcode.const_short v e m = advancing (Const.const_short v e m)
dispatch mod_ h pc Opcode.adds_i v e m = advancing (Arith.add_rri v e m)
dispatch mod_ h pc (Opcode.load a) v e m = advancing (Memory.load a v e m)
dispatch mod_ h pc (Opcode.store s) v e m = advancing (Memory.store s v e m)
dispatch mod_ h pc (Opcode.lload a) v e m = advancing (Memory.lload a v e m)
dispatch mod_ h pc (Opcode.lstore s) v e m = advancing (Memory.lstore s v e m)
dispatch mod_ h pc Opcode.adds v e m = advancing (Arith.adds h.floats v e m)
dispatch mod_ h pc Opcode.subs v e m = advancing (Arith.subs h.floats v e m)
dispatch mod_ h pc Opcode.rotl v e m = advancing (Arith.rotl v e m)
dispatch mod_ h pc Opcode.rotr v e m = advancing (Arith.rotr v e m)
dispatch mod_ h pc Opcode.conv_i32 v e m = advancing (Convert.conv_i32 h.floats v e m)
dispatch mod_ h pc Opcode.conv_i32_u v e m = advancing (Convert.conv_i32_u v e m)
dispatch mod_ h pc Opcode.conv_i64 v e m = advancing (Convert.conv_i64 h.floats v e m)
dispatch mod_ h pc Opcode.conv_f32 v e m = advancing (Convert.conv_f32 h.floats v e m)
dispatch mod_ h pc Opcode.conv_f64 v e m = advancing (Convert.conv_f64 h.floats v e m)
dispatch mod_ h pc Opcode.eqz v e m = advancing (Jump.eqz h.floats v e m)
dispatch mod_ h pc Opcode.ceil v e m = advancing (Convert.ceil h.floats v e m)
dispatch mod_ h pc Opcode.floor v e m = advancing (Convert.floor h.floats v e m)
dispatch mod_ h pc Opcode.sqrt v e m = advancing (Convert.sqrt h.floats v e m)
dispatch mod_ h pc Opcode.neg v e m = advancing (Convert.neg h.floats v e m)
dispatch mod_ h pc Opcode.reinterpret_f32 v e m = advancing (Convert.reinterpret f32 i32 v e m)
dispatch mod_ h pc Opcode.reinterpret_f64 v e m = advancing (Convert.reinterpret f64 i64 v e m)
dispatch mod_ h pc Opcode.reinterpret_i32 v e m = advancing (Convert.reinterpret i32 f32 v e m)
dispatch mod_ h pc Opcode.reinterpret_i64 v e m = advancing (Convert.reinterpret i64 f64 v e m)
dispatch mod_ h pc Opcode.const_l v e m = advancing (Const.const_l v e m)
dispatch mod_ h pc Opcode.const_l_high v e m = advancing (Const.const_l_high v e m)
dispatch mod_ h pc Opcode.ctz v e m = advancing (Const.ctz v e m)
dispatch mod_ h pc Opcode.popcnt v e m = advancing (Const.popcnt v e m)
dispatch mod_ h pc Opcode.add_rri v e m = advancing (Arith.add_rri v e m)
dispatch mod_ h pc (Opcode.load_l a) v e m = advancing (Memory.load a v e m)
dispatch mod_ h pc (Opcode.store_l s) v e m = advancing (Memory.store s v e m)
dispatch mod_ h pc (Opcode.lload_l a) v e m = advancing (Memory.lload a v e m)
dispatch mod_ h pc (Opcode.lstore_l s) v e m = advancing (Memory.lstore s v e m)
dispatch mod_ h pc (Opcode.compare c) v e m = advancing (Jump.compare h.floats c v e m)
dispatch mod_ h pc (Opcode.arith_op o) v e m = advancing (Arith.arith_op h.floats o v e m)
dispatch mod_ h pc Opcode.llda_l v e m = advancing (Global.llda_l v e m)
dispatch mod_ h pc Opcode.builtin v e m = advancing (Convert.builtin h.floats v e m)
dispatch mod_ h pc Opcode.gget v e m = advancing (Global.gget v e m)
dispatch mod_ h pc Opcode.gset v e m = advancing (Global.gset v e m)
-- Unreach_am32 and the four Select assert, and the default of the switch does.
dispatch mod_ h pc _ v e m = err assertion

-- What ends an iteration: the machine goes on, or the loop is left.
pub data Outcome : Type 0 where
  running : Machine → Outcome
  stopped : Machine → Outcome

abbrev pub finish : Next → Outcome
finish (advance m) = running (inc_machine_pc m)
finish (stay m) = running m
finish (stop m) = stopped m

-- One iteration of the loop, less its traces and the debugger.
unfoldable pub step : Module → Host → Machine → Result Outcome
unfolding dispatch
step mod_ h m = do
  e ← in_bounds (get_elem? m.table m.current.pc)
  op ← (elim (op_of (e.opcode_l / 4)) [ some o ↦ ok o | none ↦ err assertion ])
  next ← dispatch mod_ h m.current.pc op (valty_of (e.opcode_l % 4)) e m
  ok (finish next)

-- Exec_start, for at most `fuel` iterations: `none` where it has not stopped.
unfoldable pub exec_start : ℕ → Module → Host → Machine → Result (Option Machine)
unfolding step
exec_start zero mod_ h m = ok none
exec_start (suc fuel) mod_ h m =
    step mod_ h m >>= λ o. elim o [ stopped n ↦ ok (some n) | running n ↦ exec_start fuel mod_ h n ]
