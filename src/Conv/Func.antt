-- ===== src/Conv/Func.antt =====
-- Wasm_to_uwasm (src/wasm/converter.cxx) for a whole function: the passes in order, the registers of
-- the moves around calls, and the register counts of the function.
use uwasm_vm.Base.{ℕ, zero, suc, ◌+◌, ◌-◌, ◌*◌, ltb, ◌==◌, if◌then◌else◌, List, [], ◌∷◌}
use uwasm_vm.Base.{length, get_elem?, set, Option, none, some, ok, err, assertion}
use uwasm_vm.Isa.Opcode.{Valty}
use uwasm_vm.Isa.Word.{field, set_field, opcode}
use uwasm_vm.Exec.Step.{valty_of}
use uwasm_vm.Conv.Winst.{Winst}
use uwasm_vm.Conv.OpMap.{mov_op, call_op, call_indirect_op}
use uwasm_vm.Conv.State.{LocalTab, Conv, ◌>>=◌, ◌>>◌, pure, lift, gets, modify, check, update_at}
use uwasm_vm.Conv.Env.{Env, Signature}
use uwasm_vm.Conv.Blocks.{build_block_hierarchy}
use uwasm_vm.Conv.Locals.{create_locals, clear_locals}
use uwasm_vm.Conv.Inst.{conv_all}

-- Inst_tab().at(pc), which throws out of range, and a write to it.
unfoldable pub inst_at : ℕ → Conv ℕ
unfolding ◌>>=◌ lift gets
inst_at pc = do
  tab ← gets (λ s. s.body.inst_tab)
  lift (elim (get_elem? tab pc) [ some w ↦ ok w | none ↦ err assertion ])

unfoldable pub set_inst : ℕ → ℕ → Conv (Unit {0})
unfolding modify
set_inst pc w =
    modify (λ s. record s { body = record s.body { inst_tab = set s.body.inst_tab pc w } })

-- local_total_num.
abbrev pub local_total : ℕ → (Valty → LocalTab) → Valty → ℕ
local_total ret_reg_num f v = ret_reg_num + length (f v).content

-- The register operands _r1 and _r2 of a move.
abbrev pub set_r1 : ℕ → ℕ → ℕ
set_r1 r w = set_field 10 10 r w

abbrev pub set_r2 : ℕ → ℕ → ℕ
set_r2 r w = set_field 22 10 r w

-- The moves before a call: the parameters of each type go to registers one after the other, behind
-- the locals and the return registers of the callee.
unfoldable pub fix_params : ℕ → ℕ → ℕ → (Valty → ℕ) → Conv (Unit {0})
unfolding ◌>>=◌ pure lift gets inst_at set_inst
fix_params ret_reg_num zero mov_pc used = pure tt
fix_params ret_reg_num (suc left) mov_pc used = do
  w ← inst_at mov_pc
  check (opcode w == mov_op)
  tabs ← gets (λ s. s.local_tab)
  let v = valty_of (field 8 2 w)
  set_inst mov_pc (set_r1 (local_total ret_reg_num tabs v + ret_reg_num + used v) w)
  fix_params ret_reg_num left (mov_pc + 1) (update_at v (used v + 1) used)

-- The move behind a call with a result.
unfoldable pub fix_result : ℕ → ℕ → Conv (Unit {0})
unfolding ◌>>=◌ lift gets inst_at set_inst
fix_result ret_reg_num mov_pc = do
  w ← inst_at mov_pc
  check (opcode w == mov_op)
  tabs ← gets (λ s. s.local_tab)
  set_inst mov_pc (set_r2 (local_total ret_reg_num tabs (valty_of (field 8 2 w))) w)

abbrev pub find_type_idx : ℕ → List (ℕ × ℕ) → Option ℕ
find_type_idx pc [] = none
find_type_idx pc ((call_pc, type_idx) ∷ m) =
    let rest = find_type_idx pc m in if call_pc == pc then some type_idx else rest

-- The signature of the callee, by the call instruction.
unfoldable pub callee_sig : Env → ℕ → ℕ → Conv Signature
unfolding ◌>>=◌ lift gets
callee_sig env pc w =
    if opcode w == call_op
    then lift (env.func_sig (field 10 22 w))
    else if opcode w == call_indirect_op
    then (do
      m ← gets (λ s. s.icall_type_idx_map)
      type_idx ← lift (elim (find_type_idx pc m) [ some i ↦ ok i | none ↦ err assertion ])
      lift (env.type_sig type_idx))
    else lift (err assertion)

unfoldable pub fix_call : Env → ℕ → Conv (Unit {0})
unfolding ◌>>=◌ pure lift inst_at callee_sig fix_params fix_result
fix_call env pc = do
  w ← inst_at pc
  sig ← callee_sig env pc w
  let param_sz = length sig.params
  fix_params env.ret_reg_num param_sz (pc - param_sz) (λ v. 0)
  check (ltb (length sig.results) 2)
  if length sig.results == 1 then fix_result env.ret_reg_num (pc + 1) else pure tt

unfoldable pub fix_calls : Env → List ℕ → Conv (Unit {0})
unfolding ◌>>=◌ pure fix_call
fix_calls env [] = pure tt
fix_calls env (pc ∷ pcs) = do fix_call env pc; fix_calls env pcs

-- What Update_ubh_code is given: the registers for locals and temporaries, and those for calls.
pub record Counts : Type 0 where
  pub locals_size : Valty → ℕ
  pub io_size : Valty → ℕ

abbrev pub counts_of : ℕ → (Valty → LocalTab) → Counts
counts_of ret_reg_num f = record {
  locals_size = λ v. length (f v).content + ret_reg_num;
  io_size = λ v. (f v).max_call_param + ret_reg_num * 2;
}

unfoldable pub wasm_to_uwasm : Env → List Valty → List Winst → Conv Counts
unfolding ◌>>=◌ pure gets create_locals build_block_hierarchy clear_locals conv_all fix_calls
wasm_to_uwasm env locals instr = do
  create_locals env locals
  build_block_hierarchy env instr
  clear_locals env
  conv_all env 1 instr
  pcs ← gets (λ s. s.call_insts_pc)
  fix_calls env pcs
  tabs ← gets (λ s. s.local_tab)
  pure (counts_of env.ret_reg_num tabs)
