-- ===== src/Conv/Control.antt =====
-- The control instructions of the switch of Wasm_to_uwasm (src/wasm/converter.cxx), but for calls.
use uwasm_vm.Base.{ℕ, ◌-◌, ◌^◌, ltb, ◌==◌, Bool, true, false, not, if◌then◌else◌, List, [], ◌∷◌}
use uwasm_vm.Base.{length, Option, none, some}
use uwasm_vm.Isa.Opcode.{Valty, i32}
use uwasm_vm.Conv.OpMap.{mov_op, jmp_op, jez_op, jnz_op, add_rri_op}
use uwasm_vm.Conv.Graph.{
  Stmt, has_else, get_stmt_id_by_inst, get_parent_stmt_for_branch, get_label_id_for_jump,
}
use uwasm_vm.Conv.State.{Conv, ◌>>=◌, ◌>>◌, pure, lift, gets, check, emit, get_stmt, change_stmt}
use uwasm_vm.Conv.Stack.{check_stack_elem_valty, pop_wasm_stk, allocate_register, push_temp_reg}
use uwasm_vm.Conv.Env.{Env}
use uwasm_vm.Conv.Blocks.{add_label}

unfoldable pub cur_id : ℕ → Conv ℕ
unfolding ◌>>=◌ lift gets
cur_id ins_cnt = do g ← gets (λ s. s.graph); lift (get_stmt_id_by_inst g ins_cnt)

-- The label as an operand; an unset one is UNINIT_LABEL_IDX, -1.
abbrev pub label_operand : Option ℕ → ℕ
label_operand (some l) = l
label_operand none = 2 ^ 32 - 1

abbrev pub is_label : Option ℕ → ℕ → Bool
is_label (some l) k = l == k
is_label none k = label_operand none == k

-- Add_mov_inst, Add_jump_inst, Add_addi_inst.
abbrev pub add_mov_inst : ℕ → ℕ → Valty → Conv (Unit {0})
add_mov_inst rd rs v = emit mov_op v (rd ∷ rs ∷ [])

-- Add_mov_for_break, which is always called not to pop.
unfoldable pub add_mov_for_break : ℕ → Conv (Unit {0})
unfolding ◌>>=◌ pure gets get_stmt check_stack_elem_valty
add_mov_for_break target_blk_stmtid = do
  t ← get_stmt target_blk_stmtid
  if t.result_cnt == 0 then pure tt else (do
    stack ← gets (λ s. s.wasm_stack)
    elim stack [
      | [] ↦ pure tt
      | rs ∷ rest ↦
          check_stack_elem_valty rs (some t.result_type)
          >> add_mov_inst t.result_reg rs.idx t.result_type
    ])

unfoldable pub mov_to_target : ℕ → ℕ → Conv (Unit {0})
unfolding ◌>>=◌ lift gets add_mov_for_break
mov_to_target ins_cnt jump_cnt = do
  g ← gets (λ s. s.graph)
  target ← lift (get_parent_stmt_for_branch g ins_cnt jump_cnt)
  add_mov_for_break target

unfoldable pub label_for_jump : ℕ → ℕ → Conv (Option ℕ)
unfolding ◌>>=◌ lift gets
label_for_jump ins_cnt jump_cnt = do
  g ← gets (λ s. s.graph)
  lift (get_label_id_for_jump g ins_cnt jump_cnt)

-- A block with a result gets a register for it, which is not on the stack yet.
unfoldable pub allocate_result : Env → ℕ → ℕ → Conv (Unit {0})
unfolding ◌>>=◌ pure get_stmt change_stmt allocate_register
allocate_result env ins_cnt id = do
  s ← get_stmt id
  if s.result_cnt == 0 then pure tt else (do
    reg_id ← allocate_register env.ret_reg_num ins_cnt s.result_type
    change_stmt id (λ x. record x { result_reg = reg_id })
    if has_else s then change_stmt s.else_stmt (λ x. record x { result_reg = reg_id }) else pure tt)

unfoldable pub keep_stack_size : ℕ → Conv (Unit {0})
unfolding ◌>>=◌ gets change_stmt
keep_stack_size id = do
  n ← gets (λ s. length s.wasm_stack)
  change_stmt id (λ x. record x { stack_size = n })

unfoldable pub conv_block : Env → ℕ → Conv (Unit {0})
unfolding ◌>>=◌ cur_id allocate_result keep_stack_size
conv_block env ins_cnt = do id ← cur_id ins_cnt; allocate_result env ins_cnt id; keep_stack_size id

unfoldable pub conv_loop : Env → ℕ → Conv (Unit {0})
unfolding ◌>>=◌ lift cur_id get_stmt add_label allocate_result keep_stack_size
conv_loop env ins_cnt = do
  id ← cur_id ins_cnt
  label_id ← add_label env true id true
  s ← get_stmt id
  check (is_label s.begin_label label_id)
  allocate_result env ins_cnt id
  keep_stack_size id

unfoldable pub conv_else : Env → ℕ → Conv (Unit {0})
unfolding ◌>>=◌ lift cur_id get_stmt add_label add_mov_for_break
conv_else env ins_cnt = do
  id ← cur_id ins_cnt
  s ← get_stmt id
  add_mov_for_break id
  emit jmp_op i32 (label_operand s.end_label ∷ [])
  label_id ← add_label env true id true
  check (is_label s.begin_label label_id)

abbrev is_set : Option ℕ → Bool
is_set (some l) = true
is_set none = false

unfoldable pub conv_br : ℕ → ℕ → Conv (Unit {0})
unfolding ◌>>=◌ lift label_for_jump mov_to_target
conv_br ins_cnt jump_cnt = do
  l ← label_for_jump ins_cnt jump_cnt
  check (is_set l)
  mov_to_target ins_cnt jump_cnt
  emit jmp_op i32 (label_operand l ∷ [])

-- The label that an if jumps to where its condition is 0.
unfoldable pub false_label : Stmt → Conv (Option ℕ)
unfolding ◌>>=◌ pure get_stmt
false_label s =
    if has_else s then (do e ← get_stmt s.else_stmt; pure e.begin_label) else pure s.end_label

unfoldable pub conv_if : Env → ℕ → Conv (Unit {0})
unfolding ◌>>=◌ pure cur_id get_stmt pop_wasm_stk check_stack_elem_valty allocate_result
    keep_stack_size false_label
conv_if env ins_cnt = do
  id ← cur_id ins_cnt
  rd ← pop_wasm_stk (some i32)
  allocate_result env ins_cnt id
  s ← get_stmt id
  l ← false_label s
  check_stack_elem_valty rd (some i32)
  keep_stack_size id
  if has_else s then keep_stack_size s.else_stmt else pure tt
  emit jez_op i32 (rd.idx ∷ label_operand l ∷ [])

unfoldable pub conv_br_if : ℕ → ℕ → Conv (Unit {0})
unfolding ◌>>=◌ pop_wasm_stk label_for_jump mov_to_target
conv_br_if ins_cnt br_cnt = do
  rd ← pop_wasm_stk (some i32)
  l ← label_for_jump ins_cnt br_cnt
  mov_to_target ins_cnt br_cnt
  emit jnz_op i32 (rd.idx ∷ label_operand l ∷ [])

-- The set of the targets, in order.
abbrev insert_target : ℕ → List ℕ → List ℕ
insert_target n [] = n ∷ []
insert_target n (m ∷ ms) =
    if n == m then m ∷ ms else if ltb n m then n ∷ m ∷ ms else m ∷ insert_target n ms

abbrev pub target_set : List ℕ → List ℕ
target_set [] = []
target_set (n ∷ ns) = insert_target n (target_set ns)

unfoldable pub movs_to_targets : ℕ → List ℕ → Conv (Unit {0})
unfolding ◌>>=◌ pure mov_to_target
movs_to_targets ins_cnt [] = pure tt
movs_to_targets ins_cnt (n ∷ ns) = do mov_to_target ins_cnt n; movs_to_targets ins_cnt ns

-- A jump for each label: where the index has come down to 0, and always for the last one.
unfoldable pub jumps : ℕ → ℕ → List ℕ → Conv (Unit {0})
unfolding ◌>>=◌ pure label_for_jump
jumps ins_cnt rtemp [] = pure tt
jumps ins_cnt rtemp (n ∷ []) = do
  l ← label_for_jump ins_cnt n
  emit jmp_op i32 (label_operand l ∷ [])
jumps ins_cnt rtemp (n ∷ m ∷ ns) = do
  l ← label_for_jump ins_cnt n
  emit jez_op i32 (rtemp ∷ label_operand l ∷ [])
  emit add_rri_op i32 (rtemp ∷ rtemp ∷ (2 ^ 32 - 1) ∷ [])
  jumps ins_cnt rtemp (m ∷ ns)

unfoldable pub conv_br_table : Env → ℕ → List ℕ → Conv (Unit {0})
unfolding ◌>>=◌ lift push_temp_reg pop_wasm_stk movs_to_targets jumps
conv_br_table env ins_cnt br_labels = do
  rtemp_idx ← push_temp_reg env.ret_reg_num ins_cnt i32
  rtemp ← pop_wasm_stk (some i32)
  rd ← pop_wasm_stk (some i32)
  check (not (length br_labels == 0))
  add_mov_inst rtemp.idx rd.idx i32
  movs_to_targets ins_cnt (target_set br_labels)
  jumps ins_cnt rtemp.idx br_labels
