-- ===== src/Conv/Data.antt =====
-- The instructions of the switch of Wasm_to_uwasm (src/wasm/converter.cxx) that compute, and those on
-- locals and globals.
use uwasm_vm.Base.{ℕ, ◌-◌, ◌/◌, ◌%◌, ◌^◌, ltb, leb, ◌==◌, if◌then◌else◌, [], ◌∷◌}
use uwasm_vm.Base.{length, get_elem?, none, some, ok, err, assertion}
use uwasm_vm.Isa.Opcode.{Valty, i32, f32}
use uwasm_vm.Conv.Winst.{Builtin}
use uwasm_vm.Conv.OpMap.{
  jez_op, jnz_op, const_l_op, const_l_high_op, builtin_op, builtin_valty, builtin_code,
}
use uwasm_vm.Conv.State.{
  LocalTabElem, LocalMapElem, Conv, ◌>>=◌, ◌>>◌, pure, lift, gets, check, emit,
}
use uwasm_vm.Conv.Stack.{known, check_stack_elem_valty, pop_wasm_stk, push_temp_reg, push_elem}
use uwasm_vm.Conv.Env.{Env}
use uwasm_vm.Conv.Blocks.{request_label, new_label, select_name}
use uwasm_vm.Conv.Control.{add_mov_inst}
use uwasm_vm.Conv.Ends.{peek_top}

unfoldable pub conv_drop : Conv (Unit {0})
unfolding ◌>>=◌ pure pop_wasm_stk
conv_drop = do e ← pop_wasm_stk none; pure tt

unfoldable pub conv_global_get : Env → ℕ → ℕ → Conv (Unit {0})
unfolding ◌>>=◌ lift push_temp_reg
conv_global_get env ins_cnt global_idx = do
  g ← lift (env.global_of global_idx)
  rd ← push_temp_reg env.ret_reg_num ins_cnt g.valty
  emit 0xc1 g.valty (rd ∷ g.uwasm_id ∷ [])

unfoldable pub conv_global_set : Env → ℕ → Conv (Unit {0})
unfolding ◌>>=◌ lift pop_wasm_stk
conv_global_set env global_idx = do
  g ← lift (env.global_of global_idx)
  rs ← pop_wasm_stk (some g.valty)
  emit 0xc2 g.valty (rs.idx ∷ g.uwasm_id ∷ [])

-- The moves and jumps of a select; `rs` is the value for 0.
unfoldable pub select_insts : ℕ → Valty → ℕ → ℕ → ℕ → ℕ → ℕ → Conv (Unit {0})
unfolding ◌>>=◌
select_insts label_idx v rd rtemp bool rs rt =
    if rd == rt
    then (do emit jnz_op i32 (bool ∷ label_idx ∷ []); add_mov_inst rd rs v)
    else if bool == rd
    then (do
      add_mov_inst rtemp bool i32
      add_mov_inst rd rs v
      emit jez_op i32 (rtemp ∷ label_idx ∷ [])
      add_mov_inst rd rt v)
    else (do add_mov_inst rd rs v; emit jez_op i32 (bool ∷ label_idx ∷ []); add_mov_inst rd rt v)

unfoldable pub conv_select : Env → ℕ → Conv (Unit {0})
unfolding ◌>>=◌ lift gets known push_temp_reg pop_wasm_stk request_label new_label select_insts
conv_select env ins_cnt = do
  rtemp_idx ← push_temp_reg env.ret_reg_num ins_cnt i32
  rtemp ← pop_wasm_stk (some i32)
  stack ← gets (λ s. s.wasm_stack)
  check (leb 3 (length stack))
  select_bool ← pop_wasm_stk (some i32)
  rs ← pop_wasm_stk none
  rt ← pop_wasm_stk rs.val_type
  v ← known rs.val_type
  rd ← push_temp_reg env.ret_reg_num ins_cnt v
  label_idx ← request_label env (select_name ins_cnt)
  select_insts label_idx v rd rtemp.idx select_bool.idx rs.idx rt.idx
  result_label_idx ← new_label env (select_name ins_cnt)
  check (result_label_idx == label_idx)

-- Get_wasm_local_ty, and the element of the local table for a register (Get_tab_idx_by_reg_idx,
-- where CONST_REG_NUM is 0).
unfoldable pub get_wasm_local_ty : ℕ → Conv LocalMapElem
unfolding ◌>>=◌ lift gets
get_wasm_local_ty idx = do
  m ← gets (λ s. s.local_map)
  lift (elim (get_elem? m idx) [ some l ↦ ok l | none ↦ err assertion ])

unfoldable pub get_tab_elem : Env → LocalMapElem → Conv LocalTabElem
unfolding ◌>>=◌ lift gets
get_tab_elem env l = do
  t ← gets (λ s. s.local_tab l.ty)
  lift (
      if ltb l.reg_idx env.ret_reg_num
      then err assertion
      else elim (get_elem? t.content (l.reg_idx - env.ret_reg_num)) [
        | some e ↦ ok e
        | none ↦ err assertion
      ])

unfoldable pub conv_local_get : Env → ℕ → ℕ → Conv (Unit {0})
unfolding ◌>>=◌ get_wasm_local_ty get_tab_elem push_elem
conv_local_get env ins_cnt local_idx = do
  l ← get_wasm_local_ty local_idx
  e ← get_tab_elem env l
  push_elem (record { kind = e.kind; val_type = some l.ty; idx = l.reg_idx; push_stmt = ins_cnt })

unfoldable pub conv_local_set : ℕ → Conv (Unit {0})
unfolding ◌>>=◌ get_wasm_local_ty pop_wasm_stk known
conv_local_set local_idx = do
  rd ← get_wasm_local_ty local_idx
  rs ← pop_wasm_stk (some rd.ty)
  v ← known rs.val_type
  add_mov_inst rd.reg_idx rs.idx v

unfoldable pub conv_local_tee : ℕ → Conv (Unit {0})
unfolding ◌>>=◌ get_wasm_local_ty peek_top check_stack_elem_valty known
conv_local_tee local_idx = do
  rd ← get_wasm_local_ty local_idx
  rs ← peek_top
  check_stack_elem_valty rs (some rd.ty)
  v ← known rs.val_type
  add_mov_inst rd.reg_idx rs.idx v

-- A constant of 64 bits takes two instructions.
unfoldable pub const_insts : Valty → ℕ → ℕ → Conv (Unit {0})
unfolding ◌>>=◌
const_insts i32 rd n = emit const_l_op i32 (rd ∷ (n % 2 ^ 32) ∷ [])
const_insts f32 rd n = emit const_l_op f32 (rd ∷ (n % 2 ^ 32) ∷ [])
const_insts v rd n = do
  emit const_l_op v (rd ∷ (n % 2 ^ 32) ∷ [])
  emit const_l_high_op v (rd ∷ (n / 2 ^ 32 % 2 ^ 32) ∷ [])

unfoldable pub conv_const : Env → ℕ → Valty → ℕ → Conv (Unit {0})
unfolding ◌>>=◌ push_temp_reg const_insts
conv_const env ins_cnt v n = do rd ← push_temp_reg env.ret_reg_num ins_cnt v; const_insts v rd n

-- Two operands from the stack and a result of type `result` on it. The second operand popped must
-- have the type of the first.
unfoldable pub conv_two : Env → ℕ → ℕ → Valty → Valty → Conv (Unit {0})
unfolding ◌>>=◌ push_temp_reg pop_wasm_stk
conv_two env ins_cnt op v result = do
  rt ← pop_wasm_stk none
  rs ← pop_wasm_stk rt.val_type
  rd ← push_temp_reg env.ret_reg_num ins_cnt result
  emit op v (rd ∷ rs.idx ∷ rt.idx ∷ [])

-- The binary operators compare the types of the operands once more.
unfoldable pub conv_binary : Env → ℕ → ℕ → Valty → Conv (Unit {0})
unfolding ◌>>=◌ push_temp_reg pop_wasm_stk check_stack_elem_valty
conv_binary env ins_cnt op v = do
  rt ← pop_wasm_stk none
  rs ← pop_wasm_stk rt.val_type
  check_stack_elem_valty rs rt.val_type
  rd ← push_temp_reg env.ret_reg_num ins_cnt v
  emit op v (rd ∷ rs.idx ∷ rt.idx ∷ [])

-- There is no builtin code for the two opcodes.
unfoldable pub conv_copysign : Env → ℕ → Valty → Conv (Unit {0})
unfolding ◌>>=◌ lift push_temp_reg pop_wasm_stk
conv_copysign env ins_cnt v = do
  rt ← pop_wasm_stk (some v)
  rs ← pop_wasm_stk (some v)
  rd ← push_temp_reg env.ret_reg_num ins_cnt v
  lift (err assertion)

-- One operand of the type of the opcode.
unfoldable pub conv_one : Env → ℕ → ℕ → Valty → Valty → Conv (Unit {0})
unfolding ◌>>=◌ push_temp_reg pop_wasm_stk
conv_one env ins_cnt op v result = do
  rs ← pop_wasm_stk (some v)
  rd ← push_temp_reg env.ret_reg_num ins_cnt result
  emit op v (rd ∷ rs.idx ∷ [])

unfoldable pub conv_builtin : Env → ℕ → Builtin → Conv (Unit {0})
unfolding ◌>>=◌ lift push_temp_reg pop_wasm_stk
conv_builtin env ins_cnt b = do
  rs ← pop_wasm_stk none
  rd ← push_temp_reg env.ret_reg_num ins_cnt (builtin_valty b)
  code ← lift (elim (builtin_code b) [ some c ↦ ok c | none ↦ err assertion ])
  emit builtin_op (builtin_valty b) (rd ∷ rs.idx ∷ code ∷ [])
