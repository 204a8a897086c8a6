-- ===== src/Conv/Calls.antt =====
-- Call and CallIndirect in the switch of Wasm_to_uwasm (src/wasm/converter.cxx). The registers of the
-- callee are not known yet, so the moves before and after a call name register 0 for them.
use uwasm_vm.Base.{ℕ, suc, ltb, if◌then◌else◌, List, [], ◌∷◌, ◌++◌, map}
use mathlib.Core.List.{reverse}
use uwasm_vm.Base.{length, none, some}
use uwasm_vm.Isa.Opcode.{Valty, valty_code, i32}
use uwasm_vm.Types.Encode.{checked_add_type}
use uwasm_vm.Conv.OpMap.{call_op, call_indirect_op}
use uwasm_vm.Conv.State.{
  LocalTab, same_valty, Conv, ◌>>=◌, ◌>>◌, pure, lift, gets, modify, check, emit,
}
use uwasm_vm.Conv.Stack.{known, pop_wasm_stk, push_temp_reg}
use uwasm_vm.Conv.Env.{Env, Signature}
use uwasm_vm.Conv.Control.{add_mov_inst}

-- The parameters, popped from the last to the first and compared with the signature; `params` is
-- reversed, and `values` collects them in the order of the signature.
unfoldable pub pop_params : List Valty → List (Valty × ℕ) → Conv (List (Valty × ℕ))
unfolding ◌>>=◌ pure lift known pop_wasm_stk
pop_params [] values = pure values
pop_params (expect ∷ params) values = do
  rs ← pop_wasm_stk none
  v ← known rs.val_type
  check (same_valty expect v)
  pop_params params ((v, rs.idx) ∷ values)

unfoldable pub mov_params : List (Valty × ℕ) → Conv (Unit {0})
unfolding ◌>>=◌ pure
mov_params [] = pure tt
mov_params ((v, idx) ∷ values) = do add_mov_inst 0 idx v; mov_params values

-- How many parameters have the type: call_param_num.
abbrev pub count_params : Valty → List (Valty × ℕ) → ℕ
count_params v [] = 0
count_params v ((w, idx) ∷ values) =
    let rest = count_params v values in if same_valty v w then suc rest else rest

-- Set_max_call_param, for all types.
abbrev pub raise_max : List (Valty × ℕ) → (Valty → LocalTab) → Valty → LocalTab
raise_max values f v =
    if ltb (f v).max_call_param (count_params v values)
    then record (f v) { max_call_param = count_params v values }
    else f v

unfoldable pub mov_result : Env → ℕ → List Valty → Conv (Unit {0})
unfolding ◌>>=◌ pure push_temp_reg
mov_result env ins_cnt [] = pure tt
mov_result env ins_cnt (v ∷ vs) = do
  tmp_idx ← push_temp_reg env.ret_reg_num ins_cnt v
  add_mov_inst tmp_idx 0 v
  mov_result env ins_cnt vs

-- The parameters, `call` with the position of its instruction, and the results.
unfoldable pub call_with : Env → ℕ → Signature → (ℕ → Conv (Unit {0})) → Conv (Unit {0})
unfolding ◌>>=◌ pure lift gets modify pop_params mov_params mov_result
call_with env ins_cnt callee call = do
  values ← pop_params (reverse callee.params) []
  mov_params values
  modify (λ s. record s { local_tab = raise_max values s.local_tab })
  call_pc ← gets (λ s. length s.body.inst_tab)
  modify (λ s. record s { call_insts_pc = s.call_insts_pc ++ (call_pc ∷ []) })
  call call_pc
  check (ltb (length callee.results) 2)
  mov_result env ins_cnt callee.results

unfoldable pub conv_call : Env → ℕ → ℕ → Conv (Unit {0})
unfolding ◌>>=◌ lift call_with
conv_call env ins_cnt func_idx = do
  callee ← lift (env.func_sig func_idx)
  call_with env ins_cnt callee (λ call_pc. emit call_op i32 (func_idx ∷ []))

-- Conv_type_idx: the signature as a type of the encoder, whose index is not used.
unfoldable pub conv_type_idx : Env → Signature → Conv (Unit {0})
unfolding ◌>>=◌ lift gets modify
conv_type_idx env callee = do
  te ← gets (λ s. s.types)
  r ← lift (
      checked_add_type (env.moved (length te.nn_tab.raw_buf)) te (map valty_code callee.results)
        (map valty_code callee.params))
  modify (λ s. record s { types = r.encoder })

unfoldable pub conv_call_indirect : Env → ℕ → ℕ → Conv (Unit {0})
unfolding ◌>>=◌ pure lift modify pop_wasm_stk call_with conv_type_idx
conv_call_indirect env ins_cnt type_idx = do
  callee ← lift (env.type_sig type_idx)
  callee_idx ← pop_wasm_stk (some i32)
  call_with env ins_cnt callee (λ call_pc. do
    conv_type_idx env callee
    modify
        (λ s. record s { icall_type_idx_map = s.icall_type_idx_map ++ ((call_pc, type_idx) ∷ []) })
    emit call_indirect_op i32 (callee_idx.idx ∷ []))
