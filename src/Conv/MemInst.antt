-- ===== src/Conv/MemInst.antt =====
-- Loads, stores, memory.grow and memory.size in the switch of Wasm_to_uwasm
-- (src/wasm/converter.cxx), with the limits of src/wasm/conv_map.h.
use uwasm_vm.Base.{ℕ, ◌-◌, ◌^◌, ltb, leb, ◌||◌, if◌then◌else◌, [], ◌∷◌}
use uwasm_vm.Base.{some}
use uwasm_vm.Isa.Opcode.{Valty, i32}
use uwasm_vm.Conv.Winst.{IntBinary, Load, Store}
use uwasm_vm.Conv.OpMap.{
  const_l_op, int_binary_op, load_op, load_valty, store_op, store_valty, long_of,
}
use uwasm_vm.Conv.State.{Conv, ◌>>=◌, ◌>>◌, lift, check, emit}
use uwasm_vm.Conv.Stack.{pop_wasm_stk, push_temp_reg}
use uwasm_vm.Conv.Env.{Env}

-- OFFSET_S_MAX, OFFSET_M_MAX, OFFSET_L_MAX and REG_S_MAX.
abbrev pub offset_s_max : ℕ
offset_s_max = 2 ^ 8 - 1

abbrev pub offset_m_max : ℕ
offset_m_max = 2 ^ 22 - 1

abbrev pub offset_l_max : ℕ
offset_l_max = 2 ^ 32 - 1

abbrev pub reg_s_max : ℕ
reg_s_max = 2 ^ 8 - 1

-- The instruction of a load or store of register `r1` at the address in `rs`: short, long, or with
-- the address added up in `rtemp` first.
unfoldable pub memory_inst : ℕ → Valty → ℕ → ℕ → ℕ → ℕ → Conv (Unit {0})
unfolding ◌>>=◌
memory_inst op v r1 rs rtemp offset =
    if ltb offset_s_max offset || ltb reg_s_max rs || ltb reg_s_max r1
    then if leb offset_m_max offset
      then (do
        emit const_l_op i32 (rtemp ∷ offset ∷ [])
        emit (int_binary_op IntBinary.add) i32 (rtemp ∷ rs ∷ rtemp ∷ [])
        emit (long_of op) v (r1 ∷ rtemp ∷ 0 ∷ []))
      else emit (long_of op) v (r1 ∷ rs ∷ offset ∷ [])
    else emit op v (r1 ∷ rs ∷ offset ∷ [])

unfoldable pub conv_load : Env → ℕ → Load → ℕ → Conv (Unit {0})
unfolding ◌>>=◌ lift push_temp_reg pop_wasm_stk memory_inst
conv_load env ins_cnt l offset = do
  rtemp_idx ← push_temp_reg env.ret_reg_num ins_cnt i32
  rtemp ← pop_wasm_stk (some i32)
  rs ← pop_wasm_stk (some i32)
  rd ← push_temp_reg env.ret_reg_num ins_cnt (load_valty l)
  check (leb offset offset_l_max)
  memory_inst (load_op l) (load_valty l) rd rs.idx rtemp_idx offset

unfoldable pub conv_store : Env → ℕ → Store → ℕ → Conv (Unit {0})
unfolding ◌>>=◌ lift push_temp_reg pop_wasm_stk memory_inst
conv_store env ins_cnt t offset = do
  rtemp_idx ← push_temp_reg env.ret_reg_num ins_cnt i32
  rtemp ← pop_wasm_stk (some i32)
  rd ← pop_wasm_stk (some (store_valty t))
  rs ← pop_wasm_stk (some i32)
  check (ltb offset 0x7fffffff)
  memory_inst (store_op t) (store_valty t) rd.idx rs.idx rtemp_idx offset

unfoldable pub conv_memory_grow : Env → ℕ → Conv (Unit {0})
unfolding ◌>>=◌ push_temp_reg pop_wasm_stk
conv_memory_grow env ins_cnt = do
  rs ← pop_wasm_stk (some i32)
  rd ← push_temp_reg env.ret_reg_num ins_cnt i32
  emit 0x08 i32 (rd ∷ rs.idx ∷ [])

unfoldable pub conv_memory_size : Env → ℕ → Conv (Unit {0})
unfolding ◌>>=◌ push_temp_reg
conv_memory_size env ins_cnt = do
  rd ← push_temp_reg env.ret_reg_num ins_cnt i32
  emit 0x07 i32 (rd ∷ [])
