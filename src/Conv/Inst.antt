-- ===== src/Conv/Inst.antt =====
-- The switch of Wasm_to_uwasm (src/wasm/converter.cxx), and its loop over the instructions.
use uwasm_vm.Base.{ℕ, ◌+◌, List, [], ◌∷◌, err, assertion}
use uwasm_vm.Isa.Opcode.{i32}
use uwasm_vm.Conv.Winst.{Winst}
use uwasm_vm.Conv.OpMap.{
  uopcode_from_wasm, eqz_op, compare_op, float_compare_op, int_binary_op, float_binary_op,
  float_unary_op, int_valty, float_valty,
}
use uwasm_vm.Conv.Graph.{stmt_by_inst}
use uwasm_vm.Conv.State.{Conv, ◌>>=◌, ◌>>◌, pure, lift, gets}
use uwasm_vm.Conv.Stack.{push_unreachable_value}
use uwasm_vm.Conv.Env.{Env}
use uwasm_vm.Conv.Control.{
  conv_block, conv_loop, conv_else, conv_br, conv_if, conv_br_if, conv_br_table,
}
use uwasm_vm.Conv.Ends.{conv_end, conv_return}
use uwasm_vm.Conv.Calls.{conv_call, conv_call_indirect}
use uwasm_vm.Conv.Data.{
  conv_drop, conv_global_get, conv_global_set, conv_select, conv_local_get, conv_local_set,
  conv_local_tee, conv_const, conv_two, conv_binary, conv_copysign, conv_one, conv_builtin,
}
use uwasm_vm.Conv.MemInst.{conv_load, conv_store, conv_memory_grow, conv_memory_size}

unfoldable pub conv_case : Env → ℕ → Winst → Conv (Unit {0})
unfolding pure lift
conv_case env n (Winst.block t) = conv_block env n
conv_case env n (Winst.loop t) = conv_loop env n
conv_case env n Winst.else_ = conv_else env n
conv_case env n (Winst.br k) = conv_br n k
conv_case env n (Winst.if_ t) = conv_if env n
conv_case env n (Winst.br_if k) = conv_br_if n k
conv_case env n (Winst.br_table ls) = conv_br_table env n ls
conv_case env n Winst.drop = conv_drop
conv_case env n (Winst.global_get i) = conv_global_get env n i
conv_case env n (Winst.global_set i) = conv_global_set env i
conv_case env n Winst.unreachable = push_unreachable_value n
conv_case env n Winst.select = conv_select env n
conv_case env n Winst.nop = pure tt
conv_case env n (Winst.local_get i) = conv_local_get env n i
conv_case env n (Winst.local_set i) = conv_local_set i
conv_case env n (Winst.local_tee i) = conv_local_tee i
conv_case env n (Winst.load l ofs) = conv_load env n l ofs
conv_case env n (Winst.store t ofs) = conv_store env n t ofs
conv_case env n (Winst.const v x) = conv_const env n v x
conv_case env n Winst.memory_grow = conv_memory_grow env n
conv_case env n Winst.memory_size = conv_memory_size env n
conv_case env n (Winst.int_compare t c) = conv_two env n (compare_op c) (int_valty t) i32
conv_case env n (Winst.float_compare t c) = conv_two env n (float_compare_op c) (float_valty t) i32
conv_case env n (Winst.int_binary t o) = conv_binary env n (int_binary_op o) (int_valty t)
conv_case env n (Winst.float_binary t o) = conv_binary env n (float_binary_op o) (float_valty t)
conv_case env n (Winst.copysign t) = conv_copysign env n (float_valty t)
conv_case env n (Winst.float_unary t o) =
    conv_one env n (float_unary_op o) (float_valty t) (float_valty t)
conv_case env n (Winst.builtin b) = conv_builtin env n b
conv_case env n (Winst.eqz t) = conv_one env n eqz_op (int_valty t) i32
conv_case env n (Winst.call i) = conv_call env n i
conv_case env n (Winst.call_indirect i) = conv_call_indirect env n i
conv_case env n Winst.return = conv_return env
conv_case env n Winst.end = conv_end env n
conv_case env n Winst.other = lift (err assertion)

-- One round of the loop: every opcode has a row in the map, and every instruction a statement.
unfoldable pub conv_inst : Env → ℕ → Winst → Conv (Unit {0})
unfolding ◌>>=◌ lift gets conv_case uopcode_from_wasm
conv_inst env ins_cnt w = do
  pair ← lift (uopcode_from_wasm w)
  g ← gets (λ s. s.graph)
  curstmt ← lift (stmt_by_inst g ins_cnt)
  conv_case env ins_cnt w

unfoldable pub conv_all : Env → ℕ → List Winst → Conv (Unit {0})
unfolding ◌>>=◌ pure conv_inst
conv_all env ins_cnt [] = pure tt
conv_all env ins_cnt (w ∷ ws) = do conv_inst env ins_cnt w; conv_all env (ins_cnt + 1) ws
