-- ===== src/Conv/Ends.antt =====
-- The ends of blocks and of the function, and Return, in the switch of Wasm_to_uwasm
-- (src/wasm/converter.cxx).
use uwasm_vm.Base.{
  ℕ, zero, suc, ◌+◌, ◌-◌, ltb, ◌==◌, Bool, true, false, not, ◌&&◌, if◌then◌else◌, List, [], ◌∷◌,
}
use uwasm_vm.Base.{length, none, some, err, undefined}
use uwasm_vm.Isa.Opcode.{Valty, i32}
use uwasm_vm.Conv.Winst.{Winst}
use uwasm_vm.Conv.OpMap.{return_op}
use uwasm_vm.Conv.Graph.{Stmt, is_root, has_else, stmt_by_inst}
use uwasm_vm.Conv.State.{
  StackElem, is_unreachable, Conv, ◌>>=◌, ◌>>◌, pure, lift, gets, modify, check, emit, get_stmt,
}
use uwasm_vm.Conv.Stack.{
  known, take_top, check_stack_elem_valty, pop_wasm_stk, push_result_to_stack, pop_redundant_values,
}
use uwasm_vm.Conv.Env.{Env}
use uwasm_vm.Conv.Blocks.{add_label}
use uwasm_vm.Conv.Control.{cur_id, is_label, add_mov_inst}

abbrev is_else : Winst → Bool
is_else Winst.else_ = true
is_else _ = false

-- Add_end_of_block_label.
unfoldable pub add_end_of_block_label : Env → Stmt → Conv (Unit {0})
unfolding ◌>>=◌ pure lift get_stmt add_label
add_end_of_block_label env parent = do
  end_label_id ← add_label env false parent.id true
  check (is_label parent.end_label end_label_id)
  if is_else parent.opcode
      then (do
        end_if_label_id ← add_label env false parent.else_stmt true
        if_stmt ← get_stmt parent.else_stmt
        check (is_label if_stmt.end_label end_if_label_id))
      else pure tt

-- The opcodes of blocks whose result is moved at their end.
abbrev moves_result : Winst → Bool
moves_result (Winst.block t) = true
moves_result Winst.else_ = true
moves_result (Winst.if_ t) = true
moves_result _ = false

abbrev is_if_with_else : Stmt → Winst → Bool
is_if_with_else s (Winst.if_ t) = has_else s
is_if_with_else s _ = false

abbrev unreachable_top : List StackElem → Bool
unreachable_top [] = false
unreachable_top (e ∷ es) = is_unreachable e.kind

-- `wasm_stack.top()`, left there.
unfoldable pub peek_top : Conv StackElem
unfolding ◌>>=◌ pure lift gets
peek_top = do
  stack ← gets (λ s. s.wasm_stack)
  elim stack [ [] ↦ lift (err undefined) | e ∷ es ↦ pure e ]

-- The result of a block that ends, moved to its register.
unfoldable pub move_result : Stmt → Conv (Unit {0})
unfolding ◌>>=◌ pure lift peek_top pop_wasm_stk check_stack_elem_valty
move_result parent =
    if not (parent.result_cnt == 0) && moves_result parent.opcode
    then (do
      rs ←
          (if is_if_with_else parent parent.opcode
            then peek_top
            else pop_wasm_stk (some parent.result_type))
      check_stack_elem_valty rs (some parent.result_type)
      check (not (parent.result_reg == 0))
      add_mov_inst parent.result_reg rs.idx parent.result_type)
    else pure tt

-- An end whose stack has an unreachable value on top goes on to the return instruction.
unfoldable pub end_of_block : Env → Stmt → Conv (Unit {0})
unfolding ◌>>=◌ pure gets take_top move_result pop_redundant_values push_result_to_stack
    add_end_of_block_label
end_of_block env parent = do
  stack ← gets (λ s. s.wasm_stack)
  if unreachable_top stack
      then (do
        e ← take_top
        pop_redundant_values parent
        push_result_to_stack parent
        add_end_of_block_label env parent
        emit return_op i32 [])
      else (do
        move_result parent
        add_end_of_block_label env parent
        pop_redundant_values parent
        push_result_to_stack parent)

-- `res_num` results, popped from the top, go to the first registers.
unfoldable pub move_results : ℕ → ℕ → Conv (Unit {0})
unfolding ◌>>=◌ pure known pop_wasm_stk
move_results zero i = pure tt
move_results (suc left) i = do
  rs ← pop_wasm_stk none
  v ← known rs.val_type
  add_mov_inst i rs.idx v
  move_results left (i + 1)

-- What is left below the elements above the first unreachable one.
abbrev pub from_unreachable : List StackElem → List StackElem
from_unreachable [] = []
from_unreachable (e ∷ es) = if is_unreachable e.kind then e ∷ es else from_unreachable es

abbrev is_return : Winst → Bool
is_return Winst.return = true
is_return _ = false

-- Where the stack does not hold the results: nothing after a Return instruction.
unfoldable pub end_without_results : Env → ℕ → Conv (Unit {0})
unfolding ◌>>=◌ pure lift gets
end_without_results env ins_cnt = do
  g ← gets (λ s. s.graph)
  before ← lift (stmt_by_inst g (ins_cnt - 1))
  if is_return before.opcode
      then pure tt
      else (do check (not env.stack_check); emit return_op i32 [])

unfoldable pub end_of_function : Env → ℕ → Conv (Unit {0})
unfolding ◌>>=◌ pure lift gets modify move_results end_without_results
end_of_function env ins_cnt = do
  let res_num = length env.own_sig.results
  stack ← gets (λ s. s.wasm_stack)
  check (ltb res_num 3)
  if res_num == 0
      then emit return_op i32 []
      else if not (length stack == 0) && not (length (from_unreachable stack) == 0)
      then modify (λ s. record s { wasm_stack = from_unreachable stack })
      else if not (length stack == 0) && (length stack == res_num)
      then (do move_results res_num 0; emit return_op i32 [])
      else end_without_results env ins_cnt

unfoldable pub conv_end : Env → ℕ → Conv (Unit {0})
unfolding ◌>>=◌ lift cur_id get_stmt end_of_block end_of_function
conv_end env ins_cnt = do
  id ← cur_id ins_cnt
  s ← get_stmt id
  parent ← get_stmt s.parent
  if is_root parent.kind then end_of_function env ins_cnt else end_of_block env parent

-- The results of a Return, each with its own type.
unfoldable pub return_results : List Valty → ℕ → Conv (Unit {0})
unfolding ◌>>=◌ pure known pop_wasm_stk
return_results [] i = pure tt
return_results (v ∷ vs) i = do
  rs ← pop_wasm_stk (some v)
  w ← known rs.val_type
  add_mov_inst i rs.idx w
  return_results vs (i + 1)

unfoldable pub conv_return : Env → Conv (Unit {0})
unfolding ◌>>=◌ lift return_results
conv_return env = do
  check (ltb (length env.own_sig.results) 3)
  return_results env.own_sig.results 0
  emit return_op i32 []
