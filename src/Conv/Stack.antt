-- ===== src/Conv/Stack.antt =====
-- The virtual stack and the registers that it takes: Pop_wasm_stk, Push_temp_reg,
-- Allocate_register and what uses them (src/wasm/converter.cxx).
use uwasm_vm.Base.{
  ℕ, zero, suc, ◌+◌, ◌-◌, ltb, leb, ◌==◌, Bool, true, not, if◌then◌else◌, [], ◌∷◌, ◌++◌,
}
use uwasm_vm.Base.{length, Option, none, some, err, assertion, undefined}
use uwasm_vm.Isa.Opcode.{Valty, i32}
use uwasm_vm.Conv.Pool.{get_available_reg, free_register}
use uwasm_vm.Conv.Winst.{Winst}
use uwasm_vm.Conv.Graph.{Stmt, is_block_stmt, has_else}
use uwasm_vm.Conv.State.{
  temp, unreachable_value, is_temp, is_unreachable, StackElem, LocalTabElem, same_valty, update_at,
  Conv, ◌>>=◌, ◌>>◌, pure, lift, gets, modify, check,
}

-- An element of the arrays of registers and tables, which have none for VALTY_UNKNOWN.
unfoldable pub known : Option Valty → Conv Valty
unfolding pure lift
known (some v) = pure v
known none = lift (err undefined)

unfoldable pub free_reg : Valty → ℕ → Conv (Unit {0})
unfolding ◌>>=◌ lift gets modify
free_reg v reg_id = do
  p ← gets (λ s. s.regs v)
  p' ← lift (free_register reg_id p)
  modify (λ s. record s { regs = update_at v p' s.regs })

-- `wasm_stack.top()` and `wasm_stack.pop()`.
unfoldable pub take_top : Conv StackElem
unfolding ◌>>=◌ lift gets modify pure
take_top = do
  stack ← gets (λ s. s.wasm_stack)
  elim stack [
    | [] ↦ lift (err assertion)
    | e ∷ es ↦ modify (λ s. record s { wasm_stack = es }) >> pure e
  ]

abbrev pub unknown_elem : Option Valty → StackElem → StackElem
unknown_elem expect e = record {
  kind = unreachable_value;
  val_type = expect;
  idx = 0;
  push_stmt = e.push_stmt;
}

-- Check_stack_elem_valty, with an expected type.
unfoldable pub check_stack_elem_valty : StackElem → Option Valty → Conv (Unit {0})
unfolding pure lift
check_stack_elem_valty e desired = elim e.val_type [
  | none ↦ elim desired [ none ↦ pure tt | some w ↦ lift (err assertion) ]
  | some v ↦ elim desired [ none ↦ lift (err assertion) | some w ↦ check (same_valty v w) ]
]

-- What Pop_wasm_stk answers for an element that is not unreachable.
unfoldable pub expected : Option Valty → StackElem → Conv StackElem
unfolding ◌>>=◌ pure check_stack_elem_valty
expected expect e = elim e.val_type [
  | none ↦ pure (unknown_elem expect e)
  | some v ↦ elim expect [ none ↦ pure e | some w ↦ check_stack_elem_valty e (some w) >> pure e ]
]

unfoldable pub pop_wasm_stk : Option Valty → Conv StackElem
unfolding ◌>>=◌ pure take_top known free_reg expected
pop_wasm_stk expect = do
  e ← take_top
  if is_temp e.kind
      then (do v ← known e.val_type; free_reg v e.idx; expected expect e)
      else if is_unreachable e.kind
      then pure (unknown_elem expect e)
      else expected expect e

-- The register with its slot in the table, as Push_temp_reg and Allocate_register take it.
unfoldable pub allocate_register : ℕ → ℕ → Valty → Conv ℕ
unfolding ◌>>=◌ lift gets modify pure
allocate_register ret_reg_num pc v = do
  p ← gets (λ s. s.regs v)
  t ← lift (get_available_reg p)
  modify (λ s. record s { regs = update_at v t.pool s.regs })
  tab ← gets (λ s. s.local_tab v)
  if leb (length tab.content + ret_reg_num) t.reg_id
      then (do
        let one : LocalTabElem = record { kind = temp; val_type = v; push_stmt = pc }
        let grown = record tab { content = tab.content ++ (one ∷ []) }
        modify (λ s. record s { local_tab = update_at v grown s.local_tab })
        check (ltb t.reg_id (length grown.content + ret_reg_num))
        pure t.reg_id)
      else pure t.reg_id

unfoldable pub push_elem : StackElem → Conv (Unit {0})
unfolding modify
push_elem e = modify (λ s. record s { wasm_stack = e ∷ s.wasm_stack })

unfoldable pub push_temp_reg : ℕ → ℕ → Valty → Conv ℕ
unfolding ◌>>=◌ lift pure allocate_register push_elem
push_temp_reg ret_reg_num ins_cnt v = do
  next ← allocate_register ret_reg_num ins_cnt v
  push_elem (record { kind = temp; val_type = some v; idx = next; push_stmt = ins_cnt })
  check (ltb next 128)
  pure next

unfoldable pub push_unreachable_value : ℕ → Conv (Unit {0})
unfolding push_elem
push_unreachable_value pc =
    push_elem (record { kind = unreachable_value; val_type = some i32; idx = 0; push_stmt = pc })

unfoldable pub push_result_to_stack : Stmt → Conv (Unit {0})
unfolding ◌>>=◌ pure lift push_elem
push_result_to_stack s = do
  check (is_block_stmt s.kind)
  if s.result_cnt == 0 then pure tt else (do
    check (not (s.result_reg == 0))
    push_elem (record {
      kind = temp;
      val_type = some s.result_type;
      idx = s.result_reg;
      push_stmt = s.begin_pc;
    }))

unfoldable pub pop_times : ℕ → Conv (Unit {0})
unfolding ◌>>=◌ pure pop_wasm_stk
pop_times zero = pure tt
pop_times (suc n) = do e ← pop_wasm_stk none; pop_times n

-- The opcodes that Pop_redundant_values knows. It pops nothing at an if with an else block.
abbrev pops_at : Stmt → Winst → Option Bool
pops_at s (Winst.block t) = some true
pops_at s (Winst.loop t) = some true
pops_at s (Winst.if_ t) = some (not (has_else s))
pops_at s Winst.else_ = some true
pops_at s _ = none

unfoldable pub pop_redundant_values : Stmt → Conv (Unit {0})
unfolding ◌>>=◌ pure lift gets pop_times
pop_redundant_values s = do
  stack_size ← gets (λ c. length c.wasm_stack)
  check (leb s.stack_size stack_size)
  elim (pops_at s s.opcode) [
    | none ↦ lift (err assertion)
    | some b ↦ if b then pop_times (stack_size - s.stack_size) else pure tt
  ]
