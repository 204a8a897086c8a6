-- ===== src/Conv/Locals.antt =====
-- The registers of the parameters and locals of a function: the part of Create_ubh_code
-- (src/wasm/converter.cxx) before the requests to the encoder, and the instructions of Wasm_to_uwasm
-- that clear the locals.
use uwasm_vm.Base.{ℕ, ◌+◌, ◌-◌, List, [], ◌∷◌, ◌++◌, length, drop}
use uwasm_vm.Isa.Opcode.{Valty, i32, i64, f32, f64}
use uwasm_vm.Conv.Pool.{preoccupy_registers}
use uwasm_vm.Conv.OpMap.{const_op, const_l_op, const_l_high_op}
use uwasm_vm.Conv.State.{
  LocalKind, local, formal_param, LocalMapElem, LocalTab, LocalTabElem, ConvState, update_at, Conv,
  ◌>>=◌, ◌>>◌, pure, lift, gets, modify, emit,
}
use uwasm_vm.Conv.Env.{Env}

-- One parameter or local: an element of the table of its type, and one of the map. CONST_REG_NUM
-- is 0.
unfoldable pub add_local : ℕ → LocalKind → Valty → ConvState → ConvState
add_local ret_reg_num kind v s =
    let tab = s.local_tab v in
    let one : LocalTabElem = record { kind = kind; val_type = v; push_stmt = 0 } in
    let grown : LocalTab = record tab { content = tab.content ++ (one ∷ []) } in
    let elem : LocalMapElem = record {
      reg_idx = length grown.content + ret_reg_num - 1;
      ty = v;
      map_kind = kind;
    } in
    record s { local_tab = update_at v grown s.local_tab; local_map = s.local_map ++ (elem ∷ []) }

unfoldable pub add_locals : ℕ → LocalKind → List Valty → ConvState → ConvState
unfolding add_local
add_locals ret_reg_num kind [] s = s
add_locals ret_reg_num kind (v ∷ vs) s =
    add_locals ret_reg_num kind vs (add_local ret_reg_num kind v s)

unfoldable pub preoccupy : ℕ → Valty → Conv (Unit {0})
unfolding ◌>>=◌ lift gets modify
preoccupy ret_reg_num v = do
  p ← gets (λ s. s.regs v)
  tab ← gets (λ s. s.local_tab v)
  p' ← lift (preoccupy_registers ret_reg_num (length tab.content) p)
  modify (λ s. record s { regs = update_at v p' s.regs })

unfoldable pub create_locals : Env → List Valty → Conv (Unit {0})
unfolding ◌>>=◌ modify add_locals preoccupy
create_locals env locals = do
  modify (add_locals env.ret_reg_num formal_param env.own_sig.params)
  modify (add_locals env.ret_reg_num local locals)
  preoccupy env.ret_reg_num i32
  preoccupy env.ret_reg_num i64
  preoccupy env.ret_reg_num f32
  preoccupy env.ret_reg_num f64

unfoldable pub clear_local : Valty → ℕ → Conv (Unit {0})
unfolding ◌>>=◌
clear_local i32 reg = emit const_op i32 (reg ∷ 0 ∷ [])
clear_local i64 reg = emit const_op i64 (reg ∷ 0 ∷ [])
clear_local f32 reg = emit const_l_op f32 (reg ∷ 0 ∷ [])
clear_local f64 reg = do emit const_l_op f64 (reg ∷ 0 ∷ []); emit const_l_high_op f64 (reg ∷ 0 ∷ [])

unfoldable pub clear_all : List LocalMapElem → Conv (Unit {0})
unfolding ◌>>=◌ pure clear_local
clear_all [] = pure tt
clear_all (l ∷ ls) = do clear_local l.ty l.reg_idx; clear_all ls

unfoldable pub clear_locals : Env → Conv (Unit {0})
unfolding ◌>>=◌ gets clear_all
clear_locals env = do m ← gets (λ s. s.local_map); clear_all (drop (length env.own_sig.params) m)
