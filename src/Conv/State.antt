-- ===== src/Conv/State.antt =====
-- What Wasm_to_uwasm (src/wasm/converter.cxx) keeps while it converts a function, and actions on it:
-- an action that fails leaves no state, since a failed assertion ends the process.
use uwasm_vm.Base.{ℕ, ◌==◌, Bool, true, false, if◌then◌else◌, List, [], Option}
use uwasm_vm.Base.{Result, ok, err, is_true, in_bounds}
use uwasm_vm.Isa.Opcode.{Valty, valty_code}
use uwasm_vm.Isa.Table.{ty_am_of}
use uwasm_vm.Isa.Code.{add_inst}
use uwasm_vm.Types.Encode.{TypeEncoder}
use uwasm_vm.Encoder.Code.{CodeBody}
use uwasm_vm.Conv.Pool.{Pool}
use uwasm_vm.Conv.Graph.{Stmt, StmtGraph, stmt_id, set_stmt}

-- LOCAL_KIND (src/wasm/local_table.h).
pub data LocalKind : Type 0 where
  local global temp formal_param call_param unreachable_value local_dummy : LocalKind

abbrev pub is_temp : LocalKind → Bool
is_temp temp = true
is_temp _ = false

abbrev pub is_unreachable : LocalKind → Bool
is_unreachable unreachable_value = true
is_unreachable _ = false

-- WASM_STACK_ELEM (src/wasm/converter.h). VALTY_UNKNOWN is `none`.
pub record StackElem : Type 0 where
  pub kind : LocalKind
  pub val_type : Option Valty
  pub idx : ℕ
  pub push_stmt : ℕ

-- LOCAL_TAB_ELEM, LOCAL_MAP_ELEM and LOCAL_TAB (src/wasm/local_table.h), less the home index of an
-- element, which nothing sets.
pub record LocalTabElem : Type 0 where
  pub kind : LocalKind
  pub val_type : Valty
  pub push_stmt : ℕ

pub record LocalMapElem : Type 0 where
  pub reg_idx : ℕ
  pub ty : Valty
  pub map_kind : LocalKind

pub record LocalTab : Type 0 where
  pub content : List LocalTabElem
  pub max_call_param : ℕ

abbrev pub new_local_tab : LocalTab
new_local_tab = record { content = []; max_call_param = 0 }

-- The variables of Wasm_to_uwasm, with the code body and the types of the encoder. `wasm_stack` has
-- its top first. Arrays over the value types are functions.
pub record ConvState : Type 0 where
  pub regs : Valty → Pool
  pub local_tab : Valty → LocalTab
  pub local_map : List LocalMapElem
  pub wasm_stack : List StackElem
  pub graph : StmtGraph
  pub body : CodeBody
  pub types : TypeEncoder
  pub call_insts_pc : List ℕ
  pub icall_type_idx_map : List (ℕ × ℕ)

abbrev pub same_valty : Valty → Valty → Bool
same_valty v w = valty_code v == valty_code w

abbrev pub update_at {ℓ} : {A : Type ℓ} → Valty → A → (Valty → A) → Valty → A
update_at v x f w = if same_valty v w then x else f w

pub record Done (A : Type 0) : Type 0 where
  pub value : A
  pub state : ConvState

abbrev pub Conv : Type 0 → Type 0
Conv A = ConvState → Result (Done A)

abbrev pub done : {A : Type 0} → A → ConvState → Result (Done A)
done a s = ok (record { value = a; state = s })

infixl 5 ◌>>=◌ ◌>>◌
unfoldable pub ◌>>=◌ : {A B : Type 0} → Conv A → (A → Conv B) → Conv B
◌>>=◌ m f s = elim (m s) [ ok r ↦ f r.value r.state | err e ↦ err e ]

abbrev pub ◌>>◌ : {B : Type 0} → Conv (Unit {0}) → Conv B → Conv B
m >> k = m >>= λ _. k

unfoldable pub pure : {A : Type 0} → A → Conv A
pure a s = done a s

unfoldable pub lift : {A : Type 0} → Result A → Conv A
lift r s = elim r [ ok a ↦ done a s | err e ↦ err e ]

unfoldable pub gets : {A : Type 0} → (ConvState → A) → Conv A
gets f s = done (f s) s

unfoldable pub modify : (ConvState → ConvState) → Conv (Unit {0})
modify f s = done tt (f s)

abbrev pub check : Bool → Conv (Unit {0})
check b = lift (is_true b)

-- Add_inst with the address mode of the opcode.
unfoldable pub emit : ℕ → Valty → List ℕ → Conv (Unit {0})
unfolding ◌>>=◌ lift gets modify
emit op v content = do
  t ← lift (in_bounds (ty_am_of op))
  tab ← gets (λ s. s.body.inst_tab)
  tab' ← lift (add_inst tab op v t content)
  modify (λ s. record s { body = record s.body { inst_tab = tab' } })

-- Stmt_id, and a write through its reference.
unfoldable pub get_stmt : ℕ → Conv Stmt
unfolding ◌>>=◌ lift gets stmt_id
get_stmt id = do g ← gets (λ s. s.graph); lift (stmt_id g id)

unfoldable pub change_stmt : ℕ → (Stmt → Stmt) → Conv (Unit {0})
unfolding ◌>>=◌ modify get_stmt set_stmt
change_stmt id f = do x ← get_stmt id; modify (λ s. record s { graph = set_stmt s.graph id (f x) })
