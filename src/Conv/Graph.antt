-- ===== src/Conv/Graph.antt =====
-- WINST_STMT and WINST_STMT_GRAPH (src/wasm/converter.h), and the search for the target of a branch
-- (src/wasm/converter.cxx).
use uwasm_vm.Base.{
  ℕ, zero, suc, ◌+◌, ◌==◌, Bool, true, false, not, if◌then◌else◌, List, [], ◌∷◌, ◌++◌,
}
use uwasm_vm.Base.{length, get_elem?, set, Option, none, some}
use uwasm_vm.Base.{Result, ok, ◌>>=◌, ◌>>◌, is_true, err, assertion}
use uwasm_vm.Isa.Opcode.{Valty, i32}
use uwasm_vm.Conv.Winst.{Winst}

-- WINST_STMT_KIND.
pub data StmtKind : Type 0 where
  block_stmt root_block instr : StmtKind

abbrev pub is_root : StmtKind → Bool
is_root root_block = true
is_root _ = false

abbrev pub is_block_stmt : StmtKind → Bool
is_block_stmt block_stmt = true
is_block_stmt _ = false

-- The parent of the root is not set. UNINIT_LABEL_IDX is `none`.
pub record Stmt : Type 0 where
  pub kind : StmtKind
  pub id : ℕ
  pub opcode : Winst
  pub begin_pc : ℕ
  pub parent : ℕ
  pub children : List ℕ
  pub begin_label : Option ℕ
  pub end_label : Option ℕ
  pub else_stmt : ℕ
  pub result_cnt : ℕ
  pub result_type : Valty
  pub result_reg : ℕ
  pub stack_size : ℕ

abbrev pub new_stmt : StmtKind → Winst → ℕ → Stmt
new_stmt k w pc = record {
  kind = k;
  id = 0;
  opcode = w;
  begin_pc = pc;
  parent = 0;
  children = [];
  begin_label = none;
  end_label = none;
  else_stmt = 0;
  result_cnt = 0;
  result_type = i32;
  result_reg = 0;
  stack_size = 0;
}

abbrev pub has_else : Stmt → Bool
has_else s = not (s.else_stmt == 0)

-- `stmts` by id, and the statement of each instruction count.
pub record StmtGraph : Type 0 where
  pub stmts : List Stmt
  pub ins_to_stmt : ℕ → Option ℕ

abbrev pub new_graph : StmtGraph
new_graph = record { stmts = []; ins_to_stmt = λ i. none }

abbrev asserted {ℓ} : {A : Type ℓ} → Option A → Result A
asserted (some a) = ok a
asserted none = err assertion

-- Stmt_id, and the writes through the reference that it returns.
unfoldable pub stmt_id : StmtGraph → ℕ → Result Stmt
stmt_id g id = asserted (get_elem? g.stmts id)

unfoldable pub set_stmt : StmtGraph → ℕ → Stmt → StmtGraph
set_stmt g id s = record g { stmts = set g.stmts id s }

-- Get_stmt_id_by_inst, and Stmt_by_inst.
unfoldable pub get_stmt_id_by_inst : StmtGraph → ℕ → Result ℕ
get_stmt_id_by_inst g ins_cnt = asserted (g.ins_to_stmt ins_cnt)

unfoldable pub stmt_by_inst : StmtGraph → ℕ → Result Stmt
unfolding get_stmt_id_by_inst stmt_id
stmt_by_inst g ins_cnt = do id ← get_stmt_id_by_inst g ins_cnt; stmt_id g id

-- `_ins_to_stmt.insert`, which keeps an earlier entry.
abbrev pub insert_ins : ℕ → ℕ → (ℕ → Option ℕ) → ℕ → Option ℕ
insert_ins ins_cnt id f i =
    if i == ins_cnt then elim (f i) [ some old ↦ some old | none ↦ some id ] else f i

-- Add_stmt: the graph, where the statement has the id that is the number of those before.
unfoldable pub add_stmt : StmtGraph → Stmt → ℕ → StmtGraph
add_stmt g item ins_cnt =
    let id = length g.stmts in
    record {
      stmts = g.stmts ++ (record item { id = id } ∷ []);
      ins_to_stmt =
          if is_root item.kind then g.ins_to_stmt else insert_ins ins_cnt id g.ins_to_stmt;
    }

-- Add_stmt_to_parent.
unfoldable pub add_stmt_to_parent : StmtGraph → Stmt → ℕ → ℕ → Result StmtGraph
unfolding add_stmt stmt_id set_stmt
add_stmt_to_parent g item ins_cnt parent = do
  let current = length g.stmts
  let added = add_stmt g item ins_cnt
  s ← stmt_id added current
  let placed = set_stmt added current (record s { parent = parent })
  p ← stmt_id placed parent
  ok (set_stmt placed parent (record p { children = p.children ++ (current ∷ []) }))

-- The loop of Get_parent_stmt_for_branch, for the levels left.
unfoldable pub parent_at : StmtGraph → ℕ → ℕ → Result ℕ
unfolding stmt_id
parent_at g zero id = ok id
parent_at g (suc levels) id = do
  s ← stmt_id g id
  is_true (not (s.parent == 0))
  parent_at g levels s.parent

unfoldable pub get_parent_stmt_for_branch : StmtGraph → ℕ → ℕ → Result ℕ
unfolding get_stmt_id_by_inst parent_at
get_parent_stmt_for_branch g ins_cnt jump_cnt = do
  id ← get_stmt_id_by_inst g ins_cnt
  parent_at g (jump_cnt + 1) id

-- The label by the opcode of the target: the begin of a loop, the begin of the else block of an if
-- with one, or the end.
abbrev pub label_of_target : StmtGraph → Stmt → Winst → Result (Option ℕ)
label_of_target g s (Winst.loop t) = ok s.begin_label
label_of_target g s (Winst.if_ t) =
    if not (has_else s) then ok s.end_label else (do e ← stmt_id g s.else_stmt; ok e.begin_label)
label_of_target g s _ = ok s.end_label

-- Get_label_id_for_jump.
unfoldable pub get_label_id_for_jump : StmtGraph → ℕ → ℕ → Result (Option ℕ)
unfolding get_parent_stmt_for_branch stmt_id
get_label_id_for_jump g ins_cnt jump_cnt = do
  target ← get_parent_stmt_for_branch g ins_cnt jump_cnt
  s ← stmt_id g target
  label_of_target g s s.opcode
