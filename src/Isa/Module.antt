-- ===== src/Isa/Module.antt =====
-- Expand_code (src/ubh/u_module.cxx) over all functions: their starts, their label tables and the
-- break instruction behind the last one. A pointer into the expanded table is an index.
use uwasm_vm.Base.{ℕ, ◌+◌, ◌*◌, Bool, true, false, List, [], ◌∷◌, ◌++◌, length, get_elem?}
use uwasm_vm.Base.{Option, some, none, Result, ok, err, undefined, ◌>>=◌, in_bounds}
use uwasm_vm.Isa.Expand.{AmExpand}
use uwasm_vm.Isa.Code.{Expanded, nothing, expand_words}

-- A function as Expand_code reads it: the flag F_EXTERN, and the words and labels of its UBH_CODE.
pub record FuncCode : Type 0 where
  pub is_extern : Bool
  pub inst_tab : List ℕ
  pub lab_tab : List ℕ

-- A read of _origin_pc_map, in the part that this function has written; what lies elsewhere is not
-- initialized.
abbrev pub read_origin : List (Option ℕ) → ℕ → Result ℕ
read_origin origin i =
    in_bounds (get_elem? origin i) >>= λ o. elim o [ some n ↦ ok n | none ↦ err undefined ]

-- The loop over the labels of a function.
unfoldable pub expand_labels : List (Option ℕ) → List ℕ → Result (List ℕ)
expand_labels origin [] = ok []
expand_labels origin (l ∷ ls) = do
  target ← read_origin origin l
  rest ← expand_labels origin ls
  ok (target ∷ rest)

-- The entries of _expanded_func_base and _lab_tab.
pub record Placed : Type 0 where
  pub base : ℕ
  pub labels : List ℕ

pub record FuncExpanded : Type 0 where
  pub code : Expanded
  pub placed : Placed

unfoldable pub expand_func : (ℕ → AmExpand) → FuncCode → ℕ → ℕ → Result FuncExpanded
unfolding expand_words expand_labels
expand_func raw f code_base_idx inst_num = do
  r ← expand_words raw f.inst_tab code_base_idx inst_num
  labels ← expand_labels r.origin_pc_map f.lab_tab
  base ← read_origin r.origin_pc_map 0
  ok (record { code = r; placed = record { base = base; labels = labels } })

-- The tables of the functions from one on; an extern function has no entries.
pub record FuncsExpanded : Type 0 where
  pub code : Expanded
  pub placed : List (Option Placed)

abbrev pub append_code : Expanded → Expanded → Expanded
append_code a b = record {
  insts = a.insts ++ b.insts;
  origin_pc_map = a.origin_pc_map ++ b.origin_pc_map;
  expanded_pc_map = a.expanded_pc_map ++ b.expanded_pc_map;
}

unfoldable pub expand_funcs : (ℕ → AmExpand) → List FuncCode → ℕ → ℕ → Result FuncsExpanded
unfolding expand_func
expand_funcs raw [] code_base_idx inst_num = ok (record { code = nothing; placed = [] })
expand_funcs raw (f ∷ fs) code_base_idx inst_num = elim f.is_extern [
  | true ↦ do
    rest ← expand_funcs raw fs code_base_idx inst_num
    ok (record rest { placed = none ∷ rest.placed })
  | false ↦ do
    e ← expand_func raw f code_base_idx inst_num
    rest ← expand_funcs raw fs (code_base_idx + length f.inst_tab) (inst_num + length e.code.insts)
    ok (record { code = append_code e.code rest.code; placed = some e.placed ∷ rest.placed })
]

-- _end_pc is the entry before the break instruction: a return adds 1 to it.
pub record ModuleExpanded : Type 0 where
  pub table : List AmExpand
  pub origin_pc_map : List (Option ℕ)
  pub expanded_pc_map : List ℕ
  pub placed : List (Option Placed)
  pub end_pc : ℕ

-- BREAK, in its long form.
abbrev pub break_l : ℕ
break_l = 0x48 * 4

abbrev pub with_break : (ℕ → AmExpand) → FuncsExpanded → ModuleExpanded
with_break raw r =
    let n = length r.code.insts in
    record {
      table = r.code.insts ++ (raw n ∷ record (raw (n + 1)) { opcode_l = break_l } ∷ []);
      origin_pc_map = r.code.origin_pc_map;
      expanded_pc_map = r.code.expanded_pc_map;
      placed = r.placed;
      end_pc = n;
    }

unfoldable pub expand_code : (ℕ → AmExpand) → List FuncCode → Result ModuleExpanded
unfolding expand_funcs
expand_code raw fs = do r ← expand_funcs raw fs 0 0; ok (with_break raw r)
