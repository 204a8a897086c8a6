-- ===== src/Isa/Code.antt =====
-- A function's code: what the encoder collects (U_CODE_BODY of src/encoder/u_inst_encoder.h and
-- U_ENCODER::Add_inst of src/encoder/u_encoder.cxx), and the loop of U_MODULE::Expand_code
-- (src/ubh/u_module.cxx) that expands it.
use uwasm_vm.Base.{ℕ, ◌+◌, ◌*◌, ◌/◌, ◌%◌, ◌^◌, true, false}
use uwasm_vm.Base.{Option, none, some, List, [], ◌∷◌, ◌++◌}
use uwasm_vm.Base.{Result, ok, err, undefined, ◌>>=◌}
use uwasm_vm.Isa.Opcode.{Valty, TyAm}
use uwasm_vm.Isa.Word.{opcode, is_32bit_ty, is_32bit_opcode}
use uwasm_vm.Isa.Encode.{init_inst32, init_inst64}
use uwasm_vm.Isa.Expand.{AmExpand, expand_inst32, expand_inst64}

-- Add_inst32 and Add_inst64: the low half of a long instruction comes first.
abbrev pub add_inst32 : List ℕ → ℕ → List ℕ
add_inst32 inst_tab w = inst_tab ++ (w ∷ [])

abbrev pub add_inst64 : List ℕ → ℕ → List ℕ
add_inst64 inst_tab w = inst_tab ++ (w % 2 ^ 32 ∷ w / 2 ^ 32 % 2 ^ 32 ∷ [])

-- U_ENCODER::Add_inst: the address mode chooses the layout, and the word starts at 0.
unfoldable pub add_inst : List ℕ → ℕ → Valty → TyAm → List ℕ → Result (List ℕ)
add_inst inst_tab op v t content = elim (is_32bit_ty t) [
  | true ↦ do w ← init_inst32 0 t op v content; ok (add_inst32 inst_tab w)
  | false ↦ do w ← init_inst64 0 t op v content; ok (add_inst64 inst_tab w)
]

-- What the loop writes for one function: the expanded instructions, for each word the number of
-- the instruction that starts there (_origin_pc_map), and for each instruction the position of its
-- first word (_expanded_pc_map).
pub record Expanded : Type 0 where
  pub insts : List AmExpand
  pub origin_pc_map : List (Option ℕ)
  pub expanded_pc_map : List ℕ

abbrev pub nothing : Expanded
nothing = record { insts = []; origin_pc_map = []; expanded_pc_map = [] }

abbrev pub one_word : AmExpand → ℕ → ℕ → Expanded → Expanded
one_word e pc inst_num r = record {
  insts = e ∷ r.insts;
  origin_pc_map = some inst_num ∷ r.origin_pc_map;
  expanded_pc_map = pc ∷ r.expanded_pc_map;
}

-- The second word of a long instruction gets no entry in the origin map.
abbrev pub two_words : AmExpand → ℕ → ℕ → Expanded → Expanded
two_words e pc inst_num r = record {
  insts = e ∷ r.insts;
  origin_pc_map = some inst_num ∷ none ∷ r.origin_pc_map;
  expanded_pc_map = pc ∷ r.expanded_pc_map;
}

-- `raw n` is what the new expanded table holds at n before; `pc` counts words and `inst_num`
-- instructions over all functions. A long instruction on the last word of a function makes the
-- iterator miss the end.
unfoldable pub expand_words : (ℕ → AmExpand) → List ℕ → ℕ → ℕ → Result Expanded
expand_words raw [] pc inst_num = ok nothing
expand_words raw (w ∷ []) pc inst_num = elim (is_32bit_opcode (opcode w)) [
  | true ↦ do e ← expand_inst32 w (raw inst_num); ok (one_word e pc inst_num nothing)
  | false ↦ err undefined
]
expand_words raw (w ∷ high ∷ rest) pc inst_num = elim (is_32bit_opcode (opcode w)) [
  | true ↦ do
    e ← expand_inst32 w (raw inst_num)
    r ← expand_words raw (high ∷ rest) (pc + 1) (inst_num + 1)
    ok (one_word e pc inst_num r)
  | false ↦ do
    e ← expand_inst64 (w + high * 2 ^ 32) (raw inst_num)
    r ← expand_words raw rest (pc + 2) (inst_num + 1)
    ok (two_words e pc inst_num r)
]
