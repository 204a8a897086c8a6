-- ===== src/Tests/Linking.antt =====
-- The theorems on expanded modules, labels and sections that are read, at small modules.
use uwasm_vm.Base.{
  length, ◌<◌, ◌≤◌, ℕ, ◌+◌, ◌-◌, ◌≤◌, ◌≡◌, refl, arith, inl, true, false, All, List, [], ◌∷◌,
  get_elem?, some, ok,
}
use uwasm_vm.Isa.Opcode.{i32, f64}
use uwasm_vm.Isa.Table.{ty_am_of, opcode_table}
use uwasm_vm.Isa.Word.{is_32bit_ty, is_32bit_opcode}
use uwasm_vm.Isa.Encode.{init_inst32, init_inst64}
use uwasm_vm.Isa.Expand.{AmExpand, expand_inst32, expand_inst64, expand_fields32, expand_fields64}
use uwasm_vm.Isa.Operands.{r_r, Long}
use uwasm_vm.Isa.Code.{add_inst, expand_words}
use uwasm_vm.Isa.CodeRoundTrip.{Inst, short, long, add_all, IsEncodable, written_all}
use uwasm_vm.Isa.PcMaps.{origin-expanded_pc_map}
use uwasm_vm.Isa.Module.{FuncCode, ModuleExpanded, break_l, expand_code}
use uwasm_vm.Isa.Links.{Source, imported, code, IsResolved, expand_code-IsResolved}
use uwasm_vm.Tests.Sample.{entry}

abbrev blank : ℕ → AmExpand
blank n = entry 0 0 0 0

-- MOV of f64 registers 3 and 500, and ADD of i32 with an immediate.
abbrev program : List Inst
program = short 0x12 f64 (r_r 3 500) ∷ long 0x84 i32 (Long.r_r_imm 3 700 1000) ∷ []

abbrev program_words : List ℕ
program_words = 2097155858 ∷ 3204 ∷ 2936013800 ∷ []

words : add_all [] program ≡ ok program_words
unfolding add_inst is_32bit_ty init_inst32 init_inst64
words = refl

-- An imported function, and one with a label before each of its instructions.
abbrev sources : List Source
sources = imported ∷ code program (0 ∷ 1 ∷ []) ∷ []

abbrev codes : List FuncCode
codes =
    record { is_extern = true; inst_tab = []; lab_tab = [] }
    ∷ record { is_extern = false; inst_tab = program_words; lab_tab = 0 ∷ 1 ∷ [] }
    ∷ []

program-IsEncodable : All IsEncodable program
unfolding ty_am_of opcode_table
program-IsEncodable = (
  (refl, (omega arith, omega arith)),
  ((refl, (omega arith, omega arith, inl (omega arith))), tt),
)

expand_code-IsResolved_example :
    (m : ModuleExpanded) × (expand_code blank codes ≡ ok m)
    × IsResolved blank m.table sources m.placed
    × ((e : AmExpand) × (get_elem? m.table (m.end_pc + 1) ≡ some e) × (e.opcode_l ≡ break_l))
expand_code-IsResolved_example =
    expand_code-IsResolved blank sources codes (refl, ((refl, words, refl), tt))
      (tt, ((program-IsEncodable, omega arith, (omega arith, (omega arith, tt))), tt))

-- The function alone, from word 5 and instruction 7 on.
expands : expand_words blank program_words 5 7 ≡ ok (written_all blank program 5 7)
unfolding expand_words is_32bit_opcode expand_inst32 expand_inst64 expand_fields32 expand_fields64
    ty_am_of opcode_table
expands = refl

origin-expanded_pc_map_example :
    (length (written_all blank program 5 7).expanded_pc_map ≡ 2)
    × (length (written_all blank program 5 7).origin_pc_map ≡ 3)
    × ((i : ℕ)
        → i < 2
        → (p : ℕ) × (get_elem? (written_all blank program 5 7).expanded_pc_map i ≡ some p)
          × (5 ≤ p)
          × (p < 5 + 3)
          × (get_elem? (written_all blank program 5 7).origin_pc_map (p - 5) ≡ some (some (7 + i))))
origin-expanded_pc_map_example =
    origin-expanded_pc_map blank program_words 5 7 (written_all blank program 5 7) expands
