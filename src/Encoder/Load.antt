-- ===== src/Encoder/Load.antt =====
-- What is read of a module's file: the module header, the section headers, Set_shdr_tab, and
-- Init_module_from_buffer (src/ubh/u_module.cxx). A section's pointer is an offset in the buffer.
use uwasm_vm.Base.{
  ℕ, zero, suc, ◌+◌, ◌*◌, ◌%◌, ◌^◌, ◌==◌, true, false, take, drop, if◌then◌else◌, List, [], ◌∷◌,
  get_elem?, Option, some, none,
}
use uwasm_vm.Base.{Result, ok, err, assertion, undefined, ◌>>=◌, ◌>>◌, in_bounds, is_true}
use uwasm_vm.Isa.Word.{field}
use uwasm_vm.StrTab.Order.{same_bytes}
use uwasm_vm.Encoder.Sections.{ubh_magic, shdr_size}
use uwasm_vm.Encoder.Shdr.{Shdr, SectionId, have_sec, get_sec_id}

-- The values of SECTION_ID.
abbrev pub sec_code : SectionId → ℕ
sec_code SectionId.type = 0x0
sec_code SectionId.import = 0x1
sec_code SectionId.func = 0x2
sec_code SectionId.data_ = 0x3
sec_code SectionId.glbl = 0x4
sec_code SectionId.export = 0x5
sec_code SectionId.export_glbl = 0x6
sec_code SectionId.code = 0x7
sec_code SectionId.nn_str = 0x8
sec_code SectionId.module_name = 0x9
sec_code SectionId.glbl_name = 0xa
sec_code SectionId.reloc = 0xb
sec_code SectionId.imp_nat = 0xc
sec_code SectionId.nat = 0xd

-- What is set for each section, by its value.
abbrev pub Sections : Type 0
Sections = ℕ → Option ℕ

abbrev pub unset : Sections
unset k = none

abbrev pub set_section : Sections → SectionId → ℕ → Sections
set_section m id v k = if k == sec_code id then some v else m k

-- _sec_sec_header_map, from header `i` on; it maps to a UINT8.
unfoldable pub set_shdr_tab : ℕ → List Shdr → Sections → Result Sections
unfolding get_sec_id
set_shdr_tab i [] m = ok m
set_shdr_tab i (h ∷ hs) m = elim (have_sec h) [
  | true ↦ do id ← get_sec_id h; set_shdr_tab (i + 1) hs (set_section m id (i % 2 ^ 8))
  | false ↦ set_shdr_tab (i + 1) hs m
]

-- Get_shdr_by_sec_id, and the number of a section's elements.
unfoldable pub get_shdr_by_sec_id : List Shdr → Sections → SectionId → Result Shdr
get_shdr_by_sec_id hs m id = elim (m (sec_code id)) [
  | some i ↦ in_bounds (get_elem? hs i)
  | none ↦ err assertion
]

-- The loop that sets the pointers to the sections.
unfoldable pub init_sections : List Shdr → Sections → Result Sections
unfolding get_sec_id
init_sections [] m = ok m
init_sections (h ∷ hs) m = elim (have_sec h) [
  | true ↦ do id ← get_sec_id h; init_sections hs (set_section m id h.idx)
  | false ↦ init_sections hs m
]

-- A UINT32 at the start of the bytes.
abbrev pub u32_of : List ℕ → Result ℕ
u32_of (a ∷ b ∷ c ∷ d ∷ rest) = ok (a + b * 2 ^ 8 + c * 2 ^ 16 + d * 2 ^ 24)
u32_of _ = err undefined

-- UBH_MHDR, with the two bit fields of its last word.
pub record Mhdr : Type 0 where
  pub umagic : List ℕ
  pub shdr_num : ℕ
  pub shdr_off : ℕ

unfoldable pub read_mhdr : List ℕ → Result Mhdr
read_mhdr buffer = do
  w ← u32_of (drop 8 buffer)
  ok (record { umagic = take 4 buffer; shdr_num = field 0 6 w; shdr_off = field 6 26 w })

-- The section headers, in the bytes from the first one on.
unfoldable pub read_shdrs : ℕ → List ℕ → Result (List Shdr)
read_shdrs zero bytes = ok []
read_shdrs (suc n) bytes = do
  word ← u32_of bytes
  idx ← u32_of (drop 4 bytes)
  rest ← read_shdrs n (drop shdr_size bytes)
  ok (record { word = word; idx = idx } ∷ rest)

pub record Loaded : Type 0 where
  pub shdr_tab : List Shdr
  pub sec_sec_header_map : Sections
  pub sections : Sections

-- Init_module_from_buffer up to Decode_type_and_cache. A wrong magic ends the process.
unfoldable pub init_module_from_buffer : List ℕ → Result Loaded
unfolding read_mhdr read_shdrs set_shdr_tab init_sections
init_module_from_buffer buffer = do
  m ← read_mhdr buffer
  is_true (same_bytes m.umagic ubh_magic)
  hs ← read_shdrs m.shdr_num (drop m.shdr_off buffer)
  header_map ← set_shdr_tab 0 hs unset
  sections ← init_sections hs unset
  ok (record { shdr_tab = hs; sec_sec_header_map = header_map; sections = sections })
