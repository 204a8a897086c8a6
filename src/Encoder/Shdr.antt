-- ===== src/Encoder/Shdr.antt =====
-- UBH_SHDR (include/ubh/ubh.h, src/ubh/ubh.cxx), with the section each header stands for
-- (Get_sec_id_from_header, src/ubh/u_module.cxx) and SEC_INFO_ARR (src/encoder/u_encoder.cxx).
use uwasm_vm.Base.{
  ℕ, ◌%◌, ◌^◌, Bool, not, ◌==◌, List, [], ◌∷◌, get_elem?, if◌then◌else◌, Option, some, none,
}
use uwasm_vm.Base.{Result, ok, err, assertion, ◌>>=◌}
use uwasm_vm.Isa.Word.{field, set_field}

-- SEC_TAG; a header holds its code in 4 bits.
pub data SecTag : Type 0 where
  cust type import func tab mem glbl export start elem code bin debug : SecTag

abbrev pub tag_code : SecTag → ℕ
tag_code SecTag.cust = 0
tag_code SecTag.type = 1
tag_code SecTag.import = 2
tag_code SecTag.func = 3
tag_code SecTag.tab = 4
tag_code SecTag.mem = 5
tag_code SecTag.glbl = 6
tag_code SecTag.export = 7
tag_code SecTag.start = 8
tag_code SecTag.elem = 9
tag_code SecTag.code = 10
tag_code SecTag.bin = 11
tag_code SecTag.debug = 12

-- The three layouts of the union, which agree on the tag.
pub data Layout : Type 0 where
  s1 s2 s3 : Layout

-- Select_struct, by the code of the tag; SEC_ELEM and codes that are no tag assert.
abbrev pub layouts : List (Option Layout)
layouts =
    some s1
    ∷ some s1
    ∷ some s2
    ∷ some s1
    ∷ some s2
    ∷ some s1
    ∷ some s2
    ∷ some s2
    ∷ some s3
    ∷ none
    ∷ some s1
    ∷ some s1
    ∷ some s3
    ∷ []

-- The union as its 32 bits, and _idx.
pub record Shdr : Type 0 where
  pub word : ℕ
  pub idx : ℕ

abbrev pub get_sec_tag : Shdr → ℕ
get_sec_tag s = field 0 4 s.word

abbrev pub asserted {ℓ} : {A : Type ℓ} → Option A → Result A
asserted (some a) = ok a
asserted none = err assertion

abbrev pub layout_of : Option (Option Layout) → Option Layout
layout_of (some l) = l
layout_of none = none

unfoldable pub select_struct : Shdr → Result Layout
select_struct s = asserted (layout_of (get_elem? layouts (get_sec_tag s)))

abbrev pub with_word : Shdr → ℕ → Shdr
with_word s word = record s { word = word }

-- The argument is a UINT16.
unfoldable pub set_elem_num : Shdr → ℕ → Result Shdr
unfolding select_struct
set_elem_num s elem_num = select_struct s >>= λ l. ok (elim l [
  | s1 ↦ with_word s (set_field 16 16 (elem_num % 2 ^ 16) s.word)
  | s2 ↦ with_word s (set_field 8 24 (elem_num % 2 ^ 16) s.word)
  | s3 ↦ s
])

unfoldable pub get_elem_num : Shdr → Result ℕ
unfolding select_struct
get_elem_num s = select_struct s >>= λ l. elim l [
  | s1 ↦ ok (field 16 16 s.word)
  | s2 ↦ ok (field 8 24 s.word)
  | s3 ↦ err assertion
]

unfoldable pub set_kind : Shdr → ℕ → Result Shdr
unfolding select_struct
set_kind s kind = select_struct s >>= λ l. elim l [
  | s1 ↦ ok (with_word s (set_field 4 12 (kind % 2 ^ 16) s.word))
  | s2 ↦ ok (with_word s (set_field 4 4 (kind % 2 ^ 16) s.word))
  | s3 ↦ err assertion
]

unfoldable pub get_kind : Shdr → Result ℕ
unfolding select_struct
get_kind s = select_struct s >>= λ l. elim l [
  | s1 ↦ ok (field 4 12 s.word)
  | s2 ↦ ok (field 4 4 s.word)
  | s3 ↦ err assertion
]

-- The constructor.
unfoldable pub new_shdr : ℕ → ℕ → ℕ → Result Shdr
unfolding set_elem_num
new_shdr sec_tag elem_num idx =
    set_elem_num (record { word = set_field 0 4 sec_tag 0; idx = idx % 2 ^ 32 }) elem_num

abbrev pub have_sec : Shdr → Bool
have_sec s = not (get_sec_tag s == tag_code SecTag.start)

-- SECTION_ID.
pub data SectionId : Type 0 where
  type import func data_ glbl export export_glbl code nn_str module_name glbl_name : SectionId
  reloc imp_nat nat : SectionId

-- The kinds of a tag's sections, by code; any kind but MEM_DATA of a SEC_MEM is MEM_RELOC.
abbrev pub by_kind : List SectionId → ℕ → Result SectionId
by_kind ids kind = asserted (get_elem? ids kind)

abbrev pub tags : List SecTag
tags =
    SecTag.cust ∷ SecTag.type ∷ SecTag.import ∷ SecTag.func ∷ SecTag.tab ∷ SecTag.mem ∷ SecTag.glbl
    ∷ SecTag.export ∷ SecTag.start ∷ SecTag.elem ∷ SecTag.code ∷ SecTag.bin ∷ SecTag.debug ∷ []

unfoldable pub sec_id_of : SecTag → Result ℕ → Result SectionId
sec_id_of SecTag.type kind = ok SectionId.type
sec_id_of SecTag.func kind = ok SectionId.func
sec_id_of SecTag.glbl kind = ok SectionId.glbl
sec_id_of SecTag.tab kind = kind >>= by_kind (module_name ∷ glbl_name ∷ nn_str ∷ [])
sec_id_of SecTag.mem kind = kind >>= λ k. ok (if k == 0 then data_ else reloc)
sec_id_of SecTag.import kind = kind >>= by_kind (SectionId.import ∷ imp_nat ∷ [])
sec_id_of SecTag.export kind = kind >>= by_kind (SectionId.export ∷ export_glbl ∷ [])
sec_id_of SecTag.code kind = ok SectionId.code
sec_id_of SecTag.bin kind = ok nat
sec_id_of _ kind = err assertion

unfoldable pub get_sec_id : Shdr → Result SectionId
get_sec_id s = asserted (get_elem? tags (get_sec_tag s)) >>= λ tag. sec_id_of tag (get_kind s)

-- SEC_INFO: the section, its tag, the kind that Set_kind is called with, and the size of an element;
-- sizeof(UBH_TYPE) and the others are those that Check_ubh_ds_size checks (src/ubh/ubh.cxx).
pub record SecInfo : Type 0 where
  pub sec_id : SectionId
  pub shdr_tag : SecTag
  pub sec_kind : Option ℕ
  pub elem_size : ℕ

abbrev pub info : SectionId → SecTag → Option ℕ → ℕ → SecInfo
info sec_id tag kind size = record {
  sec_id = sec_id;
  shdr_tag = tag;
  sec_kind = kind;
  elem_size = size;
}

-- The size of the code section is asked for.
abbrev pub sec_info_arr : List SecInfo
sec_info_arr =
    info SectionId.type SecTag.type none 4
    ∷ info SectionId.export SecTag.export (some 0) 4
    ∷ info SectionId.import SecTag.import (some 0) 4
    ∷ info imp_nat SecTag.import (some 1) 12
    ∷ info SectionId.func SecTag.func none 8
    ∷ info SectionId.code SecTag.code none 0
    ∷ info data_ SecTag.mem (some 0) 1
    ∷ info SectionId.glbl SecTag.glbl none 16
    ∷ info nn_str SecTag.tab (some 2) 1
    ∷ info module_name SecTag.tab (some 0) 1
    ∷ info glbl_name SecTag.tab (some 1) 1
    ∷ info reloc SecTag.mem (some 1) 4
    ∷ []

-- The header of a section, as Collect_write_info makes it.
unfoldable pub header : SecInfo → ℕ → ℕ → Result Shdr
unfolding new_shdr set_kind
header sec elem_num size = do
  shdr ← new_shdr (tag_code sec.shdr_tag) elem_num size
  elim sec.sec_kind [ some kind ↦ set_kind shdr kind | none ↦ ok shdr ]
