-- ===== src/Encoder/Sections.antt =====
-- Collect_write_info, Write_section and Write_to_file (src/encoder/u_encoder.cxx), on the bytes that
-- the tables hold in memory.
use uwasm_vm.Base.{
  ℕ, ◌+◌, ◌-◌, ◌*◌, ◌/◌, ◌%◌, ◌^◌, Bool, true, false, leb, ltb, ◌==◌, if◌then◌else◌,
}
use uwasm_vm.Base.{
  List, [], ◌∷◌, ◌++◌, length, take, drop, replicate, Option, some, none, Result, ok, ◌>>=◌, ◌>>◌,
  defined_if, is_true,
}
use uwasm_vm.StrTab.Order.{same_bytes}
use uwasm_vm.Encoder.Shdr.{
  SecInfo, SectionId, SecTag, tag_code, Shdr, sec_info_arr, new_shdr, header,
}

-- What the encoder has for each section: the number of elements, and the bytes that are copied.
-- `code_sec_size` is Code_sec_size, and `names` the module's string table with the offset of each
-- function's name in it.
pub record Tables : Type 0 where
  pub elem_num : SectionId → ℕ
  pub content : SectionId → List ℕ
  pub code_sec_size : ℕ
  pub module_str_tab : List ℕ
  pub name_idxs : List ℕ

abbrev pub is_code : SectionId → Bool
is_code SectionId.code = true
is_code _ = false

abbrev pub section_size : Tables → SecInfo → ℕ
section_size t sec =
    if is_code sec.sec_id then t.code_sec_size else t.elem_num sec.sec_id * sec.elem_size % 2 ^ 32

pub record Section : Type 0 where
  pub sec_id : SectionId
  pub sec_size : ℕ

pub record Collected : Type 0 where
  pub sec_id_vec : List Section
  pub ubh_shdr_vec : List Shdr
  pub size : ℕ

-- The loop over SEC_INFO_ARR, which passes over empty sections.
unfoldable pub collect : Tables → List SecInfo → ℕ → Result Collected
unfolding header
collect t [] size = ok (record { sec_id_vec = []; ubh_shdr_vec = []; size = size })
collect t (sec ∷ secs) size = elim (t.elem_num sec.sec_id == 0) [
  | true ↦ collect t secs size
  | false ↦ do
    shdr ← header sec (t.elem_num sec.sec_id) size
    rest ← collect t secs ((size + section_size t sec) % 2 ^ 32)
    ok (record {
      sec_id_vec = record { sec_id = sec.sec_id; sec_size = section_size t sec } ∷ rest.sec_id_vec;
      ubh_shdr_vec = shdr ∷ rest.ubh_shdr_vec;
      size = rest.size;
    })
]

-- START_FUNC_NAME with its 0, and the first function that has the name. A name's offset out of range
-- ends the process.
abbrev pub start_func_name : List ℕ
start_func_name = 109 ∷ 97 ∷ 105 ∷ 110 ∷ 0 ∷ []

unfoldable pub find_start : List ℕ → ℕ → List ℕ → Result (Option ℕ)
find_start raw i [] = ok none
find_start raw i (name_idx ∷ idxs) =
    let rest = find_start raw (i + 1) idxs in
    is_true (ltb name_idx (length raw))
    >> (if same_bytes (take 5 (drop name_idx raw)) start_func_name then ok (some i) else rest)

-- sizeof(UBH_MHDR) and sizeof(UBH_SHDR).
abbrev pub mhdr_size : ℕ
mhdr_size = 12

abbrev pub shdr_size : ℕ
shdr_size = 8

unfoldable pub collect_write_info : Tables → Result Collected
unfolding collect find_start new_shdr
collect_write_info t = do
  c ← collect t sec_info_arr mhdr_size
  start ← find_start t.module_str_tab 0 t.name_idxs
  starts ← (elim start [
    | some i ↦ new_shdr (tag_code SecTag.start) 0 i >>= λ s. ok (s ∷ [])
    | none ↦ ok []
  ])
  let shdrs = c.ubh_shdr_vec ++ starts
  ok (record {
    sec_id_vec = c.sec_id_vec;
    ubh_shdr_vec = shdrs;
    size = (c.size + shdr_size * length shdrs) % 2 ^ 32;
  })

-- Write_section: the bytes of every section, which memcpy reads.
unfoldable pub write_section : Tables → List Section → Result (List ℕ)
write_section t [] = ok []
write_section t (s ∷ ss) = do
  defined_if (leb s.sec_size (length (t.content s.sec_id)))
  rest ← write_section t ss
  ok (take s.sec_size (t.content s.sec_id) ++ rest)

-- The bytes of a UINT32.
abbrev pub u32_bytes : ℕ → List ℕ
u32_bytes n = n % 2 ^ 8 ∷ n / 2 ^ 8 % 2 ^ 8 ∷ n / 2 ^ 16 % 2 ^ 8 ∷ n / 2 ^ 24 % 2 ^ 8 ∷ []

-- UBH_MAGIC, "uASM".
abbrev pub ubh_magic : List ℕ
ubh_magic = b'u' ∷ b'A' ∷ b'S' ∷ b'M' ∷ []

-- Write_mhdr: the magic, UBH_OTHER_LEN zeros, and _shdr_num with 6 bits and _shdr_off with 26.
abbrev pub mhdr_word : ℕ → ℕ → ℕ
mhdr_word shdr_num shdr_off = shdr_num % 2 ^ 6 + shdr_off % 2 ^ 26 * 2 ^ 6

abbrev pub mhdr : ℕ → ℕ → List ℕ
mhdr shdr_num shdr_off =
    ubh_magic ++ ((0 ∷ 0 ∷ 0 ∷ 0 ∷ []) ++ u32_bytes (mhdr_word shdr_num shdr_off))

-- Write_shdr.
abbrev pub shdr_bytes : Shdr → List ℕ
shdr_bytes s = u32_bytes s.word ++ u32_bytes s.idx

abbrev pub shdrs_of : List Shdr → List ℕ
shdrs_of [] = []
shdrs_of (s ∷ ss) = shdr_bytes s ++ shdrs_of ss

-- A write to the buffer, undefined outside it.
unfoldable pub write_at : ℕ → List ℕ → List ℕ → Result (List ℕ)
write_at off bytes buf =
    defined_if (leb (off + length bytes) (length buf))
    >> ok (take off buf ++ (bytes ++ drop (off + length bytes) buf))

-- ubh_shdr_off, a UINT32.
abbrev pub shdr_off_of : Collected → ℕ
shdr_off_of c = (c.size + 2 ^ 32 - length c.ubh_shdr_vec * shdr_size) % 2 ^ 32

-- Write_to_file, after Finish, into a buffer of `total_size` bytes.
unfoldable pub write_to_file : Tables → Result (List ℕ)
unfolding collect_write_info write_section write_at
write_to_file t = do
  c ← collect_write_info t
  body ← write_section t c.sec_id_vec
  with_mhdr ← write_at 0 (mhdr (length c.ubh_shdr_vec) (shdr_off_of c)) (replicate c.size 0)
  with_sections ← write_at mhdr_size body with_mhdr
  write_at (shdr_off_of c) (shdrs_of c.ubh_shdr_vec) with_sections
