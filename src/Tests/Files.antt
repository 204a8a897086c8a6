-- ===== src/Tests/Files.antt =====
-- The theorems on the encoder's tables and the file it writes, at small tables.
use uwasm_vm.Base.{
  ℕ, ◌≡◌, refl, arith, true, false, List, [], ◌∷◌, length, replicate, drop, All, some, ok,
}
use uwasm_vm.StrTab.Order.{IsByte, comparator, last_difference}
use uwasm_vm.StrTab.Names.{strings}
use uwasm_vm.StrTab.Refines.{IsWf}
use uwasm_vm.Encoder.Shdr.{
  SectionId, header, new_shdr, set_elem_num, set_kind, select_struct, sec_info_arr,
}
use uwasm_vm.Encoder.ReadBack.{IsReadBack, header-IsReadBack}
use uwasm_vm.Encoder.Code.{CodeBody, new_code_body, finish, write_to_buf, code_offsets}
use uwasm_vm.Encoder.CodeLayout.{IsLaidOut, finish-IsLaidOut}
use uwasm_vm.Encoder.Sections.{
  Tables, Collected, collect, collect_write_info, find_start, write_section, write_to_file,
  shdrs_of, ubh_magic, write_at,
}
use uwasm_vm.Encoder.FileLayout.{IsLocated, write_to_file-IsLocated}
use uwasm_vm.Encoder.Funcs.{Answer, ubh_func, new_encoder, request_func}
use uwasm_vm.Encoder.Requests.{request_func-new}
use uwasm_vm.Encoder.Again.{started-IsWf}
use uwasm_vm.StrTab.Table
use uwasm_vm.StrTab.Run.{new-IsWf}
use uwasm_vm.Encoder.Code.{Labelled, add_label}
use uwasm_vm.Encoder.Labels.{IsNamed, add_label_lem}
use uwasm_vm.Encoder.Load.{Mhdr, read_mhdr, Loaded, init_module_from_buffer}
use uwasm_vm.Encoder.Writes.{IsWritable}
use uwasm_vm.Encoder.Pointers.{AreFound}
use uwasm_vm.Encoder.HeaderMap.{AreMapped}
use uwasm_vm.Encoder.Loaded.{init_module_from_buffer-write_to_file}
use uwasm_vm.Base.{◌≢◌, ◌<◌, get_elem?, none}

-- Two functions, the second with a label at its start.
abbrev bodies : List CodeBody
bodies =
    record new_code_body { inst_tab = 1 ∷ 2 ∷ 3 ∷ [] }
    ∷ record new_code_body { inst_tab = 4 ∷ []; lab_tab = some 0 ∷ [] }
    ∷ []

abbrev ten_words : CodeBody → List ℕ
ten_words b = replicate 10 0

finish-IsLaidOut_example :
    (ds : List CodeBody) × (finish 0 bodies ≡ ok ds)
    × IsLaidOut (write_to_buf ten_words ds) (code_offsets 0 ds) ds
finish-IsLaidOut_example =
    finish-IsLaidOut ten_words (λ b. refl) bodies (refl, (refl, tt))
      (
        record { insts = omega arith; labels = omega arith },
        (record { insts = omega arith; labels = omega arith }, tt),
      )
      (omega arith)

header-IsReadBack_example : All (λ sec. IsReadBack sec 5 12) sec_info_arr
header-IsReadBack_example = header-IsReadBack 5 12

-- A type and three bytes of data.
abbrev small_tables : Tables
small_tables = record {
  elem_num = λ id. elim id [ SectionId.type ↦ 1 | SectionId.data_ ↦ 3 | _ ↦ 0 ];
  content = λ id. elim id [
    | SectionId.type ↦ 1 ∷ 2 ∷ 3 ∷ 4 ∷ []
    | SectionId.data_ ↦ 7 ∷ 8 ∷ 9 ∷ []
    | _ ↦ []
  ];
  code_sec_size = 0;
  module_str_tab = 0 ∷ [];
  name_idxs = [];
}

-- The module header names two section headers at offset 19.
abbrev small_file : List ℕ
small_file =
    117 ∷ 65 ∷ 83 ∷ 77 ∷ 0 ∷ 0 ∷ 0 ∷ 0 ∷ 194 ∷ 4 ∷ 0 ∷ 0 ∷ 1 ∷ 2 ∷ 3 ∷ 4 ∷ 7 ∷ 8 ∷ 9 ∷ 1 ∷ 0 ∷ 1 ∷ 0
    ∷ 12 ∷ 0 ∷ 0 ∷ 0 ∷ 5 ∷ 0 ∷ 3 ∷ 0 ∷ 16 ∷ 0 ∷ 0 ∷ 0 ∷ []

writes : write_to_file small_tables ≡ ok small_file
unfolding write_to_file collect_write_info collect write_section find_start header new_shdr
    set_elem_num set_kind select_struct write_at
writes = refl

write_to_file-IsLocated_example :
    (c : Collected) × (m : Mhdr) × (collect_write_info small_tables ≡ ok c)
    × IsLocated small_tables small_file c.sec_id_vec c.ubh_shdr_vec
    × (c.size ≡ length small_file)
    × (read_mhdr small_file ≡ ok m)
    × (m.umagic ≡ ubh_magic)
    × (m.shdr_num ≡ length c.ubh_shdr_vec)
    × (drop m.shdr_off small_file ≡ shdrs_of c.ubh_shdr_vec)
write_to_file-IsLocated_example =
    write_to_file-IsLocated small_tables small_file writes (omega arith)

-- The names "f" and "g" with the 0 at their ends.
abbrev name_f : List ℕ
name_f = 102 ∷ 0 ∷ []

abbrev name_g : List ℕ
name_g = 103 ∷ 0 ∷ []

name_f-bytes : All IsByte name_f
name_f-bytes = (omega arith, (omega arith, tt))

f_missing : Table.contains new_encoder.module_str_tab name_f ≡ false
unfolding Table.contains Table.find comparator last_difference
f_missing = refl

-- An exported function of type 3.
request_func-new_example :
    (a : Answer) × (request_func true new_encoder name_f 3 4 ≡ ok a)
    × (a.idx ≡ 0)
    × (a.encoder.func_tab ≡ ubh_func 3 1 4 ∷ [])
    × (strings a.encoder.module_str_tab ≡ (0 ∷ []) ∷ name_f ∷ [])
    × (a.encoder.import_tab ≡ [])
    × (a.encoder.export_tab ≡ 0 ∷ [])
    × IsWf a.encoder.module_str_tab
    × (length a.encoder.module_str_tab.raw_buf ≡ 3)
    × (length a.encoder.module_str_tab.entry_vec ≡ 2)
request_func-new_example =
    request_func-new true new_encoder name_f 3 4 started-IsWf name_f-bytes (omega arith)
      (omega arith) (omega arith) f_missing refl

-- A label "f" that is set after the first instruction.
add_label_lem_example :
    (r : Labelled) × (add_label true (record new_code_body { inst_tab = 4 ∷ [] }) name_f ≡ ok r)
    × (get_elem? (strings r.body.lab_names) r.label_idx ≡ some name_f)
    × (get_elem? r.body.lab_tab r.label_idx ≡ some (some 1))
    × ((j : ℕ) → j < 0 → r.label_idx ≢ j → get_elem? r.body.lab_tab j ≡ none)
    × IsNamed r.body
add_label_lem_example =
    add_label_lem true (record new_code_body { inst_tab = 4 ∷ [] }) name_f
      (record { names = new-IsWf; same_num = refl }) name_f-bytes (omega arith) (omega arith)
      (omega arith)

small_tables-IsWritable : IsWritable small_tables
small_tables-IsWritable = record {
  contents = (
    omega arith,
    (
      omega arith,
      (
        omega arith,
        (
          omega arith,
          (
            omega arith,
            (
              omega arith,
              (
                omega arith,
                (omega arith, (omega arith, (omega arith, (omega arith, (omega arith, tt))))),
              ),
            ),
          ),
        ),
      ),
    ),
  );
  names = tt;
}

init_module_from_buffer-write_to_file_example :
    (file : List ℕ) × (c : Collected) × (m : Loaded) × (write_to_file small_tables ≡ ok file)
    × (collect_write_info small_tables ≡ ok c)
    × (init_module_from_buffer file ≡ ok m)
    × (m.shdr_tab ≡ c.ubh_shdr_vec)
    × AreMapped m.shdr_tab m.sec_sec_header_map c.sec_id_vec
    × AreFound small_tables file m.sections c.sec_id_vec
init_module_from_buffer-write_to_file_example =
    init_module_from_buffer-write_to_file small_tables small_tables-IsWritable (omega arith)
