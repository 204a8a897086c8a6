-- ===== src/Encoder/Code.antt =====
-- U_CODE_BODY and U_INST_ENCODER (src/encoder/u_inst_encoder.h, src/encoder/u_inst_encoder.cxx), and
-- the walk over the code section by Set_code_sec (src/ubh/u_module.cxx). The section is seen as words
-- of 32 bits, and offsets stay counts of bytes.
use uwasm_vm.Base.{ℕ, ◌+◌, ◌-◌, ◌*◌, ◌%◌, ◌^◌, Bool, true, false, ltb, ◌==◌, if◌then◌else◌}
use uwasm_vm.Base.{List, [], ◌∷◌, ◌++◌, length, set, Option, some, none}
use uwasm_vm.Base.{Result, ok, ◌>>◌, ◌>>=◌, is_true}
use uwasm_vm.StrTab.Table
use uwasm_vm.StrTab.Table.{StrTab, new_str_tab}

-- UNINIT_LABEL_IDX is `none`. A body of UBH_CODE has 12 bits for the number of labels and 20 for the
-- number of words of code; what else it holds is not looked at here.
pub record CodeBody : Type 0 where
  pub inst_tab : List ℕ
  pub lab_tab : List (Option ℕ)
  pub lab_names : StrTab
  pub label_num : ℕ
  pub code_size : ℕ
  pub inst_tab_off : ℕ
  pub label_tab_off : ℕ

abbrev pub new_code_body : CodeBody
new_code_body = record {
  inst_tab = [];
  lab_tab = [];
  lab_names = new_str_tab;
  label_num = 0;
  code_size = 0;
  inst_tab_off = 0;
  label_tab_off = 0;
}

pub record Labelled : Type 0 where
  pub body : CodeBody
  pub label_idx : ℕ

-- U_CODE_BODY::Request_label. `label_name` has the 0 at its end.
unfoldable pub request_label : Bool → CodeBody → List ℕ → Result Labelled
unfolding Table.contains Table.get_idx Table.add
request_label moved b label_name =
    if Table.contains b.lab_names label_name
    then ok (record { body = b; label_idx = Table.get_idx b.lab_names label_name })
    else (do
      r ← Table.add moved b.lab_names label_name
      let next = record b { lab_names = r.table; lab_tab = b.lab_tab ++ none ∷ [] }
      is_true (length r.table.entry_vec == length next.lab_tab)
      ok (record { body = next; label_idx = r.idx }))

-- U_CODE_BODY::Set_label: a label stands for the position that comes next.
unfoldable pub set_label : CodeBody → ℕ → Result CodeBody
set_label b label_idx =
    is_true (ltb label_idx (length b.lab_tab))
    >> ok (record b { lab_tab = set b.lab_tab label_idx (some (length b.inst_tab)) })

-- U_ENCODER::Add_label.
unfoldable pub add_label : Bool → CodeBody → List ℕ → Result Labelled
unfolding request_label set_label
add_label moved b label_name = do
  r ← request_label moved b label_name
  next ← set_label r.body r.label_idx
  ok (record { body = next; label_idx = r.label_idx })

abbrev pub complete : List (Option ℕ) → Bool
complete [] = true
complete (some pos ∷ ls) = complete ls
complete (none ∷ ls) = false

-- sizeof(UBH_CODE), and Entry_size, a UINT32.
abbrev pub ubh_code_size : ℕ
ubh_code_size = 40

abbrev pub entry_size : CodeBody → ℕ
entry_size b = (ubh_code_size + 4 * (length b.inst_tab + length b.lab_tab)) % 2 ^ 32

-- U_CODE_BODY::Finish.
unfoldable pub finish_body : ℕ → CodeBody → Result CodeBody
finish_body entry_off b =
    is_true (complete b.lab_tab)
    >> ok (record b {
      label_num = length b.lab_tab % 2 ^ 12;
      code_size = length b.inst_tab % 2 ^ 20;
      inst_tab_off = entry_off + ubh_code_size;
      label_tab_off = entry_off + ubh_code_size + 4 * length b.inst_tab;
    })

-- The loop of U_INST_ENCODER::Finish, from `entry_off` on.
unfoldable pub finish : ℕ → List CodeBody → Result (List CodeBody)
unfolding finish_body
finish entry_off [] = ok []
finish entry_off (b ∷ bs) = do
  done ← finish_body entry_off b
  rest ← finish ((entry_off + entry_size done) % 2 ^ 32) bs
  ok (done ∷ rest)

-- Code_sec_size.
unfoldable pub code_sec_size : List CodeBody → ℕ
code_sec_size bs = sum_from 0 bs
  where
    sum_from : ℕ → List CodeBody → ℕ
    sum_from size [] = size
    sum_from size (b ∷ bs) = sum_from ((size + entry_size b) % 2 ^ 32) bs

-- The labels as the words that are written; an incomplete one is UNINIT_LABEL_IDX.
abbrev pub label_words : List (Option ℕ) → List ℕ
label_words [] = []
label_words (some pos ∷ ls) = pos ∷ label_words ls
label_words (none ∷ ls) = (2 ^ 32 - 1) ∷ label_words ls

-- U_INST_ENCODER::Write_to_buf; `head` gives the ten words of a UBH_CODE.
unfoldable pub write_to_buf : (CodeBody → List ℕ) → List CodeBody → List ℕ
write_to_buf head [] = []
write_to_buf head (b ∷ bs) =
    head b ++ (b.inst_tab ++ (label_words b.lab_tab ++ write_to_buf head bs))

-- Where Set_code_sec finds the bodies: the offsets of the UBH_CODEs in the section, from `code_sec_p`
-- on, by the sizes that they hold.
unfoldable pub code_offsets : ℕ → List CodeBody → List ℕ
code_offsets code_sec_p [] = []
code_offsets code_sec_p (b ∷ bs) =
    code_sec_p ∷ code_offsets (code_sec_p + ubh_code_size + b.code_size * 4 + b.label_num * 4) bs
