-- ===== src/Encoder/Funcs.antt =====
-- The functions, natives and globals that U_ENCODER collects (src/encoder/u_encoder.cxx), with
-- UBH_FUNC, UBH_IMP_NAT and UBH_GLBL (include/ubh/ubh.h). A name has the 0 at its end.
use uwasm_vm.Base.{ℕ, ◌+◌, ◌-◌, ◌%◌, ◌^◌, Bool, true, false, not, ltb, ◌==◌, if◌then◌else◌}
use uwasm_vm.Base.{List, [], ◌∷◌, ◌++◌, length, get_elem?, set, Option, some, none, bit_and}
use uwasm_vm.Base.{Result, ok, err, assertion, ◌>>◌, ◌>>=◌, is_true}
use uwasm_vm.StrTab.Table
use uwasm_vm.StrTab.Table.{StrTab, new_str_tab}

-- Four UINT16.
pub record UbhFunc : Type 0 where
  pub type_idx : ℕ
  pub name_idx : ℕ
  pub flags : ℕ
  pub code_idx : ℕ

abbrev pub ubh_func : ℕ → ℕ → ℕ → UbhFunc
ubh_func type_idx name_idx flags = record {
  type_idx = type_idx % 2 ^ 16;
  name_idx = name_idx % 2 ^ 16;
  flags = flags % 2 ^ 16;
  code_idx = 0;
}

pub record UbhImpNat : Type 0 where
  pub func_idx : ℕ
  pub ntype_off : ℕ

pub record UbhGlbl : Type 0 where
  pub is_mut : Bool
  pub ty : ℕ
  pub data_idx : ℕ
  pub init_val : ℕ

-- The tables that requests work on; `code_num` is the number of code bodies.
pub record Encoder : Type 0 where
  pub cur_func_idx : ℕ
  pub import_tab : List ℕ
  pub imp_nat_tab : List UbhImpNat
  pub export_tab : List ℕ
  pub func_tab : List UbhFunc
  pub glbl_tab : List UbhGlbl
  pub code_num : ℕ
  pub module_str_tab : StrTab
  pub global_name_tab : StrTab
  pub nn_tab : StrTab

-- F_EXTERN, F_NATIVE and F_EXPORT.
abbrev pub f_extern : ℕ
f_extern = 1

abbrev pub f_native : ℕ
f_native = 2

abbrev pub f_export : ℕ
f_export = 4

abbrev pub has_flag : ℕ → ℕ → Bool
has_flag flags flag = not (bit_and flags flag == 0)

pub record Requested : Type 0 where
  pub encoder : Encoder
  pub func_idx : ℕ
  pub exist : Bool

-- The loop over the function table.
unfoldable pub find_func : ℕ → List UbhFunc → ℕ → Option ℕ
find_func i [] name_idx = none
find_func i (f ∷ fs) name_idx =
    let rest = find_func (i + 1) fs name_idx in if f.name_idx == name_idx then some i else rest

-- Inner_request_func. It looks for the number of the name's entry among the offsets that the
-- functions hold.
unfoldable pub inner_request_func : Bool → Encoder → List ℕ → ℕ → ℕ → Result Requested
unfolding find_func Table.contains Table.get_idx Table.add Table.get_off
inner_request_func moved e func_name type_idx flags =
    if Table.contains e.module_str_tab func_name
    then (elim (find_func 0 e.func_tab (Table.get_idx e.module_str_tab func_name)) [
      | some i ↦ ok (record { encoder = e; func_idx = i; exist = true })
      | none ↦ err assertion
    ])
    else (do
      r ← Table.add moved e.module_str_tab func_name
      name_idx ← Table.get_off r.table r.idx
      let func_tab = e.func_tab ++ ubh_func type_idx name_idx flags ∷ []
      ok (record {
        encoder = record e { module_str_tab = r.table; func_tab = func_tab };
        func_idx = length func_tab - 1;
        exist = false;
      }))

pub record Answer : Type 0 where
  pub encoder : Encoder
  pub idx : ℕ

-- Add_to_import_tab and Add_to_export_tab; UBH_IMPORT and UBH_EXPORT keep 28 bits of the index.
abbrev pub import_if : Bool → ℕ → Encoder → Encoder
import_if wanted i e =
    if wanted then record e { import_tab = e.import_tab ++ i % 2 ^ 28 ∷ [] } else e

abbrev pub export_if : Bool → ℕ → Encoder → Encoder
export_if wanted i e =
    if wanted then record e { export_tab = e.export_tab ++ i % 2 ^ 28 ∷ [] } else e

abbrev pub last_func : Encoder → ℕ
last_func e = length e.func_tab - 1

unfoldable pub request_func : Bool → Encoder → List ℕ → ℕ → ℕ → Result Answer
unfolding inner_request_func
request_func moved e func_name type_idx flags = do
  r ← inner_request_func moved e func_name type_idx flags
  is_true (bit_and flags f_native == 0)
  let i = last_func r.encoder
  ok (record {
    encoder =
        (if r.exist
          then r.encoder
          else export_if (has_flag flags f_export) i
              (import_if (has_flag flags f_extern) i r.encoder));
    idx = r.func_idx;
  })

-- NTYPE codes are bytes, with NTYPE_V as 0 and NTYPE_NUM as 12.
unfoldable pub encode_and_save_ntype : Bool → StrTab → ℕ → List ℕ → Result Table.Indexed
unfolding Table.request Table.get_off
encode_and_save_ntype moved nn_tab ret_ntype param_ntypes = do
  is_true (ltb ret_ntype 12)
  r ← Table.request moved nn_tab (if ret_ntype == 0 then param_ntypes else ret_ntype ∷ param_ntypes)
  off ← Table.get_off r.table r.idx
  ok (record { table = r.table; idx = off })

unfoldable pub request_native_func : Bool → Bool → Encoder → List ℕ → ℕ → ℕ → List ℕ → Result Answer
unfolding inner_request_func encode_and_save_ntype
request_native_func moved nn_moved e func_name type_idx ret_ntype param_ntypes = do
  r ← inner_request_func moved e func_name type_idx (f_extern + f_native)
  if r.exist then ok (record { encoder = r.encoder; idx = r.func_idx }) else (do
    n ← encode_and_save_ntype nn_moved r.encoder.nn_tab ret_ntype param_ntypes
    let entry : UbhImpNat = record { func_idx = last_func r.encoder % 2 ^ 28; ntype_off = n.idx }
    ok (record {
      encoder = record r.encoder {
        nn_tab = n.table;
        imp_nat_tab = r.encoder.imp_nat_tab ++ entry ∷ [];
      };
      idx = r.func_idx;
    }))

-- Start_func with Allocate_code_body; an index out of range ends the process.
unfoldable pub start_func : Encoder → ℕ → Result Answer
start_func e func_idx = elim (get_elem? e.func_tab func_idx) [
  | some f ↦ ok (record {
    encoder = record e {
      cur_func_idx = func_idx;
      code_num = e.code_num + 1;
      func_tab = set e.func_tab func_idx (record f { code_idx = e.code_num % 2 ^ 16 });
    };
    idx = e.code_num;
  })
  | none ↦ err assertion
]

-- Add_global for a name alone, which only reserves the name.
unfoldable pub add_global_name : Bool → Encoder → List ℕ → Result Answer
unfolding Table.request
add_global_name moved e sym_name = do
  r ← Table.request moved e.global_name_tab sym_name
  ok (record { encoder = record e { global_name_tab = r.table }; idx = r.idx })

-- Add_global for an initial value, and that for an index into the data section, which leaves the
-- type of the new entry at 0.
unfoldable pub add_glbl : Bool → Encoder → UbhGlbl → List ℕ → Result Answer
unfolding Table.contains Table.add
add_glbl moved e glbl sym_name = do
  is_true (not (Table.contains e.global_name_tab sym_name))
  r ← Table.add moved e.global_name_tab sym_name
  ok (record {
    encoder = record e { global_name_tab = r.table; glbl_tab = e.glbl_tab ++ glbl ∷ [] };
    idx = length e.glbl_tab;
  })

abbrev pub add_global : Bool → Encoder → Bool → ℕ → ℕ → List ℕ → Result Answer
add_global moved e mut valty val sym_name =
    add_glbl moved e (record { is_mut = mut; ty = valty % 4; data_idx = 0; init_val = val })
      sym_name

abbrev pub add_global_data : Bool → Encoder → Bool → ℕ → List ℕ → Result Answer
add_global_data moved e mut val sym_name =
    add_glbl moved e (record { is_mut = mut; ty = 0; data_idx = val; init_val = val }) sym_name

-- The string tables of a new encoder, which hold the string of one 0.
abbrev pub started_tab : StrTab
started_tab = record {
  entry_vec = record { off = 0; len = 1 } ∷ [];
  raw_buf = 0 ∷ [];
  cache = record { key = record { off = 0; len = 1 }; idx = 0 } ∷ [];
}

abbrev pub new_encoder : Encoder
new_encoder = record {
  cur_func_idx = 2 ^ 32 - 1;
  import_tab = [];
  imp_nat_tab = [];
  export_tab = [];
  func_tab = [];
  glbl_tab = [];
  code_num = 0;
  module_str_tab = started_tab;
  global_name_tab = started_tab;
  nn_tab = started_tab;
}
