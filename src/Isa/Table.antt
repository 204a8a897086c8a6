-- ===== src/Isa/Table.antt =====
-- The opcode list of src/ubh/u_opcode_list.def, row by row, with the address mode of each opcode
-- (UWINST_TY_AM of src/ubh/u_opcode.cxx).
use uwasm_vm.Base.{ℕ, ◌<◌, ◌≡◌, refl, Option, some, List, [], ◌∷◌, length, get_elem?}
use uwasm_vm.Base.{lt_of_get_elem?, eq_some_of_map}
use mathlib.Core.Option
use uwasm_vm.Isa.Opcode.{
  Op, TyAm, nop, unreach, return, call, jmp, call_indirect, jmp_indirect, memorysize, memorygrow,
  add_ri, llda, glda, mov, add_rr, const_short, adds_i, adds, subs, rotl, rotr, conv_i32,
  conv_i32_u, conv_i64, conv_f32, conv_f64, eqz, ceil, floor, sqrt, neg, reinterpret_f32,
  reinterpret_f64, reinterpret_i32, reinterpret_i64, break, const_l, const_l_high, ctz, popcnt,
  add_rri, select, llda_l, builtin, gget, gset, unused, jump_zero, jump_cmp, jump_cmp_l, compare,
  load, load_l, lload, lload_l, store, store_l, lstore, lstore_l, arith_op, ez, nz, lz, lez, gz,
  gez, eq, ne, lt, le, gt, ge, lt_u, le_u, gt_u, ge_u, full, s8, u8, s16, u16, s32, u32, whole, w8,
  w16, w32, add, sub, mul, div, div_u, rem, rem_u, and, or, xor, shl, shr, shr_u, min, max, am32,
  am32_ofs, am32_r, am32_r_imm, am32_r_ofs, am32_r_r, am32s_r_r_imm, am32s_r_r_ofs, am32s_r_r_r,
  am64_r_imm, am64_r_ofs, am64_r_r_imm, am64_r_r_ofs, am64_r_r_r,
}

-- A row: the enumerator's value, which the encoder is given, the opcode and its address mode.
pub record Entry : Type 0 where
  pub value : ℕ
  pub op : Op
  pub ty_am : TyAm

abbrev entry : ℕ → Op → TyAm → Entry
entry n o t = record { value = n; op = o; ty_am = t }

-- The rows in order: row n is what UWINST_TY_AM holds at n, and what the long opcodes 4n to
-- 4n + 3 of u_opcode_list_l.def are made of.
unfoldable pub opcode_table : List Entry
opcode_table =
    entry 0x00 nop am32
    ∷ entry 0x01 unreach am32
    ∷ entry 0x02 return am32
    ∷ entry 0x03 call am32_ofs
    ∷ entry 0x04 jmp am32_ofs
    ∷ entry 0x05 call_indirect am32_r
    ∷ entry 0x06 jmp_indirect am32_r
    ∷ entry 0x07 memorysize am32_r
    ∷ entry 0x08 memorygrow am32_r_r
    ∷ entry 0x09 add_ri am32_r_imm
    ∷ entry 0x0a (jump_zero ez) am32_r_ofs
    ∷ entry 0x0b (jump_zero nz) am32_r_ofs
    ∷ entry 0x0c (jump_zero lz) am32_r_ofs
    ∷ entry 0x0d (jump_zero lez) am32_r_ofs
    ∷ entry 0x0e (jump_zero gz) am32_r_ofs
    ∷ entry 0x0f (jump_zero gez) am32_r_ofs
    ∷ entry 0x10 llda am32_r_ofs
    ∷ entry 0x11 glda am32_r_ofs
    ∷ entry 0x12 mov am32_r_r
    ∷ entry 0x13 add_rr am32_r_r
    ∷ entry 0x14 const_short am32_r_imm
    ∷ entry 0x15 adds_i am32s_r_r_imm
    ∷ entry 0x16 (jump_cmp eq) am32s_r_r_ofs
    ∷ entry 0x17 (jump_cmp ne) am32s_r_r_ofs
    ∷ entry 0x18 (jump_cmp lt) am32s_r_r_ofs
    ∷ entry 0x19 (jump_cmp le) am32s_r_r_ofs
    ∷ entry 0x1a (jump_cmp gt) am32s_r_r_ofs
    ∷ entry 0x1b (jump_cmp ge) am32s_r_r_ofs
    ∷ entry 0x1c (jump_cmp lt_u) am32s_r_r_ofs
    ∷ entry 0x1d (jump_cmp le_u) am32s_r_r_ofs
    ∷ entry 0x1e (jump_cmp gt_u) am32s_r_r_ofs
    ∷ entry 0x1f (jump_cmp ge_u) am32s_r_r_ofs
    ∷ entry 0x20 (load full) am32s_r_r_imm
    ∷ entry 0x21 (load s8) am32s_r_r_imm
    ∷ entry 0x22 (load u8) am32s_r_r_imm
    ∷ entry 0x23 (load s16) am32s_r_r_imm
    ∷ entry 0x24 (load u16) am32s_r_r_imm
    ∷ entry 0x25 (load s32) am32s_r_r_imm
    ∷ entry 0x26 (load u32) am32s_r_r_imm
    ∷ entry 0x27 (store whole) am32s_r_r_imm
    ∷ entry 0x28 (store w8) am32s_r_r_imm
    ∷ entry 0x29 (store w16) am32s_r_r_imm
    ∷ entry 0x2a (store w32) am32s_r_r_imm
    ∷ entry 0x2b (lload full) am32_r_imm
    ∷ entry 0x2c (lload s8) am32_r_imm
    ∷ entry 0x2d (lload u8) am32_r_imm
    ∷ entry 0x2e (lload s16) am32_r_imm
    ∷ entry 0x2f (lload u16) am32_r_imm
    ∷ entry 0x30 (lload s32) am32_r_imm
    ∷ entry 0x31 (lload u32) am32_r_imm
    ∷ entry 0x32 (lstore whole) am32_r_imm
    ∷ entry 0x33 (lstore w8) am32_r_imm
    ∷ entry 0x34 (lstore w16) am32_r_imm
    ∷ entry 0x35 (lstore w32) am32_r_imm
    ∷ entry 0x36 adds am32s_r_r_r
    ∷ entry 0x37 subs am32s_r_r_r
    ∷ entry 0x38 rotl am32s_r_r_r
    ∷ entry 0x39 rotr am32s_r_r_r
    ∷ entry 0x3a conv_i32 am32_r_r
    ∷ entry 0x3b conv_i32_u am32_r_r
    ∷ entry 0x3c conv_i64 am32_r_r
    ∷ entry 0x3d conv_f32 am32_r_r
    ∷ entry 0x3e conv_f64 am32_r_r
    ∷ entry 0x3f eqz am32_r_r
    ∷ entry 0x40 ceil am32_r_r
    ∷ entry 0x41 floor am32_r_r
    ∷ entry 0x42 sqrt am32_r_r
    ∷ entry 0x43 neg am32_r_r
    ∷ entry 0x44 reinterpret_f32 am32_r_r
    ∷ entry 0x45 reinterpret_f64 am32_r_r
    ∷ entry 0x46 reinterpret_i32 am32_r_r
    ∷ entry 0x47 reinterpret_i64 am32_r_r
    ∷ entry 0x48 break am32
    ∷ entry 0x49 unused am32
    ∷ entry 0x4a unused am32
    ∷ entry 0x4b unused am32
    ∷ entry 0x4c unused am32
    ∷ entry 0x4d unused am32
    ∷ entry 0x4e unused am32
    ∷ entry 0x4f unused am32
    ∷ entry 0x50 unused am32
    ∷ entry 0x51 unused am32
    ∷ entry 0x52 unused am32
    ∷ entry 0x53 unused am32
    ∷ entry 0x54 unused am32
    ∷ entry 0x55 unused am32
    ∷ entry 0x56 unused am32
    ∷ entry 0x57 unused am32
    ∷ entry 0x58 unused am32
    ∷ entry 0x59 unused am32
    ∷ entry 0x5a unused am32
    ∷ entry 0x5b unused am32
    ∷ entry 0x5c unused am32
    ∷ entry 0x5d unused am32
    ∷ entry 0x5e unused am32
    ∷ entry 0x5f unused am32
    ∷ entry 0x60 unused am32
    ∷ entry 0x61 unused am32
    ∷ entry 0x62 unused am32
    ∷ entry 0x63 unused am32
    ∷ entry 0x64 unused am32
    ∷ entry 0x65 unused am32
    ∷ entry 0x66 unused am32
    ∷ entry 0x67 unused am32
    ∷ entry 0x68 unused am32
    ∷ entry 0x69 unused am32
    ∷ entry 0x6a unused am32
    ∷ entry 0x6b unused am32
    ∷ entry 0x6c unused am32
    ∷ entry 0x6d unused am32
    ∷ entry 0x6e unused am32
    ∷ entry 0x6f unused am32
    ∷ entry 0x70 unused am32
    ∷ entry 0x71 unused am32
    ∷ entry 0x72 unused am32
    ∷ entry 0x73 unused am32
    ∷ entry 0x74 unused am32
    ∷ entry 0x75 unused am32
    ∷ entry 0x76 unused am32
    ∷ entry 0x77 unused am32
    ∷ entry 0x78 unused am32
    ∷ entry 0x79 unused am32
    ∷ entry 0x7a unused am32
    ∷ entry 0x7b unused am32
    ∷ entry 0x7c unused am32
    ∷ entry 0x7d unused am32
    ∷ entry 0x7e unused am32
    ∷ entry 0x7f unused am32
    ∷ entry 0x80 const_l am64_r_imm
    ∷ entry 0x81 const_l_high am64_r_imm
    ∷ entry 0x82 ctz am64_r_ofs
    ∷ entry 0x83 popcnt am64_r_ofs
    ∷ entry 0x84 add_rri am64_r_r_imm
    ∷ entry 0x85 (jump_cmp_l eq) am64_r_r_ofs
    ∷ entry 0x86 (jump_cmp_l ne) am64_r_r_ofs
    ∷ entry 0x87 (jump_cmp_l lt) am64_r_r_ofs
    ∷ entry 0x88 (jump_cmp_l le) am64_r_r_ofs
    ∷ entry 0x89 (jump_cmp_l gt) am64_r_r_ofs
    ∷ entry 0x8a (jump_cmp_l ge) am64_r_r_ofs
    ∷ entry 0x8b (jump_cmp_l lt_u) am64_r_r_ofs
    ∷ entry 0x8c (jump_cmp_l le_u) am64_r_r_ofs
    ∷ entry 0x8d (jump_cmp_l gt_u) am64_r_r_ofs
    ∷ entry 0x8e (jump_cmp_l ge_u) am64_r_r_ofs
    ∷ entry 0x8f (load_l full) am64_r_r_imm
    ∷ entry 0x90 (load_l s8) am64_r_r_imm
    ∷ entry 0x91 (load_l u8) am64_r_r_imm
    ∷ entry 0x92 (load_l s16) am64_r_r_imm
    ∷ entry 0x93 (load_l u16) am64_r_r_imm
    ∷ entry 0x94 (load_l s32) am64_r_r_imm
    ∷ entry 0x95 (load_l u32) am64_r_r_imm
    ∷ entry 0x96 (store_l whole) am64_r_r_imm
    ∷ entry 0x97 (store_l w8) am64_r_r_imm
    ∷ entry 0x98 (store_l w16) am64_r_r_imm
    ∷ entry 0x99 (store_l w32) am64_r_r_imm
    ∷ entry 0x9a select am64_r_r_ofs
    ∷ entry 0x9b (lload_l full) am64_r_imm
    ∷ entry 0x9c (lload_l s8) am64_r_imm
    ∷ entry 0x9d (lload_l u8) am64_r_imm
    ∷ entry 0x9e (lload_l s16) am64_r_imm
    ∷ entry 0x9f (lload_l u16) am64_r_imm
    ∷ entry 0xa0 (lload_l s32) am64_r_imm
    ∷ entry 0xa1 (lload_l u32) am64_r_imm
    ∷ entry 0xa2 (lstore_l whole) am64_r_imm
    ∷ entry 0xa3 (lstore_l w8) am64_r_imm
    ∷ entry 0xa4 (lstore_l w16) am64_r_imm
    ∷ entry 0xa5 (lstore_l w32) am64_r_imm
    ∷ entry 0xa6 (compare eq) am64_r_r_r
    ∷ entry 0xa7 (compare ne) am64_r_r_r
    ∷ entry 0xa8 (compare lt) am64_r_r_r
    ∷ entry 0xa9 (compare lt_u) am64_r_r_r
    ∷ entry 0xaa (compare gt) am64_r_r_r
    ∷ entry 0xab (compare gt_u) am64_r_r_r
    ∷ entry 0xac (compare le) am64_r_r_r
    ∷ entry 0xad (compare le_u) am64_r_r_r
    ∷ entry 0xae (compare ge) am64_r_r_r
    ∷ entry 0xaf (compare ge_u) am64_r_r_r
    ∷ entry 0xb0 (arith_op add) am64_r_r_r
    ∷ entry 0xb1 (arith_op sub) am64_r_r_r
    ∷ entry 0xb2 (arith_op mul) am64_r_r_r
    ∷ entry 0xb3 (arith_op div) am64_r_r_r
    ∷ entry 0xb4 (arith_op div_u) am64_r_r_r
    ∷ entry 0xb5 (arith_op rem) am64_r_r_r
    ∷ entry 0xb6 (arith_op rem_u) am64_r_r_r
    ∷ entry 0xb7 (arith_op and) am64_r_r_r
    ∷ entry 0xb8 (arith_op or) am64_r_r_r
    ∷ entry 0xb9 (arith_op xor) am64_r_r_r
    ∷ entry 0xba (arith_op shl) am64_r_r_r
    ∷ entry 0xbb (arith_op shr) am64_r_r_r
    ∷ entry 0xbc (arith_op shr_u) am64_r_r_r
    ∷ entry 0xbd (arith_op min) am64_r_r_r
    ∷ entry 0xb1e (arith_op max) am64_r_r_r
    ∷ entry 0xbf llda_l am64_r_ofs
    ∷ entry 0xc0 builtin am64_r_r_imm
    ∷ entry 0xc1 gget am64_r_ofs
    ∷ entry 0xc2 gset am64_r_ofs
    ∷ []

-- UWINST_TY_AM[opcode]; there is no entry past the end of the array.
unfoldable pub ty_am_of : ℕ → Option TyAm
ty_am_of n = Option.map (λ e. e.ty_am) (get_elem? opcode_table n)

unfoldable pub op_of : ℕ → Option Op
op_of n = Option.map (λ e. e.op) (get_elem? opcode_table n)

length-opcode_table : length opcode_table ≡ 195
unfolding opcode_table
length-opcode_table = refl

pub lt_of_opcode_table : (n : ℕ) {r : Entry} → get_elem? opcode_table n ≡ some r → n < 195
lt_of_opcode_table n found = rw length-opcode_table at (lt_of_get_elem? opcode_table n found)

-- An opcode of the list is a byte.
pub ty_am_of-lt : (o : ℕ) {t : TyAm} → ty_am_of o ≡ some t → o < 195
unfolding ty_am_of
ty_am_of-lt o h =
    let (a, found) = eq_some_of_map _ (get_elem? opcode_table o) h in lt_of_opcode_table o found
