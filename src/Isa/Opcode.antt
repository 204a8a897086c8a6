-- ===== src/Isa/Opcode.antt =====
-- The value types and address modes of include/u_am.h, and the opcodes of
-- src/ubh/u_opcode_list.def.
use uwasm_vm.Base.{ℕ, Bool, true, false}

-- VALTYPE. The instruction's type field holds one of the four.
pub data Valty : Type 0 where
  i32 i64 f32 f64 : Valty

abbrev pub valty_code : Valty → ℕ
valty_code i32 = 0
valty_code i64 = 1
valty_code f32 = 2
valty_code f64 = 3

abbrev pub is_int : Valty → Bool
is_int i32 = true
is_int i64 = true
is_int f32 = false
is_int f64 = false

abbrev pub is_float : Valty → Bool
is_float i32 = false
is_float i64 = false
is_float f32 = true
is_float f64 = true

-- TY_AM.
pub data TyAm : Type 0 where
  am32 am32_ofs am32_r am32_r_imm am32_r_ofs am32_r_r : TyAm
  am32s_r_r_imm am32s_r_r_ofs am32s_r_r_r : TyAm
  am64_r_imm am64_r_ofs am64_r_r_imm am64_r_r_ofs am64_r_r_r : TyAm

-- The tests of JEZ to JGEZ.
pub data ZeroTest : Type 0 where
  ez nz lz lez gz gez : ZeroTest

-- The tests of JEQ to JGE_U and of EQ to GE_U.
pub data Cmp : Type 0 where
  eq ne lt le gt ge lt_u le_u gt_u ge_u : Cmp

-- What a load reads, and what a store writes.
pub data Access : Type 0 where
  full s8 u8 s16 u16 s32 u32 : Access

pub data StoreWidth : Type 0 where
  whole w8 w16 w32 : StoreWidth

-- ADD to MAX, the operations on three registers.
pub data Arith : Type 0 where
  add sub mul div div_u rem rem_u and or xor shl shr shr_u min max : Arith

-- U_OPCODE; a family of opcodes that differ in one respect is one constructor.
pub data Op : Type 0 where
  nop unreach return call jmp call_indirect jmp_indirect memorysize memorygrow : Op
  add_ri llda glda mov add_rr const_short adds_i adds subs rotl rotr : Op
  conv_i32 conv_i32_u conv_i64 conv_f32 conv_f64 eqz ceil floor sqrt neg : Op
  reinterpret_f32 reinterpret_f64 reinterpret_i32 reinterpret_i64 break : Op
  const_l const_l_high ctz popcnt add_rri select llda_l builtin gget gset unused : Op
  jump_zero : ZeroTest → Op
  jump_cmp jump_cmp_l compare : Cmp → Op
  load load_l lload lload_l : Access → Op
  store store_l lstore lstore_l : StoreWidth → Op
  arith_op : Arith → Op
