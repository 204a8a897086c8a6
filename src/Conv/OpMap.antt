-- ===== src/Conv/OpMap.antt =====
-- The uwasm opcode and value type of each wasm opcode (src/wasm/op_map.h, src/wasm/conv_map.cxx,
-- src/wasm/op_short_long_map.h, src/ubh/u_builtin_list.def).
use uwasm_vm.Base.{ℕ, ◌+◌, Option, none, some}
use uwasm_vm.Isa.Opcode
use uwasm_vm.Isa.Opcode.{Valty, i32, i64, f32, f64, Cmp}
use uwasm_vm.Base.{Result, ok, err, assertion}
use uwasm_vm.Conv.Winst.{
  IntTy, int32, int64, FloatTy, float32, float64, IntBinary, div_s, div_u, and, or, xor, shl, shr_u,
  shr_s, rotl, rotr, rem_u, rem_s, FloatBinary, FloatCmp, FloatUnary, neg, ceil, floor, sqrt, Load,
  part8_s, part8_u, part16_s, part16_u, part32_s, part32_u, Store, part8, part16, part32, Builtin,
  clz, ctz, popcnt, i32_wrap_i64, trunc_f32_s, trunc_f32_u, trunc_f64_s, trunc_f64_u,
  i64_extend_i32_s, i64_extend_i32_u, convert_i32_s, convert_i32_u, convert_i64_s, convert_i64_u,
  f32_demote_f64, f64_promote_f32, i32_reinterpret_f32, i64_reinterpret_f64, f32_reinterpret_i32,
  f64_reinterpret_i64, trunc, nearest, abs, Winst,
}

abbrev pub int_valty : IntTy → Valty
int_valty int32 = i32
int_valty int64 = i64

abbrev pub float_valty : FloatTy → Valty
float_valty float32 = f32
float_valty float64 = f64

-- Values of U_OPCODE (src/ubh/u_opcode_list.def).
abbrev pub unreach_op : ℕ
unreach_op = 0x01

abbrev pub return_op : ℕ
return_op = 0x02

abbrev pub call_op : ℕ
call_op = 0x03

abbrev pub jmp_op : ℕ
jmp_op = 0x04

abbrev pub call_indirect_op : ℕ
call_indirect_op = 0x05

abbrev pub jez_op : ℕ
jez_op = 0x0a

abbrev pub jnz_op : ℕ
jnz_op = 0x0b

abbrev pub mov_op : ℕ
mov_op = 0x12

abbrev pub const_op : ℕ
const_op = 0x14

abbrev pub eqz_op : ℕ
eqz_op = 0x3f

abbrev pub const_l_op : ℕ
const_l_op = 0x80

abbrev pub const_l_high_op : ℕ
const_l_high_op = 0x81

abbrev pub add_rri_op : ℕ
add_rri_op = 0x84

abbrev pub builtin_op : ℕ
builtin_op = 0xc0

abbrev pub compare_op : Cmp → ℕ
compare_op Opcode.eq = 0xa6
compare_op Opcode.ne = 0xa7
compare_op Opcode.lt = 0xa8
compare_op Opcode.lt_u = 0xa9
compare_op Opcode.gt = 0xaa
compare_op Opcode.gt_u = 0xab
compare_op Opcode.le = 0xac
compare_op Opcode.le_u = 0xad
compare_op Opcode.ge = 0xae
compare_op Opcode.ge_u = 0xaf

abbrev pub float_compare_op : FloatCmp → ℕ
float_compare_op FloatCmp.eq = 0xa6
float_compare_op FloatCmp.ne = 0xa7
float_compare_op FloatCmp.lt = 0xa8
float_compare_op FloatCmp.gt = 0xaa
float_compare_op FloatCmp.le = 0xac
float_compare_op FloatCmp.ge = 0xae

abbrev pub int_binary_op : IntBinary → ℕ
int_binary_op IntBinary.add = 0xb0
int_binary_op IntBinary.sub = 0xb1
int_binary_op IntBinary.mul = 0xb2
int_binary_op div_s = 0xb3
int_binary_op div_u = 0xb4
int_binary_op rem_s = 0xb5
int_binary_op rem_u = 0xb6
int_binary_op and = 0xb7
int_binary_op or = 0xb8
int_binary_op xor = 0xb9
int_binary_op shl = 0xba
int_binary_op shr_s = 0xbb
int_binary_op shr_u = 0xbc
int_binary_op rotl = 0x38
int_binary_op rotr = 0x39

abbrev pub float_binary_op : FloatBinary → ℕ
float_binary_op FloatBinary.add = 0xb0
float_binary_op FloatBinary.sub = 0xb1
float_binary_op FloatBinary.mul = 0xb2
float_binary_op FloatBinary.div = 0xb3

abbrev pub float_unary_op : FloatUnary → ℕ
float_unary_op ceil = 0x40
float_unary_op floor = 0x41
float_unary_op sqrt = 0x42
float_unary_op neg = 0x43

abbrev pub load_op : Load → ℕ
load_op (Load.whole_of v) = 0x20
load_op (part8_s t) = 0x21
load_op (part8_u t) = 0x22
load_op (part16_s t) = 0x23
load_op (part16_u t) = 0x24
load_op part32_s = 0x25
load_op part32_u = 0x26

abbrev pub load_valty : Load → Valty
load_valty (Load.whole_of v) = v
load_valty (part8_s t) = int_valty t
load_valty (part8_u t) = int_valty t
load_valty (part16_s t) = int_valty t
load_valty (part16_u t) = int_valty t
load_valty _ = i64

abbrev pub store_op : Store → ℕ
store_op (Store.whole_of v) = 0x27
store_op (part8 t) = 0x28
store_op (part16 t) = 0x29
store_op part32 = 0x2a

abbrev pub store_valty : Store → Valty
store_valty (Store.whole_of v) = v
store_valty (part8 t) = int_valty t
store_valty (part16 t) = int_valty t
store_valty part32 = i64

-- Conv_to_long_opcode for the loads and stores (src/wasm/op_short_long_map.h): the rows of the
-- short and the long forms are in the same order.
abbrev pub long_of : ℕ → ℕ
long_of short_opcode = short_opcode + 0x6f

abbrev pub builtin_valty : Builtin → Valty
builtin_valty (clz t) = int_valty t
builtin_valty (ctz t) = int_valty t
builtin_valty (popcnt t) = int_valty t
builtin_valty i32_wrap_i64 = i32
builtin_valty (trunc_f32_s t) = int_valty t
builtin_valty (trunc_f32_u t) = int_valty t
builtin_valty (trunc_f64_s t) = int_valty t
builtin_valty (trunc_f64_u t) = int_valty t
builtin_valty i64_extend_i32_s = i64
builtin_valty i64_extend_i32_u = i64
builtin_valty (convert_i32_s t) = float_valty t
builtin_valty (convert_i32_u t) = float_valty t
builtin_valty (convert_i64_s t) = float_valty t
builtin_valty (convert_i64_u t) = float_valty t
builtin_valty f32_demote_f64 = f32
builtin_valty f64_promote_f32 = f64
builtin_valty i32_reinterpret_f32 = i32
builtin_valty i64_reinterpret_f64 = i64
builtin_valty f32_reinterpret_i32 = f32
builtin_valty f64_reinterpret_i64 = f64
builtin_valty (trunc t) = float_valty t
builtin_valty (nearest t) = float_valty t
builtin_valty (abs t) = float_valty t

-- Conv_wasm_opc_to_builtin, by the rows of src/ubh/u_builtin_list.def; other opcodes have none.
abbrev pub builtin_code : Builtin → Option ℕ
builtin_code i64_extend_i32_s = some 0x01
builtin_code i64_extend_i32_u = some 0x02
builtin_code i32_wrap_i64 = some 0x03
builtin_code (convert_i32_s float64) = some 0x04
builtin_code (convert_i32_u float64) = some 0x05
builtin_code (trunc_f64_u int32) = some 0x06
builtin_code i64_reinterpret_f64 = some 0x07
builtin_code i32_reinterpret_f32 = some 0x08
builtin_code f64_reinterpret_i64 = some 0x09
builtin_code f32_reinterpret_i32 = some 0x0a
builtin_code (abs float64) = some 0x0b
builtin_code (trunc_f64_s int32) = some 0x0b
builtin_code _ = none

-- U_OPC_TY_PAIR (src/ubh/u_inst.h).
pub record OpcTyPair : Type 0 where
  pub opcode : ℕ
  pub valty : Valty

abbrev pair : ℕ → Valty → Result OpcTyPair
pair op v = ok (record { opcode = op; valty = v })

-- UOPCODE_from_wasm. An opcode that is not converted fails here or in the switch.
unfoldable pub uopcode_from_wasm : Winst → Result OpcTyPair
uopcode_from_wasm Winst.unreachable = pair unreach_op i32
uopcode_from_wasm Winst.nop = pair 0x00 i32
uopcode_from_wasm (Winst.block t) = pair jmp_op i32
uopcode_from_wasm (Winst.loop t) = pair jmp_op i32
uopcode_from_wasm (Winst.if_ t) = pair jez_op i32
uopcode_from_wasm Winst.else_ = pair jmp_op i32
uopcode_from_wasm Winst.end = pair return_op i32
uopcode_from_wasm (Winst.br n) = pair jmp_op i32
uopcode_from_wasm (Winst.br_if n) = pair jnz_op i32
uopcode_from_wasm (Winst.br_table ls) = pair unreach_op i32
uopcode_from_wasm Winst.return = pair return_op i32
uopcode_from_wasm (Winst.call i) = pair call_op i32
uopcode_from_wasm (Winst.call_indirect i) = pair call_indirect_op i32
uopcode_from_wasm Winst.drop = pair 0x00 i32
uopcode_from_wasm Winst.select = pair 0x9a i32
uopcode_from_wasm (Winst.local_get i) = pair 0x00 i32
uopcode_from_wasm (Winst.local_set i) = pair mov_op i32
uopcode_from_wasm (Winst.local_tee i) = pair mov_op i32
uopcode_from_wasm (Winst.global_get i) = pair 0xc1 i32
uopcode_from_wasm (Winst.global_set i) = pair 0xc2 i32
uopcode_from_wasm (Winst.load l ofs) = pair (load_op l) (load_valty l)
uopcode_from_wasm (Winst.store s ofs) = pair (store_op s) (store_valty s)
uopcode_from_wasm Winst.memory_size = pair 0x07 i32
uopcode_from_wasm Winst.memory_grow = pair 0x08 i32
uopcode_from_wasm (Winst.const i32 n) = pair const_l_op i32
uopcode_from_wasm (Winst.const i64 n) = pair const_l_high_op i64
uopcode_from_wasm (Winst.const f32 n) = pair const_l_op f32
uopcode_from_wasm (Winst.const f64 n) = pair const_l_high_op f64
uopcode_from_wasm (Winst.int_compare t c) = pair (compare_op c) (int_valty t)
uopcode_from_wasm (Winst.float_compare t c) = pair (float_compare_op c) (float_valty t)
uopcode_from_wasm (Winst.int_binary t o) = pair (int_binary_op o) (int_valty t)
uopcode_from_wasm (Winst.float_binary t o) = pair (float_binary_op o) (float_valty t)
uopcode_from_wasm (Winst.copysign t) = pair builtin_op (float_valty t)
uopcode_from_wasm (Winst.float_unary t o) = pair (float_unary_op o) (float_valty t)
uopcode_from_wasm (Winst.builtin b) = pair builtin_op (builtin_valty b)
uopcode_from_wasm (Winst.eqz t) = pair eqz_op (int_valty t)
uopcode_from_wasm Winst.other = err assertion
