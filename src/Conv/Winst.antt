-- ===== src/Conv/Winst.antt =====
-- The wasm instructions as the converter's switch tells them apart (src/wasm/winst_opcode_list.h),
-- with their immediates read.
use uwasm_vm.Base.{ℕ, List}
use uwasm_vm.Isa.Opcode.{Valty, Cmp}

pub data IntTy : Type 0 where
  int32 int64 : IntTy

pub data FloatTy : Type 0 where
  float32 float64 : FloatTy

pub data IntBinary : Type 0 where
  add sub mul div_s div_u and xor or shl shr_u shr_s rotl rotr rem_u rem_s : IntBinary

pub data FloatBinary : Type 0 where
  add sub mul div : FloatBinary

pub data FloatCmp : Type 0 where
  eq ne lt gt le ge : FloatCmp

pub data FloatUnary : Type 0 where
  neg ceil floor sqrt : FloatUnary

-- I32Load to I64Load32U, and the stores.
pub data Load : Type 0 where
  whole_of : Valty → Load
  part8_s part8_u part16_s part16_u : IntTy → Load
  part32_s part32_u : Load

pub data Store : Type 0 where
  whole_of : Valty → Store
  part8 part16 : IntTy → Store
  part32 : Store

-- The instructions with one operand that become BUILTIN.
pub data Builtin : Type 0 where
  clz ctz popcnt : IntTy → Builtin
  i32_wrap_i64 : Builtin
  trunc_f32_s trunc_f32_u trunc_f64_s trunc_f64_u : IntTy → Builtin
  i64_extend_i32_s i64_extend_i32_u : Builtin
  convert_i32_s convert_i32_u convert_i64_s convert_i64_u : FloatTy → Builtin
  f32_demote_f64 f64_promote_f32 : Builtin
  i32_reinterpret_f32 i64_reinterpret_f64 f32_reinterpret_i32 f64_reinterpret_i64 : Builtin
  trunc nearest abs : FloatTy → Builtin

-- WINST_OPCODE. A block type is the byte in the code; `br_table` has the targets and the default
-- target; `other` is an opcode without a case in the switch.
pub data Winst : Type 0 where
  unreachable nop else_ end return drop select memory_size memory_grow other : Winst
  block loop if_ br br_if local_get local_set local_tee global_get global_set : ℕ → Winst
  call call_indirect : ℕ → Winst
  br_table : List ℕ → Winst
  load : Load → ℕ → Winst
  store : Store → ℕ → Winst
  const : Valty → ℕ → Winst
  int_compare : IntTy → Cmp → Winst
  float_compare : FloatTy → FloatCmp → Winst
  int_binary : IntTy → IntBinary → Winst
  float_binary : FloatTy → FloatBinary → Winst
  copysign : FloatTy → Winst
  float_unary : FloatTy → FloatUnary → Winst
  builtin : Builtin → Winst
  eqz : IntTy → Winst
