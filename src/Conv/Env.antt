-- ===== src/Conv/Env.antt =====
-- What the converter reads and does not change: the wasm module, as the vendored wasm library gives
-- it, and the register convention of src/runtime/u_runtime_reg.h; and the value types of the two
-- sides (src/wasm/type_enum.cxx, src/wasm/type_enum_base.h).
use uwasm_vm.Base.{ℕ, suc, zero, ◌-◌, ltb, ◌==◌, Bool, if◌then◌else◌, List, Option, none, some}
use uwasm_vm.Base.{Result, ok, err, assertion, ◌>>=◌}
use uwasm_vm.Base.Int.{ℤ, negsuc}
use uwasm_vm.Isa.Opcode.{Valty, i32, i64, f32, f64}

-- A signature of wasm, its types converted.
pub record Signature : Type 0 where
  pub params : List Valty
  pub results : List Valty

pub record Global : Type 0 where
  pub uwasm_id : ℕ
  pub valty : Valty

-- `ret_reg_num` is RET_REG_NUM, 1 or, for the wasm runtime, 2. `moved` tells of an insertion into a
-- string buffer of that length whether it moves the buffer.
pub record Env : Type 0 where
  pub ret_reg_num : ℕ
  pub moved : ℕ → Bool
  pub global_of : ℕ → Result Global
  pub func_sig : ℕ → Result Signature
  pub type_sig : ℕ → Result Signature
  pub own_sig : Signature
  pub stack_check : Bool

-- Conv_wabt_ty by the rows of type_enum_base.h, on the negative numbers of WABT_ENUM.
abbrev pub conv_wabt_ty : ℤ → Result Valty
conv_wabt_ty (negsuc zero) = ok i32
conv_wabt_ty (negsuc (suc zero)) = ok i64
conv_wabt_ty (negsuc (suc (suc zero))) = ok f32
conv_wabt_ty (negsuc (suc (suc (suc zero)))) = ok f64
conv_wabt_ty _ = err assertion

-- Conv_ty_wabt.
abbrev pub conv_ty_wabt : Valty → ℤ
conv_ty_wabt i32 = negsuc 0
conv_ty_wabt i64 = negsuc 1
conv_ty_wabt f32 = negsuc 2
conv_ty_wabt f64 = negsuc 3

-- `wasm_ty - 0x80` of a byte, as Create_new_block takes it apart: WABT_Void and WABT_Any have no
-- result. A larger number, a type index, is no value type.
unfoldable pub block_result : ℕ → Result (Option Valty)
block_result wasm_ty =
    if wasm_ty == 0x40
    then ok none
    else if wasm_ty == 0
    then ok none
    else if ltb wasm_ty 0x80
    then (do v ← conv_wabt_ty (negsuc (0x7f - wasm_ty)); ok (some v))
    else err assertion
