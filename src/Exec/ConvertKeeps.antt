-- ===== src/Exec/ConvertKeeps.antt =====
-- The conversions and builtins of src/interpreter/exec_unit_func.h keep the frames.
use uwasm_vm.Base.{ℕ, ◌%◌, ◌^◌, Result}
use uwasm_vm.Isa.Opcode.{Valty, i32, i64, f32, f64}
use uwasm_vm.Isa.Expand.{AmExpand}
use uwasm_vm.Machine.State.{Machine, get_reg}
use uwasm_vm.Exec.Word.{FloatOps, Floats}
use uwasm_vm.Exec.Keeps.{Keeps, bind-Keeps, err-Keeps, set_reg-Keeps}
use uwasm_vm.Exec.Convert
use uwasm_vm.Exec.Convert.{through, with_float, Builtin, builtin_of}
use uwasm_vm.Exec.Convert.Builtin.{
  i64_extend_32_s, i64_extend_32_u, i32_wrap_i64, f64_cvt_i32_s, f64_cvt_i32_u, i32_trunc_f64_u,
  i64_reinterpret_f64, i32_reinterpret_f32, f64_reinterpret_i64, f32_reinterpret_i32,
  f64_abs_or_i32_trunc_f64_s, other,
}

through-Keeps :
    (from to : Valty) (e : AmExpand) (m : Machine) (f : ℕ → Result ℕ)
    → Keeps m (through from to e m f)
through-Keeps from to e m f =
    bind-Keeps (get_reg from m e.expand2) _
      λ x. bind-Keeps (f x) _ λ y. set_reg-Keeps to m e.expand1 y

module _ (fl : Floats) (e : AmExpand) (m : Machine) where
  pub conv_i32-Keeps : (v : Valty) → Keeps m (Convert.conv_i32 fl v e m)
  unfolding Convert.conv_i32
  conv_i32-Keeps i32 = err-Keeps
  conv_i32-Keeps i64 = search through-Keeps
  conv_i32-Keeps f32 = search through-Keeps
  conv_i32-Keeps f64 = search through-Keeps

  pub conv_i32_u-Keeps : (v : Valty) → Keeps m (Convert.conv_i32_u v e m)
  unfolding Convert.conv_i32_u
  conv_i32_u-Keeps i32 = err-Keeps
  conv_i32_u-Keeps i64 = search through-Keeps
  conv_i32_u-Keeps f32 = err-Keeps
  conv_i32_u-Keeps f64 = err-Keeps

  pub conv_i64-Keeps : (v : Valty) → Keeps m (Convert.conv_i64 fl v e m)
  unfolding Convert.conv_i64
  conv_i64-Keeps i32 = search through-Keeps
  conv_i64-Keeps i64 = err-Keeps
  conv_i64-Keeps f32 = search through-Keeps
  conv_i64-Keeps f64 = search through-Keeps

  pub conv_f32-Keeps : (v : Valty) → Keeps m (Convert.conv_f32 fl v e m)
  unfolding Convert.conv_f32
  conv_f32-Keeps i32 = search through-Keeps
  conv_f32-Keeps i64 = search through-Keeps
  conv_f32-Keeps f32 = err-Keeps
  conv_f32-Keeps f64 = search through-Keeps

  pub conv_f64-Keeps : (v : Valty) → Keeps m (Convert.conv_f64 fl v e m)
  unfolding Convert.conv_f64
  conv_f64-Keeps i32 = search through-Keeps
  conv_f64-Keeps i64 = search through-Keeps
  conv_f64-Keeps f32 = search through-Keeps
  conv_f64-Keeps f64 = err-Keeps

  with_float-Keeps : (v : Valty) (f : FloatOps → ℕ → ℕ) → Keeps m (with_float fl v e m f)
  with_float-Keeps i32 f = err-Keeps
  with_float-Keeps i64 f = err-Keeps
  with_float-Keeps f32 f = search through-Keeps
  with_float-Keeps f64 f = search through-Keeps

  pub ceil-Keeps : (v : Valty) → Keeps m (Convert.ceil fl v e m)
  unfolding Convert.ceil
  ceil-Keeps v = with_float-Keeps v _

  pub floor-Keeps : (v : Valty) → Keeps m (Convert.floor fl v e m)
  unfolding Convert.floor
  floor-Keeps v = with_float-Keeps v _

  pub sqrt-Keeps : (v : Valty) → Keeps m (Convert.sqrt fl v e m)
  unfolding Convert.sqrt
  sqrt-Keeps i32 = err-Keeps
  sqrt-Keeps i64 = err-Keeps
  sqrt-Keeps f32 = search set_reg-Keeps
  sqrt-Keeps f64 = search set_reg-Keeps

  pub neg-Keeps : (v : Valty) → Keeps m (Convert.neg fl v e m)
  unfolding Convert.neg
  neg-Keeps i32 = err-Keeps
  neg-Keeps i64 = err-Keeps
  neg-Keeps f32 = search through-Keeps
  neg-Keeps f64 = search through-Keeps

  pub reinterpret_f32-Keeps : (v : Valty) → Keeps m (Convert.reinterpret f32 i32 v e m)
  unfolding Convert.reinterpret
  reinterpret_f32-Keeps i32 = search through-Keeps
  reinterpret_f32-Keeps i64 = err-Keeps
  reinterpret_f32-Keeps f32 = err-Keeps
  reinterpret_f32-Keeps f64 = err-Keeps

  pub reinterpret_f64-Keeps : (v : Valty) → Keeps m (Convert.reinterpret f64 i64 v e m)
  unfolding Convert.reinterpret
  reinterpret_f64-Keeps i32 = err-Keeps
  reinterpret_f64-Keeps i64 = search through-Keeps
  reinterpret_f64-Keeps f32 = err-Keeps
  reinterpret_f64-Keeps f64 = err-Keeps

  pub reinterpret_i32-Keeps : (v : Valty) → Keeps m (Convert.reinterpret i32 f32 v e m)
  unfolding Convert.reinterpret
  reinterpret_i32-Keeps i32 = err-Keeps
  reinterpret_i32-Keeps i64 = err-Keeps
  reinterpret_i32-Keeps f32 = search through-Keeps
  reinterpret_i32-Keeps f64 = err-Keeps

  pub reinterpret_i64-Keeps : (v : Valty) → Keeps m (Convert.reinterpret i64 f64 v e m)
  unfolding Convert.reinterpret
  reinterpret_i64-Keeps i32 = err-Keeps
  reinterpret_i64-Keeps i64 = err-Keeps
  reinterpret_i64-Keeps f32 = err-Keeps
  reinterpret_i64-Keeps f64 = search through-Keeps

  builtin_i32-Keeps : (b : Builtin) → Keeps m (Convert.call_builtin fl i32 b e m)
  unfolding Convert.call_builtin
  builtin_i32-Keeps i64_extend_32_s = err-Keeps
  builtin_i32-Keeps i64_extend_32_u = err-Keeps
  builtin_i32-Keeps i32_wrap_i64 = search through-Keeps
  builtin_i32-Keeps f64_cvt_i32_s = err-Keeps
  builtin_i32-Keeps f64_cvt_i32_u = err-Keeps
  builtin_i32-Keeps i32_trunc_f64_u = search through-Keeps
  builtin_i32-Keeps i64_reinterpret_f64 = err-Keeps
  builtin_i32-Keeps i32_reinterpret_f32 = search through-Keeps
  builtin_i32-Keeps f64_reinterpret_i64 = err-Keeps
  builtin_i32-Keeps f32_reinterpret_i32 = err-Keeps
  builtin_i32-Keeps f64_abs_or_i32_trunc_f64_s = search through-Keeps
  builtin_i32-Keeps other = err-Keeps

  builtin_i64-Keeps : (b : Builtin) → Keeps m (Convert.call_builtin fl i64 b e m)
  unfolding Convert.call_builtin
  builtin_i64-Keeps i64_extend_32_s = search through-Keeps
  builtin_i64-Keeps i64_extend_32_u = search through-Keeps
  builtin_i64-Keeps i32_wrap_i64 = err-Keeps
  builtin_i64-Keeps f64_cvt_i32_s = err-Keeps
  builtin_i64-Keeps f64_cvt_i32_u = err-Keeps
  builtin_i64-Keeps i32_trunc_f64_u = err-Keeps
  builtin_i64-Keeps i64_reinterpret_f64 = search through-Keeps
  builtin_i64-Keeps i32_reinterpret_f32 = err-Keeps
  builtin_i64-Keeps f64_reinterpret_i64 = err-Keeps
  builtin_i64-Keeps f32_reinterpret_i32 = err-Keeps
  builtin_i64-Keeps f64_abs_or_i32_trunc_f64_s = err-Keeps
  builtin_i64-Keeps other = err-Keeps

  builtin_f32-Keeps : (b : Builtin) → Keeps m (Convert.call_builtin fl f32 b e m)
  unfolding Convert.call_builtin
  builtin_f32-Keeps i64_extend_32_s = err-Keeps
  builtin_f32-Keeps i64_extend_32_u = err-Keeps
  builtin_f32-Keeps i32_wrap_i64 = err-Keeps
  builtin_f32-Keeps f64_cvt_i32_s = err-Keeps
  builtin_f32-Keeps f64_cvt_i32_u = err-Keeps
  builtin_f32-Keeps i32_trunc_f64_u = err-Keeps
  builtin_f32-Keeps i64_reinterpret_f64 = err-Keeps
  builtin_f32-Keeps i32_reinterpret_f32 = err-Keeps
  builtin_f32-Keeps f64_reinterpret_i64 = err-Keeps
  builtin_f32-Keeps f32_reinterpret_i32 = search through-Keeps
  builtin_f32-Keeps f64_abs_or_i32_trunc_f64_s = err-Keeps
  builtin_f32-Keeps other = err-Keeps

  builtin_f64-Keeps : (b : Builtin) → Keeps m (Convert.call_builtin fl f64 b e m)
  unfolding Convert.call_builtin
  builtin_f64-Keeps i64_extend_32_s = err-Keeps
  builtin_f64-Keeps i64_extend_32_u = err-Keeps
  builtin_f64-Keeps i32_wrap_i64 = err-Keeps
  builtin_f64-Keeps f64_cvt_i32_s = search through-Keeps
  builtin_f64-Keeps f64_cvt_i32_u = search through-Keeps
  builtin_f64-Keeps i32_trunc_f64_u = err-Keeps
  builtin_f64-Keeps i64_reinterpret_f64 = err-Keeps
  builtin_f64-Keeps i32_reinterpret_f32 = err-Keeps
  builtin_f64-Keeps f64_reinterpret_i64 = search through-Keeps
  builtin_f64-Keeps f32_reinterpret_i32 = err-Keeps
  builtin_f64-Keeps f64_abs_or_i32_trunc_f64_s = search through-Keeps
  builtin_f64-Keeps other = err-Keeps

  pub builtin-Keeps : (v : Valty) → Keeps m (Convert.builtin fl v e m)
  unfolding Convert.builtin
  builtin-Keeps i32 = builtin_i32-Keeps (builtin_of (e.expand3 % 2 ^ 16))
  builtin-Keeps i64 = builtin_i64-Keeps (builtin_of (e.expand3 % 2 ^ 16))
  builtin-Keeps f32 = builtin_f32-Keeps (builtin_of (e.expand3 % 2 ^ 16))
  builtin-Keeps f64 = builtin_f64-Keeps (builtin_of (e.expand3 % 2 ^ 16))
