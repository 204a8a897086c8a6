-- ===== src/Exec/Convert.antt =====
-- Conversions, floating-point functions and builtins of src/interpreter/exec_unit_func.h, with the
-- codes of src/ubh/u_builtin_list.def.
use uwasm_vm.Base.{ℕ, ◌+◌, ◌*◌, ◌%◌, ◌^◌, Bool, false, ltb, leb}
use uwasm_vm.Base.{List, [], ◌∷◌, get_elem?, some, none, Result, ok, err, assertion, ◌>>=◌, ◌>>◌}
use uwasm_vm.Base.{defined_if, in_bounds}
use uwasm_vm.Base.Int.{ℤ, pos, negsuc, signed, wrap, convert}
use uwasm_vm.Isa.Opcode.{Valty, i32, i64, f32, f64}
use uwasm_vm.Isa.Expand.{AmExpand}
use uwasm_vm.Machine.State.{Machine, get_reg, set_reg}
use uwasm_vm.Exec.Word.{FloatOps, Floats, sub_word}

-- Whether an integer is one of a signed or an unsigned type with `m` values.
abbrev pub fits_signed : ℕ → ℤ → Bool
fits_signed m (pos n) = ltb (2 * n) m
fits_signed m (negsuc n) = leb (2 * (n + 1)) m

abbrev pub fits_unsigned : ℕ → ℤ → Bool
fits_unsigned m (pos n) = ltb n m
fits_unsigned m (negsuc n) = false

-- A conversion from floating point, undefined out of the range of the target.
unfoldable pub float_to_signed : FloatOps → ℕ → ℕ → Result ℕ
float_to_signed f m x = do z ← in_bounds (f.to_int x); defined_if (fits_signed m z); ok (wrap m z)

unfoldable pub float_to_unsigned : FloatOps → ℕ → ℕ → Result ℕ
float_to_unsigned f m x = do
  z ← in_bounds (f.to_int x)
  defined_if (fits_unsigned m z)
  ok (wrap m z)

-- Read one register, and set another to what becomes of it.
abbrev pub through : Valty → Valty → AmExpand → Machine → (ℕ → Result ℕ) → Result Machine
through from to e m f = do x ← get_reg from m e.expand2; y ← f x; set_reg to m e.expand1 y

-- Conv_i32_i64_am32_r_r to Conv_f64_f32_am32_r_r; the type of the instruction is the target.
unfoldable pub conv_i32 : Floats → Valty → AmExpand → Machine → Result Machine
conv_i32 fl i32 e m = err assertion
conv_i32 fl i64 e m = through i32 i64 e m (λ x. ok (convert (2 ^ 32) (2 ^ 64) x))
conv_i32 fl f32 e m = through i32 f32 e m (λ x. ok (fl.f32.of_int (signed (2 ^ 32) x)))
conv_i32 fl f64 e m = through i32 f64 e m (λ x. ok (fl.f64.of_int (signed (2 ^ 32) x)))

unfoldable pub conv_i32_u : Valty → AmExpand → Machine → Result Machine
conv_i32_u i64 e m = through i32 i64 e m (λ x. ok x)
conv_i32_u _ e m = err assertion

unfoldable pub conv_i64 : Floats → Valty → AmExpand → Machine → Result Machine
conv_i64 fl i32 e m = through i64 i32 e m (λ x. ok (convert (2 ^ 64) (2 ^ 32) x))
conv_i64 fl i64 e m = err assertion
conv_i64 fl f32 e m = through i64 f32 e m (λ x. ok (fl.f32.of_int (signed (2 ^ 64) x)))
conv_i64 fl f64 e m = through i64 f64 e m (λ x. ok (fl.f64.of_int (signed (2 ^ 64) x)))

unfoldable pub conv_f32 : Floats → Valty → AmExpand → Machine → Result Machine
unfolding float_to_signed
conv_f32 fl i32 e m = through f32 i32 e m (λ x. float_to_signed fl.f32 (2 ^ 32) x)
conv_f32 fl i64 e m = through f32 i64 e m (λ x. float_to_signed fl.f32 (2 ^ 64) x)
conv_f32 fl f32 e m = err assertion
conv_f32 fl f64 e m = through f32 f64 e m (λ x. ok (fl.f32_to_f64 x))

unfoldable pub conv_f64 : Floats → Valty → AmExpand → Machine → Result Machine
unfolding float_to_signed
conv_f64 fl i32 e m = through f64 i32 e m (λ x. float_to_signed fl.f64 (2 ^ 32) x)
conv_f64 fl i64 e m = through f64 i64 e m (λ x. float_to_signed fl.f64 (2 ^ 64) x)
conv_f64 fl f32 e m = through f64 f32 e m (λ x. ok (fl.f64_to_f32 x))
conv_f64 fl f64 e m = err assertion

-- The operations of the instruction's floating-point type.
abbrev pub with_float : Floats → Valty → AmExpand → Machine → (FloatOps → ℕ → ℕ) → Result Machine
with_float fl f32 e m f = through f32 f32 e m (λ x. ok (f fl.f32 x))
with_float fl f64 e m f = through f64 f64 e m (λ x. ok (f fl.f64 x))
with_float fl _ e m f = err assertion

-- Ceil_f32_am32_r_r and the like.
unfoldable pub ceil : Floats → Valty → AmExpand → Machine → Result Machine
ceil fl v e m = with_float fl v e m (λ f. f.ceil)

unfoldable pub floor : Floats → Valty → AmExpand → Machine → Result Machine
floor fl v e m = with_float fl v e m (λ f. f.floor)

-- Sqrt_f32_am32_r_r and Sqrt_f64_am32_r_r: the root of the number of the register, as a double.
unfoldable pub sqrt : Floats → Valty → AmExpand → Machine → Result Machine
sqrt fl f32 e m =
    set_reg f32 m e.expand1 (fl.f64_to_f32 (fl.f64.sqrt (fl.f64.of_int (pos e.expand2))))
sqrt fl f64 e m = set_reg f64 m e.expand1 (fl.f64.sqrt (fl.f64.of_int (pos e.expand2)))
sqrt fl _ e m = err assertion

-- Neg_f32_am32_r_r and Neg_f64_am32_r_r, which negate an integer register.
unfoldable pub neg : Floats → Valty → AmExpand → Machine → Result Machine
neg fl f32 e m =
    through i32 f32 e m (λ x. ok (fl.f32.of_int (signed (2 ^ 32) (sub_word (2 ^ 32) 0 x))))
neg fl f64 e m =
    through i64 f64 e m (λ x. ok (fl.f64.of_int (signed (2 ^ 64) (sub_word (2 ^ 64) 0 x))))
neg fl _ e m = err assertion

-- Reintr_f32_i32_am32_r_r to Reintr_i64_f64_am32_r_r keep the bits; each has one target type.
unfoldable pub reinterpret : Valty → Valty → Valty → AmExpand → Machine → Result Machine
reinterpret i32 f32 f32 e m = through i32 f32 e m (λ x. ok x)
reinterpret i64 f64 f64 e m = through i64 f64 e m (λ x. ok x)
reinterpret f32 i32 i32 e m = through f32 i32 e m (λ x. ok x)
reinterpret f64 i64 i64 e m = through f64 i64 e m (λ x. ok x)
reinterpret _ _ _ e m = err assertion

-- U_BUILTIN_CODE, with the two codes of value 0x0b as one.
pub data Builtin : Type 0 where
  i64_extend_32_s i64_extend_32_u i32_wrap_i64 f64_cvt_i32_s f64_cvt_i32_u : Builtin
  i32_trunc_f64_u i64_reinterpret_f64 i32_reinterpret_f32 f64_reinterpret_i64 : Builtin
  f32_reinterpret_i32 f64_abs_or_i32_trunc_f64_s other : Builtin

-- The codes from 0 on: UBT_NOP has no case.
abbrev pub builtin_list : List Builtin
builtin_list =
    other ∷ i64_extend_32_s ∷ i64_extend_32_u ∷ i32_wrap_i64 ∷ f64_cvt_i32_s ∷ f64_cvt_i32_u
    ∷ i32_trunc_f64_u ∷ i64_reinterpret_f64 ∷ i32_reinterpret_f32 ∷ f64_reinterpret_i64
    ∷ f32_reinterpret_i32 ∷ f64_abs_or_i32_trunc_f64_s ∷ []

abbrev pub builtin_of : ℕ → Builtin
builtin_of code = elim (get_elem? builtin_list code) [ some b ↦ b | none ↦ other ]

-- The switches of Builtin_i32_am64_r_r_imm to Builtin_f64_am64_r_r_imm.
unfoldable pub call_builtin : Floats → Valty → Builtin → AmExpand → Machine → Result Machine
unfolding float_to_signed float_to_unsigned
call_builtin fl i32 i32_wrap_i64 e m = through i64 i32 e m (λ x. ok (convert (2 ^ 64) (2 ^ 32) x))
call_builtin fl i32 i32_trunc_f64_u e m =
    through f64 i32 e m (λ x. float_to_unsigned fl.f64 (2 ^ 32) x)
call_builtin fl i32 f64_abs_or_i32_trunc_f64_s e m =
    through f64 i32 e m (λ x. float_to_signed fl.f64 (2 ^ 32) x)
call_builtin fl i32 i32_reinterpret_f32 e m = through f32 i32 e m (λ x. ok x)
call_builtin fl i64 i64_extend_32_s e m =
    through i32 i64 e m (λ x. ok (convert (2 ^ 32) (2 ^ 64) x))
call_builtin fl i64 i64_extend_32_u e m = through i32 i64 e m (λ x. ok x)
call_builtin fl i64 i64_reinterpret_f64 e m = through f64 i64 e m (λ x. ok x)
call_builtin fl f32 f32_reinterpret_i32 e m = through i32 f32 e m (λ x. ok x)
call_builtin fl f64 f64_cvt_i32_s e m =
    through i32 f64 e m (λ x. ok (fl.f64.of_int (signed (2 ^ 32) x)))
call_builtin fl f64 f64_cvt_i32_u e m = through i32 f64 e m (λ x. ok (fl.f64.of_int (pos x)))
call_builtin fl f64 f64_reinterpret_i64 e m = through i64 f64 e m (λ x. ok x)
call_builtin fl f64 f64_abs_or_i32_trunc_f64_s e m = through f64 f64 e m (λ x. ok (fl.f64.fabs x))
call_builtin fl _ _ e m = err assertion

-- The code is the immediate as a UINT16.
unfoldable pub builtin : Floats → Valty → AmExpand → Machine → Result Machine
unfolding call_builtin
builtin fl v e m = call_builtin fl v (builtin_of (e.expand3 % 2 ^ 16)) e m
