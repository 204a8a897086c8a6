-- ===== src/Conv/Encodable.antt =====
-- The instructions for straight-line wasm code are ones that the encoder accepts.
use uwasm_vm.Base.{ℕ, ◌^◌, ◌≡◌, ◌<◌, refl, arith, List, ◌∷◌, All, Option, some, none}
use uwasm_vm.Isa.Opcode
use uwasm_vm.Isa.Opcode.{Valty, i32, i64, f32, f64, Cmp, Arith, am32_r_r, am64_r_r_r}
use uwasm_vm.Isa.Table.{ty_am_of, opcode_table}
use uwasm_vm.Isa.CodeRoundTrip.{IsEncodable}
use uwasm_vm.Conv.Winst.{Winst, int32, int64, IntTy, IntBinary, FloatBinary}
use uwasm_vm.Conv.OpMap.{compare_op, int_binary_op, float_binary_op}
use uwasm_vm.Conv.Straight.{Slot, arith_of}
use uwasm_vm.Conv.Registers.{Layout, IsApart, Local, top, reg_of, const_code, code_of}
use uwasm_vm.Conv.Typing.{
  Types, nop, drop, local_get, local_set, const, compare, int_binary, float_binary, eqz,
}
use uwasm_vm.Conv.Holds.{temps-le}
use uwasm_vm.Conv.Emits.{HasRoom}

compare_op-long : (c : Cmp) → ty_am_of (compare_op c) ≡ some am64_r_r_r
unfolding ty_am_of opcode_table
compare_op-long Opcode.eq = refl
compare_op-long Opcode.ne = refl
compare_op-long Opcode.lt = refl
compare_op-long Opcode.lt_u = refl
compare_op-long Opcode.gt = refl
compare_op-long Opcode.gt_u = refl
compare_op-long Opcode.le = refl
compare_op-long Opcode.le_u = refl
compare_op-long Opcode.ge = refl
compare_op-long Opcode.ge_u = refl

int_binary_op-long :
    (t : IntTy) (o : IntBinary) {a : Arith}
    → arith_of t o ≡ some a
    → ty_am_of (int_binary_op o) ≡ some am64_r_r_r
unfolding ty_am_of opcode_table
int_binary_op-long t IntBinary.add e = refl
int_binary_op-long t IntBinary.sub e = refl
int_binary_op-long t IntBinary.mul e = refl
int_binary_op-long t IntBinary.div_s e = refl
int_binary_op-long t IntBinary.div_u e = refl
int_binary_op-long t IntBinary.rem_s e = refl
int_binary_op-long t IntBinary.rem_u e = refl
int_binary_op-long t IntBinary.and e = refl
int_binary_op-long t IntBinary.or e = refl
int_binary_op-long t IntBinary.xor e = refl
int_binary_op-long t IntBinary.shl e = refl
int_binary_op-long t IntBinary.shr_s e = refl
int_binary_op-long t IntBinary.shr_u e = refl
int_binary_op-long int32 IntBinary.rotl e = absurd (cc)
int_binary_op-long int32 IntBinary.rotr e = absurd (cc)
int_binary_op-long int64 IntBinary.rotl e = absurd (cc)
int_binary_op-long int64 IntBinary.rotr e = absurd (cc)

float_binary_op-long : (o : FloatBinary) → ty_am_of (float_binary_op o) ≡ some am64_r_r_r
unfolding ty_am_of opcode_table
float_binary_op-long FloatBinary.add = refl
float_binary_op-long FloatBinary.sub = refl
float_binary_op-long FloatBinary.mul = refl
float_binary_op-long FloatBinary.div = refl

module _ (l : Layout) (apart : IsApart l) where
  -- Registers of places are below 126.
  reg_of-lt :
      (v : Valty) (o : Option ℕ) (sl : List Slot)
      → top l v sl < 126
      → Local l (v, o)
      → reg_of l (v, o) sl < 126
  reg_of-lt v none sl small local = small
  reg_of-lt v (some i) sl small local = omega (arith, apart.below i v local)

  const_code-IsEncodable : (v : Valty) (rd n : ℕ) → rd < 126 → All IsEncodable (const_code v rd n)
  unfolding ty_am_of opcode_table
  const_code-IsEncodable i32 rd n small = ((refl, (omega arith, omega arith)), tt)
  const_code-IsEncodable i64 rd n small =
      ((refl, (omega arith, omega arith)), ((refl, (omega arith, omega arith)), tt))
  const_code-IsEncodable f32 rd n small = ((refl, (omega arith, omega arith)), tt)
  const_code-IsEncodable f64 rd n small =
      ((refl, (omega arith, omega arith)), ((refl, (omega arith, omega arith)), tt))

  module _ (v : Valty) (o2 o1 : Option ℕ) (sl : List Slot)
      (room : HasRoom l ((v, o2) ∷ (v, o1) ∷ sl)) (second : Local l (v, o2))
      (first : Local l (v, o1)) where
    two-Fits :
        (top l v sl < 2 ^ 10)
        × (reg_of l (v, o1) sl < 2 ^ 10)
        × (reg_of l (v, o2) ((v, o1) ∷ sl) < 2 ^ 10)
    two-Fits =
        let below1 = temps-le v ((v, o1) ∷ sl) o2 v in
        let below = temps-le v sl o1 v in
        let a = reg_of-lt v o2 ((v, o1) ∷ sl) (omega (arith, room v, below1)) second in
        let b = reg_of-lt v o1 sl (omega (arith, room v, below1, below)) first in
        (omega (arith, room v, below1, below), omega (arith, b), omega (arith, a))

  pub code_of-IsEncodable :
      {w : Winst} {sl sl' : List Slot}
      → Types l w sl sl'
      → HasRoom l sl
      → All (Local l) sl
      → All IsEncodable (code_of l w sl)
  unfolding ty_am_of opcode_table
  code_of-IsEncodable nop room locals = tt
  code_of-IsEncodable drop room locals = tt
  code_of-IsEncodable (local_get is) room locals = tt
  code_of-IsEncodable (local_set {i} {v} {o} {sl} is now) room (local, locals) =
      let a = reg_of-lt v o sl (omega (arith, room v, temps-le v sl o v)) local in
      let b = apart.below i v is in ((refl, (omega (arith, b, room v), omega (arith, a))), tt)
  code_of-IsEncodable (const {v} {n} {sl}) room locals = const_code-IsEncodable v _ n (room v)
  code_of-IsEncodable (compare {c} {o2} {o1} {sl}) room (second, (first, locals)) =
      ((compare_op-long c, two-Fits i32 o2 o1 sl room second first), tt)
  code_of-IsEncodable (int_binary {t} {o} {a} {o2} {o1} {sl} is) room (second, (first, locals)) =
      ((int_binary_op-long t o is, two-Fits _ o2 o1 sl room second first), tt)
  code_of-IsEncodable (float_binary {t} {o} {o2} {o1} {sl}) room (second, (first, locals)) =
      ((float_binary_op-long o, two-Fits _ o2 o1 sl room second first), tt)
  code_of-IsEncodable (eqz {o} {sl}) room (local, locals) =
      let small : top l i32 sl < 126 = omega (arith, room i32, temps-le i32 sl o i32) in
      ((refl, (omega arith, omega (arith, reg_of-lt i32 o sl small local))), tt)
