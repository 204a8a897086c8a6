-- ===== src/Conv/Straight.antt =====
-- Straight-line wasm code: how its instructions use the operand stack and the locals, described
-- apart from the converter. What an operation computes is in Numeric.
use uwasm_vm.Base.{
  ℕ, ◌%◌, ◌==◌, Bool, true, false, not, ◌&&◌, if◌then◌else◌, List, [], ◌∷◌, get_elem?, set,
}
use uwasm_vm.Base.{Option, none, some}
use uwasm_vm.Isa.Opcode
use uwasm_vm.Isa.Opcode.{Valty, i32, i64, f32, f64, Arith, Cmp}
use uwasm_vm.Exec.Word.{Floats, modulus}
use uwasm_vm.Conv.Winst.{
  Winst, IntTy, int32, IntBinary, div_s, div_u, and, or, xor, shl, shr_u, shr_s, rem_u, rem_s,
  FloatBinary,
}
use uwasm_vm.Conv.OpMap.{int_valty, float_valty}
use uwasm_vm.Conv.State.{same_valty}
use uwasm_vm.Conv.Numeric.{int_value, int_relation, bits, IsCommon, ops_of, float_value}

-- The interpreter's operation. The rotations are other instructions, and of the shifts of i64 it
-- takes the count from an i32 register.
abbrev pub arith_of : IntTy → IntBinary → Option Arith
arith_of t IntBinary.add = some Opcode.add
arith_of t IntBinary.sub = some Opcode.sub
arith_of t IntBinary.mul = some Opcode.mul
arith_of t div_s = some Opcode.div
arith_of t div_u = some Opcode.div_u
arith_of t rem_s = some Opcode.rem
arith_of t rem_u = some Opcode.rem_u
arith_of t and = some Opcode.and
arith_of t or = some Opcode.or
arith_of t xor = some Opcode.xor
arith_of int32 shl = some Opcode.shl
arith_of int32 shr_s = some Opcode.shr
arith_of int32 shr_u = some Opcode.shr_u
arith_of t _ = none

abbrev pub float_arith_of : FloatBinary → Arith
float_arith_of FloatBinary.add = Opcode.add
float_arith_of FloatBinary.sub = Opcode.sub
float_arith_of FloatBinary.mul = Opcode.mul
float_arith_of FloatBinary.div = Opcode.div

-- A place on the stack: its type, and the local that it was pushed from.
abbrev pub Slot : Type 0
Slot = Valty × Option ℕ

abbrev is_local : ℕ → Option ℕ → Bool
is_local i none = false
is_local i (some j) = j == i

-- No place still stands for the local.
abbrev pub is_current : ℕ → List Slot → Bool
is_current i [] = true
is_current i ((v, o) ∷ sl) = not (is_local i o) && is_current i sl

abbrev pub pop_slot : Valty → List Slot → Option (List Slot)
pop_slot v [] = none
pop_slot v ((w, o) ∷ sl) = if same_valty w v then some sl else none

abbrev pub pop_two : Valty → List Slot → Option (List Slot)
pop_two v sl = elim (pop_slot v sl) [ none ↦ none | some r ↦ pop_slot v r ]

abbrev pub push_slot : Valty → Option (List Slot) → Option (List Slot)
push_slot v none = none
push_slot v (some sl) = some ((v, none) ∷ sl)

-- The places after an instruction; `none` where the types do not fit, where a local is set that the
-- stack still stands for, and for the instructions that are left aside.
abbrev pub typed : List Valty → Winst → List Slot → Option (List Slot)
typed locals Winst.nop sl = some sl
typed locals Winst.drop (x ∷ sl) = some sl
typed locals (Winst.local_get i) sl = elim (get_elem? locals i) [
  | some v ↦ some ((v, some i) ∷ sl)
  | none ↦ none
]
typed locals (Winst.local_set i) sl = elim (get_elem? locals i) [
  | some v ↦ elim (pop_slot v sl) [ some r ↦ if is_current i r then some r else none | none ↦ none ]
  | none ↦ none
]
typed locals (Winst.const v n) sl = some ((v, none) ∷ sl)
typed locals (Winst.int_compare int32 c) sl = push_slot i32 (pop_two i32 sl)
typed locals (Winst.int_binary t o) sl = elim (arith_of t o) [
  | some a ↦ push_slot (int_valty t) (pop_two (int_valty t) sl)
  | none ↦ none
]
typed locals (Winst.float_binary t o) sl = push_slot (float_valty t) (pop_two (float_valty t) sl)
typed locals (Winst.eqz int32) sl = push_slot i32 (pop_slot i32 sl)
typed locals w sl = none

abbrev pub typed_all : List Valty → List Winst → List Slot → Option (List Slot)
typed_all locals [] sl = some sl
typed_all locals (w ∷ ws) sl = elim (typed locals w sl) [
  | some r ↦ typed_all locals ws r
  | none ↦ none
]

pub record Values : Type 0 where
  pub locals : List ℕ
  pub stack : List ℕ

abbrev pub push_value : List ℕ → List ℕ → Option ℕ → Option Values
push_value locals st none = none
push_value locals st (some x) = some (record { locals = locals; stack = x ∷ st })

-- An operation on the two values on top.
abbrev pub two_values : (ℕ → ℕ → Option ℕ) → List ℕ → List ℕ → Option Values
two_values f locals [] = none
two_values f locals (y ∷ []) = none
two_values f locals (y ∷ x ∷ st) = push_value locals st (f x y)

abbrev pub of_test : Bool → ℕ
of_test b = if b then 1 else 0

-- What an instruction computes; `none` is a trap.
abbrev pub eval : Floats → Winst → List ℕ → List ℕ → Option Values
eval fl Winst.nop locals st = some (record { locals = locals; stack = st })
eval fl Winst.drop locals (x ∷ st) = some (record { locals = locals; stack = st })
eval fl (Winst.local_get i) locals st = push_value locals st (get_elem? locals i)
eval fl (Winst.local_set i) locals (x ∷ st) = some (record { locals = set locals i x; stack = st })
eval fl (Winst.const v n) locals st = some (record { locals = locals; stack = n % modulus v ∷ st })
eval fl (Winst.int_compare t c) locals st =
    two_values (λ x y. some (of_test (int_relation c (bits t) x y))) locals st
eval fl (Winst.int_binary t o) locals st = two_values (int_value o (bits t)) locals st
eval fl (Winst.float_binary t o) locals st =
    two_values (λ x y. some (float_value (ops_of fl t) o x y)) locals st
eval fl (Winst.eqz t) locals (x ∷ st) =
    some (record { locals = locals; stack = of_test (x == 0) ∷ st })
eval fl w locals st = none

abbrev pub eval_all : Floats → List Winst → List ℕ → List ℕ → Option Values
eval_all fl [] locals st = some (record { locals = locals; stack = st })
eval_all fl (w ∷ ws) locals st = elim (eval fl w locals st) [
  | some r ↦ eval_all fl ws r.locals r.stack
  | none ↦ none
]

-- The integer operations are met with operands with which the interpreter computes them.
abbrev pub IsCommonAt : Winst → List ℕ → Type 0
IsCommonAt (Winst.int_binary t o) (y ∷ x ∷ st) = IsCommon o (bits t) x y
IsCommonAt w st = Unit

abbrev pub AreCommon : Floats → List Winst → List ℕ → List ℕ → Type 0
AreCommon fl [] locals st = Unit
AreCommon fl (w ∷ ws) locals st =
    IsCommonAt w st
    × elim (eval fl w locals st) [ some r ↦ AreCommon fl ws r.locals r.stack | none ↦ Unit ]
