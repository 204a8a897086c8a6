-- ===== src/Conv/Registers.antt =====
-- The registers of straight-line wasm code and the instructions that it becomes, described apart
-- from the converter: a temporary stands above the temporaries of its type below it on the stack.
use uwasm_vm.Base.{
  ℕ, suc, ◌+◌, ◌/◌, ◌%◌, ◌^◌, ◌≡◌, ◌<◌, refl, true, if◌then◌else◌, List, [], ◌∷◌, ◌++◌, get_elem?,
}
use uwasm_vm.Base.{none, some}
use uwasm_vm.Isa.Opcode.{Valty, i32, i64, f32, f64}
use uwasm_vm.Isa.Operands.{Short, Long}
use uwasm_vm.Isa.CodeRoundTrip.{Inst, short, long}
use uwasm_vm.Conv.Winst.{Winst}
use uwasm_vm.Conv.OpMap.{
  mov_op, const_l_op, const_l_high_op, eqz_op, compare_op, int_binary_op, float_binary_op,
  int_valty, float_valty,
}
use uwasm_vm.Conv.State.{same_valty}
use uwasm_vm.Conv.Straight.{Slot, typed}

-- The types of the locals, the register of each, and where the temporaries of a type begin.
pub record Layout : Type 0 where
  pub locals : List Valty
  pub loc : ℕ → ℕ
  pub base : Valty → ℕ

-- Two locals of one type have two registers, below the temporaries.
pub record IsApart (l : Layout) : Type 0 where
  pub below : (i : ℕ) (v : Valty) → get_elem? l.locals i ≡ some v → l.loc i < l.base v
  pub apart :
      (i j : ℕ) (v : Valty)
      → get_elem? l.locals i ≡ some v
      → get_elem? l.locals j ≡ some v
      → l.loc i ≡ l.loc j
      → i ≡ j

-- The temporaries of a type.
abbrev pub temps : Valty → List Slot → ℕ
temps v [] = 0
temps v ((w, none) ∷ sl) = let rest = temps v sl in if same_valty w v then suc rest else rest
temps v ((w, some i) ∷ sl) = temps v sl

abbrev pub top : Layout → Valty → List Slot → ℕ
top l v sl = l.base v + temps v sl

-- The register of a place above others.
abbrev pub reg_of : Layout → Slot → List Slot → ℕ
reg_of l (v, none) sl = top l v sl
reg_of l (v, some i) sl = l.loc i

abbrev two_code : Layout → ℕ → Valty → List Slot → List Inst
two_code l op v (y ∷ x ∷ sl) =
    long op v (Long.r_r_r (top l v sl) (reg_of l x sl) (reg_of l y (x ∷ sl))) ∷ []
two_code l op v _ = []

-- A constant takes one instruction, or two of 64 bits.
abbrev pub const_code : Valty → ℕ → ℕ → List Inst
const_code i32 rd n = long const_l_op i32 (Long.r_imm rd (n % 2 ^ 32)) ∷ []
const_code f32 rd n = long const_l_op f32 (Long.r_imm rd (n % 2 ^ 32)) ∷ []
const_code v rd n =
    long const_l_op v (Long.r_imm rd (n % 2 ^ 32))
    ∷ long const_l_high_op v (Long.r_imm rd (n / 2 ^ 32 % 2 ^ 32))
    ∷ []

-- The instructions for a wasm instruction that is met with these places on the stack.
abbrev pub code_of : Layout → Winst → List Slot → List Inst
code_of l (Winst.local_set i) ((v, o) ∷ sl) =
    short mov_op v (Short.r_r (l.loc i) (reg_of l (v, o) sl)) ∷ []
code_of l (Winst.const v n) sl = const_code v (top l v sl) n
code_of l (Winst.int_compare t c) sl = two_code l (compare_op c) (int_valty t) sl
code_of l (Winst.int_binary t o) sl = two_code l (int_binary_op o) (int_valty t) sl
code_of l (Winst.float_binary t o) sl = two_code l (float_binary_op o) (float_valty t) sl
code_of l (Winst.eqz t) (x ∷ sl) =
    short eqz_op (int_valty t) (Short.r_r (top l (int_valty t) sl) (reg_of l x sl)) ∷ []
code_of l _ _ = []

abbrev pub codes : Layout → List Winst → List Slot → List Inst
codes l [] sl = []
codes l (w ∷ ws) sl = elim (typed l.locals w sl) [
  | some r ↦ code_of l w sl ++ codes l ws r
  | none ↦ []
]

-- Places that stand for locals have their types.
abbrev pub Local : Layout → Slot → Type 0
Local l (v, none) = Unit
Local l (v, some i) = get_elem? l.locals i ≡ some v

pub same_valty_refl : (v : Valty) → same_valty v v ≡ true
same_valty_refl i32 = refl
same_valty_refl i64 = refl
same_valty_refl f32 = refl
same_valty_refl f64 = refl

pub same_valty-eq : (v w : Valty) → same_valty v w ≡ true → v ≡ w
same_valty-eq i32 i32 e = refl
same_valty-eq i64 i64 e = refl
same_valty-eq f32 f32 e = refl
same_valty-eq f64 f64 e = refl
same_valty-eq i32 i64 e = absurd (cc)
same_valty-eq i32 f32 e = absurd (cc)
same_valty-eq i32 f64 e = absurd (cc)
same_valty-eq i64 i32 e = absurd (cc)
same_valty-eq i64 f32 e = absurd (cc)
same_valty-eq i64 f64 e = absurd (cc)
same_valty-eq f32 i32 e = absurd (cc)
same_valty-eq f32 i64 e = absurd (cc)
same_valty-eq f32 f64 e = absurd (cc)
same_valty-eq f64 i32 e = absurd (cc)
same_valty-eq f64 i64 e = absurd (cc)
same_valty-eq f64 f32 e = absurd (cc)
