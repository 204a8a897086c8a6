-- ===== src/Conv/Rules.antt =====
-- What the switch of Exec_start (src/interpreter/exec_unit_op.def) does with the instructions that
-- straight-line wasm code becomes.
use uwasm_vm.Base.{
  ℕ, ◌+◌, ◌*◌, ◌/◌, ◌%◌, ◌^◌, ◌≡◌, ◌<◌, refl, ◌∙◌, arith, true, [], ◌∷◌, some, ok, some-injective,
  ◌==◌,
}
use uwasm_vm.Base.Int.{convert}
use mathlib.Core.Path.{subst}
use uwasm_vm.Isa.Opcode
use uwasm_vm.Isa.Opcode.{Valty, i32, i64, f32, f64, Op, Arith, Cmp, is_int}
use uwasm_vm.Isa.Operands.{Short, Long}
use uwasm_vm.Isa.Table.{op_of, opcode_table}
use uwasm_vm.Isa.Expand.{AmExpand}
use uwasm_vm.Isa.CodeRoundTrip.{Inst, short, long, expanded}
use uwasm_vm.Machine.State.{Machine, Module, get_reg, set_reg}
use uwasm_vm.Machine.Call.{inc_machine_pc}
use uwasm_vm.Exec.Step.{Host, advance, dispatch}
use uwasm_vm.Exec.Word.{modulus}
use uwasm_vm.Exec.Arith
use uwasm_vm.Exec.Arith.{arith_value, has_arith, second_operand}
use uwasm_vm.Exec.Jump
use uwasm_vm.Exec.Const
use uwasm_vm.Conv.Winst.{IntTy, int32, int64, IntBinary, FloatTy, FloatBinary}
use uwasm_vm.Conv.OpMap.{
  mov_op, eqz_op, const_l_op, const_l_high_op, compare_op, int_binary_op, float_binary_op,
  int_valty, float_valty,
}
use uwasm_vm.Conv.Straight.{arith_of, float_arith_of, of_test}
use uwasm_vm.Conv.Registers.{const_code}
use uwasm_vm.Conv.Writes.{Written, write, opcode_of, type_of, Runs, Runs-append}

is_int-int_valty : (t : IntTy) → is_int (int_valty t) ≡ true
is_int-int_valty int32 = refl
is_int-int_valty int64 = refl

-- An operation that reads both of its operands in registers of its own type.
pub record IsPlain (op : ℕ) (v : Valty) (a : Arith) : Type 0 where
  pub known : op_of op ≡ some (Opcode.arith_op a)
  pub has : has_arith a v ≡ true
  pub second : (e : AmExpand) (m : Machine) → second_operand a v e m ≡ get_reg v m e.expand3

plain :
    {op : ℕ} {v : Valty} {b a : Arith}
    → op_of op ≡ some (Opcode.arith_op b)
    → has_arith b v ≡ true
    → ((e : AmExpand) (m : Machine) → second_operand b v e m ≡ get_reg v m e.expand3)
    → some b ≡ some a
    → IsPlain op v a
plain {op} {v} known has second e =
    subst (IsPlain op v) (some-injective e) (record { known = known; has = has; second = second })

pub int_binary-IsPlain :
    (t : IntTy) (o : IntBinary) {a : Arith}
    → arith_of t o ≡ some a
    → IsPlain (int_binary_op o) (int_valty t) a
unfolding op_of opcode_table
int_binary-IsPlain t IntBinary.add e = plain refl refl (λ f m. refl) e
int_binary-IsPlain t IntBinary.sub e = plain refl refl (λ f m. refl) e
int_binary-IsPlain t IntBinary.mul e = plain refl refl (λ f m. refl) e
int_binary-IsPlain t IntBinary.div_s e = plain refl refl (λ f m. refl) e
int_binary-IsPlain t IntBinary.div_u e = plain refl (is_int-int_valty t) (λ f m. refl) e
int_binary-IsPlain t IntBinary.rem_s e = plain refl (is_int-int_valty t) (λ f m. refl) e
int_binary-IsPlain t IntBinary.rem_u e = plain refl (is_int-int_valty t) (λ f m. refl) e
int_binary-IsPlain t IntBinary.and e = plain refl (is_int-int_valty t) (λ f m. refl) e
int_binary-IsPlain t IntBinary.or e = plain refl (is_int-int_valty t) (λ f m. refl) e
int_binary-IsPlain t IntBinary.xor e = plain refl (is_int-int_valty t) (λ f m. refl) e
int_binary-IsPlain int32 IntBinary.shl e = plain refl refl (λ f m. refl) e
int_binary-IsPlain int32 IntBinary.shr_s e = plain refl refl (λ f m. refl) e
int_binary-IsPlain int32 IntBinary.shr_u e = plain refl refl (λ f m. refl) e
int_binary-IsPlain _ _ e = absurd (cc)

pub float_binary-IsPlain :
    (t : FloatTy) (o : FloatBinary) → IsPlain (float_binary_op o) (float_valty t) (float_arith_of o)
unfolding op_of opcode_table
float_binary-IsPlain t FloatBinary.add = record { known = refl; has = refl; second = λ e m. refl }
float_binary-IsPlain t FloatBinary.sub = record { known = refl; has = refl; second = λ e m. refl }
float_binary-IsPlain t FloatBinary.mul = record { known = refl; has = refl; second = λ e m. refl }
float_binary-IsPlain t FloatBinary.div = record { known = refl; has = refl; second = λ e m. refl }

pub compare_op-known : (c : Cmp) → op_of (compare_op c) ≡ some (Opcode.compare c)
unfolding op_of opcode_table
compare_op-known Opcode.eq = refl
compare_op-known _ = refl

compare-i32 : (c : Cmp) → (Jump.has_compare c i32 ≡ true) × (Jump.result_type c i32 ≡ i32)
compare-i32 Opcode.eq = (refl, refl)
compare-i32 _ = (refl, refl)

convert-same : (k : ℕ) → k < 2 ^ 32 → convert (2 ^ 32) (2 ^ 32) k ≡ k
convert-same k lt = ground arith

convert-low : (k : ℕ) → k < 2 ^ 32 → convert (2 ^ 32) (2 ^ 64) k % 2 ^ 32 ≡ k
convert-low k lt = ground arith

module _ (mod_ : Module) (h : Host) where
  -- An instruction that writes a register.
  pub one-Runs :
      (i : Inst) (v : Valty) (rd x : ℕ) (m : Machine) (op : Op) {old : ℕ}
      → op_of (opcode_of i) ≡ some op
      → get_reg v m rd ≡ ok old
      → ((k : Machine) (pc : ℕ) (raw : AmExpand)
          → set_reg v m rd x ≡ ok k
          → dispatch mod_ h pc op (type_of i) (expanded i raw) m ≡ ok (advance k))
      → (m' : Machine) × Runs mod_ h (i ∷ []) m m' × Written v rd x m m'
  one-Runs i v rd x m op known has does =
      let (k, set, table, current, written) = write v m rd x has in
      (
        inc_machine_pc k,
        (
          k,
          record {
            op = op;
            known = known;
            does = λ pc raw. does k pc raw set;
            table = table;
            current = current;
          },
          refl,
        ),
        written,
      )

  module _ (m : Machine) (v : Valty) (rd x : ℕ) {old : ℕ} (has : get_reg v m rd ≡ ok old) where
    pub mov-Runs :
        (rs : ℕ)
        → get_reg v m rs ≡ ok x
        → (m' : Machine) × Runs mod_ h (short mov_op v (Short.r_r rd rs) ∷ []) m m'
          × Written v rd x m m'
    unfolding op_of opcode_table dispatch Const.mov
    mov-Runs rs source =
        one-Runs (short mov_op v (Short.r_r rd rs)) v rd x m Opcode.mov refl has
          (λ k pc raw set. cc (source, set))

    pub eqz-Runs :
        (rs : ℕ) {y : ℕ}
        → v ≡ i32
        → get_reg v m rs ≡ ok y
        → of_test (y == 0) ≡ x
        → (m' : Machine) × Runs mod_ h (short eqz_op v (Short.r_r rd rs) ∷ []) m m'
          × Written v rd x m m'
    unfolding op_of opcode_table dispatch Jump.eqz
    eqz-Runs rs is source value =
        one-Runs (short eqz_op v (Short.r_r rd rs)) v rd x m Opcode.eqz refl has
          (λ k pc raw set. cc (source, value, set, is))

    pub compare-Runs :
        (c : Cmp) (rs rt : ℕ) {a b : ℕ}
        → v ≡ i32
        → get_reg v m rs ≡ ok a
        → get_reg v m rt ≡ ok b
        → of_test (Jump.int_compare c (2 ^ 32) a b) ≡ x
        → (m' : Machine) × Runs mod_ h (long (compare_op c) v (Long.r_r_r rd rs rt) ∷ []) m m'
          × Written v rd x m m'
    unfolding dispatch Jump.compare
    compare-Runs c rs rt is first second value =
        one-Runs (long (compare_op c) v (Long.r_r_r rd rs rt)) v rd x m (Opcode.compare c)
          (compare_op-known c) has
          (λ k pc raw set.
            let (has_case, result) = compare-i32 c in
            cc (has_case, result, is, first, second, value, set))

    pub arith-Runs :
        {op : ℕ} {o : Arith} (rs rt : ℕ) {a b : ℕ}
        → IsPlain op v o
        → get_reg v m rs ≡ ok a
        → get_reg v m rt ≡ ok b
        → arith_value h.floats o v a b ≡ ok x
        → (m' : Machine) × Runs mod_ h (long op v (Long.r_r_r rd rs rt) ∷ []) m m'
          × Written v rd x m m'
    unfolding dispatch Arith.arith_op
    arith-Runs {op} {o} rs rt {a} {b} is first second computed =
        one-Runs (long op v (Long.r_r_r rd rs rt)) v rd x m (Opcode.arith_op o) is.known has
          (λ k pc raw set.
            let e = expanded (long op v (Long.r_r_r rd rs rt)) raw in
            cc (first, is.second e m, second, computed, set, is.has))

  -- The word that sets the high half of what the first one wrote.
  high-Runs :
      (v : Valty) (rd n y : ℕ) (m m1 : Machine)
      → ((k : Machine) (pc : ℕ) (e : AmExpand)
          → get_reg v m1 e.expand1 ≡ ok y
          → set_reg v m1 e.expand1 (y % 2 ^ 32 + e.expand3 * 2 ^ 32) ≡ ok k
          → dispatch mod_ h pc Opcode.const_l_high v e m1 ≡ ok (advance k))
      → y % 2 ^ 32 ≡ n % 2 ^ 32
      → Runs mod_ h (long const_l_op v (Long.r_imm rd (n % 2 ^ 32)) ∷ []) m m1
      → Written v rd y m m1
      → (m' : Machine) × Runs mod_ h
          (long const_l_op v (Long.r_imm rd (n % 2 ^ 32))
            ∷ long const_l_high_op v (Long.r_imm rd (n / 2 ^ 32 % 2 ^ 32))
            ∷ [])
          m
          m'
        × Written v rd (n % 2 ^ 64) m m'
  unfolding op_of opcode_table
  high-Runs v rd n y m m1 rule low runs w =
      let i = long const_l_high_op v (Long.r_imm rd (n / 2 ^ 32 % 2 ^ 32)) in
      let value : y % 2 ^ 32 + n / 2 ^ 32 % 2 ^ 32 * 2 ^ 32 ≡ n % 2 ^ 64 = omega (arith, low) in
      let (m', last, w') =
        one-Runs i v rd (n % 2 ^ 64) m1 Opcode.const_l_high refl w.own
          (λ k pc raw set. rule k pc (expanded i raw) w.own (rw value set)) in
      (
        m',
        Runs-append mod_ h (long const_l_op v (Long.r_imm rd (n % 2 ^ 32)) ∷ []) (i ∷ []) m m1 m'
            runs last,
        record { own = w'.own; others = λ u j apart. w'.others u j apart ∙ w.others u j apart },
      )

  -- A constant of any type, modulo its width.
  pub const-Runs :
      (v : Valty) (rd n : ℕ) (m : Machine) {old : ℕ}
      → get_reg v m rd ≡ ok old
      → (m' : Machine) × Runs mod_ h (const_code v rd n) m m' × Written v rd (n % modulus v) m m'
  unfolding op_of opcode_table dispatch Const.const_l Const.const_l_high
  const-Runs i32 rd n m has =
      let same = convert-same (n % 2 ^ 32) (omega arith) in
      one-Runs (long const_l_op i32 (Long.r_imm rd (n % 2 ^ 32))) i32 rd (n % 2 ^ 32) m
        Opcode.const_l refl has (λ k pc raw set. cc (same, set))
  const-Runs f32 rd n m has =
      one-Runs (long const_l_op f32 (Long.r_imm rd (n % 2 ^ 32))) f32 rd (n % 2 ^ 32) m
        Opcode.const_l refl has (λ k pc raw set. cc (set))
  const-Runs i64 rd n m has =
      let y = convert (2 ^ 32) (2 ^ 64) (n % 2 ^ 32) in
      let (m1, first, w) =
        one-Runs (long const_l_op i64 (Long.r_imm rd (n % 2 ^ 32))) i64 rd y m Opcode.const_l refl
          has (λ k pc raw set. cc (set)) in
      high-Runs i64 rd n y m m1 (λ k pc e got set. cc (got, set))
        (convert-low (n % 2 ^ 32) (omega arith)) first w
  const-Runs f64 rd n m {old} has =
      let y = old / 2 ^ 32 * 2 ^ 32 + n % 2 ^ 32 in
      let (m1, first, w) =
        one-Runs (long const_l_op f64 (Long.r_imm rd (n % 2 ^ 32))) f64 rd y m Opcode.const_l refl
          has (λ k pc raw set. cc (has, set)) in
      high-Runs f64 rd n y m m1 (λ k pc e got set. cc (got, set)) (omega arith) first w
