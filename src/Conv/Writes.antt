-- ===== src/Conv/Writes.antt =====
-- Runs of the interpreter (src/interpreter/exec_unit.cxx) over instructions that each write a
-- register: what the other registers hold, and the steps that such a run is.
use uwasm_vm.Base.{
  ℕ, ◌+◌, ◌*◌, ◌/◌, ◌%◌, ◌≡◌, ◌≢◌, ◌⊎◌, inl, inr, refl, ap, sym, ◌∙◌, arith, false, List, [], ◌∷◌,
  ◌++◌, suc, length, get_elem?, some, ok, Bool-cases, if◌then◌else◌,
}
use mathlib.Core.Path.{subst}
use uwasm_vm.Isa.Opcode.{Valty, i32, i64, f32, f64, Op, valty_code}
use uwasm_vm.Isa.Table.{op_of}
use uwasm_vm.Isa.Expand.{AmExpand, opcode_to_opcode_l}
use uwasm_vm.Isa.Operands.{Short, plain, Long, place, place_l}
use uwasm_vm.Isa.RoundTrip.{with_opcode}
use uwasm_vm.Isa.CodeRoundTrip.{Inst, short, long, expanded, expanded_all}
use uwasm_vm.Machine.Register
use uwasm_vm.Machine.Register.{Register}
use uwasm_vm.Machine.State.{Machine, Module, reg, with_reg, get_reg, set_reg}
use uwasm_vm.Machine.Call.{inc_machine_pc}
use uwasm_vm.Exec.Step.{Host, advance, dispatch, step, valty_of, running}
use uwasm_vm.Exec.SafeRun.{Reaches, start}
use uwasm_vm.Exec.SafeRun.{Reaches-cons}
use uwasm_vm.Conv.State.{same_valty}
use uwasm_vm.Conv.Registers.{same_valty-eq, same_valty_refl}

-- A machine whose registers are those of another but for one.
pub record Written (v : Valty) (i x : ℕ) (m m' : Machine) : Type 0 where
  pub own : get_reg v m' i ≡ ok x
  pub others :
      (u : Valty) (j : ℕ) → (same_valty v u ≡ false) ⊎ (j ≢ i) → get_reg u m' j ≡ get_reg u m j

with_reg-reg :
    (v u : Valty) (r : Register) (m : Machine)
    → reg u (inc_machine_pc (with_reg v r m)) ≡ (if same_valty v u then r else reg u m)
with_reg-reg i32 i32 r m = refl
with_reg-reg i32 i64 r m = refl
with_reg-reg i32 f32 r m = refl
with_reg-reg i32 f64 r m = refl
with_reg-reg i64 i32 r m = refl
with_reg-reg i64 i64 r m = refl
with_reg-reg i64 f32 r m = refl
with_reg-reg i64 f64 r m = refl
with_reg-reg f32 i32 r m = refl
with_reg-reg f32 i64 r m = refl
with_reg-reg f32 f32 r m = refl
with_reg-reg f32 f64 r m = refl
with_reg-reg f64 i32 r m = refl
with_reg-reg f64 i64 r m = refl
with_reg-reg f64 f32 r m = refl
with_reg-reg f64 f64 r m = refl

with_reg-same :
    (v : Valty) (r : Register) (m : Machine)
    → ((with_reg v r m).table ≡ m.table) × ((with_reg v r m).current ≡ m.current)
with_reg-same i32 r m = (refl, refl)
with_reg-same i64 r m = (refl, refl)
with_reg-same f32 r m = (refl, refl)
with_reg-same f64 r m = (refl, refl)

module _ (r : Register) (i x : ℕ) where
  abbrev set_cell : Register
  set_cell = record r { cells = Register.update r.cells (r.fp + i) x }

  set_cell-own : {old : ℕ} → Register.get r i ≡ ok old → Register.get set_cell i ≡ ok x
  unfolding Register.get
  set_cell-own has = ground arith

  set-set_cell : {old : ℕ} → Register.get r i ≡ ok old → Register.set r i x ≡ ok set_cell
  unfolding Register.get Register.set
  set-set_cell has = ground arith

  set_cell-other : (j : ℕ) → j ≢ i → Register.get set_cell j ≡ Register.get r j
  unfolding Register.get
  set_cell-other j ne = ground arith

-- A write to a register that can be read.
pub write :
    (v : Valty) (m : Machine) (i x : ℕ) {old : ℕ}
    → get_reg v m i ≡ ok old
    → (k : Machine) × (set_reg v m i x ≡ ok k)
      × (k.table ≡ m.table)
      × (k.current ≡ m.current)
      × Written v i x m (inc_machine_pc k)
unfolding get_reg set_reg
write v m i x has =
    let r = set_cell (reg v m) i x in
    let (table, current) = with_reg-same v r m in
    (
      with_reg v r m,
      rw (set-set_cell (reg v m) i x has) refl,
      table,
      current,
      record {
        own = rw (with_reg-reg v v r m, same_valty_refl v) (set_cell-own (reg v m) i x has);
        others = λ u j apart. elim apart [
          | inl differ ↦ rw (with_reg-reg v u r m, differ) refl
          | inr ne ↦ elim (Bool-cases (same_valty v u)) [
            | inl is ↦
                rw (with_reg-reg v u r m, is)
                  (set_cell-other (reg v m) i x j ne
                    ∙ ap (λ t. Register.get (reg t m) j) (same_valty-eq v u is))
            | inr differ ↦ rw (with_reg-reg v u r m, differ) refl
          ]
        ];
      },
    )

abbrev pub opcode_of : Inst → ℕ
opcode_of (short op v o) = op
opcode_of (long op v o) = op

abbrev pub type_of : Inst → Valty
type_of (short op v o) = v
type_of (long op v o) = v

place-opcode : (o : Short) (e : AmExpand) → (place o e).opcode_l ≡ e.opcode_l
place-opcode plain e = refl
place-opcode _ e = refl

place_l-opcode : (o : Long) (e : AmExpand) → (place_l o e).opcode_l ≡ e.opcode_l
place_l-opcode (Long.r_imm a i) e = refl
place_l-opcode _ e = refl

expanded-opcode :
    (i : Inst) (raw : AmExpand)
    → (expanded i raw).opcode_l ≡ opcode_to_opcode_l (opcode_of i) (valty_code (type_of i))
expanded-opcode (short op v o) raw = place-opcode o (with_opcode op v raw)
expanded-opcode (long op v o) raw = place_l-opcode o (with_opcode op v raw)

valty_of-code : (v : Valty) (op : ℕ) → valty_of ((op * 4 + valty_code v) % 4) ≡ v
valty_of-code i32 op = let e : (op * 4 + 0) % 4 ≡ 0 = omega arith in ap valty_of e
valty_of-code i64 op = let e : (op * 4 + 1) % 4 ≡ 1 = omega arith in ap valty_of e
valty_of-code f32 op = let e : (op * 4 + 2) % 4 ≡ 2 = omega arith in ap valty_of e
valty_of-code f64 op = let e : (op * 4 + 3) % 4 ≡ 3 = omega arith in ap valty_of e

code-div : (v : Valty) (op : ℕ) → (op * 4 + valty_code v) / 4 ≡ op
code-div i32 op = omega arith
code-div i64 op = omega arith
code-div f32 op = omega arith
code-div f64 op = omega arith

module _ (mod_ : Module) (h : Host) where
  -- What the machine makes of an instruction that is not a jump, whatever the entry held before.
  pub record Performs (i : Inst) (m m' : Machine) : Type 0 where
    pub op : Op
    pub known : op_of (opcode_of i) ≡ some op
    pub does :
        (pc : ℕ) (raw : AmExpand)
        → dispatch mod_ h pc op (type_of i) (expanded i raw) m ≡ ok (advance m')
    pub table : m'.table ≡ m.table
    pub current : m'.current ≡ m.current

  abbrev pub Runs : List Inst → Machine → Machine → Type 0
  Runs [] m m' = m ≡ m'
  Runs (i ∷ is) m m' = (k : Machine) × Performs i m k × Runs is (inc_machine_pc k) m'

  pub Runs-append :
      (is js : List Inst) (m k n : Machine) → Runs is m k → Runs js k n → Runs (is ++ js) m n
  Runs-append [] js m k n same rest = subst (λ t. Runs js t n) (sym same) rest
  Runs-append (i ∷ is) js m k n (o, first, more) rest =
      (o, first, Runs-append is js (inc_machine_pc o) k n more rest)

  -- The entries of the instructions stand in the table from the pc on.
  abbrev pub Loaded : List Inst → (ℕ → AmExpand) → ℕ → Machine → Type 0
  Loaded is raw n m =
      (j : ℕ) (e : AmExpand)
      → get_elem? (expanded_all raw n is) j ≡ some e
      → get_elem? m.table (m.current.pc + j) ≡ some e

  Performs-step :
      (i : Inst) {m k : Machine} (raw : AmExpand)
      → Performs i m k
      → get_elem? m.table m.current.pc ≡ some (expanded i raw)
      → step mod_ h m ≡ ok (running (inc_machine_pc k))
  unfolding step
  Performs-step i {m} raw p found =
      let word = expanded-opcode i raw in
      let op = code-div (type_of i) (opcode_of i) in
      let ty = valty_of-code (type_of i) (opcode_of i) in
      cc (found, word, op, ty, p.known, p.does m.current.pc raw)

  pub Runs-Reaches :
      (is : List Inst) (raw : ℕ → AmExpand) (n : ℕ) (m m' : Machine)
      → Runs is m m'
      → Loaded is raw n m
      → Reaches mod_ h m m' × (m'.current.pc ≡ m.current.pc + length is)
  Runs-Reaches [] raw n m m' same loaded =
      subst (λ t. Reaches mod_ h m t × (t.current.pc ≡ m.current.pc + 0)) same (start, omega arith)
  Runs-Reaches (i ∷ is) raw n m m' (k, p, rest) loaded =
      let later : Loaded is raw (n + 1) (inc_machine_pc k) = λ j e g.
        let at : m.current.pc + suc j ≡ k.current.pc + 1 + j =
          omega (arith, ap (λ c. c.pc) p.current) in
        cc (loaded (suc j) e g, at, p.table) in
      let here : get_elem? m.table m.current.pc ≡ some (expanded i (raw n)) =
        let at : m.current.pc + 0 ≡ m.current.pc = omega arith in
        cc (loaded 0 (expanded i (raw n)) refl, at) in
      let (reached, pc) = Runs-Reaches is raw (n + 1) (inc_machine_pc k) m' rest later in
      (
        Reaches-cons mod_ h m (inc_machine_pc k) (Performs-step i (raw n) p here) reached,
        omega (arith, pc, ap (λ c. c.pc) p.current),
      )
