-- ===== src/Machine/Registers.antt =====
-- What a read of a register sees after a write, in any of the four register files
-- (src/interpreter/exec_unit.h).
use uwasm_vm.Base.{ℕ, ◌≡◌, ◌+◌, refl, arith, ok}
use uwasm_vm.Isa.Opcode.{Valty, i32, i64, f32, f64}
use uwasm_vm.Machine.Register
use uwasm_vm.Machine.Register.{Register}
use uwasm_vm.Machine.State.{Machine, with_reg, get_reg, set_reg}

module _ (r : Register) (i x : ℕ) where
  set-ok :
      {old : ℕ}
      → Register.get r i ≡ ok old
      → (r' : Register) × (Register.set r i x ≡ ok r') × (Register.get r' i ≡ ok x)
  unfolding Register.get Register.set
  set-ok {old} has =
      (record r { cells = Register.update r.cells (r.fp + i) x }, ground arith, ground arith)

-- Where a register can be read it can be written, and then holds what was written.
pub set_reg-ok :
    (v : Valty) (m : Machine) (i x : ℕ) {old : ℕ}
    → get_reg v m i ≡ ok old
    → (m' : Machine) × (set_reg v m i x ≡ ok m') × (get_reg v m' i ≡ ok x)
unfolding get_reg set_reg
set_reg-ok i32 m i x has =
    let (r, set, got) = set-ok m.reg_i32 i x has in (with_reg i32 r m, rw set refl, got)
set_reg-ok i64 m i x has =
    let (r, set, got) = set-ok m.reg_i64 i x has in (with_reg i64 r m, rw set refl, got)
set_reg-ok f32 m i x has =
    let (r, set, got) = set-ok m.reg_f32 i x has in (with_reg f32 r m, rw set refl, got)
set_reg-ok f64 m i x has =
    let (r, set, got) = set-ok m.reg_f64 i x has in (with_reg f64 r m, rw set refl, got)
