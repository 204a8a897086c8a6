-- ===== src/Tests/Instructions.antt =====
-- The theorems on single instructions, at concrete registers and numbers.
use uwasm_vm.Base.{ℕ, ◌≡◌, ◌≢◌, ◌/◌, ◌^◌, ◌-◌, refl, arith, ok, err, undefined, if◌then◌else◌, ◌==◌}
use uwasm_vm.Isa.Opcode.{i32, i64, div_u, full, whole}
use uwasm_vm.Machine.Register
use uwasm_vm.Machine.State.{Machine, get_reg, set_reg}
use uwasm_vm.Exec.Memory.{lload, lstore, write_mem, write_le, add_imm}
use uwasm_vm.Exec.LoadStore.{lload-lstore}
use uwasm_vm.Exec.Arith.{int_arith, width, rotl, rotr}
use uwasm_vm.Exec.Const.{const_l, const_l_high, popcnt}
use uwasm_vm.Exec.Counting.{ones, popcnt_lem, const_l_high-const_l}
use uwasm_vm.Exec.Unsigned.{div_u-large, rotate_64-undefined}
use uwasm_vm.Tests.Sample.{machine, entry}

-- -4 as an INT32 offset from the stack pointer.
abbrev slot : ℕ
slot = 2 ^ 32 - 4

abbrev holding : Machine
holding = record machine {
  reg_i32 = record machine.reg_i32 { cells = λ i. if i == 3 then 77 else 0 };
}

abbrev stored : Machine
stored = record holding { mem = write_le holding.mem 252 4 77 }

holds : get_reg i32 holding 3 ≡ ok 77
unfolding get_reg Register.get
holds = refl

stores : lstore whole i32 (entry 0 3 0 slot) holding ≡ ok stored
unfolding lstore add_imm write_mem get_reg Register.get
stores = refl

lload-lstore_example : lload full i32 (entry 0 5 0 slot) stored ≡ set_reg i32 stored 5 77
lload-lstore_example =
    lload-lstore i32 (entry 0 3 0 slot) (entry 0 5 0 slot) holding stored 77 holds (omega arith)
      refl stores

popcnt_lem_example :
    popcnt i64 (entry 0 2 0 0xff) machine ≡ set_reg i64 machine 2 (ones (width i64) 0xff)
popcnt_lem_example = popcnt_lem i64 (entry 0 2 0 0xff) machine refl

empty : get_reg i64 machine 4 ≡ ok 0
unfolding get_reg Register.get
empty = refl

const_l_high-const_l_example :
    (m1 : Machine) × (m2 : Machine) × (const_l i64 (entry 0 4 0 2) machine ≡ ok m1)
    × (const_l_high i64 (entry 0 4 0 1) m1 ≡ ok m2)
    × (get_reg i64 m2 4 ≡ ok 0x100000002)
const_l_high-const_l_example =
    const_l_high-const_l i64 (entry 0 4 0 2) (entry 0 4 0 1) machine 0 0x100000002 refl empty refl
      (omega arith) (omega arith)

div_u-large_example : int_arith div_u i32 0x80000000 2 ≢ ok (0x80000000 / 2)
div_u-large_example =
    div_u-large i32 0x80000000 2 (omega arith) (omega arith) (omega arith) (omega arith)

rotate_64-undefined_example :
    (rotl i64 (entry 0 1 2 3) holding ≡ err undefined)
    × (rotr i64 (entry 0 1 2 3) holding ≡ err undefined)
rotate_64-undefined_example = rotate_64-undefined (entry 0 1 2 3) holding 77 holds
