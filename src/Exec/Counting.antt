-- ===== src/Exec/Counting.antt =====
-- What the counting and constant instructions of src/interpreter/exec_unit_func.h compute.
use uwasm_vm.Base.{
  ℕ, zero, suc, ◌+◌, ◌*◌, ◌/◌, ◌%◌, ◌^◌, ◌≡◌, ◌∙◌, refl, ap, sym, Bool, arith, true, false,
}
use uwasm_vm.Base.{ok}
use native.Mathlib.Nat.{div-div-eq-div-mul, pow-suc, zero-add}
use uwasm_vm.Isa.Opcode.{Valty, is_int, i32, i64, f32, f64}
use uwasm_vm.Isa.Expand.{AmExpand}
use uwasm_vm.Machine.State.{Machine, get_reg, set_reg}
use uwasm_vm.Machine.Registers.{set_reg-ok}
use uwasm_vm.Exec.Arith.{imm_of, width}
use uwasm_vm.Exec.Const.{count_bits, popcnt, const_l, const_l_high}

-- The number of ones among the low `w` bits.
abbrev pub ones : ℕ → ℕ → ℕ
ones zero x = 0
ones (suc w) x = x % 2 + ones w (x / 2)

power : (i : ℕ) → 2 ^ i * 2 ≡ 2 ^ (i + 1)
power i = let next : i + 1 ≡ suc i = omega arith in rw next (sym (pow-suc 2 i))

halve : (ofs i : ℕ) → ofs / 2 ^ i / 2 ≡ ofs / 2 ^ (i + 1)
halve ofs i = div-div-eq-div-mul ofs (2 ^ i) 2 ∙ ap (λ n. ofs / n) (power i)

count_bits-ones :
    (left i ofs one_bit : ℕ) → count_bits left i ofs one_bit ≡ one_bit + ones left (ofs / 2 ^ i)
unfolding count_bits
count_bits-ones zero i ofs one_bit = omega arith
count_bits-ones (suc left) i ofs one_bit =
    count_bits-ones left (i + 1) ofs (one_bit + ofs / 2 ^ i % 2) ∙ rw halve (omega arith)

count_bits-ones_0 : (left ofs : ℕ) → count_bits left 0 ofs 0 ≡ ones left ofs
count_bits-ones_0 left ofs =
    let whole : ofs / 2 ^ 0 ≡ ofs = omega arith in
    count_bits-ones left 0 ofs 0 ∙ zero-add (ones left (ofs / 2 ^ 0)) ∙ ap (ones left) whole

-- Popcnt writes the number of ones of its immediate, for both integer types.
pub popcnt_lem :
    (v : Valty) (e : AmExpand) (m : Machine)
    → is_int v ≡ true
    → popcnt v e m ≡ set_reg v m e.expand1 (ones (width v) e.expand3)
unfolding popcnt
popcnt_lem v e m int = rw (int, count_bits-ones_0 (width v) e.expand3) refl

abbrev pub is_wide : Valty → Bool
is_wide i32 = false
is_wide i64 = true
is_wide f32 = false
is_wide f64 = true

-- A long constant instruction and one for the high half, with the two halves of a number, leave
-- the number in the register, for the 64-bit types: the first succeeds where the register exists,
-- and then the second does, whatever the register held.
pub const_l_high-const_l :
    (v : Valty) (e e' : AmExpand) (m : Machine) (old c : ℕ)
    → is_wide v ≡ true
    → get_reg v m e.expand1 ≡ ok old
    → e'.expand1 ≡ e.expand1
    → e.expand3 ≡ c % 2 ^ 32
    → e'.expand3 ≡ c / 2 ^ 32
    → (m1 : Machine) × (m2 : Machine) × (const_l v e m ≡ ok m1)
      × (const_l_high v e' m1 ≡ ok m2)
      × (get_reg v m2 e.expand1 ≡ ok c)
unfolding const_l const_l_high
const_l_high-const_l i64 e e' m old c wide has same low high =
    let (m1, set1, got1) = set_reg-ok i64 m e.expand1 (imm_of i64 e.expand3) has in
    let word : ℕ = imm_of i64 e.expand3 % 2 ^ 32 + e'.expand3 * 2 ^ 32 in
    let (m2, set2, got2) = set_reg-ok i64 m1 e.expand1 word got1 in
    let whole : word ≡ c = ground arith in (m1, m2, set1, rw (same, got1) set2, got2 ∙ ap ok whole)
const_l_high-const_l f64 e e' m old c wide has same low high =
    let (m1, set1, got1) = set_reg-ok f64 m e.expand1 (old / 2 ^ 32 * 2 ^ 32 + e.expand3) has in
    let word : ℕ = (old / 2 ^ 32 * 2 ^ 32 + e.expand3) % 2 ^ 32 + e'.expand3 * 2 ^ 32 in
    let (m2, set2, got2) = set_reg-ok f64 m1 e.expand1 word got1 in
    let whole : word ≡ c = omega arith in
    (m1, m2, rw has set1, rw (same, got1) set2, got2 ∙ ap ok whole)
const_l_high-const_l i32 e e' m old c wide has same low high = cc
const_l_high-const_l f32 e e' m old c wide has same low high = cc
