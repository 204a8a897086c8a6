-- ===== src/Exec/LoadStore.antt =====
-- What a load sees after a store: bytes, and the local loads and stores of
-- src/interpreter/exec_unit_func.h.
use uwasm_vm.Base.{
  ℕ, zero, suc, ◌+◌, ◌*◌, ◌/◌, ◌%◌, ◌^◌, ◌<◌, ◌≤◌, ◌≡◌, ◌⊎◌, inl, inr, refl, arith, true,
}
use uwasm_vm.Base.{leb, ◌&&◌, ok, >>=-eq-ok, ok-injective, err-ne-ok, Bool-cases}
use uwasm_vm.Isa.Opcode.{Valty, i32, i64, f32, f64, full, whole}
use uwasm_vm.Isa.Expand.{AmExpand}
use uwasm_vm.Machine.Register.{update}
use uwasm_vm.Machine.State.{Machine, get_reg, set_reg}
use uwasm_vm.Exec.Word.{modulus}
use uwasm_vm.Exec.Memory.{read_le, write_le, size_of, add_imm, read_mem, write_mem, lload, lstore}

-- A write of `n` bytes from `addr` on changes no byte below and none above.
pub write_le-below : (mem : ℕ → ℕ) (addr n x j : ℕ) → j < addr → write_le mem addr n x j ≡ mem j
unfolding write_le
write_le-below mem addr zero x j h = refl
write_le-below mem addr (suc n) x j h =
    ground (arith, write_le-below mem (addr + 1) n (x / 2 ^ 8) j (omega arith))

pub write_le-above : (mem : ℕ → ℕ) (addr n x j : ℕ) → addr + n ≤ j → write_le mem addr n x j ≡ mem j
unfolding write_le
write_le-above mem addr zero x j h = refl
write_le-above mem addr (suc n) x j h =
    ground (arith, write_le-above mem (addr + 1) n (x / 2 ^ 8) j (omega arith))

-- Reading depends only on the bytes that are read.
pub read_le-ext :
    (mem mem' : ℕ → ℕ) (addr n : ℕ)
    → ((j : ℕ) → addr ≤ j → j < addr + n → mem j ≡ mem' j)
    → read_le mem addr n ≡ read_le mem' addr n
unfolding read_le
read_le-ext mem mem' addr zero same = refl
read_le-ext mem mem' addr (suc n) same =
    let rest : read_le mem (addr + 1) n ≡ read_le mem' (addr + 1) n =
      read_le-ext mem mem' (addr + 1) n (λ j lo hi. same j (omega arith) (omega arith)) in
    rw (same addr (omega arith) (omega arith), rest) refl

-- How many numbers `n` bytes hold.
abbrev pub byte_count : ℕ → ℕ
byte_count zero = 1
byte_count (suc n) = 2 ^ 8 * byte_count n

-- A number that fits in `n` bytes is read back from where it was written.
pub read_le-write_le :
    (mem : ℕ → ℕ) (addr n x : ℕ) → x < byte_count n → read_le (write_le mem addr n x) addr n ≡ x
unfolding read_le write_le
read_le-write_le mem addr zero x h = omega arith
read_le-write_le mem addr (suc n) x h =
    let rest : ℕ → ℕ = write_le mem (addr + 1) n (x / 2 ^ 8) in
    let same : read_le (update rest addr (x % 2 ^ 8)) (addr + 1) n ≡ read_le rest (addr + 1) n =
      read_le-ext (update rest addr (x % 2 ^ 8)) rest (addr + 1) n (λ j lo hi. ground arith) in
    let again : read_le rest (addr + 1) n ≡ x / 2 ^ 8 =
      read_le-write_le mem (addr + 1) n (x / 2 ^ 8) (omega arith) in
    let first : update rest addr (x % 2 ^ 8) addr ≡ x % 2 ^ 8 = ground arith in
    rw (first, same, again) (omega arith)

-- A read that touches none of the bytes written sees the memory as it was.
pub read_le-write_le_apart :
    (mem : ℕ → ℕ) (addr n x addr' n' : ℕ)
    → (addr' + n' ≤ addr) ⊎ (addr + n ≤ addr')
    → read_le (write_le mem addr n x) addr' n' ≡ read_le mem addr' n'
read_le-write_le_apart mem addr n x addr' n' (inl below) =
    read_le-ext _ mem addr' n' (λ j lo hi. write_le-below mem addr n x j (omega arith))
read_le-write_le_apart mem addr n x addr' n' (inr above) =
    read_le-ext _ mem addr' n' (λ j lo hi. write_le-above mem addr n x j (omega arith))

size_of-modulus : (v : Valty) → byte_count (size_of v) ≡ modulus v
size_of-modulus i32 = refl
size_of-modulus i64 = refl
size_of-modulus f32 = refl
size_of-modulus f64 = refl

-- A store that succeeds, taken apart: the bytes are inside the memory, and only they change.
write_mem_lem :
    (m m' : Machine) (addr n x : ℕ)
    → write_mem m addr n x ≡ ok m'
    → ((m.mem_valid && leb (addr + n) m.mem_size) ≡ true)
      × (record m { mem = write_le m.mem addr n x } ≡ m')
unfolding write_mem
write_mem_lem m m' addr n x stored = elim (Bool-cases (m.mem_valid && leb (addr + n) m.mem_size)) [
  | inl inside ↦ (inside, ok-injective (rw inside at stored))
  | inr outside ↦ absurd (err-ne-ok (rw outside at stored))
]

-- Where an Lstore of a whole register succeeds, an Lload from the same offset into any register
-- then writes the value that was stored.
pub lload-lstore :
    (v : Valty) (e e' : AmExpand) (m m' : Machine) (x : ℕ)
    → get_reg v m e.expand1 ≡ ok x
    → x < modulus v
    → e'.expand3 ≡ e.expand3
    → lstore whole v e m ≡ ok m'
    → lload full v e' m' ≡ set_reg v m' e'.expand1 x
unfolding lstore lload read_mem
lload-lstore v e e' m m' x has fits same stored =
    let (addr, at, next) = >>=-eq-ok (add_imm m.current.sp e.expand3) _ stored in
    let (inside, stores) = write_mem_lem m m' addr (size_of v) x (rw has at next) in
    rw
      (
        same,
        ← stores,
        at,
        inside,
        read_le-write_le m.mem addr (size_of v) x (rw size_of-modulus fits),
      )
      refl
