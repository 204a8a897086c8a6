-- ===== src/Exec/Memory.antt =====
-- The memory instructions of src/interpreter/exec_unit_func.h, with Get_base_addr and
-- Get_ofst_addr (src/interpreter/exec_unit.h) and Grow_memory (src/interpreter/exec_unit.cxx). The
-- machine is little-endian.
use uwasm_vm.Base.{
  ℕ, zero, suc, ◌+◌, ◌-◌, ◌*◌, ◌/◌, ◌%◌, ◌^◌, Bool, true, false, not, ltb, leb, ◌==◌, ◌&&◌,
}
use uwasm_vm.Base.{if◌then◌else◌, Result, ok, ◌>>=◌, ◌>>◌}
use uwasm_vm.Base.{is_true, defined_if}
use uwasm_vm.Base.Int.{pos_part, neg_part, signed, convert}
use uwasm_vm.Isa.Opcode.{
  is_int, Valty, i32, i64, f32, f64, Access, full, s8, u8, s16, u16, s32, u32,
}
use uwasm_vm.Isa.Opcode.{StoreWidth, whole, w8, w16, w32}
use uwasm_vm.Isa.Expand.{AmExpand}
use uwasm_vm.Machine.Register.{update}
use uwasm_vm.Machine.State.{Machine, get_reg, set_reg}
use uwasm_vm.Exec.Word.{magnitude, modulus}

unfoldable pub read_le : (ℕ → ℕ) → ℕ → ℕ → ℕ
read_le mem addr zero = 0
read_le mem addr (suc n) = mem addr + 2 ^ 8 * read_le mem (addr + 1) n

unfoldable pub write_le : (ℕ → ℕ) → ℕ → ℕ → ℕ → ℕ → ℕ
write_le mem addr zero x = mem
write_le mem addr (suc n) x = update (write_le mem (addr + 1) n (x / 2 ^ 8)) addr (x % 2 ^ 8)

-- `*((T *) addr)` for a type of `n` bytes, undefined outside the memory.
abbrev pub access : Machine → ℕ → ℕ → Result (Unit {0})
access m addr n = defined_if (m.mem_valid && leb (addr + n) m.mem_size)

unfoldable pub read_mem : Machine → ℕ → ℕ → Result ℕ
unfolding read_le
read_mem m addr n = access m addr n >> ok (read_le m.mem addr n)

unfoldable pub write_mem : Machine → ℕ → ℕ → ℕ → Result Machine
unfolding write_le
write_mem m addr n x = access m addr n >> ok (record m { mem = write_le m.mem addr n x })

-- A pointer and an INT32, undefined below the memory.
unfoldable pub add_imm : ℕ → ℕ → Result ℕ
add_imm base imm =
    let z = signed (2 ^ 32) imm in
    defined_if (leb (neg_part z) (base + pos_part z)) >> ok (base + pos_part z - neg_part z)

-- The debug build: the offset of the address register is checked, and one that is not positive
-- counts from the end of the stack. `abs` of the least INT32 is undefined.
unfoldable pub get_base_addr : Machine → ℕ → Result ℕ
get_base_addr m reg_idx = do
  ptr_ofs ← get_reg i32 m reg_idx
  defined_if (not (ptr_ofs == 2 ^ 31))
  is_true (ltb (magnitude (2 ^ 32) ptr_ofs) m.mem_size)
  if ltb 0 ptr_ofs && ltb ptr_ofs (2 ^ 31)
      then ok ptr_ofs
      else (defined_if (leb (magnitude (2 ^ 32) ptr_ofs) m.sta)
          >> ok (m.sta - magnitude (2 ^ 32) ptr_ofs))

abbrev pub has_load : Access → Valty → Bool
has_load full v = true
has_load s32 i64 = true
has_load u32 i64 = true
has_load s32 _ = false
has_load u32 _ = false
has_load _ v = is_int v

-- sizeof(INT32) to sizeof(FLOAT64).
abbrev pub size_of : Valty → ℕ
size_of i32 = 4
size_of i64 = 8
size_of f32 = 4
size_of f64 = 8

abbrev pub load_size : Access → Valty → ℕ
load_size full v = size_of v
load_size s8 v = 1
load_size u8 v = 1
load_size s16 v = 2
load_size u16 v = 2
load_size s32 v = 4
load_size u32 v = 4

-- The conversion from the type that is read to the type of the register.
abbrev pub extend : Access → Valty → ℕ → ℕ
extend s8 v x = convert (2 ^ 8) (modulus v) x
extend s16 v x = convert (2 ^ 16) (modulus v) x
extend s32 v x = convert (2 ^ 32) (modulus v) x
extend _ v x = x

-- Load_i32_am32s_r_r_imm to Load32_u_i64_am32s_r_r_imm, and the same bodies under am64.
unfoldable pub load : Access → Valty → AmExpand → Machine → Result Machine
unfolding get_base_addr add_imm read_mem
load a v e m = is_true (has_load a v) >> (do
  base ← get_base_addr m e.expand2
  addr ← add_imm base e.expand3
  x ← read_mem m addr (load_size a v)
  set_reg v m e.expand1 (extend a v x))

-- Lload_i32_am32_r_imm to Lload32_u_i64_am32_r_imm; those of am64 call them.
unfoldable pub lload : Access → Valty → AmExpand → Machine → Result Machine
unfolding add_imm read_mem
lload a v e m = is_true (has_load a v) >> (do
  addr ← add_imm m.current.sp e.expand3
  x ← read_mem m addr (load_size a v)
  set_reg v m e.expand1 (extend a v x))

abbrev pub has_store : StoreWidth → Valty → Bool
has_store whole v = true
has_store w32 i64 = true
has_store w32 _ = false
has_store _ v = is_int v

abbrev pub store_size : StoreWidth → Valty → ℕ
store_size whole v = size_of v
store_size w8 v = 1
store_size w16 v = 2
store_size w32 v = 4

-- Store_i32_am32s_r_r_imm to Store32_i64_am32s_r_r_imm, and the same bodies under am64.
unfoldable pub store : StoreWidth → Valty → AmExpand → Machine → Result Machine
unfolding get_base_addr add_imm write_mem
store s v e m = is_true (has_store s v) >> (do
  base ← get_base_addr m e.expand2
  addr ← add_imm base e.expand3
  x ← get_reg v m e.expand1
  write_mem m addr (store_size s v) x)

-- Lstore_i32_am32_r_imm to Lstore32_i64_am32_r_imm; those of am64 call them.
unfoldable pub lstore : StoreWidth → Valty → AmExpand → Machine → Result Machine
unfolding add_imm write_mem
lstore s v e m = is_true (has_store s v) >> (do
  addr ← add_imm m.current.sp e.expand3
  x ← get_reg v m e.expand1
  write_mem m addr (store_size s v) x)
