-- ===== src/Exec/Prepare.antt =====
-- Fix_up_reloc (src/ubh/u_module.cxx), which fills the memory before a run. A pointer is a 64-bit
-- word: `base` is the address of the memory.
use uwasm_vm.Base.{
  ℕ, true, false, ◌+◌, ◌%◌, ◌^◌, leb, ◌==◌, if◌then◌else◌, List, [], ◌∷◌, Option, some, none,
}
use uwasm_vm.Base.{Result, ok, err, undefined, ◌>>=◌, ◌>>◌, is_true, defined_if}
use uwasm_vm.Machine.DataSegs.{copy_bytes, has_magic, init_mem_with_data_segs}
use uwasm_vm.Exec.Memory.{write_le}

-- The data section: `bytes` goes on behind its `size` bytes, since memcmp reads eight of a shorter one.
pub record DataSec : Type 0 where
  pub bytes : ℕ → ℕ
  pub size : ℕ

-- The loop over the relocations, three numbers at a time.
unfoldable pub relocate : ℕ → ℕ → List ℕ → (ℕ → ℕ) → Result (ℕ → ℕ)
unfolding write_le
relocate base mem_size [] mem = ok mem
relocate base mem_size (patch_pos ∷ []) mem = err undefined
relocate base mem_size (patch_pos ∷ ref_idx ∷ []) mem = err undefined
relocate base mem_size (patch_pos ∷ ref_idx ∷ ref_off ∷ rest) mem = do
  defined_if (leb (patch_pos + 8) mem_size)
  relocate base mem_size rest (write_le mem patch_pos 8 ((base + ref_idx + ref_off) % 2 ^ 64))

-- NUM_SUCC or ERR_NOT_ENOUGH_MEM_BUF, with the memory.
pub data Fixed : Type 0 where
  succ : (ℕ → ℕ) → Fixed
  not_enough_mem_buf : (ℕ → ℕ) → Fixed

-- Whether the section starts with DATA_SEGMENT_MAGIC_PREFIX decides how it is copied.
abbrev pub copy_data : DataSec → ℕ → (ℕ → ℕ) → Result (ℕ → ℕ)
copy_data d mem_size mem = elim (has_magic d.bytes) [
  | true ↦ init_mem_with_data_segs d.bytes d.size mem_size mem
  | false ↦ is_true (leb d.size mem_size) >> ok (copy_bytes d.bytes 0 0 d.size mem)
]

abbrev pub fix_up_reloc_sec : DataSec → List ℕ → ℕ → ℕ → (ℕ → ℕ) → Result Fixed
fix_up_reloc_sec d [] base mem_size mem = ok (succ mem)
fix_up_reloc_sec d (r ∷ rs) base mem_size mem = do
  is_true (leb d.size mem_size)
  if leb mem_size d.size
      then ok (not_enough_mem_buf mem)
      else (do fixed ← relocate base mem_size (r ∷ rs) mem; ok (succ fixed))

-- `data_sec` and `reloc_sec` are the sections that the module contains.
unfoldable pub fix_up_reloc : Option DataSec → Option (List ℕ) → ℕ → ℕ → (ℕ → ℕ) → Result Fixed
unfolding init_mem_with_data_segs relocate
fix_up_reloc none reloc_sec base mem_size mem = ok (succ mem)
fix_up_reloc (some d) reloc_sec base mem_size mem = if d.size == 0 then ok (succ mem) else (do
  copied ← copy_data d mem_size mem
  elim reloc_sec [
    | none ↦ ok (succ copied)
    | some relocs ↦ fix_up_reloc_sec d relocs base mem_size copied
  ])
