-- ===== src/Machine/DataSegs.antt =====
-- The memory that a machine starts with: UBH_DATA_SEGMENTS (include/ubh/ubh.h) and
-- Init_mem_with_data_segs (src/ubh/u_module.cxx). Bytes of the data section and of the memory are
-- counted from its start.
use uwasm_vm.Base.{ℕ, zero, suc, Bool, ◌+◌, ◌-◌, ◌*◌, ◌%◌, ◌^◌, ◌&&◌, ltb, leb, ◌==◌, if◌then◌else◌}
use uwasm_vm.Base.{List, [], ◌∷◌, length}
use uwasm_vm.Base.{Result, ok, ◌>>◌, is_true, defined_if}
use uwasm_vm.StrTab.Order.{same_bytes}
use uwasm_vm.Exec.Memory.{read_le}

-- UBH_DSEG_INFO; a UBH_DATA_SEGMENTS is the list of them.
pub record DsegInfo : Type 0 where
  pub mem_offset : ℕ
  pub size : ℕ

abbrev pub calc_size : List DsegInfo → ℕ
calc_size segs = (length segs * 8 + 16) % 2 ^ 32

unfoldable pub total_from : ℕ → List DsegInfo → ℕ
total_from total [] = total
total_from total (s ∷ ss) = total_from ((total + s.size) % 2 ^ 32) ss

abbrev pub calc_total_space : List DsegInfo → ℕ
calc_total_space segs = total_from (calc_size segs) segs

unfoldable pub max_from : ℕ → List DsegInfo → ℕ
max_from max [] = max
max_from max (s ∷ ss) =
    let end = (s.size + s.mem_offset) % 2 ^ 32 in max_from (if ltb max end then end else max) ss

abbrev pub calc_max_ofs : List DsegInfo → ℕ
calc_max_ofs segs = max_from 0 segs

-- memcpy of `size` bytes from `from` in the data to `to` in the memory.
abbrev pub copy_bytes : (ℕ → ℕ) → ℕ → ℕ → ℕ → (ℕ → ℕ) → ℕ → ℕ
copy_bytes data_sec from to size mem i =
    if leb to i && ltb i (to + size) then data_sec (from + (i - to)) else mem i

-- The loop that copies the segments.
unfoldable pub copy_segs : (ℕ → ℕ) → ℕ → ℕ → List DsegInfo → ℕ → (ℕ → ℕ) → Result (ℕ → ℕ)
copy_segs data_sec data_sec_size mem_size [] total_copied mem = ok mem
copy_segs data_sec data_sec_size mem_size (s ∷ ss) total_copied mem = do
  is_true (ltb ((s.mem_offset + s.size) % 2 ^ 32) mem_size)
  defined_if (leb (total_copied + s.size) data_sec_size)
  defined_if (leb (s.mem_offset + s.size) mem_size)
  copy_segs data_sec data_sec_size mem_size ss ((total_copied + s.size) % 2 ^ 32)
      (copy_bytes data_sec total_copied s.mem_offset s.size mem)

-- DATA_SEGMENT_MAGIC_PREFIX, of which the first eight bytes are compared.
abbrev pub data_segment_magic_prefix : List ℕ
data_segment_magic_prefix = 85 ∷ 68 ∷ 83 ∷ 118 ∷ 48 ∷ 46 ∷ 49 ∷ 0 ∷ []

abbrev pub has_magic : (ℕ → ℕ) → Bool
has_magic data_sec =
    same_bytes
      (data_sec 0
        ∷ data_sec 1
        ∷ data_sec 2
        ∷ data_sec 3
        ∷ data_sec 4
        ∷ data_sec 5
        ∷ data_sec 6
        ∷ data_sec 7
        ∷ [])
      data_segment_magic_prefix

-- _elements, and the infos from the byte `off` on.
abbrev pub elements : (ℕ → ℕ) → ℕ
elements data_sec = read_le data_sec 8 8

unfoldable pub dseg_infos : (ℕ → ℕ) → ℕ → ℕ → List DsegInfo
unfolding read_le
dseg_infos data_sec zero off = []
dseg_infos data_sec (suc n) off =
    record { mem_offset = read_le data_sec off 4; size = read_le data_sec (off + 4) 4 }
    ∷ dseg_infos data_sec n (off + 8)

-- From the check of the total space on.
unfoldable pub init_from_segs : List DsegInfo → (ℕ → ℕ) → ℕ → ℕ → (ℕ → ℕ) → Result (ℕ → ℕ)
unfolding total_from max_from copy_segs
init_from_segs segs data_sec data_sec_size mem_size mem = do
  is_true (calc_total_space segs == data_sec_size)
  is_true (leb (calc_max_ofs segs) mem_size)
  copy_segs data_sec data_sec_size mem_size segs (calc_size segs) mem

-- Infos that are not all in the data section count as undefined.
unfoldable pub init_mem_with_data_segs : (ℕ → ℕ) → ℕ → ℕ → (ℕ → ℕ) → Result (ℕ → ℕ)
unfolding read_le dseg_infos init_from_segs
init_mem_with_data_segs data_sec data_sec_size mem_size mem = do
  is_true (has_magic data_sec)
  defined_if (leb (elements data_sec * 8 + 16) data_sec_size)
  init_from_segs (dseg_infos data_sec (elements data_sec) 16) data_sec data_sec_size mem_size mem
