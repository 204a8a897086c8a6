-- ===== src/Tests/Loading.antt =====
-- The theorems on the memory that a machine starts with, at two segments and two relocations.
use uwasm_vm.Base.{
  ℕ, zero, suc, ◌++◌, ◌≡◌, refl, arith, inl, true, leb, List, [], ◌∷◌, All, ok, err, assertion,
}
use uwasm_vm.Machine.DataSegs.{
  DsegInfo, calc_max_ofs, data_segment_magic_prefix, elements, dseg_infos, init_mem_with_data_segs,
}
use uwasm_vm.Machine.Segments.{
  source_of, byte_at, init_mem_with_data_segs_lem, init_mem_with_data_segs-exact,
}
use uwasm_vm.Exec.Memory.{read_le}
use uwasm_vm.Exec.Prepare.{relocate}
use uwasm_vm.Exec.Relocs.{Reloc, numbers, IsOutside, Misses, target, relocate_lem}
use uwasm_vm.Tests.Sample.{zeros}

-- Four bytes at 8, and two that cover the last of them.
abbrev segs : List DsegInfo
segs = record { mem_offset = 8; size = 4 } ∷ record { mem_offset = 10; size = 2 } ∷ []

-- The magic, the number of the infos, and the infos; zeros behind what is listed.
abbrev byte_of : List ℕ → ℕ → ℕ
byte_of [] i = 0
byte_of (b ∷ bs) zero = b
byte_of (b ∷ bs) (suc i) = byte_of bs i

abbrev with_magic : ℕ → List ℕ → ℕ → ℕ
with_magic n infos =
    byte_of (data_segment_magic_prefix ++ ((n ∷ 0 ∷ 0 ∷ 0 ∷ 0 ∷ 0 ∷ 0 ∷ 0 ∷ []) ++ infos))

-- The infos of the two segments and their six bytes.
abbrev two_segs : ℕ → ℕ
two_segs = with_magic 2 (
    (8 ∷ 0 ∷ 0 ∷ 0 ∷ 4 ∷ 0 ∷ 0 ∷ 0 ∷ [])
    ++ ((10 ∷ 0 ∷ 0 ∷ 0 ∷ 2 ∷ 0 ∷ 0 ∷ 0 ∷ []) ++ (1 ∷ 2 ∷ 3 ∷ 4 ∷ 5 ∷ 6 ∷ [])))

two_segs-dseg_infos : dseg_infos two_segs (elements two_segs) 16 ≡ segs
unfolding dseg_infos read_le
two_segs-dseg_infos = refl

init_mem_with_data_segs_lem_example :
    (mem' : ℕ → ℕ) × (init_mem_with_data_segs two_segs 38 64 zeros ≡ ok mem')
    × ((i : ℕ) → mem' i ≡ byte_at two_segs zeros i (source_of segs 32 i))
init_mem_with_data_segs_lem_example =
    init_mem_with_data_segs_lem two_segs 38 64 (omega arith) (omega arith) segs zeros refl
      two_segs-dseg_infos (omega arith, (omega arith, tt)) (omega arith)

abbrev whole : DsegInfo
whole = record { mem_offset = 0; size = 64 }

abbrev whole_seg : ℕ → ℕ
whole_seg = with_magic 1 (0 ∷ 0 ∷ 0 ∷ 0 ∷ 64 ∷ 0 ∷ 0 ∷ 0 ∷ [])

whole_seg-dseg_infos : dseg_infos whole_seg (elements whole_seg) 16 ≡ whole ∷ []
unfolding dseg_infos read_le
whole_seg-dseg_infos = refl

init_mem_with_data_segs-exact_example :
    (leb (calc_max_ofs (whole ∷ [])) 64 ≡ true)
    × (init_mem_with_data_segs whole_seg 88 64 zeros ≡ err assertion)
init_mem_with_data_segs-exact_example =
    init_mem_with_data_segs-exact whole_seg 88 64 (omega arith) (omega arith) whole zeros refl
      whole_seg-dseg_infos refl refl

abbrev relocs : List Reloc
relocs =
    record { patch_pos = 0; ref_idx = 16; ref_off = 4 }
    ∷ record { patch_pos = 8; ref_idx = 16; ref_off = 0 }
    ∷ []

relocate_lem_example :
    (mem' : ℕ → ℕ) × (relocate 4096 64 (numbers relocs) zeros ≡ ok mem')
    × All (λ r. read_le mem' r.patch_pos 8 ≡ target 4096 64 r) relocs
    × ((i : ℕ) → All (IsOutside i) relocs → mem' i ≡ zeros i)
    × ((addr : ℕ) → All (Misses addr) relocs → read_le mem' addr 8 ≡ read_le zeros addr 8)
relocate_lem_example =
    relocate_lem 4096 64 relocs zeros (omega arith, (omega arith, tt))
      ((inl (omega arith), tt), (tt, tt))
