-- ===== src/Exec/Relocs.antt =====
-- The pointers that Fix_up_reloc (src/ubh/u_module.cxx) writes.
use uwasm_vm.Base.{ℕ, ◌+◌, ◌%◌, ◌^◌, ◌<◌, ◌≤◌, ◌≡◌, ◌∙◌, inl, inr, ◌⊎◌, refl, arith, leb, true}
use uwasm_vm.Base.{List, [], ◌∷◌, All, ok}
use uwasm_vm.Exec.Memory.{read_le, write_le}
use uwasm_vm.Exec.LoadStore.{
  read_le-write_le, read_le-write_le_apart, write_le-below, write_le-above,
}
use uwasm_vm.Exec.Prepare.{relocate}

-- The three numbers of a relocation.
pub record Reloc : Type 0 where
  pub patch_pos : ℕ
  pub ref_idx : ℕ
  pub ref_off : ℕ

abbrev pub numbers : List Reloc → List ℕ
numbers [] = []
numbers (r ∷ rs) = r.patch_pos ∷ r.ref_idx ∷ r.ref_off ∷ numbers rs

-- A byte that the relocation does not touch.
abbrev pub IsOutside : ℕ → Reloc → Type 0
IsOutside i r = (i < r.patch_pos) ⊎ (r.patch_pos + 8 ≤ i)

-- Eight bytes that the relocation does not touch.
abbrev pub Misses : ℕ → Reloc → Type 0
Misses addr r = (addr + 8 ≤ r.patch_pos) ⊎ (r.patch_pos + 8 ≤ addr)

abbrev pub AreApart : List Reloc → Type 0
AreApart [] = Unit
AreApart (r ∷ rs) = All (Misses r.patch_pos) rs × AreApart rs

module _ (base mem_size : ℕ) where
  abbrev pub target : Reloc → ℕ
  target r = (base + r.ref_idx + r.ref_off) % 2 ^ 64

  written_outside :
      (mem : ℕ → ℕ) (r : Reloc) (i : ℕ)
      → IsOutside i r
      → write_le mem r.patch_pos 8 (target r) i ≡ mem i
  written_outside mem r i (inl below) = write_le-below mem r.patch_pos 8 (target r) i below
  written_outside mem r i (inr above) = write_le-above mem r.patch_pos 8 (target r) i above

  relocate-cons :
      (r : Reloc) (rest : List ℕ) (mem mem' : ℕ → ℕ)
      → r.patch_pos + 8 ≤ mem_size
      → relocate base mem_size rest (write_le mem r.patch_pos 8 (target r)) ≡ ok mem'
      → relocate base mem_size (r.patch_pos ∷ r.ref_idx ∷ r.ref_off ∷ rest) mem ≡ ok mem'
  unfolding relocate
  relocate-cons r rest mem mem' inside others =
      let writes : leb (r.patch_pos + 8) mem_size ≡ true = ground arith in
      rw (relocate, writes) others

  -- Relocations whose pointers are inside the memory and apart from one another all succeed:
  -- afterwards each pointer holds the address of what it refers to, and every byte that is in none of
  -- them is what it was.
  pub relocate_lem :
      (rs : List Reloc) (mem : ℕ → ℕ)
      → All (λ r. r.patch_pos + 8 ≤ mem_size) rs
      → AreApart rs
      → (mem' : ℕ → ℕ) × (relocate base mem_size (numbers rs) mem ≡ ok mem')
        × All (λ r. read_le mem' r.patch_pos 8 ≡ target r) rs
        × ((i : ℕ) → All (IsOutside i) rs → mem' i ≡ mem i)
        × ((addr : ℕ) → All (Misses addr) rs → read_le mem' addr 8 ≡ read_le mem addr 8)
  unfolding relocate
  relocate_lem [] mem inside apart = (mem, refl, tt, λ i outside. refl, λ addr misses. refl)
  relocate_lem (r ∷ rs) mem (first, inside) (own, apart) =
      let (mem', others, patched, leaves, keeps) =
        relocate_lem rs (write_le mem r.patch_pos 8 (target r)) inside apart in
      (
        mem',
        relocate-cons r (numbers rs) mem mem' first others,
        (
          keeps r.patch_pos own ∙ read_le-write_le mem r.patch_pos 8 (target r) (omega arith),
          patched,
        ),
        λ i (outside, rest). leaves i rest ∙ written_outside mem r i outside,
        λ addr (misses, rest).
            keeps addr rest ∙ read_le-write_le_apart mem r.patch_pos 8 (target r) addr 8 misses,
      )
