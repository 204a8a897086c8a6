-- ===== src/Machine/Segments.antt =====
-- What the data segments leave in the memory (Init_mem_with_data_segs, src/ubh/u_module.cxx).
use uwasm_vm.Base.{
  ℕ, zero, suc, sym, ◌+◌, ◌-◌, ◌*◌, ◌%◌, ◌^◌, ◌<◌, ◌≤◌, ◌≡◌, ◌∙◌, refl, ap, arith, inl, inr,
}
use uwasm_vm.Base.{true, false, Bool-cases, ◌&&◌, ltb, leb, ◌==◌, ==_iff, if◌then◌else◌}
use uwasm_vm.Base.{List, [], ◌∷◌, All, length, Option, some, none}
use uwasm_vm.Base.{ok, err, assertion}
use uwasm_vm.Machine.DataSegs.{
  DsegInfo, calc_size, total_from, calc_total_space, max_from, calc_max_ofs, copy_bytes, copy_segs,
  has_magic, elements, dseg_infos, init_from_segs, init_mem_with_data_segs,
}
use mathlib.Core.Path.{subst}

-- The byte of the data that a byte of the memory gets: that of the last segment that covers it.
abbrev pub source_of : List DsegInfo → ℕ → ℕ → Option ℕ
source_of [] from i = none
source_of (s ∷ ss) from i = elim (source_of ss (from + s.size) i) [
  | some k ↦ some k
  | none ↦
      if leb s.mem_offset i && ltb i (s.mem_offset + s.size)
      then some (from + (i - s.mem_offset))
      else none
]

abbrev pub byte_at : (ℕ → ℕ) → (ℕ → ℕ) → ℕ → Option ℕ → ℕ
byte_at data_sec mem i (some k) = data_sec k
byte_at data_sec mem i none = mem i

abbrev pub sizes : List DsegInfo → ℕ
sizes [] = 0
sizes (s ∷ ss) = s.size + sizes ss

module _ (data_sec : ℕ → ℕ) (data_sec_size mem_size : ℕ) (small : mem_size < 2 ^ 32)
    (small_data : data_sec_size < 2 ^ 32) where
  abbrev Inside : DsegInfo → Type 0
  Inside s = s.mem_offset + s.size < mem_size

  le→leb : (a b : ℕ) → a ≤ b → leb a b ≡ true
  le→leb a b h = ground arith

  later_wins :
      (s : DsegInfo) (from i : ℕ) (mem : ℕ → ℕ) (o : Option ℕ)
      → byte_at data_sec (copy_bytes data_sec from s.mem_offset s.size mem) i o
        ≡ byte_at data_sec mem i (elim o [
          | some k ↦ some k
          | none ↦
              if leb s.mem_offset i && ltb i (s.mem_offset + s.size)
              then some (from + (i - s.mem_offset))
              else none
        ])
  later_wins s from i mem (some k) = refl
  later_wins s from i mem none =
      elim (Bool-cases (leb s.mem_offset i && ltb i (s.mem_offset + s.size))) [
        | inl covers ↦ rw covers refl
        | inr misses ↦ rw misses refl
      ]

  copies_first :
      (s : DsegInfo) (ss : List DsegInfo) (from : ℕ) (mem mem' : ℕ → ℕ)
      → Inside s
      → from + s.size ≤ data_sec_size
      → copy_segs data_sec data_sec_size mem_size ss
          (from + s.size)
          (copy_bytes data_sec from s.mem_offset s.size mem)
        ≡ ok mem'
      → copy_segs data_sec data_sec_size mem_size (s ∷ ss) from mem ≡ ok mem'
  unfolding copy_segs
  copies_first s ss from mem mem' first room rest =
      let checked : ltb ((s.mem_offset + s.size) % 2 ^ 32) mem_size ≡ true = ground arith in
      let reads : leb (from + s.size) data_sec_size ≡ true = ground arith in
      let writes : leb (s.mem_offset + s.size) mem_size ≡ true = ground arith in
      let next : (from + s.size) % 2 ^ 32 ≡ from + s.size = omega arith in
      rw (checked, reads, writes, next) rest

  copies :
      (segs : List DsegInfo) (from : ℕ) (mem : ℕ → ℕ)
      → All Inside segs
      → from + sizes segs ≤ data_sec_size
      → (mem' : ℕ → ℕ) × (copy_segs data_sec data_sec_size mem_size segs from mem ≡ ok mem')
        × ((i : ℕ) → mem' i ≡ byte_at data_sec mem i (source_of segs from i))
  unfolding copy_segs
  copies [] from mem inside room = (mem, refl, λ i. refl)
  copies (s ∷ ss) from mem (first, inside) room =
      let (mem', copied, bytes) =
        copies ss (from + s.size) (copy_bytes data_sec from s.mem_offset s.size mem) inside
          (omega arith) in
      (
        mem',
        copies_first s ss from mem mem' first (omega arith) copied,
        λ i. bytes i ∙ later_wins s from i mem (source_of ss (from + s.size) i),
      )

  total_from-sizes :
      (segs : List DsegInfo) (total : ℕ)
      → total + sizes segs < 2 ^ 32
      → total_from total segs ≡ total + sizes segs
  unfolding total_from
  total_from-sizes [] total room = omega arith
  total_from-sizes (s ∷ ss) total room =
      let next : (total + s.size) % 2 ^ 32 ≡ total + s.size = omega arith in
      rw next (total_from-sizes ss (total + s.size) (omega arith) ∙ omega arith)

  max_from-below :
      (segs : List DsegInfo) (max : ℕ)
      → All Inside segs
      → max ≤ mem_size
      → max_from max segs ≤ mem_size
  unfolding max_from
  max_from-below [] max inside below = below
  max_from-below (s ∷ ss) max (first, inside) below = max_from-below ss _ inside (ground arith)

  opens :
      (segs : List DsegInfo) (mem mem' : ℕ → ℕ)
      → (calc_total_space segs == data_sec_size) ≡ true
      → leb (calc_max_ofs segs) mem_size ≡ true
      → copy_segs data_sec data_sec_size mem_size segs (calc_size segs) mem ≡ ok mem'
      → init_from_segs segs data_sec data_sec_size mem_size mem ≡ ok mem'
  unfolding init_from_segs
  opens segs mem mem' total below copied = rw (init_from_segs, total, below) copied

  length-dseg_infos : (n off : ℕ) → length (dseg_infos data_sec n off) ≡ n
  unfolding dseg_infos
  length-dseg_infos zero off = refl
  length-dseg_infos (suc n) off = ap suc (length-dseg_infos n (off + 8))

  decodes :
      (segs : List DsegInfo) (mem : ℕ → ℕ)
      → has_magic data_sec ≡ true
      → dseg_infos data_sec (elements data_sec) 16 ≡ segs
      → length segs * 8 + 16 ≤ data_sec_size
      → init_mem_with_data_segs data_sec data_sec_size mem_size mem
        ≡ init_from_segs segs data_sec data_sec_size mem_size mem
  unfolding init_mem_with_data_segs
  decodes segs mem magic infos room =
      let num : length segs ≡ elements data_sec =
        ap length (sym infos) ∙ length-dseg_infos (elements data_sec) 16 in
      let inside : leb (elements data_sec * 8 + 16) data_sec_size ≡ true =
        le→leb (elements data_sec * 8 + 16) data_sec_size
          (subst (λ n. n * 8 + 16 ≤ data_sec_size) num room) in
      rw (init_mem_with_data_segs, magic, inside, infos) refl

  -- Where the data section starts with the magic and the infos of the segments, their space is its
  -- size, and every segment ends before the memory does, the segments are copied, and each byte of the memory is that of the last segment
  -- that covers it, or what it was. The segments' bytes stand one after the other behind their infos;
  -- memory and data section are below 2 ^ 32 bytes.
  pub init_mem_with_data_segs_lem :
      (segs : List DsegInfo) (mem : ℕ → ℕ)
      → has_magic data_sec ≡ true
      → dseg_infos data_sec (elements data_sec) 16 ≡ segs
      → All Inside segs
      → length segs * 8 + 16 + sizes segs ≡ data_sec_size
      → (mem' : ℕ → ℕ) × (init_mem_with_data_segs data_sec data_sec_size mem_size mem ≡ ok mem')
        × ((i : ℕ) → mem' i ≡ byte_at data_sec mem i (source_of segs (length segs * 8 + 16) i))
  init_mem_with_data_segs_lem segs mem magic infos inside space =
      let start : calc_size segs ≡ length segs * 8 + 16 = omega arith in
      let total : (calc_total_space segs == data_sec_size) ≡ true =
        (==_iff (calc_total_space segs) data_sec_size).1
          (total_from-sizes segs (calc_size segs) (omega arith) ∙ omega arith) in
      let below : leb (calc_max_ofs segs) mem_size ≡ true =
        le→leb (calc_max_ofs segs) mem_size (max_from-below segs 0 inside (omega arith)) in
      let (mem', copied, bytes) = copies segs (length segs * 8 + 16) mem inside (omega arith) in
      (
        mem',
        decodes segs mem magic infos (omega (arith, space))
            ∙ opens segs mem mem' total below
                (ap (λ n. copy_segs data_sec data_sec_size mem_size segs n mem) start ∙ copied),
        bytes,
      )

  -- A single segment that ends where the memory ends passes the check of the greatest offset and fails the
  -- one before the copy.
  pub init_mem_with_data_segs-exact :
      (s : DsegInfo) (mem : ℕ → ℕ)
      → has_magic data_sec ≡ true
      → dseg_infos data_sec (elements data_sec) 16 ≡ s ∷ []
      → s.mem_offset + s.size ≡ mem_size
      → 24 + s.size ≡ data_sec_size
      → (leb (calc_max_ofs (s ∷ [])) mem_size ≡ true)
        × (init_mem_with_data_segs data_sec data_sec_size mem_size mem ≡ err assertion)
  unfolding init_from_segs max_from total_from copy_segs
  init_mem_with_data_segs-exact s mem magic infos exact space =
      let total : ((24 + s.size) % 2 ^ 32 == data_sec_size) ≡ true = ground arith in
      let below : leb (calc_max_ofs (s ∷ [])) mem_size ≡ true = ground arith in
      let late : ltb ((s.mem_offset + s.size) % 2 ^ 32) mem_size ≡ false = ground arith in
      (
        below,
        decodes (s ∷ []) mem magic infos (omega (arith, space))
            ∙ rw (init_from_segs, total, below, copy_segs, late) refl,
      )
