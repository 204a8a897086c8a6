-- ===== src/Encoder/Collects.antt =====
-- What the loop of Collect_write_info (src/encoder/u_encoder.cxx) makes of one section.
use uwasm_vm.Base.{ℕ, ◌+◌, ◌%◌, ◌^◌, ◌≡◌, refl, ◌∙◌, inl, inr}
use uwasm_vm.Base.{Bool, true, false, ◌==◌, err-ne-ok}
use uwasm_vm.Base.{List, ◌∷◌, Option, some, none}
use uwasm_vm.Base.{ok, err, assertion, ◌⊎◌, ◌>>=◌, >>=-eq-ok, ok-injective}
use mathlib.Core.Path.{subst}
use uwasm_vm.Encoder.Shdr.{
  SecInfo, tag_code, Shdr, Layout, with_word, new_shdr, set_elem_num, select_struct, set_kind,
  header,
}
use uwasm_vm.Encoder.Shdr.Layout.{s1, s2, s3}
use uwasm_vm.Isa.Word.{set_field}
use uwasm_vm.Encoder.Sections.{Tables, section_size, Collected, collect}

-- The setters leave the offset alone.
ok_idx : (s r : Shdr) (idx : ℕ) → s.idx ≡ idx → ok s ≡ ok r → r.idx ≡ idx
ok_idx s r idx has e = subst (λ t. t.idx ≡ idx) (ok-injective e) has

set_elem_num_idx : (s r : Shdr) (n : ℕ) → set_elem_num s n ≡ ok r → r.idx ≡ s.idx
unfolding set_elem_num
set_elem_num_idx s r n e =
    let (l, selected, made) = >>=-eq-ok (select_struct s) _ e in by_layout l made
  where
    by_layout :
        (l : Layout)
        → ok (elim l [
          | s1 ↦ with_word s (set_field 16 16 (n % 2 ^ 16) s.word)
          | s2 ↦ with_word s (set_field 8 24 (n % 2 ^ 16) s.word)
          | s3 ↦ s
        ])
          ≡ ok r
        → r.idx ≡ s.idx
    by_layout s1 made = ok_idx _ r s.idx refl made
    by_layout s2 made = ok_idx _ r s.idx refl made
    by_layout s3 made = ok_idx s r s.idx refl made

set_kind_idx : (s r : Shdr) (kind : ℕ) → set_kind s kind ≡ ok r → r.idx ≡ s.idx
unfolding set_kind
set_kind_idx s r kind e =
    let (l, selected, made) = >>=-eq-ok (select_struct s) _ e in by_layout l made
  where
    by_layout :
        (l : Layout)
        → elim l [
          | s1 ↦ ok (with_word s (set_field 4 12 (kind % 2 ^ 16) s.word))
          | s2 ↦ ok (with_word s (set_field 4 4 (kind % 2 ^ 16) s.word))
          | s3 ↦ err assertion
        ]
          ≡ ok r
        → r.idx ≡ s.idx
    by_layout s1 made =
        ok_idx (with_word s (set_field 4 12 (kind % 2 ^ 16) s.word)) r s.idx refl made
    by_layout s2 made =
        ok_idx (with_word s (set_field 4 4 (kind % 2 ^ 16) s.word)) r s.idx refl made
    by_layout s3 made = absurd (err-ne-ok made)

-- The offset of a header is the size of what comes before its section.
pub header_idx :
    (sec : SecInfo) (elem_num size : ℕ) (h : Shdr)
    → header sec elem_num size ≡ ok h
    → h.idx ≡ size % 2 ^ 32
unfolding header new_shdr
header_idx sec elem_num size h e =
    let (bare, made, kinded) = >>=-eq-ok (new_shdr (tag_code sec.shdr_tag) elem_num size) _ e in
    with_kind sec.sec_kind bare kinded ∙ set_elem_num_idx _ bare elem_num made
  where
    with_kind :
        (k : Option ℕ) (bare : Shdr)
        → elim k [ some kind ↦ set_kind bare kind | none ↦ ok bare ] ≡ ok h
        → h.idx ≡ bare.idx
    with_kind (some kind) bare kinded = set_kind_idx bare h kind kinded
    with_kind none bare kinded = ok_idx bare h bare.idx refl kinded

module _ (t : Tables) (sec : SecInfo) (secs : List SecInfo) (size : ℕ) where
  abbrev pub next_size : ℕ
  next_size = (size + section_size t sec) % 2 ^ 32

  abbrev pub with_section : Shdr → Collected → Collected
  with_section h rest = record {
    sec_id_vec = record { sec_id = sec.sec_id; sec_size = section_size t sec } ∷ rest.sec_id_vec;
    ubh_shdr_vec = h ∷ rest.ubh_shdr_vec;
    size = rest.size;
  }

  -- A section is passed over, or has the next header.
  pub collect-cons :
      (r : Collected)
      → collect t (sec ∷ secs) size ≡ ok r
      → (collect t secs size ≡ ok r)
        ⊎ ((h : Shdr) × (rest : Collected) × (header sec (t.elem_num sec.sec_id) size ≡ ok h)
            × (collect t secs next_size ≡ ok rest)
            × (with_section h rest ≡ r))
  unfolding collect
  collect-cons r e = by_count (t.elem_num sec.sec_id == 0) e
    where
      by_count :
          (empty : Bool)
          → elim empty [
            | true ↦ collect t secs size
            | false ↦ header sec (t.elem_num sec.sec_id) size >>= λ shdr.
                collect t secs next_size >>= λ rest. ok (with_section shdr rest)
          ]
            ≡ ok r
          → (collect t secs size ≡ ok r)
            ⊎ ((h : Shdr) × (rest : Collected) × (header sec (t.elem_num sec.sec_id) size ≡ ok h)
                × (collect t secs next_size ≡ ok rest)
                × (with_section h rest ≡ r))
      by_count true e = inl e
      by_count false e =
          let (h, made, more) = >>=-eq-ok (header sec (t.elem_num sec.sec_id) size) _ e in
          let (rest, others, all) = >>=-eq-ok (collect t secs next_size) _ more in
          inr (h, rest, made, others, ok-injective all)
