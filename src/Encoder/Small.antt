-- ===== src/Encoder/Small.antt =====
-- The section headers that Collect_write_info (src/encoder/u_encoder.cxx) makes fill their eight bytes,
-- and Init_module_from_buffer (src/ubh/u_module.cxx) reads them back from there.
use uwasm_vm.Base.{
  ℕ, suc, ◌+◌, ◌*◌, ◌/◌, ◌%◌, ◌^◌, ◌<◌, ◌≤◌, ◌≡◌, refl, ap, ◌∙◌, arith, inl, inr, err-ne-ok, err,
  assertion, List, [], ◌∷◌, ◌++◌, All, length, Option, some, none, ok, ◌>>=◌, >>=-eq-ok,
  ok-injective,
}
use mathlib.Core.Path.{subst}
use uwasm_vm.Isa.Word.{field, set_field}
use uwasm_vm.Encoder.Shdr.{
  SecInfo, SecTag, tag_code, Shdr, Layout, with_word, new_shdr, set_elem_num, select_struct,
  set_kind, header,
}
use uwasm_vm.Encoder.Shdr.Layout.{s1, s2, s3}
use uwasm_vm.Encoder.Sections.{Tables, Collected, collect, ubh_magic, mhdr_word, mhdr, shdrs_of}
use uwasm_vm.Encoder.Collects.{collect-cons, header_idx}
use uwasm_vm.Encoder.Load.{read_mhdr, read_shdrs}

abbrev pub IsSmall : Shdr → Type 0
IsSmall s = (s.word < 2 ^ 32) × (s.idx < 2 ^ 32)

ok_word : (s r : Shdr) → s.word < 2 ^ 32 → ok s ≡ ok r → r.word < 2 ^ 32
ok_word s r small e = subst (λ t. t.word < 2 ^ 32) (ok-injective e) small

module _ (s r : Shdr) (small : s.word < 2 ^ 32) where
  set_elem_num_word : (n : ℕ) → set_elem_num s n ≡ ok r → r.word < 2 ^ 32
  unfolding set_elem_num
  set_elem_num_word n e =
      let (l, selected, made) = >>=-eq-ok (select_struct s) _ e in by_layout l made
    where
      by_layout :
          (l : Layout)
          → ok (elim l [
            | s1 ↦ with_word s (set_field 16 16 (n % 2 ^ 16) s.word)
            | s2 ↦ with_word s (set_field 8 24 (n % 2 ^ 16) s.word)
            | s3 ↦ s
          ])
            ≡ ok r
          → r.word < 2 ^ 32
      by_layout s1 made =
          ok_word (with_word s (set_field 16 16 (n % 2 ^ 16) s.word)) r (omega arith) made
      by_layout s2 made =
          ok_word (with_word s (set_field 8 24 (n % 2 ^ 16) s.word)) r (omega arith) made
      by_layout s3 made = ok_word s r small made

  set_kind_word : (kind : ℕ) → set_kind s kind ≡ ok r → r.word < 2 ^ 32
  unfolding set_kind
  set_kind_word kind e =
      let (l, selected, made) = >>=-eq-ok (select_struct s) _ e in by_layout l made
    where
      by_layout :
          (l : Layout)
          → elim l [
            | s1 ↦ ok (with_word s (set_field 4 12 (kind % 2 ^ 16) s.word))
            | s2 ↦ ok (with_word s (set_field 4 4 (kind % 2 ^ 16) s.word))
            | s3 ↦ err assertion
          ]
            ≡ ok r
          → r.word < 2 ^ 32
      by_layout s1 made =
          ok_word (with_word s (set_field 4 12 (kind % 2 ^ 16) s.word)) r (omega arith) made
      by_layout s2 made =
          ok_word (with_word s (set_field 4 4 (kind % 2 ^ 16) s.word)) r (omega arith) made
      by_layout s3 made = absurd (err-ne-ok made)

new_shdr-IsSmall : (tag n idx : ℕ) (h : Shdr) → new_shdr tag n idx ≡ ok h → h.word < 2 ^ 32
unfolding new_shdr
new_shdr-IsSmall tag n idx h e =
    set_elem_num_word (record { word = set_field 0 4 tag 0; idx = idx % 2 ^ 32 }) h (omega arith) n
      e

header-IsSmall : (sec : SecInfo) (n size : ℕ) (h : Shdr) → header sec n size ≡ ok h → IsSmall h
unfolding header
header-IsSmall sec n size h e =
    let (bare, made, kinded) = >>=-eq-ok (new_shdr (tag_code sec.shdr_tag) n size) _ e in
    let small = new_shdr-IsSmall (tag_code sec.shdr_tag) n size bare made in
    (with_kind sec.sec_kind bare small kinded, omega (arith, header_idx sec n size h e))
  where
    with_kind :
        (k : Option ℕ) (bare : Shdr)
        → bare.word < 2 ^ 32
        → elim k [ some kind ↦ set_kind bare kind | none ↦ ok bare ] ≡ ok h
        → h.word < 2 ^ 32
    with_kind (some kind) bare small kinded = set_kind_word bare h small kind kinded
    with_kind none bare small kinded = ok_word bare h small kinded

pub collect-IsSmall :
    (t : Tables) (secs : List SecInfo) (size : ℕ) (r : Collected)
    → collect t secs size ≡ ok r
    → All IsSmall r.ubh_shdr_vec × (length r.ubh_shdr_vec ≤ length secs)
unfolding collect
collect-IsSmall t [] size r e =
    subst (λ u. All IsSmall u.ubh_shdr_vec × (length u.ubh_shdr_vec ≤ 0)) (ok-injective e)
      (tt, omega arith)
collect-IsSmall t (sec ∷ secs) size r e = elim (collect-cons t sec secs size r e) [
  | inl same ↦ let (small, few) = collect-IsSmall t secs size r same in (small, omega arith)
  | inr (h, rest, made, others, all) ↦
      let (small, few) = collect-IsSmall t secs _ rest others in
      subst (λ u. All IsSmall u.ubh_shdr_vec × (length u.ubh_shdr_vec ≤ suc (length secs))) all
        ((header-IsSmall sec _ size h made, small), omega arith)
]

pub starts-IsSmall :
    (start : Option ℕ) (starts : List Shdr)
    → elim start [
      | some i ↦ new_shdr (tag_code SecTag.start) 0 i >>= λ s. ok (s ∷ [])
      | none ↦ ok []
    ]
      ≡ ok starts
    → All IsSmall starts × (length starts ≤ 1)
unfolding new_shdr set_elem_num select_struct
starts-IsSmall (some i) starts e =
    subst (λ u. All IsSmall u × (length u ≤ 1)) (ok-injective e)
      (((omega arith, omega arith), tt), omega arith)
starts-IsSmall none starts e =
    subst (λ u. All IsSmall u × (length u ≤ 1)) (ok-injective e) (tt, omega arith)

-- A UINT32 from its bytes.
abbrev joined : ℕ → ℕ
joined n =
    n % 2 ^ 8
    + n / 2 ^ 8 % 2 ^ 8 * 2 ^ 8
    + n / 2 ^ 16 % 2 ^ 8 * 2 ^ 16
    + n / 2 ^ 24 % 2 ^ 8 * 2 ^ 24

joined_lem : (n : ℕ) → n < 2 ^ 32 → joined n ≡ n
joined_lem n small = omega arith

pub read_shdrs-shdrs_of :
    (hs : List Shdr) (more : List ℕ)
    → All IsSmall hs
    → read_shdrs (length hs) (shdrs_of hs ++ more) ≡ ok hs
unfolding read_shdrs
read_shdrs-shdrs_of [] more small = refl
read_shdrs-shdrs_of (h ∷ hs) more ((word, idx), small) =
    cc (read_shdrs-shdrs_of hs more small, joined_lem h.word word, joined_lem h.idx idx)

-- Six bits for the number and 26 for the offset are read back where they suffice.
pub read_mhdr-mhdr :
    (num off : ℕ) (more : List ℕ)
    → num < 2 ^ 6
    → off < 2 ^ 26
    → read_mhdr (mhdr num off ++ more)
      ≡ ok (record { umagic = ubh_magic; shdr_num = num; shdr_off = off })
unfolding read_mhdr
read_mhdr-mhdr num off more few near =
    let word : ℕ = mhdr_word num off in
    let small : word < 2 ^ 32 = omega arith in
    let first : field 0 6 word ≡ num = omega arith in
    let second : field 6 26 word ≡ off = omega arith in
    ap (λ w. ok (record { umagic = ubh_magic; shdr_num = field 0 6 w; shdr_off = field 6 26 w }))
      (joined_lem word small)
    ∙ rw (first, second) refl
