-- ===== src/Encoder/Headers.antt =====
-- A section header that Collect_write_info (src/encoder/u_encoder.cxx) makes, read back by
-- Get_sec_id_from_header (src/ubh/u_module.cxx) and Get_elem_num (src/ubh/ubh.cxx).
use uwasm_vm.Base.{ℕ, ◌+◌, ◌*◌, ◌%◌, ◌^◌, ◌<◌, ◌≡◌, refl, arith, get_elem?, some, ok}
use uwasm_vm.Isa.Word.{field, set_field}
use uwasm_vm.Encoder.Shdr.Layout.{s1, s2}
use uwasm_vm.Encoder.Shdr.{
  Shdr, Layout, layouts, layout_of, get_sec_tag, new_shdr, set_elem_num, set_kind, select_struct,
  get_kind, get_elem_num,
}

-- The three fields of a word, in the layout of the tag.
abbrev pub word1 : ℕ → ℕ → ℕ → ℕ
word1 tag kind n = n * 2 ^ 16 + kind * 2 ^ 4 + tag

abbrev pub word2 : ℕ → ℕ → ℕ → ℕ
word2 tag kind n = n * 2 ^ 8 + kind * 2 ^ 4 + tag

module _ (n : ℕ) (small : n < 2 ^ 16) where
  pub first_tag : (tag kind : ℕ) → tag < 2 ^ 4 → field 0 4 (word1 tag kind n) ≡ tag
  first_tag tag kind below = omega arith

  first_kind : (tag kind : ℕ) → tag < 2 ^ 4 → kind < 2 ^ 4 → field 4 12 (word1 tag kind n) ≡ kind
  first_kind tag kind below kind_below = omega arith

  first_num : (tag kind : ℕ) → tag < 2 ^ 4 → kind < 2 ^ 4 → field 16 16 (word1 tag kind n) ≡ n
  first_num tag kind below kind_below = omega arith

  pub second_tag : (tag kind : ℕ) → tag < 2 ^ 4 → field 0 4 (word2 tag kind n) ≡ tag
  second_tag tag kind below = omega arith

  second_kind : (tag kind : ℕ) → tag < 2 ^ 4 → kind < 2 ^ 4 → field 4 4 (word2 tag kind n) ≡ kind
  second_kind tag kind below kind_below = omega arith

  second_num : (tag kind : ℕ) → tag < 2 ^ 4 → kind < 2 ^ 4 → field 8 24 (word2 tag kind n) ≡ n
  second_num tag kind below kind_below = omega arith

  -- What the setters make of the word.
  set_first : (tag : ℕ) → tag < 2 ^ 4 → set_field 16 16 n (set_field 0 4 tag 0) ≡ word1 tag 0 n
  set_first tag below = omega arith

  set_first_kind :
      (tag kind : ℕ)
      → tag < 2 ^ 4
      → kind < 2 ^ 4
      → set_field 4 12 kind (word1 tag 0 n) ≡ word1 tag kind n
  set_first_kind tag kind below kind_below = omega arith

  set_second : (tag : ℕ) → tag < 2 ^ 4 → set_field 8 24 n (set_field 0 4 tag 0) ≡ word2 tag 0 n
  set_second tag below = omega arith

  set_second_kind :
      (tag kind : ℕ)
      → tag < 2 ^ 4
      → kind < 2 ^ 4
      → set_field 4 4 kind (word2 tag 0 n) ≡ word2 tag kind n
  set_second_kind tag kind below kind_below = omega arith

abbrev pub shdr : ℕ → ℕ → Shdr
shdr word idx = record { word = word; idx = idx }

select_lem :
    (s : Shdr) (tag : ℕ) (l : Layout)
    → get_sec_tag s ≡ tag
    → layout_of (get_elem? layouts tag) ≡ some l
    → select_struct s ≡ ok l
unfolding select_struct
select_lem s tag l has known = rw (has, known) refl

module _ (elem_num size tag : ℕ) (below : tag < 2 ^ 4) where
  abbrev n : ℕ
  n = elem_num % 2 ^ 16

  abbrev idx : ℕ
  idx = size % 2 ^ 32

  bare_tag : field 0 4 (set_field 0 4 tag 0) ≡ tag
  bare_tag = omega arith

  module _ (first : layout_of (get_elem? layouts tag) ≡ some s1) where
    pub new_first : new_shdr tag elem_num size ≡ ok (shdr (word1 tag 0 n) idx)
    unfolding new_shdr set_elem_num
    new_first =
        rw
          (
            select_lem (shdr (set_field 0 4 tag 0) idx) tag s1 bare_tag first,
            set_first n (omega arith) tag below,
          )
          refl

    module _ (kind : ℕ) (kind_below : kind < 2 ^ 4) where
      pub kind_first : set_kind (shdr (word1 tag 0 n) idx) kind ≡ ok (shdr (word1 tag kind n) idx)
      unfolding set_kind
      kind_first =
          let small : kind % 2 ^ 16 ≡ kind = omega arith in
          rw
            (
              select_lem (shdr (word1 tag 0 n) idx) tag s1 (first_tag n (omega arith) tag 0 below)
                  first,
              small,
              set_first_kind n (omega arith) tag kind below kind_below,
            )
            refl

      pub elems_first : get_elem_num (shdr (word1 tag kind n) idx) ≡ ok n
      unfolding get_elem_num
      elems_first =
          rw
            (
              select_lem (shdr (word1 tag kind n) idx) tag s1
                  (first_tag n (omega arith) tag kind below) first,
              first_num n (omega arith) tag kind below kind_below,
            )
            refl

      pub get_kind_first : get_kind (shdr (word1 tag kind n) idx) ≡ ok kind
      unfolding get_kind
      get_kind_first =
          rw
            (
              select_lem (shdr (word1 tag kind n) idx) tag s1
                  (first_tag n (omega arith) tag kind below) first,
              first_kind n (omega arith) tag kind below kind_below,
            )
            refl

  module _ (second : layout_of (get_elem? layouts tag) ≡ some s2) where
    pub new_second : new_shdr tag elem_num size ≡ ok (shdr (word2 tag 0 n) idx)
    unfolding new_shdr set_elem_num
    new_second =
        rw
          (
            select_lem (shdr (set_field 0 4 tag 0) idx) tag s2 bare_tag second,
            set_second n (omega arith) tag below,
          )
          refl

    module _ (kind : ℕ) (kind_below : kind < 2 ^ 4) where
      pub kind_second : set_kind (shdr (word2 tag 0 n) idx) kind ≡ ok (shdr (word2 tag kind n) idx)
      unfolding set_kind
      kind_second =
          let small : kind % 2 ^ 16 ≡ kind = omega arith in
          rw
            (
              select_lem (shdr (word2 tag 0 n) idx) tag s2 (second_tag n (omega arith) tag 0 below)
                  second,
              small,
              set_second_kind n (omega arith) tag kind below kind_below,
            )
            refl

      pub elems_second : get_elem_num (shdr (word2 tag kind n) idx) ≡ ok n
      unfolding get_elem_num
      elems_second =
          rw
            (
              select_lem (shdr (word2 tag kind n) idx) tag s2
                  (second_tag n (omega arith) tag kind below) second,
              second_num n (omega arith) tag kind below kind_below,
            )
            refl

      pub get_kind_second : get_kind (shdr (word2 tag kind n) idx) ≡ ok kind
      unfolding get_kind
      get_kind_second =
          rw
            (
              select_lem (shdr (word2 tag kind n) idx) tag s2
                  (second_tag n (omega arith) tag kind below) second,
              second_kind n (omega arith) tag kind below kind_below,
            )
            refl
