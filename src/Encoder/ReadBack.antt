-- ===== src/Encoder/ReadBack.antt =====
-- Every section header that Collect_write_info (src/encoder/u_encoder.cxx) makes, read back by
-- Get_sec_id_from_header (src/ubh/u_module.cxx) and Get_elem_num (src/ubh/ubh.cxx).
use uwasm_vm.Base.{
  ℕ, ◌%◌, ◌^◌, ◌<◌, ◌≡◌, ◌∙◌, refl, arith, All, map-All, get_elem?, Option, some, none, Result, ok,
  ◌>>=◌,
}
use uwasm_vm.Encoder.Shdr.Layout.{s1, s2}
use uwasm_vm.Encoder.Shdr.{
  SecInfo, Shdr, SectionId, sec_info_arr, tag_code, header, new_shdr, set_kind, layouts, layout_of,
  get_sec_id, get_elem_num, get_kind, asserted, tags, sec_id_of, get_sec_tag,
}
use uwasm_vm.Encoder.Headers.{
  shdr, word1, word2, first_tag, second_tag, new_first, kind_first, elems_first, get_kind_first,
  new_second, kind_second, elems_second, get_kind_second,
}

pub record IsReadBack (sec : SecInfo) (elem_num size : ℕ) : Type 0 where
  pub shdr : Shdr
  pub made : header sec elem_num size ≡ ok shdr
  pub id : get_sec_id shdr ≡ ok sec.sec_id
  pub elems : get_elem_num shdr ≡ ok (elem_num % 2 ^ 16)
  pub offset : shdr.idx ≡ size % 2 ^ 32

abbrev kind_of : Option ℕ → ℕ
kind_of (some kind) = kind
kind_of none = 0

-- The section of a header, by its tag and its kind.
abbrev section_of : ℕ → ℕ → Result SectionId
section_of tag kind = asserted (get_elem? tags tag) >>= λ t. sec_id_of t (ok kind)

get_sec_id_lem :
    (s : Shdr) (tag kind : ℕ)
    → get_sec_tag s ≡ tag
    → get_kind s ≡ ok kind
    → get_sec_id s ≡ section_of tag kind
unfolding get_sec_id
get_sec_id_lem s tag kind has has_kind = rw (has, has_kind) refl

module _ (elem_num size : ℕ) (sec : SecInfo) where
  abbrev n : ℕ
  n = elem_num % 2 ^ 16

  abbrev tag : ℕ
  tag = tag_code sec.shdr_tag

  abbrev kind : ℕ
  kind = kind_of sec.sec_kind

  abbrev at : ℕ → Shdr
  at word = shdr word (size % 2 ^ 32)

  -- Set_kind, or no call of it.
  header_lem :
      (word : ℕ → ℕ)
      → new_shdr tag elem_num size ≡ ok (at (word 0))
      → ((k : ℕ) → k < 2 ^ 4 → set_kind (at (word 0)) k ≡ ok (at (word k)))
      → kind < 2 ^ 4
      → header sec elem_num size ≡ ok (at (word kind))
  unfolding header
  header_lem word made kinds small = rw made (with_kind sec.sec_kind small)
    where
      with_kind :
          (k : Option ℕ)
          → kind_of k < 2 ^ 4
          → elim k [ some kind ↦ set_kind (at (word 0)) kind | none ↦ ok (at (word 0)) ]
            ≡ ok (at (word (kind_of k)))
      with_kind (some k) small = kinds k small
      with_kind none small = refl

  module _ (below : tag < 2 ^ 4) (small : kind < 2 ^ 4)
      (section : section_of tag kind ≡ ok sec.sec_id) where
    read_first : layout_of (get_elem? layouts tag) ≡ some s1 → IsReadBack sec elem_num size
    read_first first = record {
      shdr = at (word1 tag kind n);
      made =
          header_lem (λ k. word1 tag k n) (new_first elem_num size tag below first)
            (kind_first elem_num size tag below first) small;
      id =
          get_sec_id_lem (at (word1 tag kind n)) tag kind (first_tag n (omega arith) tag kind below)
            (get_kind_first elem_num size tag below first kind small)
          ∙ section;
      elems = elems_first elem_num size tag below first kind small;
      offset = refl;
    }

    read_second : layout_of (get_elem? layouts tag) ≡ some s2 → IsReadBack sec elem_num size
    read_second second = record {
      shdr = at (word2 tag kind n);
      made =
          header_lem (λ k. word2 tag k n) (new_second elem_num size tag below second)
            (kind_second elem_num size tag below second) small;
      id =
          get_sec_id_lem (at (word2 tag kind n)) tag kind
            (second_tag n (omega arith) tag kind below)
            (get_kind_second elem_num size tag below second kind small)
          ∙ section;
      elems = elems_second elem_num size tag below second kind small;
      offset = refl;
    }

-- Each section's tag and kind are within the four bits, have the layout, and name the section.
pub read_backs : All (λ sec. (elem_num size : ℕ) → IsReadBack sec elem_num size) sec_info_arr
unfolding sec_id_of
read_backs = (
  λ n size. read_first n size _ (omega arith) (omega arith) refl refl,
  (
    λ n size. read_second n size _ (omega arith) (omega arith) refl refl,
    (
      λ n size. read_second n size _ (omega arith) (omega arith) refl refl,
      (
        λ n size. read_second n size _ (omega arith) (omega arith) refl refl,
        (
          λ n size. read_first n size _ (omega arith) (omega arith) refl refl,
          (
            λ n size. read_first n size _ (omega arith) (omega arith) refl refl,
            (
              λ n size. read_first n size _ (omega arith) (omega arith) refl refl,
              (
                λ n size. read_second n size _ (omega arith) (omega arith) refl refl,
                (
                  λ n size. read_second n size _ (omega arith) (omega arith) refl refl,
                  (
                    λ n size. read_second n size _ (omega arith) (omega arith) refl refl,
                    (
                      λ n size. read_second n size _ (omega arith) (omega arith) refl refl,
                      (λ n size. read_first n size _ (omega arith) (omega arith) refl refl, tt),
                    ),
                  ),
                ),
              ),
            ),
          ),
        ),
      ),
    ),
  ),
)

-- Each of the twelve headers is read back as its own section, with the offset that it was made
-- with; the number of elements is read back modulo 2 ^ 16.
pub header-IsReadBack : (elem_num size : ℕ) → All (λ sec. IsReadBack sec elem_num size) sec_info_arr
header-IsReadBack elem_num size =
    map-All sec_info_arr
      (λ sec (read : (elem_num size : ℕ) → IsReadBack sec elem_num size). read elem_num size)
      read_backs
