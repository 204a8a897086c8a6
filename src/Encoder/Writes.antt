-- ===== src/Encoder/Writes.antt =====
-- Write_to_file (src/encoder/u_encoder.cxx) succeeds, and how long the file gets at most.
use uwasm_vm.Base.{ℕ, zero, suc, ◌+◌, ◌*◌, ◌%◌, ◌^◌, ◌<◌, ◌≤◌, ◌≡◌, refl, arith, inl, inr}
use uwasm_vm.Base.{true, false, Bool-cases, lt→ltb, leb, ltb, ◌==◌}
use uwasm_vm.Base.{List, [], ◌∷◌, ◌++◌, All, length, length-append, take, drop, Option, some, none}
use uwasm_vm.Base.{ok, ◌>>=◌}
use uwasm_vm.StrTab.Order.{same_bytes}
use uwasm_vm.Encoder.Shdr.{
  SecInfo, Shdr, SecTag, tag_code, sec_info_arr, header, new_shdr, set_elem_num, select_struct,
}
use uwasm_vm.Encoder.ReadBack.{IsReadBack, read_backs}
use uwasm_vm.Encoder.Collects.{with_section, next_size}
use uwasm_vm.Encoder.Buffers.{length-shdrs_of}
use uwasm_vm.Encoder.FileLayout.{fits, file_of, write_to_file-filled}
use uwasm_vm.Encoder.Sections.{
  Tables, section_size, Section, Collected, collect, collect_write_info, find_start,
  start_func_name, write_section, write_to_file, shdrs_of, mhdr, shdr_off_of, mhdr_size, shdr_size,
}

-- Every table has the bytes of its section, and the functions' names are in the string table.
pub record IsWritable (t : Tables) : Type 0 where
  pub contents : All (λ sec. section_size t sec ≤ length (t.content sec.sec_id)) sec_info_arr
  pub names : All (λ i. i < length t.module_str_tab) t.name_idxs

abbrev pub sum_sizes : Tables → List SecInfo → ℕ
sum_sizes t [] = 0
sum_sizes t (sec ∷ secs) = section_size t sec + sum_sizes t secs

length-take_le : (n : ℕ) (xs : List ℕ) → length (take n xs) ≤ n
length-take_le zero xs = omega arith
length-take_le (suc n) [] = omega arith
length-take_le (suc n) (x ∷ xs) = omega (arith, length-take_le n xs)

module _ (t : Tables) where
  collect-passed :
      (sec : SecInfo) (secs : List SecInfo) (size : ℕ) (r : Collected)
      → (t.elem_num sec.sec_id == 0) ≡ true
      → collect t secs size ≡ ok r
      → collect t (sec ∷ secs) size ≡ ok r
  unfolding collect
  collect-passed sec secs size r empty others = rw (collect, empty) others

  collect-kept :
      (sec : SecInfo) (secs : List SecInfo) (size : ℕ) (h : Shdr) (r : Collected)
      → (t.elem_num sec.sec_id == 0) ≡ false
      → header sec (t.elem_num sec.sec_id) size ≡ ok h
      → collect t secs (next_size t sec secs size) ≡ ok r
      → collect t (sec ∷ secs) size ≡ ok (with_section t sec secs size h r)
  unfolding collect
  collect-kept sec secs size h r some_elems made others =
      rw (collect, some_elems, made, others) refl

  write-cons :
      (s : Section) (ss : List Section) (body : List ℕ)
      → s.sec_size ≤ length (t.content s.sec_id)
      → write_section t ss ≡ ok body
      → write_section t (s ∷ ss) ≡ ok (take s.sec_size (t.content s.sec_id) ++ body)
  unfolding write_section
  write-cons s ss body fits others =
      let reads : leb s.sec_size (length (t.content s.sec_id)) ≡ true = ground arith in
      rw (write_section, reads, others) refl

  collected :
      (secs : List SecInfo) (size : ℕ)
      → All (λ sec. (elem_num size : ℕ) → IsReadBack sec elem_num size) secs
      → All (λ sec. section_size t sec ≤ length (t.content sec.sec_id)) secs
      → (r : Collected) × (body : List ℕ) × (collect t secs size ≡ ok r)
        × (write_section t r.sec_id_vec ≡ ok body)
        × (length body ≤ sum_sizes t secs)
        × (length r.ubh_shdr_vec ≤ length secs)
  unfolding collect write_section
  collected [] size reads fits = (
    record { sec_id_vec = []; ubh_shdr_vec = []; size = size },
    [],
    refl,
    refl,
    omega arith,
    omega arith,
  )
  collected (sec ∷ secs) size (read, reads) (fit, fits) =
      elim (Bool-cases (t.elem_num sec.sec_id == 0)) [
        | inl empty ↦
            let (r, body, collects, writes, long, num) = collected secs size reads fits in
            (
              r,
              body,
              collect-passed sec secs size r empty collects,
              writes,
              omega arith,
              omega arith,
            )
        | inr some_elems ↦
            let own = read (t.elem_num sec.sec_id) size in
            let (r, body, collects, writes, long, num) =
              collected secs (next_size t sec secs size) reads fits in
            let chunk : List ℕ = take (section_size t sec) (t.content sec.sec_id) in
            (
              with_section t sec secs size own.shdr r,
              chunk ++ body,
              collect-kept sec secs size own.shdr r some_elems own.made collects,
              write-cons (record { sec_id = sec.sec_id; sec_size = section_size t sec })
                  r.sec_id_vec body fit writes,
              omega (
                arith,
                length-append chunk body,
                length-take_le (section_size t sec) (t.content sec.sec_id),
              ),
              omega arith,
            )
      ]

find_start-ok :
    (raw : List ℕ) (i : ℕ) (idxs : List ℕ)
    → All (λ j. j < length raw) idxs
    → (o : Option ℕ) × (find_start raw i idxs ≡ ok o)
unfolding find_start
find_start-ok raw i [] inside = (none, refl)
find_start-ok raw i (j ∷ idxs) (first, inside) =
    let (o, others) = find_start-ok raw (i + 1) idxs inside in
    let reads : ltb j (length raw) ≡ true = lt→ltb j (length raw) first in
    elim (Bool-cases (same_bytes (take 5 (drop j raw)) start_func_name)) [
      | inl same ↦ (some i, rw (find_start, reads, same) refl)
      | inr other ↦ (o, rw (find_start, reads, other) others)
    ]

-- The header of the start function, where there is one.
starts-ok :
    (o : Option ℕ)
    → (hs : List Shdr) × (elim o [
      | some i ↦ new_shdr (tag_code SecTag.start) 0 i >>= λ s. ok (s ∷ [])
      | none ↦ ok []
    ]
        ≡ ok hs)
      × (length hs ≤ 1)
unfolding new_shdr set_elem_num select_struct
starts-ok (some i) = (record { word = 8; idx = i % 2 ^ 32 } ∷ [], refl, omega arith)
starts-ok none = ([], refl, omega arith)

module _ (t : Tables) where
  abbrev collected_all : Collected → List Shdr → Collected
  collected_all r hs = record {
    sec_id_vec = r.sec_id_vec;
    ubh_shdr_vec = r.ubh_shdr_vec ++ hs;
    size = (r.size + shdr_size * length (r.ubh_shdr_vec ++ hs)) % 2 ^ 32;
  }

  collects_all :
      (r : Collected) (o : Option ℕ) (hs : List Shdr)
      → collect t sec_info_arr mhdr_size ≡ ok r
      → find_start t.module_str_tab 0 t.name_idxs ≡ ok o
      → elim o [ some i ↦ new_shdr (tag_code SecTag.start) 0 i >>= λ s. ok (s ∷ []) | none ↦ ok [] ]
        ≡ ok hs
      → collect_write_info t ≡ ok (collected_all r hs)
  unfolding collect_write_info
  collects_all r o hs collects found starts = rw (collect_write_info, collects, found, starts) refl

  -- The twelve sections and the start function have thirteen headers at most.
  pub write_to_file-ok :
      IsWritable t
      → sum_sizes t sec_info_arr + 116 < 2 ^ 32
      → (file : List ℕ) × (write_to_file t ≡ ok file)
        × (length file ≤ sum_sizes t sec_info_arr + 116)
  write_to_file-ok w short =
      let (r, body, collects, writes, long, num) =
        collected t sec_info_arr mhdr_size read_backs w.contents in
      let (o, found) = find_start-ok t.module_str_tab 0 t.name_idxs w.names in
      let (hs, starts, few) = starts-ok o in
      let c : Collected = collected_all r hs in
      let count : length c.ubh_shdr_vec ≤ 13 =
        omega (arith, length-append r.ubh_shdr_vec hs, num, few) in
      let head : List ℕ = mhdr (length c.ubh_shdr_vec) (shdr_off_of c) in
      let (located, size) =
        fits t sec_info_arr r head collects body [] writes (omega (arith, long, short)) in
      let total : c.size ≡ (r.size + shdr_size * length c.ubh_shdr_vec) % 2 ^ 32 = refl in
      let at : shdr_off_of c ≡ mhdr_size + length body =
        omega (arith, total, size, long, short, count) in
      let whole : c.size ≡ shdr_off_of c + shdr_size * length c.ubh_shdr_vec =
        omega (arith, total, size, long, short, count, at) in
      let shdrs : List ℕ = shdrs_of c.ubh_shdr_vec in
      (
        file_of c body,
        write_to_file-filled t c body (collects_all r o hs collects found starts) writes at whole,
        omega (
          arith,
          length-append head (body ++ shdrs),
          length-append body shdrs,
          length-shdrs_of c.ubh_shdr_vec,
          long,
          count,
        ),
      )
