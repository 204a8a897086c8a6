-- ===== src/Encoder/Loaded.antt =====
-- The sections that Init_module_from_buffer (src/ubh/u_module.cxx) finds in a file that
-- Write_to_file (src/encoder/u_encoder.cxx) has written.
use uwasm_vm.Base.{ℕ, ◌%◌, ◌^◌, ◌<◌, ◌≡◌, refl, sym, ◌∙◌, inl, inr}
use uwasm_vm.Base.{Bool, true, false, not, ◌&&◌, ◌||◌, ◌==◌}
use uwasm_vm.Base.{
  List, [], ◌∷◌, ◌++◌, All, length, drop, Option, some, none, ok, ◌>>=◌, ok-injective,
}
use uwasm_vm.Base.{◌+◌, arith}
use mathlib.Core.Path.{subst}
use uwasm_vm.Encoder.Shdr.{
  SecInfo, SecTag, Shdr, tag_code, sec_info_arr, new_shdr, set_elem_num, select_struct, get_sec_id,
  get_sec_tag,
}
use uwasm_vm.Encoder.ReadBack.{IsReadBack, read_backs}
use uwasm_vm.Encoder.Sections.{
  Tables, Collected, collect, collect_write_info, write_to_file, mhdr_size, shdrs_of, shdr_off_of,
}
use uwasm_vm.Encoder.Collects.{collect-cons}
use uwasm_vm.Encoder.FileLayout.{collect_parts, Written, written, mhdr_at, headers_at}
use uwasm_vm.Encoder.Small.{read_shdrs-shdrs_of}
use mathlib.Core.List.{append-nil}
use uwasm_vm.Encoder.HeaderMap.{
  header_map, set_shdr_tab-header_map, AreMapped, header_map-AreMapped,
}
use uwasm_vm.Encoder.Load.{sec_code, unset, Loaded, init_module_from_buffer}
use uwasm_vm.Encoder.Writes.{IsWritable, sum_sizes, write_to_file-ok}
use uwasm_vm.Encoder.Pointers.{
  AreFound, Names, pointers, init_sections-pointers, among, distinct, or_false, and_true, found_lem,
  has_sec,
}

collect-Names :
    (t : Tables) (secs : List SecInfo) (size : ℕ) (r : Collected)
    → collect t secs size ≡ ok r
    → All (λ sec. (elem_num size : ℕ) → IsReadBack sec elem_num size) secs
    → (starts : List Shdr) → Names [] starts
    → Names r.sec_id_vec (r.ubh_shdr_vec ++ starts)
unfolding collect
collect-Names t [] size r e reads starts bare =
    subst (λ r. Names r.sec_id_vec (r.ubh_shdr_vec ++ starts)) (ok-injective e) bare
collect-Names t (sec ∷ secs) size r e (read, reads) starts bare =
    elim (collect-cons t sec secs size r e) [
      | inl same ↦ collect-Names t secs size r same reads starts bare
      | inr (h, rest, made, others, all) ↦
          let own = read (t.elem_num sec.sec_id) size in
          let same : own.shdr ≡ h = ok-injective (sym own.made ∙ made) in
          let id : get_sec_id h ≡ ok sec.sec_id = rw⁻¹ same own.id in
          subst (λ r. Names r.sec_id_vec (r.ubh_shdr_vec ++ starts)) all
            (has_sec h sec.sec_id id, id, collect-Names t secs _ rest others reads starts bare)
    ]

-- The collected sections are among those of the table, in its order.
abbrev among_infos : ℕ → List SecInfo → Bool
among_infos k [] = false
among_infos k (s ∷ ss) = (k == sec_code s.sec_id) || among_infos k ss

abbrev pub distinct_infos : List SecInfo → Bool
distinct_infos [] = true
distinct_infos (s ∷ ss) = not (among_infos (sec_code s.sec_id) ss) && distinct_infos ss

collect-among :
    (t : Tables) (secs : List SecInfo) (size : ℕ) (r : Collected) (k : ℕ)
    → collect t secs size ≡ ok r
    → among_infos k secs ≡ false
    → among k r.sec_id_vec ≡ false
unfolding collect
collect-among t [] size r k e other =
    subst (λ r. among k r.sec_id_vec ≡ false) (ok-injective e) refl
collect-among t (sec ∷ secs) size r k e other =
    let (this, rest_other) = or_false (k == sec_code sec.sec_id) (among_infos k secs) other in
    elim (collect-cons t sec secs size r e) [
      | inl same ↦ collect-among t secs size r k same rest_other
      | inr (h, rest, made, others, all) ↦
          subst (λ r. among k r.sec_id_vec ≡ false) all
            (rw this (collect-among t secs _ rest k others rest_other))
    ]

pub collect-distinct :
    (t : Tables) (secs : List SecInfo) (size : ℕ) (r : Collected)
    → collect t secs size ≡ ok r
    → distinct_infos secs ≡ true
    → distinct r.sec_id_vec ≡ true
unfolding collect
collect-distinct t [] size r e one = subst (λ r. distinct r.sec_id_vec ≡ true) (ok-injective e) refl
collect-distinct t (sec ∷ secs) size r e one =
    let (other, rest_one) =
      and_true (among_infos (sec_code sec.sec_id) secs) (distinct_infos secs) one in
    elim (collect-cons t sec secs size r e) [
      | inl same ↦ collect-distinct t secs size r same rest_one
      | inr (h, rest, made, others, all) ↦
          subst (λ r. distinct r.sec_id_vec ≡ true) all
            (rw (collect-among t secs _ rest (sec_code sec.sec_id) others other)
              (collect-distinct t secs _ rest others rest_one))
    ]

one_start :
    (s : Shdr) (starts : List Shdr)
    → (get_sec_tag s == 8) ≡ true
    → ok (s ∷ []) ≡ ok starts
    → Names [] starts
one_start s starts tag e = subst (Names []) (ok-injective e) (tag, tt)

starts-Names :
    (start : Option ℕ) (starts : List Shdr)
    → elim start [
      | some i ↦ new_shdr (tag_code SecTag.start) 0 i >>= λ s. ok (s ∷ [])
      | none ↦ ok []
    ]
      ≡ ok starts
    → Names [] starts
unfolding new_shdr set_elem_num select_struct
starts-Names (some i) starts e = one_start (record { word = 8; idx = i % 2 ^ 32 }) starts refl e
starts-Names none starts e = subst (Names []) (ok-injective e) tt

collected-Names :
    (t : Tables) (c : Collected)
    → collect_write_info t ≡ ok c
    → Names c.sec_id_vec c.ubh_shdr_vec × (distinct c.sec_id_vec ≡ true)
collected-Names t c collected =
    let (first, start, starts, in_loop, started, same) = collect_parts t c collected in
    (
      subst (λ u. Names u.sec_id_vec u.ubh_shdr_vec) same
          (collect-Names t sec_info_arr mhdr_size first in_loop read_backs starts
            (starts-Names start starts started)),
      subst (λ u. distinct u.sec_id_vec ≡ true) same
          (collect-distinct t sec_info_arr mhdr_size first in_loop refl),
    )

-- The headers are read from the place that the module header names.
init-written :
    (t : Tables) (file : List ℕ) (w : Written t file)
    → length file < 2 ^ 26
    → Names w.c.sec_id_vec w.c.ubh_shdr_vec
    → init_module_from_buffer file
      ≡ ok (record {
        shdr_tab = w.c.ubh_shdr_vec;
        sec_sec_header_map = header_map 0 w.c.sec_id_vec unset;
        sections = pointers w.c.sec_id_vec w.c.ubh_shdr_vec unset;
      })
unfolding init_module_from_buffer
init-written t file w short names =
    let c : Collected = w.c in
    let behind : drop (shdr_off_of c) file ≡ shdrs_of c.ubh_shdr_vec ++ [] =
      headers_at t file w ∙ sym (append-nil (shdrs_of c.ubh_shdr_vec)) in
    rw
      (
        init_module_from_buffer,
        mhdr_at t file w short,
        behind,
        read_shdrs-shdrs_of c.ubh_shdr_vec [] w.small,
        set_shdr_tab-header_map 0 c.sec_id_vec c.ubh_shdr_vec unset names,
        init_sections-pointers c.sec_id_vec c.ubh_shdr_vec unset names,
      )
      refl

-- Write_to_file succeeds, and Init_module_from_buffer, given the bytes of the file, accepts it, reads
-- back the section headers, maps every section that was written to its header, and finds the section:
-- its pointer is where the section's bytes stand in the file. The tables have the bytes of their sections, the functions' names
-- are in the string table, and the bytes of the sections with 116 more are fewer than 2 ^ 26, since the
-- module header has 26 bits for the offset of the section headers.
pub init_module_from_buffer-write_to_file :
    (t : Tables)
    → IsWritable t
    → sum_sizes t sec_info_arr + 116 < 2 ^ 26
    → (file : List ℕ) × (c : Collected) × (m : Loaded) × (write_to_file t ≡ ok file)
      × (collect_write_info t ≡ ok c)
      × (init_module_from_buffer file ≡ ok m)
      × (m.shdr_tab ≡ c.ubh_shdr_vec)
      × AreMapped m.shdr_tab m.sec_sec_header_map c.sec_id_vec
      × AreFound t file m.sections c.sec_id_vec
init_module_from_buffer-write_to_file t writable room =
    let (file, e, long) = write_to_file-ok t writable (omega (arith, room)) in
    let w = written t file e in
    let (names, one) = collected-Names t w.c w.collected in
    (
      file,
      w.c,
      _,
      e,
      w.collected,
      init-written t file w (omega (arith, long, room)) names,
      refl,
      header_map-AreMapped w.c.ubh_shdr_vec w.c.sec_id_vec names one (omega (arith, w.few)),
      found_lem t file w.c.sec_id_vec w.c.ubh_shdr_vec unset w.located one,
    )
