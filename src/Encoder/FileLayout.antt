-- ===== src/Encoder/FileLayout.antt =====
-- Where the file that Write_to_file writes holds its sections (src/encoder/u_encoder.cxx).
use uwasm_vm.Base.{
  ℕ, zero, suc, ◌+◌, ◌-◌, ◌*◌, ◌%◌, ◌^◌, ◌<◌, ◌≤◌, ◌≡◌, refl, sym, ap, ◌∙◌, arith, inl, inr,
}
use uwasm_vm.Base.{leb, leb→le}
use uwasm_vm.Base.{
  List, [], ◌∷◌, ◌++◌, length, length-append, length-replicate, append_assoc, append-All, All,
  replicate, take, drop, drop-length, Option, some, none,
}
use uwasm_vm.Base.{ok, ◌>>=◌, defined_if, >>=-eq-ok, ok-injective}
use mathlib.Core.Path.{subst}
use uwasm_vm.Encoder.Shdr.{SecInfo, SecTag, tag_code, Shdr, sec_info_arr, new_shdr}
use uwasm_vm.Encoder.Collects.{with_section, collect-cons, header_idx}
use uwasm_vm.Encoder.Sections.{
  Tables, section_size, Section, Collected, collect, collect_write_info, find_start, write_section,
  write_to_file, shdrs_of, mhdr, mhdr_size, shdr_size, ubh_magic, shdr_off_of, write_at,
}
use uwasm_vm.Encoder.Buffers.{
  write_at-append, write_at-inside, write_at-filled, length-shdrs_of, defined_true,
}
use uwasm_vm.Encoder.Small.{IsSmall, collect-IsSmall, starts-IsSmall, read_mhdr-mhdr}
use uwasm_vm.Encoder.Load.{Mhdr, read_mhdr}

-- At the offset of each header the file has the bytes of its section.
abbrev pub IsLocated : Tables → List ℕ → List Section → List Shdr → Type 0
IsLocated t file [] shdrs = Unit
IsLocated t file (s ∷ ss) [] = ⊥
IsLocated t file (s ∷ ss) (h ∷ hs) =
    ((more : List ℕ) × (drop h.idx file ≡ take s.sec_size (t.content s.sec_id) ++ more))
    × IsLocated t file ss hs

length-take : (n : ℕ) (xs : List ℕ) → n ≤ length xs → length (take n xs) ≡ n
length-take zero xs h = refl
length-take (suc n) [] h = absurd (omega arith)
length-take (suc n) (x ∷ xs) h = ap suc (length-take n xs (omega arith))

-- Whatever stands before the sections and behind them.
abbrev Fits : Tables → List ℕ → Collected → Type 0
Fits t pre r =
    (body tail : List ℕ)
    → write_section t r.sec_id_vec ≡ ok body
    → length pre + length body < 2 ^ 32
    → IsLocated t (pre ++ (body ++ tail)) r.sec_id_vec r.ubh_shdr_vec
      × (r.size ≡ length pre + length body)

regroup :
    (pre chunk body tail : List ℕ)
    → pre ++ ((chunk ++ body) ++ tail) ≡ (pre ++ chunk) ++ (body ++ tail)
regroup pre chunk body tail =
    ap (λ u. pre ++ u) (append_assoc chunk body tail) ∙ sym (append_assoc pre chunk (body ++ tail))

fits_cons :
    (t : Tables) (sec : SecInfo) (secs : List SecInfo) (pre : List ℕ) (h : Shdr) (rest : Collected)
    → h.idx ≡ length pre % 2 ^ 32
    → (length (take (section_size t sec) (t.content sec.sec_id)) ≡ section_size t sec
        → length pre + section_size t sec < 2 ^ 32
        → Fits t (pre ++ take (section_size t sec) (t.content sec.sec_id)) rest)
    → Fits t pre (with_section t sec secs (length pre) h rest)
unfolding write_section
fits_cons t sec secs pre h rest at others body tail written room =
    let (_, inside, w1) =
      >>=-eq-ok (defined_if (leb (section_size t sec) (length (t.content sec.sec_id)))) _ written in
    let (body', w2, all) = >>=-eq-ok (write_section t rest.sec_id_vec) _ w1 in
    let chunk : List ℕ = take (section_size t sec) (t.content sec.sec_id) in
    let made : chunk ++ body' ≡ body = ok-injective all in
    let size : length chunk ≡ section_size t sec =
      length-take (section_size t sec) (t.content sec.sec_id)
        (leb→le _ _ (defined_true _ inside)) in
    let long : length body ≡ length chunk + length body' =
      ap length (sym made) ∙ length-append chunk body' in
    let (located, total) =
      others size (omega arith) body' tail w2 (omega (arith, length-append pre chunk)) in
    let file : (pre ++ chunk) ++ (body' ++ tail) ≡ pre ++ (body ++ tail) =
      sym (regroup pre chunk body' tail) ∙ ap (λ u. pre ++ (u ++ tail)) made in
    let start : length pre ≡ h.idx = omega arith in
    (
      (
        (
          body' ++ tail,
          subst (λ n. drop n (pre ++ (body ++ tail)) ≡ chunk ++ (body' ++ tail)) start
              (ap (λ u. drop (length pre) u) (sym file ∙ append_assoc pre chunk (body' ++ tail))
                ∙ drop-length pre (chunk ++ (body' ++ tail))),
        ),
        subst (λ u. IsLocated t u rest.sec_id_vec rest.ubh_shdr_vec) file located,
      ),
      omega (arith, length-append pre chunk),
    )

pub fits :
    (t : Tables) (secs : List SecInfo) (r : Collected) (pre : List ℕ)
    → collect t secs (length pre) ≡ ok r
    → Fits t pre r
unfolding collect write_section
fits t [] r pre collected body tail written room =
    subst (Fits t pre) (ok-injective collected)
      (λ body tail written room.
        let none_written : [] ≡ body = ok-injective written in
        (tt, rw⁻¹ none_written (omega arith)))
      body tail written room
fits t (sec ∷ secs) r pre collected body tail written room =
    elim (collect-cons t sec secs (length pre) r collected) [
      | inl same ↦ fits t secs r pre same body tail written room
      | inr (h, rest, at, others, all) ↦
          subst (Fits t pre) all
            (fits_cons t sec secs pre h rest (header_idx sec _ _ h at) (λ size below.
              let chunk : List ℕ = take (section_size t sec) (t.content sec.sec_id) in
              let start : (length pre + section_size t sec) % 2 ^ 32 ≡ length (pre ++ chunk) =
                omega (arith, length-append pre chunk) in
              fits t secs rest (pre ++ chunk) (ap (collect t secs) (sym start) ∙ others)))
            body tail written room
    ]

-- Further headers locate nothing more.
IsLocated-append :
    (t : Tables) (file : List ℕ) (ss : List Section) (hs more : List Shdr)
    → IsLocated t file ss hs
    → IsLocated t file ss (hs ++ more)
IsLocated-append t file [] hs more located = tt
IsLocated-append t file (s ∷ ss) [] more located = absurd located
IsLocated-append t file (s ∷ ss) (h ∷ hs) more (here, located) =
    (here, IsLocated-append t file ss hs more located)

pub collect_parts :
    (t : Tables) (c : Collected)
    → collect_write_info t ≡ ok c
    → (first : Collected) × (start : Option ℕ) × (starts : List Shdr) × (collect t sec_info_arr
          mhdr_size
        ≡ ok first)
      × (elim start [
        | some i ↦ new_shdr (tag_code SecTag.start) 0 i >>= λ s. ok (s ∷ [])
        | none ↦ ok []
      ]
          ≡ ok starts)
      × (record {
        sec_id_vec = first.sec_id_vec;
        ubh_shdr_vec = first.ubh_shdr_vec ++ starts;
        size = (first.size + shdr_size * length (first.ubh_shdr_vec ++ starts)) % 2 ^ 32;
      }
          ≡ c)
unfolding collect_write_info
collect_parts t c e =
    let (first, collected, more) = >>=-eq-ok (collect t sec_info_arr mhdr_size) _ e in
    let (start, searched, rest) = >>=-eq-ok (find_start t.module_str_tab 0 t.name_idxs) _ more in
    let (starts, found, all) =
      >>=-eq-ok
        (elim start [
          | some i ↦ new_shdr (tag_code SecTag.start) 0 i >>= λ s. ok (s ∷ [])
          | none ↦ ok []
        ])
        _ rest in
    (first, start, starts, collected, found, ok-injective all)

-- The module header, the sections and their headers, one behind the other.
abbrev pub file_of : Collected → List ℕ → List ℕ
file_of c body = mhdr (length c.ubh_shdr_vec) (shdr_off_of c) ++ (body ++ shdrs_of c.ubh_shdr_vec)

-- Where the sizes add up, the three writes make the file.
pub write_to_file-filled :
    (t : Tables) (c : Collected) (body : List ℕ)
    → collect_write_info t ≡ ok c
    → write_section t c.sec_id_vec ≡ ok body
    → shdr_off_of c ≡ mhdr_size + length body
    → c.size ≡ shdr_off_of c + shdr_size * length c.ubh_shdr_vec
    → write_to_file t ≡ ok (file_of c body)
unfolding write_to_file
write_to_file-filled t c body collects writes at total =
    let (a, b, first, second, third) =
      write_at-filled (mhdr (length c.ubh_shdr_vec) (shdr_off_of c)) body (shdrs_of c.ubh_shdr_vec)
        c.size (shdr_off_of c) at (omega (arith, length-shdrs_of c.ubh_shdr_vec)) in
    rw (write_to_file, collects, writes, first, second) third

-- The buffer after the module header is as long as the file, and has room for the sections.
room_of :
    (size : ℕ) (head body a b : List ℕ)
    → length head ≡ 12
    → write_at 0 head (replicate size 0) ≡ ok a
    → write_at 12 body a ≡ ok b
    → 12 + length body ≤ size
room_of size head body a b twelve first second =
    let long = write_at-inside 0 head (replicate size 0) first in
    let enough : length head ≤ size = omega (arith, long, length-replicate {A = ℕ} size 0) in
    let same : head ++ replicate (size - length head) 0 ≡ a =
      ok-injective (sym (write_at-append 0 size [] head refl enough) ∙ first) in
    omega (
      arith,
      write_at-inside 12 body a second,
      ap length same,
      length-append head (replicate (size - length head) 0),
      length-replicate {A = ℕ} (size - length head) 0,
    )

-- What is written, and where.
pub record Written (t : Tables) (file : List ℕ) : Type 0 where
  pub c : Collected
  pub body : List ℕ
  pub collected : collect_write_info t ≡ ok c
  pub located : IsLocated t file c.sec_id_vec c.ubh_shdr_vec
  pub made : file ≡ file_of c body
  pub whole : c.size ≡ length file
  pub at : shdr_off_of c ≡ 12 + length body
  pub small : All IsSmall c.ubh_shdr_vec
  pub few : length c.ubh_shdr_vec ≤ 13

pub written : (t : Tables) (file : List ℕ) → write_to_file t ≡ ok file → Written t file
unfolding write_to_file
written t file e =
    let (c, collected, e1) = >>=-eq-ok (collect_write_info t) _ e in
    let (body, body_written, e2) = >>=-eq-ok (write_section t c.sec_id_vec) _ e1 in
    let head : List ℕ = mhdr (length c.ubh_shdr_vec) (shdr_off_of c) in
    let tail : List ℕ = shdrs_of c.ubh_shdr_vec in
    let (a, w1, e3) = >>=-eq-ok (write_at 0 head (replicate c.size 0)) _ e2 in
    let (b, w2, e4) = >>=-eq-ok (write_at mhdr_size body a) _ e3 in
    let room = room_of c.size head body a b refl w1 w2 in
    let (first, start, starts, in_loop, started, same) = collect_parts t c collected in
    let (small_first, few_first) = collect-IsSmall t sec_info_arr mhdr_size first in_loop in
    let (small_start, few_start) = starts-IsSmall start starts started in
    let small : All IsSmall c.ubh_shdr_vec =
      subst (λ u. All IsSmall u.ubh_shdr_vec) same
        (append-All IsSmall first.ubh_shdr_vec starts small_first small_start) in
    let count : length c.ubh_shdr_vec ≡ length first.ubh_shdr_vec + length starts =
      ap (λ u. length u.ubh_shdr_vec) (sym same) ∙ length-append first.ubh_shdr_vec starts in
    let few : length c.ubh_shdr_vec ≤ 13 = omega (arith, count, few_first, few_start) in
    let total : c.size ≡ (first.size + shdr_size * length c.ubh_shdr_vec) % 2 ^ 32 =
      ap (λ u. u.size) (sym same)
      ∙ ap (λ u. (first.size + shdr_size * length u.ubh_shdr_vec) % 2 ^ 32) same in
    let (located, size) =
      fits t sec_info_arr first head in_loop body tail
        (ap (λ u. write_section t u.sec_id_vec) same ∙ body_written) (omega (arith, total, room)) in
    let at : shdr_off_of c ≡ 12 + length body = omega (arith, total, size, room, few) in
    let whole : c.size ≡ shdr_off_of c + shdr_size * length c.ubh_shdr_vec =
      omega (arith, total, size, room, few, at) in
    let made : file ≡ file_of c body =
      ok-injective (sym e ∙ write_to_file-filled t c body collected body_written at whole) in
    record {
      c = c;
      body = body;
      collected = collected;
      made = made;
      located =
          subst (λ u. IsLocated t u c.sec_id_vec c.ubh_shdr_vec) (sym made)
            (subst (λ u. IsLocated t (file_of c body) u.sec_id_vec u.ubh_shdr_vec) same
              (IsLocated-append t (file_of c body) first.sec_id_vec first.ubh_shdr_vec starts
                located));
      whole =
          whole
          ∙ omega (
            arith,
            at,
            length-append head (body ++ tail),
            length-append body tail,
            length-shdrs_of c.ubh_shdr_vec,
          )
          ∙ ap length (sym made);
      at = at;
      small = small;
      few = few;
    }

pub headers_at :
    (t : Tables) (file : List ℕ) (w : Written t file)
    → drop (shdr_off_of w.c) file ≡ shdrs_of w.c.ubh_shdr_vec
headers_at t file w =
    let head : List ℕ = mhdr (length w.c.ubh_shdr_vec) (shdr_off_of w.c) in
    let tail : List ℕ = shdrs_of w.c.ubh_shdr_vec in
    let before : shdr_off_of w.c ≡ length (head ++ w.body) =
      omega (arith, w.at, length-append head w.body) in
    ap (λ n. drop n file) before
    ∙ ap (drop (length (head ++ w.body))) (w.made ∙ sym (append_assoc head w.body tail))
    ∙ drop-length (head ++ w.body) tail

pub mhdr_at :
    (t : Tables) (file : List ℕ) (w : Written t file)
    → length file < 2 ^ 26
    → read_mhdr file
      ≡ ok (record {
        umagic = ubh_magic;
        shdr_num = length w.c.ubh_shdr_vec;
        shdr_off = shdr_off_of w.c;
      })
mhdr_at t file w short =
    let tail : List ℕ = w.body ++ shdrs_of w.c.ubh_shdr_vec in
    let near : shdr_off_of w.c < 2 ^ 26 = omega (
      arith,
      w.at,
      ap length w.made,
      length-append (mhdr (length w.c.ubh_shdr_vec) (shdr_off_of w.c)) tail,
      length-append w.body (shdrs_of w.c.ubh_shdr_vec),
    ) in
    ap read_mhdr w.made
    ∙ read_mhdr-mhdr (length w.c.ubh_shdr_vec) (shdr_off_of w.c) tail (omega (arith, w.few)) near

-- In a file that is written every section stands at the offset of its header, the file is as long as
-- was computed, the module header is read back with the magic, the number of section headers and
-- their offset, and the section headers stand at that offset. The file is shorter than 2 ^ 26 bytes,
-- since the module header has 26 bits for the offset.
pub write_to_file-IsLocated :
    (t : Tables) (file : List ℕ)
    → write_to_file t ≡ ok file
    → length file < 2 ^ 26
    → (c : Collected) × (m : Mhdr) × (collect_write_info t ≡ ok c)
      × IsLocated t file c.sec_id_vec c.ubh_shdr_vec
      × (c.size ≡ length file)
      × (read_mhdr file ≡ ok m)
      × (m.umagic ≡ ubh_magic)
      × (m.shdr_num ≡ length c.ubh_shdr_vec)
      × (drop m.shdr_off file ≡ shdrs_of c.ubh_shdr_vec)
write_to_file-IsLocated t file e short =
    let w = written t file e in
    (
      w.c,
      _,
      w.collected,
      w.located,
      w.whole,
      mhdr_at t file w short,
      refl,
      refl,
      headers_at t file w,
    )
