-- ===== src/Encoder/HeaderMap.antt =====
-- The map from sections to headers that Set_shdr_tab (src/ubh/u_module.cxx) makes, and what
-- Get_shdr_by_sec_id (src/ubh/u_module.h) finds by it.
use uwasm_vm.Base.{
  ℕ, suc, ◌+◌, ◌%◌, ◌^◌, ◌≤◌, ◌≡◌, refl, ap, ◌∙◌, arith, true, false, ◌==◌, ==_iff, List, [], ◌∷◌,
  length, get_elem?, some, ok,
}
use uwasm_vm.Encoder.Shdr.{Shdr, get_sec_id}
use uwasm_vm.Encoder.Sections.{Section}
use uwasm_vm.Encoder.Load.{sec_code, Sections, unset, set_section, set_shdr_tab, get_shdr_by_sec_id}
use uwasm_vm.Encoder.Pointers.{Names, among, distinct, or_false, and_true}

-- The map from a section to the number of its header, from header `i` on.
abbrev pub header_map : ℕ → List Section → Sections → Sections
header_map i [] m = m
header_map i (s ∷ ss) m = header_map (i + 1) ss (set_section m s.sec_id (i % 2 ^ 8))

pub set_shdr_tab-header_map :
    (i : ℕ) (ss : List Section) (hs : List Shdr) (m : Sections)
    → Names ss hs
    → set_shdr_tab i hs m ≡ ok (header_map i ss m)
unfolding set_shdr_tab
set_shdr_tab-header_map i [] [] m names = refl
set_shdr_tab-header_map i [] (h ∷ hs) m (bare, names) =
    rw (set_shdr_tab, bare) (set_shdr_tab-header_map (i + 1) [] hs m names)
set_shdr_tab-header_map i (s ∷ ss) (h ∷ hs) m (has, id, names) =
    rw (set_shdr_tab, has, id)
      (set_shdr_tab-header_map (i + 1) ss hs (set_section m s.sec_id (i % 2 ^ 8)) names)
set_shdr_tab-header_map i (s ∷ ss) [] m names = absurd names

-- By each section its own header is found.
abbrev pub AreMapped : List Shdr → Sections → List Section → Type 0
AreMapped hs m [] = Unit
AreMapped hs m (s ∷ ss) =
    ((h : Shdr) × (get_shdr_by_sec_id hs m s.sec_id ≡ ok h) × (get_sec_id h ≡ ok s.sec_id))
    × AreMapped hs m ss

header_map-keeps :
    (i : ℕ) (ss : List Section) (m : Sections) (k : ℕ)
    → among k ss ≡ false
    → header_map i ss m k ≡ m k
header_map-keeps i [] m k other = refl
header_map-keeps i (s ∷ ss) m k other =
    let (this, rest) = or_false (k == sec_code s.sec_id) (among k ss) other in
    header_map-keeps (i + 1) ss (set_section m s.sec_id (i % 2 ^ 8)) k rest ∙ rw this refl

finds :
    (hs : List Shdr) (m : Sections) (s : Section) (i : ℕ) (h : Shdr)
    → m (sec_code s.sec_id) ≡ some i
    → get_elem? hs i ≡ some h
    → get_shdr_by_sec_id hs m s.sec_id ≡ ok h
unfolding get_shdr_by_sec_id
finds hs m s i h numbered has = rw (get_shdr_by_sec_id, numbered, has) refl

-- `hs` are the headers of `all` from `i` on; the numbers of headers have 8 bits.
mapped_lem :
    (all hs : List Shdr) (i : ℕ) (ss : List Section) (m : Sections)
    → Names ss hs
    → distinct ss ≡ true
    → i + length hs ≤ 256
    → ((j : ℕ) → get_elem? all (i + j) ≡ get_elem? hs j)
    → AreMapped all (header_map i ss m) ss
mapped_lem all hs i [] m names one room at = tt
mapped_lem all [] i (s ∷ ss) m names one room at = absurd names
mapped_lem all (h ∷ hs) i (s ∷ ss) m (has, id, names) one room at =
    let (other, rest) = and_true (among (sec_code s.sec_id) ss) (distinct ss) one in
    let own : (sec_code s.sec_id == sec_code s.sec_id) ≡ true = (==_iff _ _).1 refl in
    let number : i % 2 ^ 8 ≡ i = omega (arith, room) in
    let here : i ≡ i + 0 = omega arith in
    (
      (
        h,
        finds all (header_map i (s ∷ ss) m) s i h
            (header_map-keeps (i + 1) ss (set_section m s.sec_id (i % 2 ^ 8)) (sec_code s.sec_id)
                other
              ∙ rw own (ap some number))
            (ap (get_elem? all) here ∙ at 0),
        id,
      ),
      mapped_lem all hs (i + 1) ss (set_section m s.sec_id (i % 2 ^ 8)) names rest
          (omega (arith, room))
          (λ j.
            let next : i + 1 + j ≡ i + suc j = omega arith in ap (get_elem? all) next ∙ at (suc j)),
    )

pub header_map-AreMapped :
    (hs : List Shdr) (ss : List Section)
    → Names ss hs
    → distinct ss ≡ true
    → length hs ≤ 256
    → AreMapped hs (header_map 0 ss unset) ss
header_map-AreMapped hs ss names one room =
    mapped_lem hs hs 0 ss unset names one (omega (arith, room))
      (λ j. let same : 0 + j ≡ j = omega arith in ap (get_elem? hs) same)
