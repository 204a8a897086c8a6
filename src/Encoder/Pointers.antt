-- ===== src/Encoder/Pointers.antt =====
-- The pointers that Init_module_from_buffer (src/ubh/u_module.cxx) sets for headers that name sections.
use uwasm_vm.Base.{ℕ, ◌≡◌, refl, ◌∙◌, arith, inl, inr}
use uwasm_vm.Base.{Bool, true, false, not, ◌&&◌, ◌||◌, ◌==◌, ==_iff, Bool-cases, err-ne-ok}
use uwasm_vm.Base.{List, [], ◌∷◌, ◌++◌, take, drop, some, ok}
use uwasm_vm.Encoder.Shdr.{SecTag, SectionId, Shdr, tag_code, get_sec_id, sec_id_of, get_sec_tag}
use uwasm_vm.Encoder.Sections.{Tables, Section}
use uwasm_vm.Encoder.FileLayout.{IsLocated}
use uwasm_vm.Encoder.Load.{sec_code, Sections, set_section, init_sections}

-- Every section has its pointer, and its bytes stand there.
abbrev pub AreFound : Tables → List ℕ → Sections → List Section → Type 0
AreFound t file m [] = Unit
AreFound t file m (s ∷ ss) =
    ((off : ℕ) × (more : List ℕ) × (m (sec_code s.sec_id) ≡ some off)
      × (drop off file ≡ take s.sec_size (t.content s.sec_id) ++ more))
    × AreFound t file m ss

-- The headers are those of the sections, in order, and then some that have no section.
abbrev pub Names : List Section → List Shdr → Type 0
Names [] [] = Unit
Names [] (h ∷ hs) = ((get_sec_tag h == tag_code SecTag.start) ≡ true) × Names [] hs
Names (s ∷ ss) (h ∷ hs) =
    ((get_sec_tag h == tag_code SecTag.start) ≡ false) × (get_sec_id h ≡ ok s.sec_id) × Names ss hs
Names (s ∷ ss) [] = ⊥

abbrev pub pointers : List Section → List Shdr → Sections → Sections
pointers [] hs m = m
pointers (s ∷ ss) [] m = m
pointers (s ∷ ss) (h ∷ hs) m = pointers ss hs (set_section m s.sec_id h.idx)

pub init_sections-pointers :
    (ss : List Section) (hs : List Shdr) (m : Sections)
    → Names ss hs
    → init_sections hs m ≡ ok (pointers ss hs m)
unfolding init_sections
init_sections-pointers [] [] m names = refl
init_sections-pointers [] (h ∷ hs) m (bare, names) =
    rw (init_sections, bare) (init_sections-pointers [] hs m names)
init_sections-pointers (s ∷ ss) (h ∷ hs) m (has, id, names) =
    rw (init_sections, has, id) (init_sections-pointers ss hs (set_section m s.sec_id h.idx) names)
init_sections-pointers (s ∷ ss) [] m names = absurd names

-- No section stands twice in the list.
abbrev pub among : ℕ → List Section → Bool
among k [] = false
among k (s ∷ ss) = (k == sec_code s.sec_id) || among k ss

abbrev pub distinct : List Section → Bool
distinct [] = true
distinct (s ∷ ss) = not (among (sec_code s.sec_id) ss) && distinct ss

pub or_false : (a b : Bool) → (a || b) ≡ false → (a ≡ false) × (b ≡ false)
or_false a b h = ground arith

pub and_true : (a b : Bool) → (not a && b) ≡ true → (a ≡ false) × (b ≡ true)
and_true a b h = ground arith

pointers-keeps :
    (ss : List Section) (hs : List Shdr) (m : Sections) (k : ℕ)
    → among k ss ≡ false
    → pointers ss hs m k ≡ m k
pointers-keeps [] hs m k other = refl
pointers-keeps (s ∷ ss) [] m k other = refl
pointers-keeps (s ∷ ss) (h ∷ hs) m k other =
    let (this, rest) = or_false (k == sec_code s.sec_id) (among k ss) other in
    pointers-keeps ss hs (set_section m s.sec_id h.idx) k rest ∙ rw this refl

pub found_lem :
    (t : Tables) (file : List ℕ) (ss : List Section) (hs : List Shdr) (m : Sections)
    → IsLocated t file ss hs
    → distinct ss ≡ true
    → AreFound t file (pointers ss hs m) ss
found_lem t file [] hs m located one = tt
found_lem t file (s ∷ ss) [] m located one = absurd located
found_lem t file (s ∷ ss) (h ∷ hs) m ((more, here), located) one =
    let (other, rest) = and_true (among (sec_code s.sec_id) ss) (distinct ss) one in
    let own : (sec_code s.sec_id == sec_code s.sec_id) ≡ true = (==_iff _ _).1 refl in
    (
      (
        h.idx,
        more,
        pointers-keeps ss hs (set_section m s.sec_id h.idx) (sec_code s.sec_id) other ∙ rw own refl,
        here,
      ),
      found_lem t file ss hs (set_section m s.sec_id h.idx) located rest,
    )

-- A header that names a section is not that of the start function.
pub has_sec :
    (h : Shdr) (id : SectionId)
    → get_sec_id h ≡ ok id
    → (get_sec_tag h == tag_code SecTag.start) ≡ false
unfolding get_sec_id sec_id_of
has_sec h id named = elim (Bool-cases (get_sec_tag h == 8)) [
  | inl start ↦
      let tag : get_sec_tag h ≡ 8 = (==_iff (get_sec_tag h) 8).0 start in
      absurd (err-ne-ok (rw tag at named))
  | inr other ↦ other
]
