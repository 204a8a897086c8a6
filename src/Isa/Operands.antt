-- ===== src/Isa/Operands.antt =====
-- What an instruction of each address mode carries, described apart from its layout: the operands
-- in the order of the encoder's `content` vector, the widths that hold them, and where the
-- interpreter finds them.
use uwasm_vm.Base.{ℕ, ◌-◌, ◌^◌, ◌<◌, ◌≤◌, ◌⊎◌, List, [], ◌∷◌}
use uwasm_vm.Isa.Opcode.{TyAm}
use uwasm_vm.Isa.Opcode.{am32, am32_ofs, am32_r, am32_r_imm, am32_r_ofs, am32_r_r}
use uwasm_vm.Isa.Opcode.{am32s_r_r_imm, am32s_r_r_ofs, am32s_r_r_r}
use uwasm_vm.Isa.Opcode.{am64_r_imm, am64_r_ofs, am64_r_r_imm, am64_r_r_ofs, am64_r_r_r}
use uwasm_vm.Isa.Expand.{AmExpand}

pub data Short : Type 0 where
  plain : Short
  ofs r : ℕ → Short
  r_imm r_ofs r_r : ℕ → ℕ → Short
  r_r_imm r_r_ofs r_r_r : ℕ → ℕ → ℕ → Short

pub data Long : Type 0 where
  r_imm r_ofs : ℕ → ℕ → Long
  r_r_imm r_r_ofs r_r_r : ℕ → ℕ → ℕ → Long

abbrev pub mode : Short → TyAm
mode plain = am32
mode (ofs o) = am32_ofs
mode (r a) = am32_r
mode (Short.r_imm a i) = am32_r_imm
mode (Short.r_ofs a o) = am32_r_ofs
mode (r_r a b) = am32_r_r
mode (Short.r_r_imm a b i) = am32s_r_r_imm
mode (Short.r_r_ofs a b o) = am32s_r_r_ofs
mode (Short.r_r_r a b c) = am32s_r_r_r

abbrev pub mode_l : Long → TyAm
mode_l (Long.r_imm a i) = am64_r_imm
mode_l (Long.r_ofs a o) = am64_r_ofs
mode_l (Long.r_r_imm a b i) = am64_r_r_imm
mode_l (Long.r_r_ofs a b o) = am64_r_r_ofs
mode_l (Long.r_r_r a b c) = am64_r_r_r

abbrev pub content : Short → List ℕ
content plain = []
content (ofs o) = o ∷ []
content (r a) = a ∷ []
content (Short.r_imm a i) = a ∷ i ∷ []
content (Short.r_ofs a o) = a ∷ o ∷ []
content (r_r a b) = a ∷ b ∷ []
content (Short.r_r_imm a b i) = a ∷ b ∷ i ∷ []
content (Short.r_r_ofs a b o) = a ∷ b ∷ o ∷ []
content (Short.r_r_r a b c) = a ∷ b ∷ c ∷ []

abbrev pub content_l : Long → List ℕ
content_l (Long.r_imm a i) = a ∷ i ∷ []
content_l (Long.r_ofs a o) = a ∷ o ∷ []
content_l (Long.r_r_imm a b i) = a ∷ b ∷ i ∷ []
content_l (Long.r_r_ofs a b o) = a ∷ b ∷ o ∷ []
content_l (Long.r_r_r a b c) = a ∷ b ∷ c ∷ []

-- The pattern of a number that a signed field of `w` bits holds.
abbrev pub FitsSigned : ℕ → ℕ → Type 0
FitsSigned w c = (c < 2 ^ (w - 1)) ⊎ ((2 ^ 32 - 2 ^ (w - 1) ≤ c) × (c < 2 ^ 32))

abbrev pub Fits : Short → Type 0
Fits plain = Unit
Fits (ofs o) = o < 2 ^ 22
Fits (r a) = a < 2 ^ 10
Fits (Short.r_imm a i) = (a < 2 ^ 10) × FitsSigned 10 i
Fits (Short.r_ofs a o) = (a < 2 ^ 10) × FitsSigned 10 o
Fits (r_r a b) = (a < 2 ^ 10) × (b < 2 ^ 10)
Fits (Short.r_r_imm a b i) = (a < 2 ^ 7) × (b < 2 ^ 7) × FitsSigned 8 i
Fits (Short.r_r_ofs a b o) = (a < 2 ^ 7) × (b < 2 ^ 7) × (o < 2 ^ 8)
Fits (Short.r_r_r a b c) = (a < 2 ^ 7) × (b < 2 ^ 7) × (c < 2 ^ 7)

abbrev pub FitsLong : Long → Type 0
FitsLong (Long.r_imm a i) = (a < 2 ^ 10) × (i < 2 ^ 32)
FitsLong (Long.r_ofs a o) = (a < 2 ^ 10) × (o < 2 ^ 32)
FitsLong (Long.r_r_imm a b i) = (a < 2 ^ 10) × (b < 2 ^ 10) × FitsSigned 22 i
FitsLong (Long.r_r_ofs a b o) = (a < 2 ^ 10) × (b < 2 ^ 10) × (o < 2 ^ 22)
FitsLong (Long.r_r_r a b c) = (a < 2 ^ 10) × (b < 2 ^ 10) × (c < 2 ^ 10)

-- rd, rs and rt, offset or immediate; a place without an operand keeps what it held.
abbrev pub place : Short → AmExpand → AmExpand
place plain e = e
place (ofs o) e = record e { expand3 = o }
place (r a) e = record e { expand1 = a }
place (Short.r_imm a i) e = record e { expand1 = a; expand3 = i }
place (Short.r_ofs a o) e = record e { expand1 = a; expand3 = o }
place (r_r a b) e = record e { expand1 = a; expand2 = b }
place (Short.r_r_imm a b i) e = record e { expand1 = a; expand2 = b; expand3 = i }
place (Short.r_r_ofs a b o) e = record e { expand1 = a; expand2 = b; expand3 = o }
place (Short.r_r_r a b c) e = record e { expand1 = a; expand2 = b; expand3 = c }

abbrev pub place_l : Long → AmExpand → AmExpand
place_l (Long.r_imm a i) e = record e { expand1 = a; expand3 = i }
place_l (Long.r_ofs a o) e = record e { expand1 = a; expand3 = o }
place_l (Long.r_r_imm a b i) e = record e { expand1 = a; expand2 = b; expand3 = i }
place_l (Long.r_r_ofs a b o) e = record e { expand1 = a; expand2 = b; expand3 = o }
place_l (Long.r_r_r a b c) e = record e { expand1 = a; expand2 = b; expand3 = c }
