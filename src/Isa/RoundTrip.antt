-- ===== src/Isa/RoundTrip.antt =====
-- Encoding an instruction and expanding it again: Init_inst32 and Init_inst64
-- (src/ubh/u_inst.cxx) against Expand_code (src/ubh/u_module.cxx).
use uwasm_vm.Base.{ℕ, ◌%◌, ◌^◌, ◌<◌, ◌≡◌, ◌∙◌, refl, arith}
use uwasm_vm.Base.{some, ok, inl, inr}
use uwasm_vm.Isa.Opcode.{Valty, valty_code}
use uwasm_vm.Isa.Table.{ty_am_of, ty_am_of-lt}
use uwasm_vm.Isa.Word.{set_field, opcode, ty}
use uwasm_vm.Isa.Encode.{init_head, init_inst32, init_inst64}
use uwasm_vm.Isa.Expand.{AmExpand, opcode_to_opcode_l, expand_fields32, expand_fields64}
use uwasm_vm.Isa.Expand.{expand_inst32, expand_inst64}
use uwasm_vm.Isa.Checks.{check_reg-ok, check_imm_8, check_imm_22, check_imm_32}
use uwasm_vm.Isa.Checks.{init_head_fields, expand_inst32-eq, expand_inst64-eq}
use uwasm_vm.Isa.Operands.{Short, Long, plain, ofs, r, r_r, mode, mode_l, content, content_l}
use uwasm_vm.Isa.Operands.{Fits, FitsLong, place, place_l}

-- The word that Init_inst32 and Init_inst64 make of `y`, which holds the opcode and the type.
abbrev pack : Short → ℕ → ℕ
pack plain y = y
pack (ofs o) y = set_field 10 22 o y
pack (r a) y = set_field 22 10 a y
pack (Short.r_imm a i) y = set_field 22 10 i (set_field 10 10 a y)
pack (Short.r_ofs a o) y = set_field 22 10 o (set_field 10 10 a y)
pack (r_r a b) y = set_field 22 10 b (set_field 10 10 a y)
pack (Short.r_r_imm a b i) y = set_field 24 8 i (set_field 17 7 b (set_field 10 7 a y))
pack (Short.r_r_ofs a b o) y = set_field 24 8 o (set_field 17 7 b (set_field 10 7 a y))
pack (Short.r_r_r a b c) y = set_field 25 7 c (set_field 17 7 b (set_field 10 7 a y))

abbrev pack_l : Long → ℕ → ℕ
pack_l (Long.r_imm a i) y = set_field 32 32 i (set_field 10 10 a y)
pack_l (Long.r_ofs a o) y = set_field 32 32 o (set_field 10 10 a y)
pack_l (Long.r_r_imm a b i) y = set_field 32 22 i (set_field 54 10 b (set_field 10 10 a y))
pack_l (Long.r_r_ofs a b o) y = set_field 32 22 o (set_field 54 10 b (set_field 10 10 a y))
pack_l (Long.r_r_r a b c) y = set_field 54 10 c (set_field 44 10 b (set_field 34 10 a y))

init-pack :
    (o : Short) (x op : ℕ) (v : Valty)
    → Fits o
    → init_inst32 x (mode o) op v (content o) ≡ ok (pack o (init_head x op v))
unfolding init_inst32
init-pack plain x op v h = refl
init-pack (ofs o) x op v h = rw (check_imm_22 o (inl h))
init-pack (r a) x op v h = rw (check_reg-ok 1024 a (omega arith))
init-pack (Short.r_imm a i) x op v (ha, hi) =
    rw (check_reg-ok 1024 a (omega arith), check_imm_22 i (inr (omega arith)))
init-pack (Short.r_ofs a o) x op v (ha, ho) =
    rw (check_reg-ok 1024 a (omega arith), check_imm_22 o (inr (omega arith)))
init-pack (r_r a b) x op v (ha, hb) =
    rw (check_reg-ok 1024 a (omega arith), check_reg-ok 1024 b (omega arith))
init-pack (Short.r_r_imm a b i) x op v (ha, hb, hi) =
    rw (check_reg-ok 128 a (omega arith), check_reg-ok 128 b (omega arith), check_imm_8 i (inr hi))
init-pack (Short.r_r_ofs a b o) x op v (ha, hb, ho) =
    rw (check_reg-ok 128 a (omega arith), check_reg-ok 128 b (omega arith), check_imm_8 o (inl ho))
init-pack (Short.r_r_r a b c) x op v (ha, hb, hc) = rw (
  check_reg-ok 128 a (omega arith),
  check_reg-ok 128 b (omega arith),
  check_reg-ok 128 c (omega arith),
)

-- Reading the fields back.
expand_fields32-pack :
    (o : Short) (x op : ℕ) (v : Valty) (e : AmExpand)
    → Fits o
    → expand_fields32 (mode o) (pack o (init_head x op v)) e ≡ ok (place o e)
unfolding expand_fields32
expand_fields32-pack plain x op v e h = refl
expand_fields32-pack (ofs o) x op v e h = ground arith
expand_fields32-pack (r a) x op v e h = ground arith
expand_fields32-pack (Short.r_imm a i) x op v e h = ground arith
expand_fields32-pack (Short.r_ofs a o) x op v e h = ground arith
expand_fields32-pack (r_r a b) x op v e h = ground arith
expand_fields32-pack (Short.r_r_imm a b i) x op v e h = ground arith
expand_fields32-pack (Short.r_r_ofs a b o) x op v e h = ground arith
expand_fields32-pack (Short.r_r_r a b c) x op v e h = ground arith

init-pack_l :
    (o : Long) (x op : ℕ) (v : Valty)
    → FitsLong o
    → init_inst64 x (mode_l o) op v (content_l o) ≡ ok (pack_l o (init_head x op v))
unfolding init_inst64
init-pack_l (Long.r_imm a i) x op v (ha, hi) =
    rw (check_reg-ok 1024 a (omega arith), check_imm_32 i hi)
init-pack_l (Long.r_ofs a o) x op v (ha, ho) =
    rw (check_reg-ok 1024 a (omega arith), check_imm_32 o ho)
init-pack_l (Long.r_r_imm a b i) x op v (ha, hb, hi) =
    rw (
      check_reg-ok 1024 a (omega arith),
      check_reg-ok 1024 b (omega arith),
      check_imm_22 i (inr hi),
    )
init-pack_l (Long.r_r_ofs a b o) x op v (ha, hb, ho) =
    rw (
      check_reg-ok 1024 a (omega arith),
      check_reg-ok 1024 b (omega arith),
      check_imm_22 o (inl ho),
    )
init-pack_l (Long.r_r_r a b c) x op v (ha, hb, hc) = rw (
  check_reg-ok 1024 a (omega arith),
  check_reg-ok 1024 b (omega arith),
  check_reg-ok 1024 c (omega arith),
)

expand_fields64-pack :
    (o : Long) (x op : ℕ) (v : Valty) (e : AmExpand)
    → FitsLong o
    → expand_fields64 (mode_l o) (pack_l o (init_head x op v)) e ≡ ok (place_l o e)
unfolding expand_fields64
expand_fields64-pack (Long.r_imm a i) x op v e h = ground arith
expand_fields64-pack (Long.r_ofs a o) x op v e h = ground arith
expand_fields64-pack (Long.r_r_imm a b i) x op v e h = ground arith
expand_fields64-pack (Long.r_r_ofs a b o) x op v e h = ground arith
expand_fields64-pack (Long.r_r_r a b c) x op v e h = ground arith

-- The operand fields leave the opcode and the type field alone.
abbrev SameHead : ℕ → ℕ → Type 0
SameHead x y = (opcode x ≡ opcode y) × (ty x ≡ ty y)

pack-SameHead : (o : Short) (y : ℕ) → SameHead (pack o y) y
pack-SameHead plain y = (refl, refl)
pack-SameHead (ofs o) y = omega arith
pack-SameHead (r a) y = omega arith
pack-SameHead (Short.r_imm a i) y = omega arith
pack-SameHead (Short.r_ofs a o) y = omega arith
pack-SameHead (r_r a b) y = omega arith
pack-SameHead (Short.r_r_imm a b i) y = omega arith
pack-SameHead (Short.r_r_ofs a b o) y = omega arith
pack-SameHead (Short.r_r_r a b c) y = omega arith

pack_l-SameHead : (o : Long) (y : ℕ) → SameHead (pack_l o y) y
pack_l-SameHead (Long.r_imm a i) y = omega arith
pack_l-SameHead (Long.r_ofs a o) y = omega arith
pack_l-SameHead (Long.r_r_imm a b i) y = omega arith
pack_l-SameHead (Long.r_r_ofs a b o) y = omega arith
pack_l-SameHead (Long.r_r_r a b c) y = omega arith

-- The entry whose opcode is set, before its operands are.
abbrev pub with_opcode : ℕ → Valty → AmExpand → AmExpand
with_opcode op v e = record e { opcode_l = opcode_to_opcode_l op (valty_code v) }

-- The encoder starts from 0, and a long word keeps within 64 bits.
pack_l-lt : (o : Long) (op : ℕ) (v : Valty) → pack_l o (init_head 0 op v) < 2 ^ 64
pack_l-lt (Long.r_imm a i) op v = omega arith
pack_l-lt (Long.r_ofs a o) op v = omega arith
pack_l-lt (Long.r_r_imm a b i) op v = omega arith
pack_l-lt (Long.r_r_ofs a b o) op v = omega arith
pack_l-lt (Long.r_r_r a b c) op v = omega arith

module _ (x op : ℕ) (v : Valty) (e : AmExpand) where
  head : ℕ
  head = init_head x op v

  -- Where Init_inst32 is given an opcode of the list with its address mode, and operands that the
  -- layout's fields hold, it succeeds whatever the word held before, and bits 0 to 7 are the
  -- opcode, and Expand_code finds the opcode, the value type and each operand in the word again.
  pub expand-init_inst32 :
      (o : Short)
      → ty_am_of op ≡ some (mode o)
      → Fits o
      → (w : ℕ) × (init_inst32 x (mode o) op v (content o) ≡ ok w)
        × (opcode w ≡ op)
        × (expand_inst32 w e ≡ ok (place o (with_opcode op v e)))
  unfolding head
  expand-init_inst32 o known fits =
      let (same_op, same_ty) = pack-SameHead o head in
      let (is_op, is_ty) = init_head_fields x op v in
      let byte : op % 256 ≡ op = omega (arith, ty_am_of-lt op known) in
      (
        pack o head,
        init-pack o x op v fits,
        same_op ∙ is_op ∙ byte,
        expand_inst32-eq (pack o head) op (valty_code v) (mode o) e (same_op ∙ is_op ∙ byte)
              (same_ty ∙ is_ty) known
            ∙ expand_fields32-pack o x op v (with_opcode op v e) fits,
      )

  packs_l :
      (o : Long)
      → ty_am_of op ≡ some (mode_l o)
      → FitsLong o
      → (w : ℕ) × (init_inst64 x (mode_l o) op v (content_l o) ≡ ok w)
        × (opcode w ≡ op)
        × (expand_inst64 w e ≡ ok (place_l o (with_opcode op v e)))
  unfolding head
  packs_l o known fits =
      let (same_op, same_ty) = pack_l-SameHead o head in
      let (is_op, is_ty) = init_head_fields x op v in
      let byte : op % 256 ≡ op = omega (arith, ty_am_of-lt op known) in
      (
        pack_l o head,
        init-pack_l o x op v fits,
        same_op ∙ is_op ∙ byte,
        expand_inst64-eq (pack_l o head) op (valty_code v) (mode_l o) e (same_op ∙ is_op ∙ byte)
              (same_ty ∙ is_ty) known
            ∙ expand_fields64-pack o x op v (with_opcode op v e) fits,
      )

  -- Where Init_inst64 is given an opcode of the list with its address mode, and operands that the
  -- layout's fields hold, it succeeds whatever the word held before, and bits 0 to 7 are the
  -- opcode, and Expand_code finds the opcode, the value type and each operand in the word again.
  pub expand-init_inst64 :
      (o : Long)
      → ty_am_of op ≡ some (mode_l o)
      → FitsLong o
      → (w : ℕ) × (init_inst64 x (mode_l o) op v (content_l o) ≡ ok w)
        × (opcode w ≡ op)
        × (expand_inst64 w e ≡ ok (place_l o (with_opcode op v e)))
  expand-init_inst64 o known fits = packs_l o known fits

-- A long word made from 0, with the bound that its two halves need.
pub expand-init_inst64_0 :
    (op : ℕ) (v : Valty) (e : AmExpand) (o : Long)
    → ty_am_of op ≡ some (mode_l o)
    → FitsLong o
    → (w : ℕ) × (init_inst64 0 (mode_l o) op v (content_l o) ≡ ok w)
      × (opcode w ≡ op)
      × (expand_inst64 w e ≡ ok (place_l o (with_opcode op v e)))
      × (w < 2 ^ 64)
unfolding packs_l head
expand-init_inst64_0 op v e o known fits =
    let (w, made, code, expanded) = packs_l 0 op v e o known fits in
    (w, made, code, expanded, pack_l-lt o op v)
