-- ===== src/Isa/Limits.antt =====
-- What the checks of Init_inst32 (src/ubh/u_inst.cxx, src/ubh/u_inst.h) let through although the
-- layout has no room for it, and what the enumerators of src/ubh/u_opcode_list.def encode.
use uwasm_vm.Base.{ℕ, ◌^◌, ◌<◌, ◌≤◌, ◌≡◌, ◌≢◌, refl, arith, Bool, true, inl}
use uwasm_vm.Base.{
  all_below, all_below_sound, same, same→eq, some, none, Option, get_elem?, [], ◌∷◌, ok, ◌==◌,
  if◌then◌else◌,
}
use uwasm_vm.Isa.Opcode.{Valty, valty_code, TyAm, am32_r_imm, am32s_r_r_r}
use uwasm_vm.Isa.Table.{Entry, opcode_table, ty_am_of, ty_am_of-lt, lt_of_opcode_table}
use uwasm_vm.Isa.Word.{opcode, ty, field, sign_field, is_32bit_ty, set_field, is_32bit_opcode}
use uwasm_vm.Isa.Encode.{init_head, init_inst32}
use uwasm_vm.Isa.Checks.{check_reg-ok, check_imm_22, init_head_fields, expand_inst32-eq}
use uwasm_vm.Isa.Expand.{AmExpand, opcode_to_opcode_l, expand_fields32, expand_inst32}

-- An immediate from 2^9 to 2^22 - 1 passes the check of a short R_IMM instruction, whose field
-- has 10 signed bits: encoding succeeds, and the instruction expands to another immediate.
pub init_inst32-loses_imm :
    (x op a c : ℕ) (v : Valty) (e : AmExpand)
    → ty_am_of op ≡ some am32_r_imm
    → a ≤ 1024
    → 2 ^ 9 ≤ c
    → c < 2 ^ 22
    → (w : ℕ) × (e' : AmExpand) × (init_inst32 x am32_r_imm op v (a ∷ c ∷ []) ≡ ok w)
      × (expand_inst32 w e ≡ ok e')
      × (e'.expand3 ≢ c)
unfolding init_inst32 expand_fields32
init_inst32-loses_imm x op a c v e known ha hl hh =
    let (is_op, is_ty) = init_head_fields x op v in
    let w : ℕ = set_field 22 10 c (set_field 10 10 a (init_head x op v)) in
    let in_w : opcode w ≡ op = omega (arith, is_op, ty_am_of-lt op known) in
    let in_ty : ty w ≡ valty_code v = omega (arith, is_ty) in
    (
      w,
      record e {
        opcode_l = opcode_to_opcode_l op (valty_code v);
        expand1 = field 10 10 w;
        expand3 = sign_field 10 (field 22 10 w);
      },
      rw (check_reg-ok 1024 a ha, check_imm_22 c (inl hh)),
      expand_inst32-eq w op (valty_code v) am32_r_imm e in_w in_ty known,
      λ same. ground arith,
    )

-- Register 128 passes the check of a short R_R_R instruction, whose fields have seven bits: the
-- instruction is encoded as one on register 0.
init_inst32-register_128 :
    (x op b c : ℕ) (v : Valty)
    → b ≤ 128
    → c ≤ 128
    → init_inst32 x am32s_r_r_r op v (128 ∷ b ∷ c ∷ [])
      ≡ init_inst32 x am32s_r_r_r op v (0 ∷ b ∷ c ∷ [])
unfolding init_inst32
init_inst32-register_128 x op b c v hb hc = ground (
  arith,
  check_reg-ok 128 b hb,
  check_reg-ok 128 c hc,
  check_reg-ok 128 128 (omega arith),
  check_reg-ok 128 0 (omega arith),
)

abbrev length_agrees : ℕ → Option TyAm → Bool
length_agrees n none = true
length_agrees n (some t) = same (is_32bit_opcode n) (is_32bit_ty t)

lengths_table : all_below 195 (λ n. length_agrees n (ty_am_of n)) ≡ true
unfolding all_below ty_am_of opcode_table is_32bit_opcode is_32bit_ty
lengths_table = refl

-- The instruction iterator tells the length of an instruction by bit 7 of its opcode. For each
-- opcode of the list that is the length of the opcode's address mode.
pub is_32bit_opcode-eq_ty :
    (n : ℕ) (t : TyAm) → ty_am_of n ≡ some t → is_32bit_opcode n ≡ is_32bit_ty t
is_32bit_opcode-eq_ty n t known = same→eq _ _ (
    rw known at (
      all_below_sound 195 (λ n. length_agrees n (ty_am_of n)) n (ty_am_of-lt n known)
        lengths_table))

abbrev value_agrees : ℕ → Option Entry → Bool
value_agrees n none = true
value_agrees n (some r) = if n == 190 then r.value == 0xb1e else r.value == n

values_table : all_below 195 (λ n. value_agrees n (get_elem? opcode_table n)) ≡ true
unfolding all_below opcode_table
values_table = refl

-- Each enumerator of U_OPCODE but MAX has the value at which UWINST_TY_AM holds its row.
opcode_table-value : (n : ℕ) (r : Entry) → get_elem? opcode_table n ≡ some r → n ≢ 190 → r.value ≡ n
opcode_table-value n r found other =
    let checked : value_agrees n (some r) ≡ true = rw found at (
      all_below_sound 195 (λ n. value_agrees n (get_elem? opcode_table n)) n
        (lt_of_opcode_table n found) values_table) in
    ground arith
