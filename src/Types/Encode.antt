-- ===== src/Types/Encode.antt =====
-- U_TYPE_ENCODER::Add_type and Type_to_number (src/encoder/u_type_encoder.cxx,
-- src/encoder/u_encoder.cxx), and UBH_TYPE (include/ubh/ubh.h). A type is a list of VALTYPE codes for
-- the results and one for the parameters.
use uwasm_vm.Base.{ℕ, ◌+◌, ◌-◌, ◌*◌, ◌/◌, ◌%◌, ◌^◌, Bool, true, not, ◌&&◌, ltb, ◌==◌, if◌then◌else◌}
use uwasm_vm.Base.{
  bit_or, List, [], ◌∷◌, ◌++◌, length, get_elem?, set, replicate, Option, some, none,
}
use uwasm_vm.Base.{Result, ok, ◌>>◌, ◌>>=◌, is_true, defined_if, in_bounds}
use uwasm_vm.StrTab.Table
use uwasm_vm.StrTab.Table.{StrTab}

-- The bit fields of UBH_TYPE: 2, 4 and 26 bits.
pub record UbhType : Type 0 where
  pub ret_num : ℕ
  pub param_num : ℕ
  pub elem : ℕ

abbrev pub ubh_type : ℕ → ℕ → ℕ → UbhType
ubh_type ret_num param_num elem = record {
  ret_num = ret_num % 2 ^ 2;
  param_num = param_num % 2 ^ 4;
  elem = elem % 2 ^ 26;
}

abbrev pub is_stored_local : UbhType → Bool
is_stored_local t = not (t.param_num == 15)

-- UBH_TYPE::operator==.
abbrev pub same_type : UbhType → UbhType → Bool
same_type a b = (a.ret_num == b.ret_num) && (a.param_num == b.param_num) && (a.elem == b.elem)

-- The two loops of Type_to_number, from position `i` on. Fewer than 14 types are given, so that no
-- count of a shift is negative.
unfoldable pub or_types : ℕ → List ℕ → ℕ → ℕ
or_types i [] elem = elem
or_types i (v ∷ vs) elem = or_types (i + 1) vs (bit_or elem (v % 4 * 2 ^ (2 * (12 - i))))

unfoldable pub type_to_number : List ℕ → List ℕ → ℕ
unfolding or_types
type_to_number ret_type_list param_type_list =
    or_types (length ret_type_list) param_type_list (or_types 0 ret_type_list 0)

-- `buf[k] |= x`, which keeps a byte.
abbrev pub or_byte : List ℕ → ℕ → ℕ → Result (List ℕ)
or_byte buf k x = in_bounds (get_elem? buf k) >>= λ old. ok (set buf k (bit_or old x % 256))

-- The loop over the results, which are all written to one byte: a fifth one is shifted by a negative
-- count.
unfoldable pub or_rets : ℕ → List ℕ → List ℕ → Result (List ℕ)
or_rets i [] buf = ok buf
or_rets i (v ∷ vs) buf = do
  defined_if (ltb i 4)
  next ← or_byte buf 2 (v % 4 * 2 ^ (8 - (i + 1) * 2))
  or_rets (i + 1) vs next

unfoldable pub or_params : ℕ → List ℕ → List ℕ → Result (List ℕ)
or_params i [] buf = ok buf
or_params i (v ∷ vs) buf = do
  next ← or_byte buf (2 + i / 4) (v % 4 * 2 ^ (8 - (i % 4 + 1) * 2))
  or_params (i + 1) vs next

-- The bytes that hold 2 bits for each of `n` types.
abbrev pub byte_num : ℕ → ℕ
byte_num n = n * 2 / 8 + (if n * 2 % 8 == 0 then 0 else 1)

-- The string of a type with 14 results and parameters or more: the number of parameters in two
-- bytes, and the types.
unfoldable pub long_form : List ℕ → List ℕ → Result (List ℕ)
unfolding or_rets or_params
long_form ret_type_list param_type_list = do
  let n = length param_type_list
  let ret_num = length ret_type_list
  let buf = n % 256 ∷ n / 256 % 256 ∷ replicate (byte_num (ret_num + n)) 0
  rets ← or_rets 0 ret_type_list buf
  or_params ret_num param_type_list rets

pub record TypeEncoder : Type 0 where
  pub type_list : List UbhType
  pub nn_tab : StrTab

pub record Added : Type 0 where
  pub encoder : TypeEncoder
  pub idx : ℕ

-- `for (i = 0; ...) if (_type_list[i] == type) return i;`
unfoldable pub find_type : ℕ → List UbhType → UbhType → Option ℕ
find_type i [] t = none
find_type i (u ∷ us) t = let rest = find_type (i + 1) us t in if same_type u t then some i else rest

unfoldable pub intern : TypeEncoder → UbhType → Added
unfolding find_type
intern te t = elim (find_type 0 te.type_list t) [
  | some i ↦ record { encoder = te; idx = i }
  | none ↦ record {
    encoder = record te { type_list = te.type_list ++ t ∷ [] };
    idx = length te.type_list;
  }
]

-- MAX_TYPE_ELEM_NUM.
abbrev pub max_type_elem_num : ℕ
max_type_elem_num = 14

unfoldable pub add_type : Bool → TypeEncoder → List ℕ → List ℕ → Result Added
unfolding intern type_to_number long_form Table.request Table.get_off
add_type moved te ret_type_list param_type_list =
    let ret_num = length ret_type_list in
    let param_num = length param_type_list in
    if ltb (ret_num + param_num) max_type_elem_num
    then ok (intern te (ubh_type ret_num param_num (type_to_number ret_type_list param_type_list)))
    else (do
      buf ← long_form ret_type_list param_type_list
      r ← Table.request moved te.nn_tab buf
      off ← Table.get_off r.table r.idx
      ok (intern (record te { nn_tab = r.table }) (ubh_type ret_num 0xff off)))

-- The checks of U_ENCODER::Add_type (src/encoder/u_encoder.cxx).
abbrev pub are_valtys : List ℕ → Bool
are_valtys [] = true
are_valtys (v ∷ vs) = ltb v 4 && are_valtys vs

unfoldable pub checked_add_type : Bool → TypeEncoder → List ℕ → List ℕ → Result Added
unfolding add_type
checked_add_type moved te ret_type_list param_type_list =
    is_true (ltb (length ret_type_list + length param_type_list) 255)
    >> (is_true (are_valtys ret_type_list)
        >> (is_true (are_valtys param_type_list)
            >> add_type moved te ret_type_list param_type_list))
