-- ===== src/Types/Decode.antt =====
-- The part of Decode_type_and_cache that reads types (src/ubh/u_module.cxx), and Get_non_null_str
-- (include/ubh/u_module.h).
use uwasm_vm.Base.{ℕ, zero, suc, ◌+◌, ◌-◌, ◌*◌, ◌/◌, ◌%◌, ◌^◌, leb, if◌then◌else◌}
use uwasm_vm.Base.{List, [], ◌∷◌, get_elem?, drop, Result, ok, ◌>>◌, ◌>>=◌, defined_if, in_bounds}
use uwasm_vm.Types.Encode.{UbhType, is_stored_local}

-- What goes to _ret_tab and _param_tab for one type.
pub record Signature : Type 0 where
  pub rets : List ℕ
  pub params : List ℕ

-- `n` types of the element from position `j` on; a negative count of a shift is undefined.
unfoldable pub local_types : ℕ → ℕ → ℕ → Result (List ℕ)
local_types elem j zero = ok []
local_types elem j (suc n) = do
  defined_if (leb ((j + 1) * 2) 26)
  rest ← local_types elem (j + 1) n
  ok (elem / 2 ^ (26 - (j + 1) * 2) % 4 ∷ rest)

-- The results in the long form, all in one byte.
unfoldable pub long_rets : List ℕ → ℕ → ℕ → Result (List ℕ)
long_rets nn_str j zero = ok []
long_rets nn_str j (suc n) = do
  b ← in_bounds (get_elem? nn_str 0)
  defined_if (leb ((j + 1) * 2) 8)
  rest ← long_rets nn_str (j + 1) n
  ok (b / 2 ^ (8 - (j + 1) * 2) % 4 ∷ rest)

unfoldable pub long_params : List ℕ → ℕ → ℕ → Result (List ℕ)
long_params nn_str j zero = ok []
long_params nn_str j (suc n) = do
  b ← in_bounds (get_elem? nn_str (j / 4))
  rest ← long_params nn_str (j + 1) n
  ok (b / 2 ^ (8 - (j % 4 + 1) * 2) % 4 ∷ rest)

-- The string at `nn_str`; the number of parameters is kept in a UINT8.
unfoldable pub decode_long : ℕ → List ℕ → Result Signature
unfolding long_rets long_params
decode_long ret_num nn_str = do
  low ← in_bounds (get_elem? nn_str 0)
  high ← in_bounds (get_elem? nn_str 1)
  let param_num = (low + high * 256) % 256
  rets ← long_rets (drop 2 nn_str) 0 ret_num
  params ← long_params (drop 2 nn_str) ret_num param_num
  ok (record { rets = rets; params = params })

-- `nn_sec` is the section of the strings that are not terminated by 0.
unfoldable pub decode_type : List ℕ → UbhType → Result Signature
unfolding local_types decode_long
decode_type nn_sec t =
    if is_stored_local t
    then (do
      rets ← local_types t.elem 0 t.ret_num
      params ← local_types t.elem t.ret_num t.param_num
      ok (record { rets = rets; params = params }))
    else decode_long t.ret_num (drop t.elem nn_sec)
