-- ===== src/Tests/Strings.antt =====
-- The theorems on string tables and function types, at short strings and types.
use uwasm_vm.Base.{
  ℕ, zero, suc, ◌<◌, ◌≡◌, ◌↔◌, ◌⊎◌, arith, true, List, [], ◌∷◌, length, replicate, get_elem?, All,
  some, ok,
}
use uwasm_vm.StrTab.Order.{
  comparator, equivalent, same_bytes, value, IsByte, comparator_iff, equivalent-same_bytes,
}
use uwasm_vm.StrTab.Table.{StrTab, new_str_tab}
use uwasm_vm.StrTab.Names.{strings}
use uwasm_vm.StrTab.Refines.{IsWf}
use uwasm_vm.StrTab.Run.{
  Req, Answers, IsRequest, request_all, name_all, request_all-refines, new-IsWf,
}
use uwasm_vm.Types.Encode.{UbhType, TypeEncoder, Added, checked_add_type}
use uwasm_vm.Types.Decode.{decode_type}
use uwasm_vm.Types.Stored.{decode_type-checked_add_type}

-- "ab" and "ba", whose last bytes decide.
abbrev ab : List ℕ
ab = 97 ∷ 98 ∷ []

abbrev ba : List ℕ
ba = 98 ∷ 97 ∷ []

ab-bytes : All IsByte ab
ab-bytes = (omega arith, (omega arith, tt))

ba-bytes : All IsByte ba
ba-bytes = (omega arith, (omega arith, tt))

comparator_iff_example :
    (comparator ba ab ≡ true)
    ↔ ((length ba < length ab) ⊎ ((length ba ≡ length ab) × (value ba < value ab)))
comparator_iff_example = comparator_iff ba ab ba-bytes ab-bytes

equivalent-same_bytes_example : equivalent ab ba ≡ same_bytes ab ba
equivalent-same_bytes_example = equivalent-same_bytes ab ba ab-bytes ba-bytes

-- Three requests, the last for the first string again.
abbrev ask : List ℕ → Req
ask s = record { moved = true; buf = s }

abbrev asks : List Req
asks = ask ab ∷ ask ba ∷ ask ab ∷ []

asks-IsRequest : All IsRequest asks
asks-IsRequest = (
  record { bytes = ab-bytes; some_bytes = omega arith },
  (
    record { bytes = ba-bytes; some_bytes = omega arith },
    (record { bytes = ab-bytes; some_bytes = omega arith }, tt),
  ),
)

request_all-refines_example :
    (r : Answers StrTab) × (request_all new_str_tab asks ≡ ok r)
    × (strings r.state ≡ (name_all [] asks).state)
    × (r.idxs ≡ (name_all [] asks).idxs)
request_all-refines_example = request_all-refines asks asks-IsRequest (omega arith)

-- A function with one result.
abbrev one_ret : List ℕ
one_ret = 1 ∷ []

one_ret-valtys : All (λ v. v < 4) one_ret
one_ret-valtys = (omega arith, tt)

-- Its sixteen parameters.
abbrev many_params : List ℕ
many_params = replicate 16 2

replicate-valtys : (n : ℕ) → All (λ v. v < 4) (replicate n 2)
replicate-valtys zero = tt
replicate-valtys (suc n) = (omega arith, replicate-valtys n)

abbrev no_types : TypeEncoder
no_types = record { type_list = []; nn_tab = new_str_tab }

decode_type-checked_add_type_example :
    (a : Added) × (t : UbhType) × (checked_add_type true no_types one_ret many_params ≡ ok a)
    × (get_elem? a.encoder.type_list a.idx ≡ some t)
    × (decode_type a.encoder.nn_tab.raw_buf t
        ≡ ok (record { rets = one_ret; params = many_params }))
    × IsWf a.encoder.nn_tab
decode_type-checked_add_type_example =
    decode_type-checked_add_type true no_types one_ret many_params new-IsWf (omega arith)
      (omega arith) one_ret-valtys (replicate-valtys 16) (omega arith) (omega arith)
