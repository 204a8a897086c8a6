-- ===== src/Types/ShortForm.antt =====
-- A type with fewer than 14 results and parameters, read back from its 26 bits
-- (Type_to_number, src/encoder/u_encoder.cxx, and Decode_type_and_cache, src/ubh/u_module.cxx).
use uwasm_vm.Base.{
  ℕ, zero, suc, ◌+◌, ◌-◌, ◌*◌, ◌/◌, ◌%◌, ◌^◌, ◌<◌, ◌≤◌, ◌≡◌, refl, sym, ap, ◌∙◌, arith,
}
use uwasm_vm.Base.{
  true, false, leb, bit_or, List, [], ◌∷◌, ◌++◌, length, length-append, append-All, All, ◌==◌, ok,
}
use uwasm_vm.Base.Bits.{bit_or-below}
use native.Mathlib.Nat.{
  pow-succ', one-le-pow, div-div-eq-div-mul, mul-le-mul_right, add-mul, mul_assoc, mul_comm,
  mul-lt-mul_of_pos_right, mul-div_left,
}
use uwasm_vm.Types.Encode.{or_types, type_to_number, ubh_type}
use uwasm_vm.Types.Decode.{local_types, decode_type}

-- The element once `i` types have been written, where `e` more fit: what `q` stands for, above 2 * e
-- clear bits.
abbrev placed : ℕ → ℕ → ℕ
placed q e = q * 2 ^ (2 * e)

quadruple : (e : ℕ) → 2 ^ (2 * suc e) ≡ 4 * 2 ^ (2 * e)
quadruple e =
    let twice : 2 * suc e ≡ suc (suc (2 * e)) = omega arith in
    rw (twice, pow-succ' 2 (suc (2 * e)), pow-succ' 2 (2 * e)) (omega arith)

or_one : (q v e : ℕ) → v < 4 → bit_or (placed q (suc e)) (v * 2 ^ (2 * e)) ≡ placed (q * 4 + v) e
or_one q v e small =
    let p : ℕ = 2 ^ (2 * e) in
    let some : 1 ≤ p = one-le-pow (2 * e) 2 (omega arith) in
    let most : v * p ≤ 3 * p = mul-le-mul_right p (omega arith) in
    let below : v * p < 2 ^ (2 * suc e) = omega (arith, quadruple e) in
    bit_or-below (2 * suc e) q (v * p) below ∙ together q v p (2 ^ (2 * suc e)) (quadruple e)
  where
    together : (q v p r : ℕ) → r ≡ 4 * p → q * r + v * p ≡ (q * 4 + v) * p
    together q v p r four = rw four (omega (arith, add-mul (q * 4) v p, mul_assoc q 4 p))

-- The types as digits to the base 4, after `q`.
abbrev digits : ℕ → List ℕ → ℕ
digits q [] = q
digits q (v ∷ vs) = digits (q * 4 + v) vs

or_types-digits :
    (vs : List ℕ) (i e q : ℕ)
    → i + (length vs + e) ≡ 13
    → All (λ v. v < 4) vs
    → or_types i vs (placed q (length vs + e)) ≡ placed (digits q vs) e
unfolding or_types
or_types-digits [] i e q room small = ap (placed q) (omega arith)
or_types-digits (v ∷ vs) i e q room (first, rest) =
    let code : v % 4 ≡ v = omega arith in
    let left : 12 - i ≡ length vs + e = omega arith in
    let deeper : suc (length vs) + e ≡ suc (length vs + e) = omega arith in
    rw (code, left, deeper, or_one q v (length vs + e) first)
      (or_types-digits vs (i + 1) e (q * 4 + v) (omega arith) rest)

digits-prefix : (vs : List ℕ) (q : ℕ) → All (λ v. v < 4) vs → digits q vs / 2 ^ (2 * length vs) ≡ q
digits-prefix [] q small = ground arith
digits-prefix (v ∷ vs) q (first, rest) =
    let longer : 2 ^ (2 * suc (length vs)) ≡ 2 ^ (2 * length vs) * 4 =
      omega (arith, quadruple (length vs)) in
    rw
      (
        longer,
        sym (div-div-eq-div-mul (digits (q * 4 + v) vs) (2 ^ (2 * length vs)) 4),
        digits-prefix vs (q * 4 + v) rest,
      )
      (omega arith)

split_power : (n e : ℕ) → 2 ^ (2 * (n + e)) ≡ 2 ^ (2 * e) * 2 ^ (2 * n)
split_power zero e = let none_more : zero + e ≡ e = omega arith in rw none_more (omega arith)
split_power (suc n) e =
    let deeper : suc n + e ≡ suc (n + e) = omega arith in
    rw (deeper, quadruple (n + e), quadruple n, split_power n e)
      (regroup (2 ^ (2 * e)) (2 ^ (2 * n)))
  where
    regroup : (x y : ℕ) → 4 * (x * y) ≡ x * (4 * y)
    regroup x y = omega (arith, mul_comm x (4 * y), mul_assoc 4 y x, mul_comm x y)

local_types-digits :
    (vs : List ℕ) (elem i e q : ℕ)
    → i + (length vs + e) ≡ 13
    → All (λ v. v < 4) vs
    → elem / 2 ^ (2 * e) ≡ digits q vs
    → local_types elem i (length vs) ≡ ok vs
unfolding local_types
local_types-digits [] elem i e q room small written = refl
local_types-digits (v ∷ vs) elem i e q room (first, rest) written =
    let inside : leb ((i + 1) * 2) 26 ≡ true = ground (arith, room) in
    let shift : 26 - (i + 1) * 2 ≡ 2 * (length vs + e) = omega arith in
    let above : elem / 2 ^ (2 * (length vs + e)) ≡ q * 4 + v =
      rw
        (
          split_power (length vs) e,
          sym (div-div-eq-div-mul elem (2 ^ (2 * e)) (2 ^ (2 * length vs))),
          written,
        )
        (digits-prefix vs (q * 4 + v) rest) in
    let code : (q * 4 + v) % 4 ≡ v = omega arith in
    rw
      (
        inside,
        local_types-digits vs elem (i + 1) e (q * 4 + v) (omega arith) rest written,
        shift,
        above,
        code,
      )
      refl

digits_bound :
    (vs : List ℕ) (q : ℕ) → All (λ v. v < 4) vs → digits q vs < (q + 1) * 2 ^ (2 * length vs)
digits_bound [] q small = omega arith
digits_bound (v ∷ vs) q (first, rest) =
    let fits : (q * 4 + v + 1) * 2 ^ (2 * length vs) ≤ (q + 1) * 4 * 2 ^ (2 * length vs) =
      mul-le-mul_right (2 ^ (2 * length vs)) (omega arith) in
    let shape : (q + 1) * 2 ^ (2 * suc (length vs)) ≡ (q + 1) * 4 * 2 ^ (2 * length vs) =
      rw (quadruple (length vs)) (sym (mul_assoc (q + 1) 4 (2 ^ (2 * length vs)))) in
    omega (arith, shape, fits, digits_bound vs (q * 4 + v) rest)

placed_bound : (q n e : ℕ) → q < 2 ^ (2 * n) → n + e ≡ 13 → placed q e < 2 ^ 26
placed_bound q n e below room =
    let some : 1 ≤ 2 ^ (2 * e) = one-le-pow (2 * e) 2 (omega arith) in
    let scaled : q * 2 ^ (2 * e) < 2 ^ (2 * n) * 2 ^ (2 * e) = mul-lt-mul_of_pos_right below some in
    let whole : 2 ^ (2 * n) * 2 ^ (2 * e) ≡ 2 ^ 26 =
      mul_comm (2 ^ (2 * n)) (2 ^ (2 * e)) ∙ sym (split_power n e) ∙ ap (λ d. 2 ^ (2 * d)) room in
    rw⁻¹ whole scaled

digits-append : (xs ys : List ℕ) (q : ℕ) → digits (digits q xs) ys ≡ digits q (xs ++ ys)
digits-append [] ys q = refl
digits-append (x ∷ xs) ys q = digits-append xs ys (q * 4 + x)

abbrev number : List ℕ → List ℕ → ℕ
number rets params = digits (digits 0 rets) params

module _ (rets params : List ℕ) (e : ℕ) (room : length rets + (length params + e) ≡ 13)
    (ret_valtys : All (λ v. v < 4) rets) (param_valtys : All (λ v. v < 4) params) where
  type_to_number-placed : type_to_number rets params ≡ placed (number rets params) e
  unfolding type_to_number
  type_to_number-placed =
      let nothing : 0 ≡ placed 0 (length rets + (length params + e)) = omega arith in
      ap (or_types (length rets) params) (
        ap (or_types 0 rets) nothing
        ∙ or_types-digits rets 0 (length params + e) 0 (omega (arith, room)) ret_valtys)
      ∙ or_types-digits params (length rets) e (digits 0 rets) room param_valtys

  number_bound : placed (number rets params) e < 2 ^ 26
  number_bound =
      let both : number rets params ≡ digits 0 (rets ++ params) = digits-append rets params 0 in
      let below =
        digits_bound (rets ++ params) 0
          (append-All (λ v. v < 4) rets params ret_valtys param_valtys) in
      placed_bound (number rets params) (length (rets ++ params)) e (rw both (omega (arith, below)))
        (omega (arith, length-append rets params, room))

  params_above : placed (number rets params) e / 2 ^ (2 * e) ≡ number rets params
  params_above = mul-div_left (number rets params) (one-le-pow (2 * e) 2 (omega arith))

  rets_above : placed (number rets params) e / 2 ^ (2 * (length params + e)) ≡ digits 0 rets
  rets_above =
      rw
        (
          split_power (length params) e,
          sym (
              div-div-eq-div-mul (placed (number rets params) e) (2 ^ (2 * e))
                (2 ^ (2 * length params))),
          params_above,
        )
        (digits-prefix params (digits 0 rets) param_valtys)

-- A type with at most 3 results, fewer than 14 results and parameters together, and all of them
-- among the four value types, is read back from the entry that Add_type makes for it.
pub decode_type-short :
    (nn_sec rets params : List ℕ)
    → length rets ≤ 3
    → length rets + length params < 14
    → All (λ v. v < 4) rets
    → All (λ v. v < 4) params
    → decode_type nn_sec (ubh_type (length rets) (length params) (type_to_number rets params))
      ≡ ok (record { rets = rets; params = params })
unfolding decode_type
decode_type-short nn_sec rets params few total ret_valtys param_valtys =
    let e : ℕ = 13 - (length rets + length params) in
    let room : length rets + (length params + e) ≡ 13 = omega arith in
    let elem : ℕ = placed (number rets params) e in
    let placed_eq = type_to_number-placed rets params e room ret_valtys param_valtys in
    let fits : elem % 2 ^ 26 ≡ elem =
      omega (arith, number_bound rets params e room ret_valtys param_valtys) in
    let ret_num : length rets % 4 ≡ length rets = omega arith in
    let param_num : length params % 16 ≡ length params = omega arith in
    let local : (length params == 15) ≡ false = ground arith in
    rw
      (
        placed_eq,
        fits,
        ret_num,
        param_num,
        local,
        local_types-digits rets elem 0 (length params + e) 0 (omega arith) ret_valtys
            (rets_above rets params e room ret_valtys param_valtys),
        local_types-digits params elem (length rets) e (digits 0 rets) room param_valtys
            (params_above rets params e room ret_valtys param_valtys),
      )
      refl
