-- ===== src/Types/RoundTrip.antt =====
-- A type with 14 results and parameters or more, read back from its string
-- (src/encoder/u_type_encoder.cxx, src/ubh/u_module.cxx).
use uwasm_vm.Base.{ℕ, zero, suc, ◌+◌, ◌-◌, ◌*◌, ◌/◌, ◌%◌, ◌^◌, ◌<◌, ◌≤◌, ◌≡◌, refl, ap, ◌∙◌, arith}
use uwasm_vm.Base.{true, ltb, leb, lt→ltb, List, [], ◌∷◌, ◌++◌, length, All}
use uwasm_vm.Base.{
  get_elem?, replicate, length-replicate, get_elem?-append, lt_of_get_elem?, some-injective,
  eq_some_of_map,
}
use uwasm_vm.Base.{some, ok, ◌>>=◌}
use native.Mathlib.Nat.{zero-div}
use uwasm_vm.StrTab.Order.{IsByte}
use uwasm_vm.Types.Encode.{or_byte, or_rets, or_params, long_form, byte_num}
use uwasm_vm.Types.Decode.{long_rets, long_params, decode_long}
use uwasm_vm.Types.Slots.{read}
use uwasm_vm.Types.LongForm.{slot, Holds, Clear, or_params-Filled}

-- Up to four results are written and read as parameters would be.
or_rets-or_params :
    (vs : List ℕ) (i : ℕ) (buf : List ℕ) → i + length vs ≤ 4 → or_rets i vs buf ≡ or_params i vs buf
unfolding or_rets or_params
or_rets-or_params [] i buf few = refl
or_rets-or_params (v ∷ vs) i buf few =
    let inside : ltb i 4 ≡ true = lt→ltb i 4 (omega arith) in
    let byte : 2 + i / 4 ≡ 2 = omega arith in
    let place : i % 4 ≡ i = omega arith in
    rw (inside, byte, place)
      (ap (λ f. or_byte buf 2 (v % 4 * 2 ^ (8 - (i + 1) * 2)) >>= f)
        (λ k next. or_rets-or_params vs (i + 1) next (omega arith) k))

long_rets-long_params :
    (nn_str : List ℕ) (n j : ℕ) → j + n ≤ 4 → long_rets nn_str j n ≡ long_params nn_str j n
unfolding long_rets long_params
long_rets-long_params nn_str zero j few = refl
long_rets-long_params nn_str (suc n) j few =
    let inside : leb ((j + 1) * 2) 8 ≡ true = ground arith in
    let byte : j / 4 ≡ 0 = omega arith in
    let place : j % 4 ≡ j = omega arith in
    rw (inside, byte, place, long_rets-long_params nn_str n (j + 1) (omega arith)) refl

long_params-Holds :
    (t more vs : List ℕ) (i : ℕ) → Holds t i vs → long_params (t ++ more) i (length vs) ≡ ok vs
unfolding long_params
long_params-Holds t more [] i holds = refl
long_params-Holds t more (v ∷ vs) i (here, rest) =
    let (b, at_b) = eq_some_of_map (λ b. read b (i % 4)) (get_elem? t (i / 4)) here in
    let value : read b (i % 4) ≡ v = some-injective (rw at_b at here) in
    let inside = lt_of_get_elem? t (i / 4) at_b in
    rw
      (
        get_elem?-append t more (i / 4) inside,
        at_b,
        long_params-Holds t more vs (i + 1) rest,
        value,
      )
      refl

-- Slots that agree hold the same values.
Holds-agree :
    (t t' vs : List ℕ) (i limit : ℕ)
    → i + length vs ≤ limit
    → ((j : ℕ) → j < limit → slot t' j ≡ slot t j)
    → Holds t i vs
    → Holds t' i vs
Holds-agree t t' [] i limit below same holds = tt
Holds-agree t t' (v ∷ vs) i limit below same (here, rest) =
    (same i (omega arith) ∙ here, Holds-agree t t' vs (i + 1) limit (omega arith) same rest)

abbrev zeros : ℕ → List ℕ
zeros n = replicate n 0

replicate-bytes : (n : ℕ) → All IsByte (zeros n)
replicate-bytes zero = tt
replicate-bytes (suc n) = (omega arith, replicate-bytes n)

replicate-get : (n k : ℕ) → k < n → get_elem? (zeros n) k ≡ some 0
replicate-get zero k h = absurd (omega arith)
replicate-get (suc n) zero h = refl
replicate-get (suc n) (suc k) h = replicate-get n k (omega arith)

replicate-Clear : (n : ℕ) → Clear (zeros n) 0
replicate-Clear n j h inside =
    rw (replicate-get n (j / 4) (omega (arith, length-replicate {A = ℕ} n 0)))
      (ap some (nothing (j % 4)))
  where
    nothing : (o : ℕ) → read 0 o ≡ 0
    nothing o = rw (zero-div (2 ^ (8 - (o + 1) * 2))) refl

pub decode_long-long_form :
    (rets params : List ℕ)
    → length rets ≤ 4
    → length rets + length params < 255
    → All (λ v. v < 4) rets
    → All (λ v. v < 4) params
    → (buf : List ℕ) × (long_form rets params ≡ ok buf)
      × All IsByte buf
      × (length buf ≡ 2 + byte_num (length rets + length params))
      × ((more : List ℕ)
          → decode_long (length rets) (buf ++ more) ≡ ok (record { rets = rets; params = params }))
unfolding long_form decode_long
decode_long-long_form rets params few total ret_valtys param_valtys =
    let n : ℕ = length params in
    let size : ℕ = byte_num (length rets + n) in
    let room : length rets + n ≤ 4 * size = ground arith in
    let lo : ℕ = n % 256 in
    let hi : ℕ = n / 256 % 256 in
    let first =
      or_params-Filled lo hi rets 0 (zeros size) (replicate-bytes size) ret_valtys
        (replicate-Clear size) (omega (arith, length-replicate {A = ℕ} size 0)) in
    let second =
      or_params-Filled lo hi params (length rets) first.tail first.bytes param_valtys
        (λ j h inside. first.clear j (omega arith) inside)
        (omega (arith, length-replicate {A = ℕ} size 0, first.size)) in
    let buf : List ℕ = lo ∷ hi ∷ second.tail in
    let rets_kept =
      Holds-agree first.tail second.tail rets 0 (length rets) (omega arith) second.keeps
        first.holds in
    let number : (lo + hi * 256) % 256 ≡ n = omega arith in
    (
      buf,
      rw (or_rets-or_params rets 0 (lo ∷ hi ∷ zeros size) (omega arith), first.runs) second.runs,
      (omega arith, (omega arith, second.bytes)),
      omega (arith, second.size, first.size, length-replicate {A = ℕ} size 0),
      λ more.
          rw
            (
              number,
              long_rets-long_params (second.tail ++ more) (length rets) 0 (omega arith),
              long_params-Holds second.tail more rets 0 rets_kept,
              long_params-Holds second.tail more params (length rets) second.holds,
            )
            refl,
    )
