-- ===== src/Types/LongForm.antt =====
-- The long form of a type, written by Add_type (src/encoder/u_type_encoder.cxx) and read by
-- Decode_type_and_cache (src/ubh/u_module.cxx): its bytes after the first two are a row of slots of
-- two bits.
use uwasm_vm.Base.{
  ℕ, suc, ◌+◌, ◌-◌, ◌*◌, ◌/◌, ◌%◌, ◌^◌, ◌<◌, ◌≤◌, ◌≡◌, ◌≢◌, refl, sym, ap, ◌∙◌, arith, inl, inr,
}
use uwasm_vm.Base.{true, false, Bool-cases, ◌==◌, ==_iff, if◌then◌else◌, List, [], ◌∷◌, length, All}
use uwasm_vm.Base.{
  get_elem?, set, length-set, get_elem?-set_self, get_elem?-set_ne, some_of_lt, get_elem?-All,
  set-All,
}
use uwasm_vm.Base.{Bool, some-injective, Option, some, ok}
use mathlib.Core.Option
use uwasm_vm.StrTab.Order.{IsByte}
use uwasm_vm.Types.Encode.{or_byte, or_params}
use uwasm_vm.Types.Slots.{read, write, read-write}

abbrev pub slot : List ℕ → ℕ → Option ℕ
slot t j = Option.map (λ b. read b (j % 4)) (get_elem? t (j / 4))

-- The slots from `j` on hold the values.
abbrev pub Holds : List ℕ → ℕ → List ℕ → Type 0
Holds t j [] = Unit
Holds t j (v ∷ vs) = (slot t j ≡ some v) × Holds t (j + 1) vs

abbrev pub Clear : List ℕ → ℕ → Type 0
Clear t i = (j : ℕ) → i ≤ j → j / 4 < length t → slot t j ≡ some 0

-- One value is written to a clear slot.
module _ (t : List ℕ) (i v b : ℕ) (bytes : All IsByte t) (hv : v < 4)
    (here : get_elem? t (i / 4) ≡ some b) (clear : slot t i ≡ some 0)
    (inside : i / 4 < length t) where
  abbrev written : List ℕ
  written = set t (i / 4) (write b (i % 4) v)

  b_byte : b < 256
  b_byte = get_elem?-All IsByte t (i / 4) bytes here

  b_clear : read b (i % 4) ≡ 0
  b_clear = some-injective (ap (Option.map (λ x. read x (i % 4))) (sym here) ∙ clear)

  slot_same :
      (j : ℕ) → j / 4 ≡ i / 4 → slot written j ≡ some (if j % 4 == i % 4 then v else read b (j % 4))
  slot_same j same =
      rw (same, get_elem?-set_self t (i / 4) (write b (i % 4) v) inside)
        (ap some (read-write b (i % 4) v (j % 4) b_byte (omega arith) hv (omega arith) b_clear))

  slot-written : (j : ℕ) → slot written j ≡ (if j == i then some v else slot t j)
  slot-written j = elim (Bool-cases (j / 4 == i / 4)) [
    | inl same ↦
        let same_byte : j / 4 ≡ i / 4 = (==_iff (j / 4) (i / 4)).0 same in
        slot_same j same_byte
        ∙ rw (same_byte, here)
            (push_some (j % 4 == i % 4) (j == i) v (read b (j % 4)) (ground arith))
    | inr differ ↦
        let other : (j == i) ≡ false = ground arith in
        let apart : i / 4 ≢ j / 4 =
          λ e. true-ne-false (sym ((==_iff (j / 4) (i / 4)).1 (sym e)) ∙ differ) in
        rw (other, get_elem?-set_ne t (i / 4) (j / 4) (write b (i % 4) v) apart) refl
  ]
    where
      push_some :
          (x y : Bool) (v w : ℕ)
          → x ≡ y
          → some (if x then v else w) ≡ (if y then some v else some w)
      push_some true y v w e = rw⁻¹ e refl
      push_some false y v w e = rw⁻¹ e refl

      true-ne-false : true ≢ false
      true-ne-false e = cc

  written_bytes : All IsByte written
  written_bytes = set-All IsByte t (i / 4) (write b (i % 4) v) (omega arith) bytes

  or_byte-written :
      (lo hi : ℕ)
      → or_byte (lo ∷ hi ∷ t) (2 + i / 4) (v % 4 * 2 ^ (8 - (i % 4 + 1) * 2))
        ≡ ok (lo ∷ hi ∷ written)
  or_byte-written lo hi =
      let after_two : 2 + i / 4 ≡ suc (suc (i / 4)) = omega arith in rw (after_two, here) refl

-- What the loop over the parameters leaves.
pub record Filled (lo hi : ℕ) (t : List ℕ) (i : ℕ) (vs : List ℕ) : Type 0 where
  pub tail : List ℕ
  pub runs : or_params i vs (lo ∷ hi ∷ t) ≡ ok (lo ∷ hi ∷ tail)
  pub bytes : All IsByte tail
  pub size : length tail ≡ length t
  pub holds : Holds tail i vs
  pub keeps : (j : ℕ) → j < i → slot tail j ≡ slot t j
  pub clear : Clear tail (i + length vs)

pub or_params-Filled :
    (lo hi : ℕ) (vs : List ℕ) (i : ℕ) (t : List ℕ)
    → All IsByte t
    → All (λ v. v < 4) vs
    → Clear t i
    → i + length vs ≤ 4 * length t
    → Filled lo hi t i vs
unfolding or_params
or_params-Filled lo hi [] i t bytes small clear room = record {
  tail = t;
  runs = refl;
  bytes = bytes;
  size = refl;
  holds = tt;
  keeps = λ j h. refl;
  clear = λ j h inside. clear j (omega arith) inside;
}
or_params-Filled lo hi (v ∷ vs) i t bytes (first, small) clear room =
    let inside : i / 4 < length t = omega arith in
    let (b, here) = some_of_lt t (i / 4) inside in
    let at_i = clear i (omega arith) inside in
    let t1 : List ℕ = written t i v b bytes first here at_i inside in
    let slots : (j : ℕ) → slot t1 j ≡ (if j == i then some v else slot t j) =
      slot-written t i v b bytes first here at_i inside in
    let size1 : length t1 ≡ length t = length-set t (i / 4) (write b (i % 4) v) in
    let clear1 : Clear t1 (i + 1) = λ j h within.
      let other : (j == i) ≡ false = ground arith in
      slots j ∙ rw other (clear j (omega arith) (omega (arith, size1))) in
    let rest =
      or_params-Filled lo hi vs (i + 1) t1 (written_bytes t i v b bytes first here at_i inside)
        small clear1 (omega (arith, size1)) in
    let self : (i == i) ≡ true = (==_iff i i).1 refl in
    record {
      tail = rest.tail;
      runs = rw (or_byte-written t i v b bytes first here at_i inside lo hi) rest.runs;
      bytes = rest.bytes;
      size = rest.size ∙ size1;
      holds = (rest.keeps i (omega arith) ∙ slots i ∙ rw self refl, rest.holds);
      keeps = λ j h.
          let other : (j == i) ≡ false = ground arith in
          rest.keeps j (omega arith) ∙ slots j ∙ rw other refl;
      clear = λ j h within. rest.clear j (omega arith) within;
    }
