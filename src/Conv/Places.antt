-- ===== src/Conv/Places.antt =====
-- The register of each parameter and local of a function (Create_ubh_code of src/wasm/converter.cxx):
-- one behind another by type.
use uwasm_vm.Base.{
  ℕ, zero, suc, ◌+◌, ◌≡◌, ◌<◌, ◌≤◌, arith, true, List, [], ◌∷◌, ◌++◌, length, get_elem?,
  lt_of_get_elem?, take, some-injective, leb, some, none, Bool-cases, inl, inr, if◌then◌else◌,
}
use uwasm_vm.Isa.Opcode.{Valty}
use uwasm_vm.Conv.State.{same_valty}
use uwasm_vm.Conv.Registers.{Layout, IsApart, same_valty_refl}

-- How many of the types are `v`.
abbrev pub count : Valty → List Valty → ℕ
count v [] = 0
count v (w ∷ ws) = let rest = count v ws in if same_valty w v then suc rest else rest

pub count-append : (v : Valty) (xs ys : List Valty) → count v (xs ++ ys) ≡ count v xs + count v ys
count-append v [] ys = omega arith
count-append v (w ∷ ws) ys = ground (arith, count-append v ws ys)

-- One of the type stands behind those of the type before it.
pub count-take :
    (v : Valty) (tys : List Valty) (i : ℕ)
    → get_elem? tys i ≡ some v
    → count v (take i tys) < count v tys
count-take v [] i is = absurd (cc)
count-take v (w ∷ ws) zero is =
    let same : same_valty w v ≡ true = rw (some-injective is) (same_valty_refl v) in
    rw same (omega arith)
count-take v (w ∷ ws) (suc i) is = ground (arith, count-take v ws i is)

-- Two of the type have different ones before them.
count-take_lt :
    (v : Valty) (tys : List Valty) (i j : ℕ)
    → get_elem? tys i ≡ some v
    → i < j
    → j ≤ length tys
    → count v (take i tys) < count v (take j tys)
count-take_lt v [] i j is lt le = absurd (cc)
count-take_lt v (w ∷ ws) i zero is lt le = absurd (omega arith)
count-take_lt v (w ∷ ws) zero (suc j) is lt le =
    let same : same_valty w v ≡ true = rw (some-injective is) (same_valty_refl v) in
    rw same (omega arith)
count-take_lt v (w ∷ ws) (suc i) (suc j) is lt le =
    ground (arith, count-take_lt v ws i j is (omega arith) (omega arith))

-- Every local has the register behind the return registers and the locals of its type before it.
abbrev pub layout_of : ℕ → List Valty → Layout
layout_of ret tys = record {
  locals = tys;
  loc = λ i. elim (get_elem? tys i) [ some v ↦ ret + count v (take i tys) | none ↦ 0 ];
  base = λ v. ret + count v tys;
}

pub loc_lem :
    (ret : ℕ) (tys : List Valty) (i : ℕ) (v : Valty)
    → get_elem? tys i ≡ some v
    → (layout_of ret tys).loc i ≡ ret + count v (take i tys)
loc_lem ret tys i v is = cc

pub layout_of-IsApart : (ret : ℕ) (tys : List Valty) → IsApart (layout_of ret tys)
layout_of-IsApart ret tys = record {
  below = λ i v is. omega (arith, loc_lem ret tys i v is, count-take v tys i is);
  apart = λ i j v is isj e.
      let same : count v (take i tys) ≡ count v (take j tys) =
        omega (arith, loc_lem ret tys i v is, loc_lem ret tys j v isj, e) in
      elim (Bool-cases (leb i j)) [
        | inl le ↦ elim (Bool-cases (leb j i)) [
          | inl ge ↦ ground arith
          | inr gt ↦ absurd (
              omega (
                arith,
                same,
                count-take_lt v tys i j is (ground arith)
                    (omega (arith, lt_of_get_elem? tys j isj)),
              ))
        ]
        | inr gt ↦ absurd (
            omega (
              arith,
              same,
              count-take_lt v tys j i isj (ground arith) (omega (arith, lt_of_get_elem? tys i is)),
            ))
      ];
}
