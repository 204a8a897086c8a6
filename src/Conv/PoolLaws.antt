-- ===== src/Conv/PoolLaws.antt =====
-- REG_ALLOC_HELPER (src/wasm/converter.h): taking and giving back registers, in any order.
use uwasm_vm.Base.{
  ℕ, ◌≡◌, ◌<◌, ap, sym, ◌∙◌, arith, true, ◌==◌, leb, ok, err, assertion, err-ne-ok, ltb, Bool-cases,
  inl, inr,
}
use mathlib.Core.Path.{subst}
use uwasm_vm.Conv.Pool.{Pool, Taken, is_free, get_available_reg, free_register, reg_l_max}
use uwasm_vm.Conv.Forward.{taken, released}

get_available_reg-inv :
    (p : Pool) {t : Taken}
    → get_available_reg p ≡ ok t
    → (taken p ≡ t) × (is_free (p.register_state p.next_reg_id) ≡ true)
unfolding get_available_reg
get_available_reg-inv p e = elim (Bool-cases (ltb p.next_reg_id reg_l_max)) [
  | inr high ↦ absurd (cc)
  | inl low ↦ elim (Bool-cases (is_free (p.register_state p.next_reg_id))) [
    | inr used ↦ absurd (cc)
    | inl unused ↦ (cc, unused)
  ]
]

free_register-taken :
    (p : Pool)
    → p.next_reg_id < 126
    → free_register p.next_reg_id (taken p).pool ≡ ok (released p.next_reg_id (taken p).pool)
unfolding free_register
free_register-taken p small = ground arith

-- A register below 126 that is taken can be given back, and then the next one and what is free are
-- as they were.
pub free_register-get_available_reg :
    (p : Pool) (t : Taken)
    → get_available_reg p ≡ ok t
    → t.reg_id < 126
    → (q : Pool) × (free_register t.reg_id t.pool ≡ ok q)
      × (q.next_reg_id ≡ p.next_reg_id)
      × ((i : ℕ) → is_free (q.register_state i) ≡ is_free (p.register_state i))
free_register-get_available_reg p t takes small =
    let (is, unused) = get_available_reg-inv p takes in
    let low : p.next_reg_id < 126 = omega (arith, ap (λ u. u.reg_id) is) in
    (
      released p.next_reg_id (taken p).pool,
      subst (λ u. free_register u.reg_id u.pool ≡ ok (released p.next_reg_id (taken p).pool)) is
          (free_register-taken p low),
      omega arith,
      λ i. elim (Bool-cases (i == p.next_reg_id)) [
        | inl at ↦
            let same : i ≡ p.next_reg_id = ground arith in
            cc (at, unused, ap (λ k. is_free (p.register_state k)) same)
        | inr not_at ↦ cc
      ],
    )

-- What a pool becomes.
pub data Uses (p : Pool) : Pool → Type 0 where
  start : Uses p p
  take : {q : Pool} {t : Taken} → Uses p q → get_available_reg q ≡ ok t → Uses p t.pool
  give : {q q' : Pool} (r : ℕ) → Uses p q → free_register r q ≡ ok q' → Uses p q'

free_register-high :
    (r : ℕ) (p : Pool) → 126 < p.next_reg_id → r < 126 → free_register r p ≡ err assertion
unfolding free_register
free_register-high r p high low = ground arith

Uses-high : (p q : Pool) → Uses p q → 126 < p.next_reg_id → 126 < q.next_reg_id
unfolding free_register
Uses-high p _ start high = high
Uses-high p _ (take {q} {t} uses takes) high =
    let (is, unused) = get_available_reg-inv q takes in
    omega (arith, Uses-high p q uses high, ap (λ u. u.pool.next_reg_id) is)
Uses-high p q' (give {q} r uses gives) high = elim (Bool-cases (leb 126 r)) [
  | inl kept ↦
      let same : q ≡ q' = cc in omega (arith, Uses-high p q uses high, ap (λ u. u.next_reg_id) same)
  | inr low ↦
      let small : r < 126 = ground arith in
      absurd (err-ne-ok (sym (free_register-high r q (Uses-high p q uses high) small) ∙ gives))
]

-- Once the register 126 is taken, no register below it can be given back, whatever is taken and
-- given back in between: the attempt fails its assertion.
pub free_register-Uses :
    (p q : Pool) (r : ℕ)
    → 126 < p.next_reg_id
    → Uses p q
    → r < 126
    → free_register r q ≡ err assertion
free_register-Uses p q r high uses low = free_register-high r q (Uses-high p q uses high) low
