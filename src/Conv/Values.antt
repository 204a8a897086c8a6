-- ===== src/Conv/Values.antt =====
-- The values of the locals and of the stack of straight-line wasm code in the registers that
-- Registers gives them, and writes to a temporary or to a local.
use uwasm_vm.Base.{
  ℕ, ◌≡◌, ◌≢◌, ◌<◌, ◌≤◌, ◌⊎◌, inl, inr, ap, sym, ◌∙◌, arith, true, false, ◌==◌, List, [], ◌∷◌,
  length, set, get_elem?, get_elem?-set_self, get_elem?-set_ne, lt_of_get_elem?, All, some, none,
  ok, Bool-cases, length-set,
}
use mathlib.Core.Path.{subst}
use uwasm_vm.Isa.Opcode.{Valty}
use uwasm_vm.Machine.State.{Machine, get_reg}
use uwasm_vm.Conv.State.{same_valty}
use uwasm_vm.Conv.Straight.{Slot, is_current}
use uwasm_vm.Conv.Registers.{Layout, IsApart, Local, top, reg_of, same_valty-eq}
use uwasm_vm.Conv.Holds.{temps-le, temps-own}
use uwasm_vm.Conv.Writes.{Written}

abbrev pub StackHas : Layout → Machine → List ℕ → List Slot → Type 0
StackHas l m [] [] = Unit
StackHas l m (x ∷ st) ((v, o) ∷ sl) = (get_reg v m (reg_of l (v, o) sl) ≡ ok x) × StackHas l m st sl
StackHas l m _ _ = ⊥

-- A machine whose frame has `size` registers of each type, with the values.
pub record Agrees (l : Layout) (size : Valty → ℕ) (vals st : List ℕ) (sl : List Slot) (m : Machine)
    : Type 0 where
  pub readable : (v : Valty) (i : ℕ) → i < size v → (x : ℕ) × (get_reg v m i ≡ ok x)
  pub locals :
      (i : ℕ) (v : Valty) (x : ℕ)
      → get_elem? l.locals i ≡ some v
      → get_elem? vals i ≡ some x
      → get_reg v m (l.loc i) ≡ ok x
  pub stack : StackHas l m st sl

-- No place has the register `k` of the type.
abbrev Clear : Layout → Valty → ℕ → List Slot → Type 0
Clear l v k [] = Unit
Clear l v k ((u, o) ∷ sl) = ((same_valty v u ≡ false) ⊎ (reg_of l (u, o) sl ≢ k)) × Clear l v k sl

StackHas-kept :
    (l : Layout) {v : Valty} {k x : ℕ} {m m' : Machine} (st : List ℕ) (sl : List Slot)
    → Written v k x m m'
    → Clear l v k sl
    → StackHas l m st sl
    → StackHas l m' st sl
StackHas-kept l [] [] w clear h = tt
StackHas-kept l (y ∷ st) ((u, o) ∷ sl) w (apart, clear) (has, h) =
    (w.others u (reg_of l (u, o) sl) apart ∙ has, StackHas-kept l st sl w clear h)
StackHas-kept l [] ((u, o) ∷ sl) w clear h = absurd h
StackHas-kept l (y ∷ st) [] w clear h = absurd h

Written-readable :
    {v : Valty} {k x : ℕ} {m m' : Machine}
    → Written v k x m m'
    → (u : Valty) (i : ℕ) {y : ℕ} → get_reg u m i ≡ ok y
    → (z : ℕ) × (get_reg u m' i ≡ ok z)
Written-readable {v} {k} {x} w u i has = elim (Bool-cases (same_valty v u)) [
  | inr differ ↦ (_, w.others u i (inl differ) ∙ has)
  | inl is ↦ elim (Bool-cases (i == k)) [
    | inl at ↦ let same : i ≡ k = ground arith in (x, rw (same, sym (same_valty-eq v u is)) w.own)
    | inr not_at ↦ let ne : i ≢ k = ground arith in (_, w.others u i (inr ne) ∙ has)
  ]
]

module _ (l : Layout) (apart : IsApart l) where
  -- Two locals, and a local and a temporary.
  loc_apart :
      (i j : ℕ) (v u : Valty)
      → get_elem? l.locals i ≡ some v
      → get_elem? l.locals j ≡ some u
      → j ≢ i
      → (same_valty v u ≡ false) ⊎ (l.loc j ≢ l.loc i)
  loc_apart i j v u is isj ne = elim (Bool-cases (same_valty v u)) [
    | inr differ ↦ inl differ
    | inl same ↦
        let isj' = subst (λ t. get_elem? l.locals j ≡ some t) (sym (same_valty-eq v u same)) isj in
        inr (λ e. ne (apart.apart j i v isj' is e))
  ]

  loc_below :
      (i k : ℕ) (v u : Valty)
      → get_elem? l.locals i ≡ some u
      → l.base v ≤ k
      → (same_valty v u ≡ false) ⊎ (l.loc i ≢ k)
  loc_below i k v u is le = elim (Bool-cases (same_valty v u)) [
    | inr differ ↦ inl differ
    | inl same ↦
        let base : l.base v ≡ l.base u = ap (λ t. l.base t) (same_valty-eq v u same) in
        inr (λ e. omega (arith, apart.below i u is, base, le, e))
  ]

  -- The register on top of the temporaries.
  top-Clear :
      (v : Valty) (k : ℕ) (sl : List Slot) → top l v sl ≤ k → All (Local l) sl → Clear l v k sl
  top-Clear v k [] le locals = tt
  top-Clear v k ((u, none) ∷ sl) le (local, locals) =
      let rest = top-Clear v k sl (omega (arith, le, temps-le u sl none v)) locals in
      elim (Bool-cases (same_valty v u)) [
        | inl is ↦
            let same = same_valty-eq v u is in
            let own : top l u ((u, none) ∷ sl) ≤ k =
              subst (λ t. top l t ((u, none) ∷ sl) ≤ k) same le in
            (inr (λ e. omega (arith, own, temps-own u sl, e)), rest)
        | inr differ ↦ (inl differ, rest)
      ]
  top-Clear v k ((u, some i) ∷ sl) le (local, locals) = (
    loc_below i k v u local (omega (arith, le)),
    top-Clear v k sl (omega (arith, le, temps-le u sl (some i) v)) locals,
  )

  is_current-Clear :
      (v : Valty) (i : ℕ) (sl : List Slot)
      → get_elem? l.locals i ≡ some v
      → is_current i sl ≡ true
      → All (Local l) sl
      → Clear l v (l.loc i) sl
  is_current-Clear v i [] is now locals = tt
  is_current-Clear v i ((u, none) ∷ sl) is now (local, locals) =
      elim (Bool-cases (same_valty v u)) [
        | inl same ↦
            let below = apart.below i v is in
            let base : l.base v ≡ l.base u = ap (λ t. l.base t) (same_valty-eq v u same) in
            (inr (λ e. omega (arith, below, base, e)), is_current-Clear v i sl is now locals)
        | inr differ ↦ (inl differ, is_current-Clear v i sl is now locals)
      ]
  is_current-Clear v i ((u, some j) ∷ sl) is now (local, locals) = elim (Bool-cases (j == i)) [
    | inl at ↦ absurd (cc)
    | inr not_at ↦
        let ne : j ≢ i = ground arith in
        let rest : is_current i sl ≡ true = cc in
        (loc_apart i j v u is local ne, is_current-Clear v i sl is rest locals)
  ]

  module _ {size : Valty → ℕ} {vals st : List ℕ} {sl : List Slot} {v : Valty} {x : ℕ}
      {m m' : Machine} where
    -- A value on top of the stack.
    pub push-Agrees :
        All (Local l) sl
        → Written v (top l v sl) x m m'
        → Agrees l size vals st sl m
        → Agrees l size vals (x ∷ st) ((v, none) ∷ sl) m'
    push-Agrees locals w a = record {
      readable = λ u i lt. let (y, has) = a.readable u i lt in Written-readable w u i has;
      locals = λ i u y is has.
          w.others u (l.loc i) (loc_below i (top l v sl) v u is (omega arith))
          ∙ a.locals i u y is has;
      stack = (
        w.own,
        StackHas-kept l st sl w (top-Clear v (top l v sl) sl (omega arith) locals) a.stack,
      );
    }

    pub set-Agrees :
        (i : ℕ)
        → get_elem? l.locals i ≡ some v
        → is_current i sl ≡ true
        → All (Local l) sl
        → Written v (l.loc i) x m m'
        → Agrees l size vals st sl m
        → Agrees l size (set vals i x) st sl m'
    set-Agrees i is now locals w a = record {
      readable = λ u j lt. let (y, has) = a.readable u j lt in Written-readable w u j has;
      locals = λ j u y isj has. elim (Bool-cases (j == i)) [
        | inl at ↦
            let same : j ≡ i = ground arith in
            let lt : i < length vals =
              omega (arith, lt_of_get_elem? (set vals i x) j has, length-set vals i x, same) in
            let ty : v ≡ u = cc in
            let value : x ≡ y = cc (get_elem?-set_self vals i x lt, same, has) in
            rw (same, sym ty, sym value) w.own
        | inr not_at ↦
            let ne : i ≢ j = ground arith in
            let old : get_elem? vals j ≡ some y = sym (get_elem?-set_ne vals i j x ne) ∙ has in
            w.others u (l.loc j) (loc_apart i j v u is isj (λ e. ne (sym e)))
            ∙ a.locals j u y isj old
      ];
      stack = StackHas-kept l st sl w (is_current-Clear v i sl is now locals) a.stack;
    }
