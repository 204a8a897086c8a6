-- ===== src/Conv/Typing.antt =====
-- Typing of straight-line wasm code as a relation, and that `typed` of Straight decides it.
use uwasm_vm.Base.{
  ℕ, ◌≡◌, refl, true, List, [], ◌∷◌, get_elem?, Bool-cases, inl, inr, ◌⊎◌, some-injective, Option,
  some, none,
}
use mathlib.Core.Path.{subst}
use uwasm_vm.Isa.Opcode.{Valty, i32, Cmp, Arith}
use uwasm_vm.Conv.Winst.{Winst, IntTy, int32, IntBinary, FloatTy, FloatBinary}
use uwasm_vm.Conv.OpMap.{int_valty, float_valty}
use uwasm_vm.Conv.State.{same_valty}
use uwasm_vm.Conv.Straight.{Slot, typed, pop_slot, pop_two, push_slot, arith_of, is_current}
use uwasm_vm.Conv.Registers.{Layout, same_valty-eq}

pub data Types (l : Layout) : Winst → List Slot → List Slot → Type 0 where
  nop : {sl : List Slot} → Types l Winst.nop sl sl
  drop : {v : Valty} {o : Option ℕ} {sl : List Slot} → Types l Winst.drop ((v, o) ∷ sl) sl
  local_get :
      {i : ℕ} {v : Valty} {sl : List Slot}
      → get_elem? l.locals i ≡ some v
      → Types l (Winst.local_get i) sl ((v, some i) ∷ sl)
  local_set :
      {i : ℕ} {v : Valty} {o : Option ℕ} {sl : List Slot}
      → get_elem? l.locals i ≡ some v
      → is_current i sl ≡ true
      → Types l (Winst.local_set i) ((v, o) ∷ sl) sl
  const : {v : Valty} {n : ℕ} {sl : List Slot} → Types l (Winst.const v n) sl ((v, none) ∷ sl)
  compare :
      {c : Cmp} {o2 o1 : Option ℕ} {sl : List Slot}
      → Types l (Winst.int_compare int32 c) ((i32, o2) ∷ (i32, o1) ∷ sl) ((i32, none) ∷ sl)
  int_binary :
      {t : IntTy} {o : IntBinary} {a : Arith} {o2 o1 : Option ℕ} {sl : List Slot}
      → arith_of t o ≡ some a
      → Types l
          (Winst.int_binary t o)
          ((int_valty t, o2) ∷ (int_valty t, o1) ∷ sl)
          ((int_valty t, none) ∷ sl)
  float_binary :
      {t : FloatTy} {o : FloatBinary} {o2 o1 : Option ℕ} {sl : List Slot}
      → Types l
          (Winst.float_binary t o)
          ((float_valty t, o2) ∷ (float_valty t, o1) ∷ sl)
          ((float_valty t, none) ∷ sl)
  eqz :
      {o : Option ℕ} {sl : List Slot} → Types l (Winst.eqz int32) ((i32, o) ∷ sl) ((i32, none) ∷ sl)

-- What is left of a stack from which a value of the type is taken.
pop_slot-elim :
    (P : List Slot → List Slot → Type 0) (v : Valty) (sl : List Slot) {r : List Slot}
    → ((o : Option ℕ) (r : List Slot) → P ((v, o) ∷ r) r)
    → pop_slot v sl ≡ some r
    → P sl r
pop_slot-elim P v [] f e = absurd (cc)
pop_slot-elim P v ((w, o) ∷ sl) {r} f e = elim (Bool-cases (same_valty w v)) [
  | inl is ↦
      let same : w ≡ v = same_valty-eq w v is in
      let rest : sl ≡ r = some-injective (rw is at e) in
      subst (λ t. P ((w, o) ∷ sl) t) rest (rw same (f o sl))
  | inr not_is ↦ absurd (cc)
]

-- A computed option, with what it is.
pub none_or_some : {A : Type 0} (x : Option A) → (x ≡ none) ⊎ ((a : A) × (x ≡ some a))
none_or_some none = inl refl
none_or_some (some a) = inr (a, refl)

two-elim :
    (P : List Slot → List Slot → Type 0) (v : Valty) (sl : List Slot) {r : List Slot}
    → ((o2 o1 : Option ℕ) (r : List Slot) → P ((v, o2) ∷ (v, o1) ∷ r) ((v, none) ∷ r))
    → push_slot v (pop_two v sl) ≡ some r
    → P sl r
two-elim P v sl {r} f e = elim (none_or_some (pop_slot v sl)) [
  | inl missing ↦ absurd (cc)
  | inr (m, first) ↦ elim (none_or_some (pop_slot v m)) [
    | inl missing ↦ absurd (cc)
    | inr (k, second) ↦
        let done : (v, none) ∷ k ≡ r = cc in
        subst (λ t. P sl t) done
          (pop_slot-elim (λ a b. (c : List Slot) → pop_slot v b ≡ some c → P a ((v, none) ∷ c)) v sl
            (λ o2 b c is.
              pop_slot-elim (λ a d. P ((v, o2) ∷ a) ((v, none) ∷ d)) v b (λ o1 d. f o2 o1 d) is)
            first k second)
  ]
]

pub typed-Types :
    (l : Layout) (w : Winst) (sl : List Slot) {r : List Slot}
    → typed l.locals w sl ≡ some r
    → Types l w sl r
typed-Types l Winst.nop sl e = subst (λ t. Types l Winst.nop sl t) (some-injective e) nop
typed-Types l Winst.drop [] e = absurd (cc)
typed-Types l Winst.drop ((v, o) ∷ sl) e =
    subst (λ t. Types l Winst.drop ((v, o) ∷ sl) t) (some-injective e) drop
typed-Types l (Winst.local_get i) sl {r} e = elim (none_or_some (get_elem? l.locals i)) [
  | inl missing ↦ absurd (cc)
  | inr (v, is) ↦
      let rest : (v, some i) ∷ sl ≡ r = cc in
      subst (λ t. Types l (Winst.local_get i) sl t) rest (local_get is)
]
typed-Types l (Winst.local_set i) sl {r} e = elim (none_or_some (get_elem? l.locals i)) [
  | inl missing ↦ absurd (cc)
  | inr (v, is) ↦ elim (none_or_some (pop_slot v sl)) [
    | inl missing ↦ absurd (cc)
    | inr (k, first) ↦ elim (Bool-cases (is_current i k)) [
      | inl current ↦
          let rest : k ≡ r = cc in
          subst (λ t. Types l (Winst.local_set i) sl t) rest
            (pop_slot-elim (λ a b. is_current i b ≡ true → Types l (Winst.local_set i) a b) v sl
              (λ o b now. local_set is now) first current)
      | inr stale ↦ absurd (cc)
    ]
  ]
]
typed-Types l (Winst.const v n) sl e =
    subst (λ t. Types l (Winst.const v n) sl t) (some-injective e) const
typed-Types l (Winst.int_compare int32 c) sl e =
    two-elim (Types l (Winst.int_compare int32 c)) i32 sl (λ o2 o1 r. compare) e
typed-Types l (Winst.int_binary t o) sl e = elim (none_or_some (arith_of t o)) [
  | inl missing ↦ absurd (cc)
  | inr (a, is) ↦
      two-elim (Types l (Winst.int_binary t o)) (int_valty t) sl (λ o2 o1 r. int_binary is) (cc)
]
typed-Types l (Winst.float_binary t o) sl e =
    two-elim (Types l (Winst.float_binary t o)) (float_valty t) sl (λ o2 o1 r. float_binary) e
typed-Types l (Winst.eqz int32) sl {r} e = elim (none_or_some (pop_slot i32 sl)) [
  | inl missing ↦ absurd (cc)
  | inr (k, first) ↦
      let rest : (i32, none) ∷ k ≡ r = cc in
      subst (λ t. Types l (Winst.eqz int32) sl t) rest
        (pop_slot-elim (λ a b. Types l (Winst.eqz int32) a ((i32, none) ∷ b)) i32 sl (λ o b. eqz)
          first)
]
typed-Types l _ sl e = absurd (cc)
