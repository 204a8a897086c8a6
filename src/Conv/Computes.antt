-- ===== src/Conv/Computes.antt =====
-- The instructions that straight-line wasm code becomes compute what the code does.
use uwasm_vm.Base.{
  ℕ, ap, ◌∙◌, ◌≡◌, ◌<◌, refl, arith, List, [], ◌∷◌, set, get_elem?, All, Option, some, none, ok,
  some-injective, inl, inr, ◌==◌,
}
use mathlib.Core.Path.{subst}
use uwasm_vm.Isa.Opcode.{Valty, i32}
use uwasm_vm.Isa.Operands.{Long}
use uwasm_vm.Isa.CodeRoundTrip.{Inst, long}
use uwasm_vm.Machine.State.{Machine, Module, get_reg}
use uwasm_vm.Exec.Step.{Host}
use uwasm_vm.Conv.Winst.{Winst, int32}
use uwasm_vm.Conv.OpMap.{int_valty, float_valty, compare_op, int_binary_op, float_binary_op}
use uwasm_vm.Conv.Straight.{
  Slot, Values, eval, eval_all, typed_all, IsCommonAt, AreCommon, of_test, two_values, push_value,
}
use uwasm_vm.Conv.Numeric.{int_value, int_relation, bits, ops_of, float_value}
use uwasm_vm.Conv.Arithmetic.{int_value_lem, int_relation_lem, int_arith_value, float_value_lem}
use uwasm_vm.Conv.Registers.{Layout, IsApart, Local, top, reg_of, code_of, codes}
use uwasm_vm.Conv.Typing.{
  Types, nop, drop, local_get, local_set, const, compare, int_binary, float_binary, eqz,
  typed-Types, none_or_some,
}
use uwasm_vm.Conv.Holds.{temps-le}
use uwasm_vm.Conv.Progress.{codes-cons, typed_all-cons, typed-Local, Fit, Fit-next}
use uwasm_vm.Conv.Writes.{Written, Runs, Runs-append}
use uwasm_vm.Conv.Values.{StackHas, Agrees, push-Agrees, set-Agrees}
use uwasm_vm.Conv.Rules.{
  mov-Runs, eqz-Runs, compare-Runs, arith-Runs, const-Runs, int_binary-IsPlain,
  float_binary-IsPlain,
}

-- The values behind two places, and behind one.
pop_values :
    (l : Layout) (m : Machine) (st : List ℕ) (v : Valty) (o : Option ℕ) (sl : List Slot)
    → StackHas l m st ((v, o) ∷ sl)
    → (x : ℕ) × (st' : List ℕ) × (st ≡ x ∷ st')
      × (get_reg v m (reg_of l (v, o) sl) ≡ ok x)
      × StackHas l m st' sl
pop_values l m [] v o sl h = absurd h
pop_values l m (x ∷ st) v o sl (has, h) = (x, st, refl, has, h)

push_value-inv :
    (vals st : List ℕ) (x : Option ℕ) {r : Values}
    → push_value vals st x ≡ some r
    → (y : ℕ) × (x ≡ some y) × (record { locals = vals; stack = y ∷ st } ≡ r)
push_value-inv vals st none e = absurd (cc)
push_value-inv vals st (some y) e = (y, refl, some-injective e)

module _ (mod_ : Module) (h : Host) (l : Layout) (apart : IsApart l) (size : Valty → ℕ) where
  abbrev Computed : List Inst → Machine → List Slot → Values → Type 0
  Computed is m sl r = (m' : Machine) × Runs mod_ h is m m' × Agrees l size r.locals r.stack sl m'

  -- An operation on the two values on top, given a run for its instruction.
  two-Computed :
      (op : ℕ) (v : Valty) (f : ℕ → ℕ → Option ℕ) (o2 o1 : Option ℕ) (sl : List Slot)
      {vals st : List ℕ} {r : Values} {m : Machine}
      → top l v sl < size v
      → All (Local l) sl
      → Agrees l size vals st ((v, o2) ∷ (v, o1) ∷ sl) m
      → two_values f vals st ≡ some r
      → ((a b x old : ℕ) (rest : List ℕ)
          → st ≡ b ∷ a ∷ rest
          → get_reg v m (top l v sl) ≡ ok old
          → get_reg v m (reg_of l (v, o1) sl) ≡ ok a
          → get_reg v m (reg_of l (v, o2) ((v, o1) ∷ sl)) ≡ ok b
          → f a b ≡ some x
          → (m' : Machine) × Runs mod_ h
              (long op v
                  (Long.r_r_r (top l v sl) (reg_of l (v, o1) sl) (reg_of l (v, o2) ((v, o1) ∷ sl)))
                ∷ [])
              m
              m'
            × Written v (top l v sl) x m m')
      → Computed
          (long op v
              (Long.r_r_r (top l v sl) (reg_of l (v, o1) sl) (reg_of l (v, o2) ((v, o1) ∷ sl)))
            ∷ [])
          m
          ((v, none) ∷ sl)
          r
  two-Computed op v f o2 o1 sl {vals} {st} {r} {m} room locals a e run =
      let (b, st1, shape1, second, rest1) = pop_values l m st v o2 ((v, o1) ∷ sl) a.stack in
      let (x, st2, shape2, first, rest2) = pop_values l m st1 v o1 sl rest1 in
      let shape : st ≡ b ∷ x ∷ st2 = cc in
      let (y, value, is) =
        push_value-inv vals st2 (f x b) (subst (λ t. two_values f vals t ≡ some r) shape e) in
      let (old, has) = a.readable v (top l v sl) room in
      let (m', runs, w) = run x b y old st2 shape has first second value in
      let below : Agrees l size vals st2 sl m = record {
        readable = a.readable;
        locals = a.locals;
        stack = rest2;
      } in
      (
        m',
        runs,
        subst (λ t. Agrees l size t.locals t.stack ((v, none) ∷ sl) m') is
            (push-Agrees l apart locals w below),
      )

  below2 :
      (v : Valty) (o2 o1 : Option ℕ) (sl : List Slot)
      → ((u : Valty) → top l u ((v, o2) ∷ (v, o1) ∷ sl) < size u)
      → top l v sl < size v
  below2 v o2 o1 sl room = omega (arith, room v, temps-le v ((v, o1) ∷ sl) o2 v, temps-le v sl o1 v)

  case-Computed :
      {w : Winst} {sl sl' : List Slot} {vals st : List ℕ} {r : Values} (m : Machine)
      → Types l w sl sl'
      → ((v : Valty) → top l v sl < size v)
      → All (Local l) sl
      → Agrees l size vals st sl m
      → IsCommonAt w st
      → eval h.floats w vals st ≡ some r
      → Computed (code_of l w sl) m sl' r
  case-Computed m (nop {sl}) room locals a common e = (
    m,
    refl,
    subst (λ t. Agrees l size t.locals t.stack sl m) (some-injective e)
        (record { readable = a.readable; locals = a.locals; stack = a.stack }),
  )
  case-Computed {vals = vals} {st} {r} m (drop {v} {o} {sl}) room locals a common e =
      let (x, st1, shape, has, rest) = pop_values l m st v o sl a.stack in
      let is : record { locals = vals; stack = st1 } ≡ r =
        some-injective (subst (λ t. eval h.floats Winst.drop vals t ≡ some r) shape e) in
      (
        m,
        refl,
        subst (λ t. Agrees l size t.locals t.stack sl m) is
            (record { readable = a.readable; locals = a.locals; stack = rest }),
      )
  case-Computed {vals = vals} {st} m (local_get {i} {v} {sl} is) room locals a common e =
      let (x, got, same) = push_value-inv vals st (get_elem? vals i) e in
      (
        m,
        refl,
        subst (λ t. Agrees l size t.locals t.stack ((v, some i) ∷ sl) m) same
            (record {
              readable = a.readable;
              locals = a.locals;
              stack = (a.locals i v x is got, a.stack);
            }),
      )
  case-Computed {vals = vals} {st} {r} m (local_set {i} {v} {o} {sl} is now) room (local, locals) a
        common e =
      let (x, st1, shape, source, rest) = pop_values l m st v o sl a.stack in
      let same : record { locals = set vals i x; stack = st1 } ≡ r =
        some-injective (subst (λ t. eval h.floats (Winst.local_set i) vals t ≡ some r) shape e) in
      let below : Agrees l size vals st1 sl m = record {
        readable = a.readable;
        locals = a.locals;
        stack = rest;
      } in
      let (old, has) =
        a.readable v (l.loc i) (omega (arith, apart.below i v is, room v, temps-le v sl o v)) in
      let (m', runs, w) = mov-Runs mod_ h m v (l.loc i) x has (reg_of l (v, o) sl) source in
      (
        m',
        runs,
        subst (λ t. Agrees l size t.locals t.stack sl m') same
            (set-Agrees l apart i is now locals w below),
      )
  case-Computed m (const {v} {n} {sl}) room locals a common e =
      let (old, has) = a.readable v (top l v sl) (room v) in
      let (m', runs, w) = const-Runs mod_ h v (top l v sl) n m has in
      (
        m',
        runs,
        subst (λ t. Agrees l size t.locals t.stack ((v, none) ∷ sl) m') (some-injective e)
            (push-Agrees l apart locals w a),
      )
  case-Computed m (compare {c} {o2} {o1} {sl}) room (two, (one, locals)) a common e =
      two-Computed (compare_op c) i32 (λ x y. some (of_test (int_relation c (bits int32) x y))) o2
        o1 sl (below2 i32 o2 o1 sl room) locals a e
        (λ x y z old rest shape has first second value.
          compare-Runs mod_ h m i32 (top l i32 sl) z has c _ _ refl first second
            (ap of_test (int_relation_lem int32 c x y) ∙ some-injective value))
  case-Computed m (int_binary {t} {o} {a = ar} {o2} {o1} {sl} is) room (two, (one, locals)) a common
        e =
      two-Computed (int_binary_op o) (int_valty t) (int_value o (bits t)) o2 o1 sl
        (below2 (int_valty t) o2 o1 sl room) locals a e
        (λ x y z old rest shape has first second value.
          arith-Runs mod_ h m (int_valty t) (top l (int_valty t) sl) z has _ _
            (int_binary-IsPlain t o is) first second
            (int_arith_value h.floats t ar x y (
              int_value_lem t o x y is
                (subst (λ q. IsCommonAt (Winst.int_binary t o) q) shape common) value)))
  case-Computed m (float_binary {t} {o} {o2} {o1} {sl}) room (two, (one, locals)) a common e =
      two-Computed (float_binary_op o) (float_valty t)
        (λ x y. some (float_value (ops_of h.floats t) o x y)) o2 o1 sl
        (below2 (float_valty t) o2 o1 sl room) locals a e
        (λ x y z old rest shape has first second value.
          arith-Runs mod_ h m (float_valty t) (top l (float_valty t) sl) z has _ _
            (float_binary-IsPlain t o) first second
            (float_value_lem h.floats t o x y ∙ ap ok (some-injective value)))
  case-Computed {vals = vals} {st} {r} m (eqz {o} {sl}) room (one, locals) a common e =
      let (x, st1, shape, source, rest) = pop_values l m st i32 o sl a.stack in
      let same : record { locals = vals; stack = of_test (x == 0) ∷ st1 } ≡ r =
        some-injective (subst (λ t. eval h.floats (Winst.eqz int32) vals t ≡ some r) shape e) in
      let below : Agrees l size vals st1 sl m = record {
        readable = a.readable;
        locals = a.locals;
        stack = rest;
      } in
      let (old, has) =
        a.readable i32 (top l i32 sl) (omega (arith, room i32, temps-le i32 sl o i32)) in
      let (m', runs, w) =
        eqz-Runs mod_ h m i32 (top l i32 sl) (of_test (x == 0)) has (reg_of l (i32, o) sl) refl
          source refl in
      (
        m',
        runs,
        subst (λ t. Agrees l size t.locals t.stack ((i32, none) ∷ sl) m') same
            (push-Agrees l apart locals w below),
      )

  eval_all-cons :
      (w : Winst) (ws : List Winst) (vals st : List ℕ) {r : Values}
      → eval_all h.floats (w ∷ ws) vals st ≡ some r
      → (u : Values) × (eval h.floats w vals st ≡ some u)
        × (eval_all h.floats ws u.locals u.stack ≡ some r)
  eval_all-cons w ws vals st e = elim (none_or_some (eval h.floats w vals st)) [
    | inl missing ↦ absurd (cc)
    | inr (u, first) ↦ (u, first, cc)
  ]

  pub all-Computed :
      (ws : List Winst) (sl : List Slot) {sl' : List Slot} {vals st : List ℕ} {r : Values}
      (m : Machine)
      → Fit size l ws sl
      → All (Local l) sl
      → typed_all l.locals ws sl ≡ some sl'
      → Agrees l size vals st sl m
      → AreCommon h.floats ws vals st
      → eval_all h.floats ws vals st ≡ some r
      → Computed (codes l ws sl) m sl' r
  all-Computed [] sl {sl'} {vals} {st} m room locals types a common e = (
    m,
    refl,
    subst (λ t. Agrees l size t.locals t.stack sl' m) (some-injective e)
        (subst (λ t. Agrees l size vals st t m) (some-injective types) a),
  )
  all-Computed (w ∷ ws) sl {sl'} {vals} {st} {r} m room locals types a (common, later) e =
      let (q, first, rest) = typed_all-cons l w ws sl types in
      let (u, one, more) = eval_all-cons w ws vals st e in
      let typing = typed-Types l w sl first in
      let (k, runs, b) = case-Computed m typing room.0 locals a common one in
      let (m', runs', c) =
        all-Computed ws q k (Fit-next size l w ws sl first room) (typed-Local typing locals) rest b
          (rw one at later) more in
      rw (codes-cons l w ws sl q first)
        (m', Runs-append mod_ h (code_of l w sl) (codes l ws q) m k m' runs runs', c)
