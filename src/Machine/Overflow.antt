-- ===== src/Machine/Overflow.antt =====
-- How deep calls may nest: CONTEXT_STACK::Push (src/interpreter/exec_unit.h) over several calls.
use uwasm_vm.Base.{◌+◌, ◌<◌, ◌≤◌, ◌≡◌, refl, arith, List, [], ◌∷◌, length, inl, inr}
use uwasm_vm.Base.{Result, ok, err, undefined, ◌>>=◌}
use native.Mathlib.Nat.{eq-or-lt_of_le}
use uwasm_vm.Machine.Context
use uwasm_vm.Machine.Context.{ExecContext, ContextStack}

-- The pushes of nested calls, outermost first.
abbrev pub push_all : ContextStack → List ExecContext → Result ContextStack
push_all s [] = ok s
push_all s (c ∷ cs) = Context.push s c >>= λ t. push_all t cs

push-below :
    (s : ContextStack) (c : ExecContext)
    → s.depth < s.capacity
    → (t : ContextStack) × (Context.push s c ≡ ok t)
      × (t.depth ≡ s.depth + 1)
      × (t.capacity ≡ s.capacity)
unfolding Context.push
push-below s c room = (
  record s { ctx_sta = Context.update s.ctx_sta s.depth c; depth = s.depth + 1 },
  ground arith,
  refl,
  refl,
)

push-full :
    (s : ContextStack) (c : ExecContext) → s.depth ≡ s.capacity → Context.push s c ≡ err undefined
unfolding Context.push
push-full s c full = ground arith

-- While the calls that are nested do not outnumber the frames of the vector, every push succeeds,
-- and the depth counts them.
pub push_all-ok :
    (s : ContextStack) (cs : List ExecContext)
    → s.depth + length cs ≤ s.capacity
    → (t : ContextStack) × (push_all s cs ≡ ok t) × (t.depth ≡ s.depth + length cs)
push_all-ok s [] room = (s, refl, omega arith)
push_all-ok s (c ∷ cs) room =
    let (t, pushed, depth, same) = push-below s c (omega arith) in
    let (u, rest, total) = push_all-ok t cs (omega arith) in (u, rw pushed rest, omega arith)

-- The vector never grows: with one nested call more than it has frames, a push writes beyond it.
pub push_all-overflow :
    (s : ContextStack) (cs : List ExecContext)
    → s.depth ≤ s.capacity
    → s.capacity < s.depth + length cs
    → push_all s cs ≡ err undefined
push_all-overflow s [] within over = absurd (omega arith)
push_all-overflow s (c ∷ cs) within over = elim (eq-or-lt_of_le within) [
  | inr room ↦
      let (t, pushed, depth, same) = push-below s c room in
      rw pushed (push_all-overflow t cs (omega arith) (omega arith))
  | inl full ↦ rw (push-full s c full) refl
]
