-- ===== src/Conv/Progress.antt =====
-- The loop of Wasm_to_uwasm (src/wasm/converter.cxx) over straight-line code.
use uwasm_vm.Base.{
  ℕ, ◌+◌, ◌≡◌, ◌<◌, ◌≤◌, refl, sym, ◌∙◌, arith, List, [], ◌∷◌, ◌++◌, All, Option, some, none, ok,
  some-injective, inl, inr, append-All, ok-injective,
}
use mathlib.Core.Path.{subst}
use uwasm_vm.Isa.Opcode.{Valty, i32, i64, f32, f64}
use uwasm_vm.Isa.CodeRoundTrip.{IsEncodable, add_all-append, encode_each, written_all}
use uwasm_vm.Isa.Expand.{AmExpand}
use uwasm_vm.Isa.Code.{expand_words}
use uwasm_vm.Conv.Winst.{Winst}
use uwasm_vm.Conv.OpMap.{
  OpcTyPair, uopcode_from_wasm, int_valty, float_valty, compare_op, int_binary_op, float_binary_op,
  eqz_op,
}
use uwasm_vm.Conv.Graph.{Stmt, StmtGraph, stmt_by_inst}
use uwasm_vm.Conv.State.{ConvState, done, ◌>>=◌, pure, lift, gets}
use uwasm_vm.Conv.Env.{Env}
use uwasm_vm.Conv.Inst.{conv_case, conv_inst, conv_all}
use uwasm_vm.Conv.Straight.{Slot, typed, typed_all}
use uwasm_vm.Conv.Registers.{Layout, IsApart, Local, temps, top, code_of, codes}
use uwasm_vm.Conv.Typing.{
  Types, nop, drop, local_get, local_set, const, compare, int_binary, float_binary, eqz,
  typed-Types, none_or_some,
}
use uwasm_vm.Conv.Holds.{Holds, temps-le}
use uwasm_vm.Conv.Emits.{Converts, HasRoom, conv_two-Converts, conv_binary-Converts}
use uwasm_vm.Conv.Cases.{
  conv_one-Converts, conv_local_set-Converts, conv_drop-Converts, conv_local_get-Converts,
  conv_const-Converts,
}
use uwasm_vm.Conv.Encodable.{code_of-IsEncodable}

const_row : (v : Valty) (n : ℕ) → (p : OpcTyPair) × (uopcode_from_wasm (Winst.const v n) ≡ ok p)
unfolding uopcode_from_wasm
const_row i32 n = (_, refl)
const_row i64 n = (_, refl)
const_row f32 n = (_, refl)
const_row f64 n = (_, refl)

module _ (v u : Valty) (sl : List Slot) where
  temps-push : temps v ((u, none) ∷ sl) ≤ temps v sl + 1
  temps-push = ground arith

  temps-two : (o2 o1 : Option ℕ) → temps v ((u, none) ∷ sl) ≤ temps v ((u, o2) ∷ (u, o1) ∷ sl) + 1
  temps-two o2 o1 = omega (arith, temps-push, temps-le u ((u, o1) ∷ sl) o2 v, temps-le u sl o1 v)

module _ {l : Layout} where
  -- Every instruction of the fragment has a row in the map of opcodes.
  row :
      {w : Winst} {sl sl' : List Slot}
      → Types l w sl sl'
      → (p : OpcTyPair) × (uopcode_from_wasm w ≡ ok p)
  unfolding uopcode_from_wasm
  row nop = (_, refl)
  row drop = (_, refl)
  row (local_get is) = (_, refl)
  row (local_set is now) = (_, refl)
  row (const {v} {n}) = const_row v n
  row compare = (_, refl)
  row (int_binary is) = (_, refl)
  row float_binary = (_, refl)
  row eqz = (_, refl)

  pub temps-typed :
      {w : Winst} {sl sl' : List Slot} (v : Valty) → Types l w sl sl' → temps v sl' ≤ temps v sl + 1
  temps-typed v nop = omega arith
  temps-typed v (drop {v = u} {o} {sl}) = omega (arith, temps-le u sl o v)
  temps-typed v (local_get is) = omega arith
  temps-typed v (local_set {v = u} {o} {sl} is now) = omega (arith, temps-le u sl o v)
  temps-typed v (const {v = u} {sl = sl}) = temps-push v u sl
  temps-typed v (compare {c} {o2} {o1} {sl}) = temps-two v i32 sl o2 o1
  temps-typed v (int_binary {t} {o} {a} {o2} {o1} {sl} is) = temps-two v (int_valty t) sl o2 o1
  temps-typed v (float_binary {t} {o} {o2} {o1} {sl}) = temps-two v (float_valty t) sl o2 o1
  temps-typed v (eqz {o} {sl}) = omega (arith, temps-push v i32 sl, temps-le i32 sl o v)

  pub typed-Local :
      {w : Winst} {sl sl' : List Slot} → Types l w sl sl' → All (Local l) sl → All (Local l) sl'
  typed-Local nop locals = locals
  typed-Local drop (local, locals) = locals
  typed-Local (local_get is) locals = (is, locals)
  typed-Local (local_set is now) (local, locals) = locals
  typed-Local const locals = (tt, locals)
  typed-Local compare (second, (first, locals)) = (tt, locals)
  typed-Local (int_binary is) (second, (first, locals)) = (tt, locals)
  typed-Local float_binary (second, (first, locals)) = (tt, locals)
  typed-Local eqz (local, locals) = (tt, locals)

  -- One instruction through the switch.
  case-Converts :
      (env : Env) (n : ℕ) {w : Winst} {s : ConvState} {sl sl' : List Slot}
      → Types l w sl sl'
      → All IsEncodable (code_of l w sl)
      → HasRoom l sl
      → Holds l env.ret_reg_num sl s
      → Converts l env.ret_reg_num (conv_case env n w) (code_of l w sl) sl' s
  unfolding conv_case pure
  case-Converts env n {s} nop enc room h = record {
    after = s;
    runs = refl;
    adds = refl;
    holds = h;
    graph = refl;
  }
  case-Converts env n (drop {v} {o} {sl}) enc room h = conv_drop-Converts l env n v sl o room h
  case-Converts env n (local_get {i} {v} {sl} is) enc room h =
      conv_local_get-Converts l env n v sl i is h
  case-Converts env n (local_set {i} {v} {o} {sl} is now) (e, es) room h =
      conv_local_set-Converts l env n v sl i o is e room h
  case-Converts env n (const {v} {n = k} {sl}) enc room h =
      conv_const-Converts l env n v sl k room h
  case-Converts env n (compare {c} {o2} {o1} {sl}) (e, es) room h =
      conv_two-Converts l env n (compare_op c) i32 o2 o1 sl e room h
  case-Converts env n (int_binary {t} {o} {a} {o2} {o1} {sl} is) (e, es) room h =
      conv_binary-Converts l env n (int_binary_op o) (int_valty t) o2 o1 sl e room h
  case-Converts env n (float_binary {t} {o} {o2} {o1} {sl}) (e, es) room h =
      conv_binary-Converts l env n (float_binary_op o) (float_valty t) o2 o1 sl e room h
  case-Converts env n (eqz {o} {sl}) (e, es) room h =
      conv_one-Converts l env n i32 sl eqz_op o e room h

  inst-Converts :
      (env : Env) (n : ℕ) {w : Winst} {s : ConvState} {sl sl' : List Slot} {st : Stmt}
      → stmt_by_inst s.graph n ≡ ok st
      → Types l w sl sl'
      → Converts l env.ret_reg_num (conv_case env n w) (code_of l w sl) sl' s
      → Converts l env.ret_reg_num (conv_inst env n w) (code_of l w sl) sl' s
  unfolding conv_inst ◌>>=◌ lift gets
  inst-Converts env n found types c =
      let (p, known) = row types in
      record {
        after = c.after;
        runs = cc (known, found, c.runs);
        adds = c.adds;
        holds = c.holds;
        graph = c.graph;
      }

-- Every instruction has its statement.
abbrev pub HasStmts : StmtGraph → ℕ → List Winst → Type 0
HasStmts g n [] = Unit
HasStmts g n (w ∷ ws) = ((st : Stmt) × (stmt_by_inst g n ≡ ok st)) × HasStmts g (n + 1) ws

-- At every instruction fewer than `size` registers of each type are taken.
abbrev pub Fit : (Valty → ℕ) → Layout → List Winst → List Slot → Type 0
Fit size l [] sl = Unit
Fit size l (w ∷ ws) sl =
    ((v : Valty) → top l v sl < size v)
    × elim (typed l.locals w sl) [ some r ↦ Fit size l ws r | none ↦ Unit ]

pub Fit-next :
    (size : Valty → ℕ) (l : Layout) (w : Winst) (ws : List Winst) (sl : List Slot) {r : List Slot}
    → typed l.locals w sl ≡ some r
    → Fit size l (w ∷ ws) sl
    → Fit size l ws r
Fit-next size l w ws sl first (now, later) = rw first at later

-- The registers that Free_register takes back.
abbrev pub freeable : Valty → ℕ
freeable v = 126

pub codes-cons :
    (l : Layout) (w : Winst) (ws : List Winst) (sl r : List Slot)
    → typed l.locals w sl ≡ some r
    → codes l (w ∷ ws) sl ≡ code_of l w sl ++ codes l ws r
codes-cons l w ws sl r e = rw (codes, e) refl

pub typed_all-cons :
    (l : Layout) (w : Winst) (ws : List Winst) (sl : List Slot) {sl' : List Slot}
    → typed_all l.locals (w ∷ ws) sl ≡ some sl'
    → (r : List Slot) × (typed l.locals w sl ≡ some r) × (typed_all l.locals ws r ≡ some sl')
typed_all-cons l w ws sl e = elim (none_or_some (typed l.locals w sl)) [
  | inl missing ↦ absurd (cc)
  | inr (r, first) ↦ (r, first, cc)
]

module _ (l : Layout) (env : Env) (apart : IsApart l) where
  pub all-Converts :
      (ws : List Winst) (n : ℕ) (sl : List Slot) {sl' : List Slot} {s : ConvState}
      → All (Local l) sl
      → Fit freeable l ws sl
      → HasStmts s.graph n ws
      → typed_all l.locals ws sl ≡ some sl'
      → Holds l env.ret_reg_num sl s
      → Converts l env.ret_reg_num (conv_all env n ws) (codes l ws sl) sl' s
        × All IsEncodable (codes l ws sl)
  unfolding conv_all pure ◌>>=◌
  all-Converts [] n sl {s = s} locals fit stmts e h = (
    record {
      after = s;
      runs = refl;
      adds = refl;
      holds = subst (λ t. Holds l env.ret_reg_num t s) (some-injective e) h;
      graph = refl;
    },
    tt,
  )
  all-Converts (w ∷ ws) n sl {s = s} locals fit ((st, found), stmts) e h =
      let (r, first, rest) = typed_all-cons l w ws sl e in
      let types = typed-Types l w sl first in
      let room : HasRoom l sl = fit.0 in
      let enc = code_of-IsEncodable l apart types room locals in
      let a = inst-Converts env n found types (case-Converts env n types enc room h) in
      let (b, encs) =
        all-Converts ws (n + 1) r (typed-Local types locals) (Fit-next freeable l w ws sl first fit)
          (subst (λ g. HasStmts g (n + 1) ws) (sym a.graph) stmts) rest a.holds in
      rw (codes-cons l w ws sl r first) (
        record {
          after = b.after;
          runs = cc (a.runs, b.runs);
          adds = add_all-append s.body.inst_tab (code_of l w sl) (codes l ws r) a.adds ∙ b.adds;
          holds = b.holds;
          graph = b.graph ∙ a.graph;
        },
        append-All IsEncodable (code_of l w sl) (codes l ws r) enc encs,
      )

  -- Straight-line code that is typed, of any length, is converted, from any state whose stack has its
  -- places, where at every instruction fewer than 126 registers of each type are taken by locals and
  -- by the stack, and every instruction has its statement in the graph: the state after it has the
  -- places that the typing gives, and the words that are added expand to the instructions that the
  -- code is to become.
  pub conv_all-codes :
      (ws : List Winst) (n : ℕ) (sl : List Slot) {sl' : List Slot} (s : ConvState)
      → All (Local l) sl
      → Fit freeable l ws sl
      → HasStmts s.graph n ws
      → typed_all l.locals ws sl ≡ some sl'
      → Holds l env.ret_reg_num sl s
      → (raw : ℕ → AmExpand) (pc k : ℕ)
      → (after : ConvState) × (words : List ℕ) × (conv_all env n ws s ≡ done tt after)
        × (after.body.inst_tab ≡ s.body.inst_tab ++ words)
        × (expand_words raw words pc k ≡ ok (written_all raw (codes l ws sl) pc k))
        × Holds l env.ret_reg_num sl' after
  conv_all-codes ws n sl s locals fit stmts e h raw pc k =
      let (c, enc) = all-Converts ws n sl locals fit stmts e h in
      let (words, added, reads, len) = encode_each raw k (codes l ws sl) enc in
      let tabs : c.after.body.inst_tab ≡ s.body.inst_tab ++ words =
        ok-injective (sym c.adds ∙ added s.body.inst_tab) in
      (c.after, words, c.runs, tabs, reads pc, c.holds)
