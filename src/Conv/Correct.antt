-- ===== src/Conv/Correct.antt =====
-- Straight-line wasm code, from the converter (src/wasm/converter.cxx) through the words of the
-- encoder and Expand_code to the interpreter.
use uwasm_vm.Base.{
  ℕ, suc, refl, ◌+◌, ◌≡◌, ap, sym, ◌∙◌, List, [], ◌∷◌, ◌++◌, length, get_elem?, All, some, ok,
  ok-injective,
}
use mathlib.Core.Path.{subst}
use uwasm_vm.Isa.Opcode.{Valty}
use uwasm_vm.Isa.Expand.{AmExpand}
use uwasm_vm.Isa.Code.{Expanded, expand_words}
use uwasm_vm.Isa.CodeRoundTrip.{Inst, expanded_all, encode_each, written_all-insts}
use uwasm_vm.Machine.State.{Machine, Module}
use uwasm_vm.Exec.Step.{Host}
use uwasm_vm.Exec.SafeRun.{Reaches}
use uwasm_vm.Conv.Winst.{Winst}
use uwasm_vm.Conv.State.{ConvState, done}
use uwasm_vm.Conv.Env.{Env}
use uwasm_vm.Conv.Inst.{conv_all}
use uwasm_vm.Conv.Straight.{Slot, Values, eval_all, typed_all, AreCommon}
use uwasm_vm.Conv.Registers.{Layout, IsApart, Local, codes}
use uwasm_vm.Conv.Holds.{Holds}
use uwasm_vm.Conv.Progress.{Fit, freeable, HasStmts, all-Converts}
use uwasm_vm.Conv.Writes.{Loaded, Runs-Reaches}
use uwasm_vm.Conv.Values.{Agrees}
use uwasm_vm.Conv.Computes.{all-Computed}

append_cancel : (xs ys zs : List ℕ) → xs ++ ys ≡ xs ++ zs → ys ≡ zs
append_cancel [] ys zs e = e
append_cancel (x ∷ xs) ys zs e = append_cancel xs ys zs cc

length-expanded_all :
    (raw : ℕ → AmExpand) (k : ℕ) (is : List Inst) → length (expanded_all raw k is) ≡ length is
length-expanded_all raw k [] = refl
length-expanded_all raw k (i ∷ is) = ap suc (length-expanded_all raw (k + 1) is)

-- The entries of an expansion stand in the table of the machine from its pc on.
abbrev pub HasCode : List AmExpand → Machine → Type 0
HasCode insts m =
    (j : ℕ) (e : AmExpand)
    → get_elem? insts j ≡ some e
    → get_elem? m.table (m.current.pc + j) ≡ some e

module _ (l : Layout) (env : Env) (mod_ : Module) (h : Host) where
  -- The words that the converter adds for typed straight-line code, of any length, compute what the
  -- wasm specification says: a machine that is at their expansion, and whose registers hold the
  -- values of the locals and of the stack, reaches one behind it whose registers hold the values
  -- after the code. At every instruction fewer than 126 registers of each type are taken by locals and
  -- by the stack, and fewer than the frame has; every instruction has its statement in the graph; no
  -- local is set that the stack still stands for; the evaluation does not trap, and has no unsigned
  -- division with an operand from half the range on, no remainder of the least number by -1, and no
  -- shift by the width or more.
  pub conv_all-eval_all :
      (ws : List Winst) (n : ℕ) (sl : List Slot) {sl' : List Slot} (s after : ConvState)
      (words : List ℕ) (raw : ℕ → AmExpand) (pc k : ℕ) (x : Expanded) (m : Machine)
      (size : Valty → ℕ) (vals st : List ℕ) (r : Values)
      → IsApart l
      → All (Local l) sl
      → Fit freeable l ws sl
      → HasStmts s.graph n ws
      → typed_all l.locals ws sl ≡ some sl'
      → Holds l env.ret_reg_num sl s
      → conv_all env n ws s ≡ done tt after
      → after.body.inst_tab ≡ s.body.inst_tab ++ words
      → expand_words raw words pc k ≡ ok x
      → Fit size l ws sl
      → Agrees l size vals st sl m
      → HasCode x.insts m
      → AreCommon h.floats ws vals st
      → eval_all h.floats ws vals st ≡ some r
      → (m' : Machine) × Reaches mod_ h m m'
        × (m'.current.pc ≡ m.current.pc + length x.insts)
        × Agrees l size r.locals r.stack sl' m'
  conv_all-eval_all ws n sl s after words raw pc k x m size vals st r apart locals fit stmts types
        holds runs tab expands room agrees code common value =
      let (c, enc) = all-Converts l env apart ws n sl locals fit stmts types holds in
      let (words', added, reads, len) = encode_each raw k (codes l ws sl) enc in
      let same : after ≡ c.after = cc (runs, c.runs) in
      let tab' : c.after.body.inst_tab ≡ s.body.inst_tab ++ words' =
        ok-injective (sym c.adds ∙ added s.body.inst_tab) in
      let equal : words ≡ words' =
        append_cancel s.body.inst_tab words words' (cc (tab, tab', same)) in
      let insts : x.insts ≡ expanded_all raw k (codes l ws sl) =
        ap (λ t. t.insts)
          (ok-injective (sym expands ∙ ap (λ t. expand_words raw t pc k) equal ∙ reads pc))
        ∙ written_all-insts raw (codes l ws sl) pc k in
      let count : length (codes l ws sl) ≡ length x.insts =
        sym (length-expanded_all raw k (codes l ws sl)) ∙ ap length (sym insts) in
      let (m', run, agrees') =
        all-Computed mod_ h l apart size ws sl m room locals types agrees common value in
      let loaded : Loaded mod_ h (codes l ws sl) raw k m = subst (λ t. HasCode t m) insts code in
      let (reached, at) = Runs-Reaches mod_ h (codes l ws sl) raw k m m' run loaded in
      (m', reached, at ∙ ap (λ t. m.current.pc + t) count, agrees')
