-- ===== src/Conv/Emits.antt =====
-- Instructions that the cases of Wasm_to_uwasm (src/wasm/converter.cxx) give to the encoder, and the
-- cases with two operands.
use uwasm_vm.Base.{ℕ, ◌≡◌, ◌<◌, refl, ap, ◌∙◌, arith, List, [], ◌∷◌, ◌++◌, Option, some, none, ok}
use uwasm_vm.Isa.Opcode.{Valty}
use uwasm_vm.Isa.Operands.{Short, Long, mode, mode_l, content, content_l}
use uwasm_vm.Isa.CodeRoundTrip.{Inst, short, long, IsEncodable, add, add_all, encode}
use uwasm_vm.Isa.Expand.{AmExpand}
use uwasm_vm.Conv.State.{ConvState, StackElem, Conv, done, emit, ◌>>=◌, lift}
use uwasm_vm.Conv.Env.{Env}
use uwasm_vm.Conv.Stack.{known, check_stack_elem_valty}
use uwasm_vm.Conv.Data.{conv_two, conv_binary}
use uwasm_vm.Conv.Forward.{emit-ok, with_tab}
use uwasm_vm.Conv.Straight.{Slot}
use uwasm_vm.Conv.Registers.{Layout, top, reg_of, same_valty_refl}
use uwasm_vm.Conv.Holds.{Holds, with_tab-Holds, Popped, pop-Holds, Pushed, push-Holds, temps-le}

-- The table before the first instruction does not matter to its bits.
abbrev some_entry : AmExpand
some_entry = record { expand1 = 0; expand2 = 0; expand3 = 0; opcode_l = 0 }

pub record Emitted (l : Layout) (ret : ℕ) (sl : List Slot) (op : ℕ) (v : Valty) (content : List ℕ)
    (i : Inst) (s : ConvState) : Type 0 where
  pub after : ConvState
  pub runs : emit op v content s ≡ done tt after
  pub adds : add s.body.inst_tab i ≡ ok after.body.inst_tab
  pub holds : Holds l ret sl after
  pub graph : after.graph ≡ s.graph

module _ {l : Layout} {ret : ℕ} {sl : List Slot} {s : ConvState} (op : ℕ) (v : Valty) where
  pub emit-short :
      (o : Short)
      → IsEncodable (short op v o)
      → Holds l ret sl s
      → Emitted l ret sl op v (content o) (short op v o) s
  emit-short o (known, fits) h =
      let (ws, adds, reads, len) = encode (λ n. some_entry) 0 (short op v o) (known, fits) in
      record {
        after = with_tab (s.body.inst_tab ++ ws) s;
        runs =
            emit-ok s op v (content o) (mode o) (s.body.inst_tab ++ ws) known
              (adds s.body.inst_tab);
        adds = adds s.body.inst_tab;
        holds = with_tab-Holds l ret (s.body.inst_tab ++ ws) h;
        graph = refl;
      }

  pub emit-long :
      (o : Long)
      → IsEncodable (long op v o)
      → Holds l ret sl s
      → Emitted l ret sl op v (content_l o) (long op v o) s
  emit-long o (known, fits) h =
      let (ws, adds, reads, len) = encode (λ n. some_entry) 0 (long op v o) (known, fits) in
      record {
        after = with_tab (s.body.inst_tab ++ ws) s;
        runs =
            emit-ok s op v (content_l o) (mode_l o) (s.body.inst_tab ++ ws) known
              (adds s.body.inst_tab);
        adds = adds s.body.inst_tab;
        holds = with_tab-Holds l ret (s.body.inst_tab ++ ws) h;
        graph = refl;
      }

-- A run of an action that adds instructions.
pub record Converts (l : Layout) (ret : ℕ) (act : Conv (Unit {0})) (code : List Inst)
    (sl : List Slot) (s : ConvState) : Type 0 where
  pub after : ConvState
  pub runs : act s ≡ done tt after
  pub adds : add_all s.body.inst_tab code ≡ ok after.body.inst_tab
  pub holds : Holds l ret sl after
  pub graph : after.graph ≡ s.graph

-- Room for one more register of each type.
abbrev pub HasRoom : Layout → List Slot → Type 0
HasRoom l sl = (v : Valty) → top l v sl < 126

check_stack_elem_valty-ok :
    (e : StackElem) (v : Valty) (s : ConvState)
    → e.val_type ≡ some v
    → check_stack_elem_valty e (some v) s ≡ done tt s
unfolding check_stack_elem_valty lift
check_stack_elem_valty-ok e v s is = cc (same_valty_refl v)

pub add-one :
    (t t' : List ℕ) {tab : List ℕ} (i : Inst)
    → t ≡ t'
    → add t i ≡ ok tab
    → add_all t' (i ∷ []) ≡ ok tab
add-one t t' i same e = rw⁻¹ same (rw e refl)

module _ (l : Layout) (env : Env) (n op : ℕ) (v : Valty) (o2 o1 : Option ℕ) (sl : List Slot) where
  abbrev pub operands : Long
  operands = Long.r_r_r (top l v sl) (reg_of l (v, o1) sl) (reg_of l (v, o2) ((v, o1) ∷ sl))

  abbrev pub two_inst : Inst
  two_inst = long op v operands

  -- Two operands that are popped, and the result that is pushed for the instruction.
  record TwoRun (s : ConvState) : Type 0 where
    second : Popped l env.ret_reg_num none v o2 ((v, o1) ∷ sl) s
    first : Popped l env.ret_reg_num (some v) v o1 sl second.after
    result : Pushed l env.ret_reg_num n v sl first.after
    emitted :
        Emitted l env.ret_reg_num ((v, none) ∷ sl) op v (content_l operands) two_inst result.after

  module _ {s : ConvState} (encodable : IsEncodable two_inst)
      (room : HasRoom l ((v, o2) ∷ (v, o1) ∷ sl))
      (h : Holds l env.ret_reg_num ((v, o2) ∷ (v, o1) ∷ sl) s) where
    two_run : TwoRun s
    two_run =
        let small1 : top l v ((v, o1) ∷ sl) < 126 =
          omega (arith, room v, temps-le v ((v, o1) ∷ sl) o2 v) in
        let small : top l v sl < 126 = omega (arith, temps-le v sl o1 v) in
        let a = pop-Holds none o2 tt small1 h in
        let b = pop-Holds (some v) o1 (same_valty_refl v) small a.holds in
        let c = push-Holds n v small b.holds in
        record {
          second = a;
          first = b;
          result = c;
          emitted = emit-long op v operands encodable c.holds;
        }

    two-Converts :
        (act : Conv (Unit {0}))
        → ((r : TwoRun s) → act s ≡ done tt r.emitted.after)
        → Converts l env.ret_reg_num act (two_inst ∷ []) ((v, none) ∷ sl) s
    two-Converts act runs =
        let r = two_run in
        let same = r.result.same.body ∙ r.first.same.body ∙ r.second.same.body in
        record {
          after = r.emitted.after;
          runs = runs r;
          adds = add-one _ _ two_inst (ap (λ t. t.inst_tab) same) r.emitted.adds;
          holds = r.emitted.holds;
          graph = r.emitted.graph ∙ r.result.same.graph ∙ r.first.same.graph ∙ r.second.same.graph;
        }

    pub conv_two-Converts :
        Converts l env.ret_reg_num (conv_two env n op v v) (two_inst ∷ []) ((v, none) ∷ sl) s
    unfolding conv_two ◌>>=◌
    conv_two-Converts = two-Converts (conv_two env n op v v) (λ r.
        let a = r.second in
        let b = r.first in
        let c = r.result in
        cc (a.runs, a.has_ty, a.has_idx, b.runs, b.has_idx, c.runs, c.is_top, r.emitted.runs))

    pub conv_binary-Converts :
        Converts l env.ret_reg_num (conv_binary env n op v) (two_inst ∷ []) ((v, none) ∷ sl) s
    unfolding conv_binary ◌>>=◌
    conv_binary-Converts = two-Converts (conv_binary env n op v) (λ r.
        let a = r.second in
        let b = r.first in
        let c = r.result in
        let equal = check_stack_elem_valty-ok b.elem v b.after b.has_ty in
        cc
          (a.runs, a.has_ty, a.has_idx, b.runs, equal, b.has_idx, c.runs, c.is_top, r.emitted.runs))
