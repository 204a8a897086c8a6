-- ===== src/Conv/Forward.antt =====
-- When the actions on the virtual stack (src/wasm/converter.cxx) succeed, and the state they leave.
use uwasm_vm.Base.{
  ℕ, ◌+◌, ◌-◌, ◌≡◌, ◌<◌, ◌≤◌, arith, true, false, List, [], ◌∷◌, ◌++◌, length, length-append, leb,
  lt→ltb, if◌then◌else◌, Option, some, none, ok,
}
use uwasm_vm.Isa.Opcode.{Valty}
use uwasm_vm.Isa.Opcode.{TyAm}
use uwasm_vm.Isa.Table.{ty_am_of}
use uwasm_vm.Isa.Code.{add_inst}
use uwasm_vm.Conv.Pool.{
  Pool, Taken, get_available_reg, free_register, set_state, temp_occupied, free, is_free,
  is_temp_occupied, reg_l_max,
}
use uwasm_vm.Conv.State.{
  StackElem, is_temp, is_unreachable, ConvState, LocalTab, LocalTabElem, temp, same_valty,
  update_at, done, emit,
}
use uwasm_vm.Conv.Stack.{pop_wasm_stk, push_temp_reg, allocate_register}

-- An expected type that an element of the type passes.
abbrev pub Accepts : Option Valty → Valty → Type 0
Accepts none v = Unit
Accepts (some w) v = same_valty v w ≡ true

module _ (s : ConvState) (e : StackElem) (es : List StackElem) (v : Valty)
    (stack : s.wasm_stack ≡ e ∷ es) (typed : e.val_type ≡ some v) where
  pub pop-temp :
      (expect : Option Valty) (p : Pool)
      → Accepts expect v
      → is_temp e.kind ≡ true
      → free_register e.idx (s.regs v) ≡ ok p
      → pop_wasm_stk expect s ≡ done e (record s { wasm_stack = es; regs = update_at v p s.regs })
  unfolding pop_wasm_stk
  pop-temp none p a k f = cc
  pop-temp (some w) p a k f = cc

  pub pop-local :
      (expect : Option Valty)
      → Accepts expect v
      → is_temp e.kind ≡ false
      → is_unreachable e.kind ≡ false
      → pop_wasm_stk expect s ≡ done e (record s { wasm_stack = es })
  unfolding pop_wasm_stk
  pop-local none a k u = cc
  pop-local (some w) a k u = cc

abbrev pub table_elem : Valty → ℕ → LocalTabElem
table_elem v pc = record { kind = temp; val_type = v; push_stmt = pc }

-- The tables with a slot for the register `reg_id` of the type.
abbrev pub grown_tabs : ℕ → ℕ → ℕ → Valty → (Valty → LocalTab) → Valty → LocalTab
grown_tabs ret_reg_num reg_id pc v tabs =
    if leb (length (tabs v).content + ret_reg_num) reg_id
    then update_at v (record (tabs v) { content = (tabs v).content ++ (table_elem v pc ∷ []) }) tabs
    else tabs

abbrev pub temp_elem : Valty → ℕ → ℕ → StackElem
temp_elem v r pc = record { kind = temp; val_type = some v; idx = r; push_stmt = pc }

module _ (ret_reg_num pc : ℕ) (v : Valty) (s : ConvState) (t : Taken)
    (takes : get_available_reg (s.regs v) ≡ ok t)
    (room : t.reg_id ≤ length (s.local_tab v).content + ret_reg_num) where
  abbrev pub allocated : ConvState
  allocated = record s {
    regs = update_at v t.pool s.regs;
    local_tab = grown_tabs ret_reg_num t.reg_id pc v s.local_tab;
  }

  pub allocate_register-ok : allocate_register ret_reg_num pc v s ≡ done t.reg_id allocated
  unfolding allocate_register
  allocate_register-ok =
      let one : LocalTabElem = record { kind = temp; val_type = v; push_stmt = pc } in
      let longer = length-append (s.local_tab v).content (one ∷ []) in ground (arith, longer)

  pub push_temp_reg-ok :
      t.reg_id < 128
      → push_temp_reg ret_reg_num pc v s
        ≡ done t.reg_id (record allocated { wasm_stack = temp_elem v t.reg_id pc ∷ s.wasm_stack })
  unfolding push_temp_reg
  push_temp_reg-ok small = cc (allocate_register-ok, lt→ltb t.reg_id 128 small)

abbrev pub with_tab : List ℕ → ConvState → ConvState
with_tab tab s = record s { body = record s.body { inst_tab = tab } }

-- An instruction that add_inst accepts.
pub emit-ok :
    (s : ConvState) (op : ℕ) (v : Valty) (content : List ℕ) (t : TyAm) (tab : List ℕ)
    → ty_am_of op ≡ some t
    → add_inst s.body.inst_tab op v t content ≡ ok tab
    → emit op v content s ≡ done tt (with_tab tab s)
unfolding emit
emit-ok s op v content t tab known adds = cc

-- The pool behind a register that is taken, and behind one that is given back.
abbrev pub taken : Pool → Taken
taken p = record {
  reg_id = p.next_reg_id;
  pool = record {
    next_reg_id = p.next_reg_id + 1;
    register_state = set_state p.next_reg_id temp_occupied p.register_state;
  };
}

abbrev pub released : ℕ → Pool → Pool
released reg_id p = record {
  next_reg_id = p.next_reg_id - 1;
  register_state = set_state reg_id free p.register_state;
}

-- From `base` on the registers below the next one are occupied, and the others are free.
pub record PoolIs (base : ℕ) (p : Pool) : Type 0 where
  pub within : base ≤ p.next_reg_id
  pub temps : (i : ℕ) → base ≤ i → i < p.next_reg_id → is_temp_occupied (p.register_state i) ≡ true
  pub rest : (i : ℕ) → p.next_reg_id ≤ i → is_free (p.register_state i) ≡ true

module _ {base : ℕ} {p : Pool} (h : PoolIs base p) where
  pub get_available_reg-ok : p.next_reg_id < reg_l_max → get_available_reg p ≡ ok (taken p)
  unfolding get_available_reg
  get_available_reg-ok small = ground (arith, h.rest p.next_reg_id)

  pub taken-PoolIs : PoolIs base (taken p).pool
  taken-PoolIs = record {
    within = omega (arith, h.within);
    temps = λ i lo hi. ground (arith, h.temps i);
    rest = λ i lo. ground (arith, h.rest i);
  }

  module _ (r : ℕ) (above : base ≤ r) (top : r + 1 ≡ p.next_reg_id) where
    pub free_register-ok : r < 126 → free_register r p ≡ ok (released r p)
    unfolding free_register
    free_register-ok small = ground (arith, h.temps r)

    pub released-PoolIs : PoolIs base (released r p)
    released-PoolIs = record {
      within = omega arith;
      temps = λ i lo hi. ground (arith, h.temps i);
      rest = λ i lo. ground (arith, h.rest i);
    }
