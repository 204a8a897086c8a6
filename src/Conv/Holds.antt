-- ===== src/Conv/Holds.antt =====
-- The state of the converter (src/wasm/converter.cxx) that has these places on its stack, and what
-- taking a place off or putting one on makes of it.
use uwasm_vm.Base.{
  ℕ, ◌+◌, ◌-◌, ◌≡◌, ◌<◌, ◌≤◌, refl, ap, sym, arith, true, false, List, [], ◌∷◌, ◌++◌, length,
  length-append, get_elem?, get_elem?-append, lt_of_get_elem?, leb, Option, some, none, Bool-cases,
  inl, inr,
}
use mathlib.Core.Path.{subst}
use mathlib.Core.List.{append-nil}
use uwasm_vm.Isa.Opcode.{Valty}
use uwasm_vm.Conv.Pool.{Pool}
use uwasm_vm.Conv.State.{
  StackElem, is_temp, is_unreachable, ConvState, LocalMapElem, LocalTab, LocalTabElem, same_valty,
  update_at, done,
}
use uwasm_vm.Conv.Stack.{pop_wasm_stk, push_temp_reg}
use uwasm_vm.Conv.Forward.{
  Accepts, pop-temp, pop-local, grown_tabs, table_elem, temp_elem, allocated, push_temp_reg-ok,
  taken, released, PoolIs, get_available_reg-ok, taken-PoolIs, free_register-ok, released-PoolIs,
  with_tab,
}
use uwasm_vm.Conv.Straight.{Slot}
use uwasm_vm.Conv.Registers.{Layout, temps, top, reg_of, same_valty_refl, same_valty-eq}

-- The kind of an element: a temporary is one of the converter's own.
abbrev pub KindIs : Option ℕ → StackElem → Type 0
KindIs none e = is_temp e.kind ≡ true
KindIs (some i) e = (is_temp e.kind ≡ false) × (is_unreachable e.kind ≡ false)

abbrev pub StackIs : Layout → List StackElem → List Slot → Type 0
StackIs l [] [] = Unit
StackIs l (e ∷ es) ((v, o) ∷ sl) =
    (e.val_type ≡ some v) × (e.idx ≡ reg_of l (v, o) sl) × KindIs o e × StackIs l es sl
StackIs l _ _ = ⊥

-- The entries of a local in the map and in the table.
pub record LocalIs (l : Layout) (ret : ℕ) (elems : List LocalMapElem) (content : List LocalTabElem)
    (i : ℕ) (v : Valty) : Type 0 where
  pub elem : LocalMapElem
  pub found : get_elem? elems i ≡ some elem
  pub has_ty : elem.ty ≡ v
  pub has_reg : elem.reg_idx ≡ l.loc i
  pub above : ret ≤ l.loc i
  pub tab_elem : LocalTabElem
  pub in_tab : get_elem? content (l.loc i - ret) ≡ some tab_elem
  pub not_temp : is_temp tab_elem.kind ≡ false
  pub not_unreachable : is_unreachable tab_elem.kind ≡ false

-- The registers of a type, of which the places have the first ones.
abbrev pub PoolAt : Layout → List Slot → Valty → Pool → Type 0
PoolAt l sl v p = PoolIs (l.base v) p × (p.next_reg_id ≡ top l v sl)

pub record Holds (l : Layout) (ret : ℕ) (sl : List Slot) (s : ConvState) : Type 0 where
  pub stack : StackIs l s.wasm_stack sl
  pub pools : (v : Valty) → PoolAt l sl v (s.regs v)
  pub tables : (v : Valty) → top l v sl ≤ length (s.local_tab v).content + ret
  pub locals :
      (i : ℕ) (v : Valty)
      → get_elem? l.locals i ≡ some v
      → LocalIs l ret s.local_map (s.local_tab v).content i v

-- What the actions on the stack leave alone.
pub record Same (s s' : ConvState) : Type 0 where
  pub body : s'.body ≡ s.body
  pub graph : s'.graph ≡ s.graph

module _ (l : Layout) (ret : ℕ) where
  pub with_tab-Holds :
      (tab : List ℕ) {sl : List Slot} {s : ConvState}
      → Holds l ret sl s
      → Holds l ret sl (with_tab tab s)
  with_tab-Holds tab h = record {
    stack = h.stack;
    pools = h.pools;
    tables = h.tables;
    locals = h.locals;
  }

module _ (w : Valty) (sl : List Slot) where
  temps-pop : (v : Valty) → same_valty w v ≡ true → temps v ((w, none) ∷ sl) ≡ temps v sl + 1
  temps-pop v e = ground arith

  temps-other : (v : Valty) → same_valty w v ≡ false → temps v ((w, none) ∷ sl) ≡ temps v sl
  temps-other v e = cc

  pub temps-le : (o : Option ℕ) (v : Valty) → temps v sl ≤ temps v ((w, o) ∷ sl)
  temps-le none v = ground arith
  temps-le (some i) v = omega arith

  pub temps-own : temps w ((w, none) ∷ sl) ≡ temps w sl + 1
  temps-own = temps-pop w (same_valty_refl w)

pub update_at-each {ℓ} :
    {A : Type ℓ} (P : Valty → A → Type 0) (v : Valty) (x : A) (f : Valty → A)
    → P v x
    → ((w : Valty) → same_valty v w ≡ false → P w (f w))
    → (w : Valty) → P w (update_at v x f w)
update_at-each P v x f px pf w = elim (Bool-cases (same_valty v w)) [
  | inl e ↦ rw e (subst (λ t. P t x) (same_valty-eq v w e) px)
  | inr e ↦ rw e (pf w e)
]

-- The elements of a stack that has a place on top.
stack_cases :
    (l : Layout) (st : List StackElem) (v : Valty) (o : Option ℕ) (sl : List Slot)
    → StackIs l st ((v, o) ∷ sl)
    → (e : StackElem) × (es : List StackElem) × (st ≡ e ∷ es)
      × (e.val_type ≡ some v)
      × (e.idx ≡ reg_of l (v, o) sl)
      × KindIs o e
      × StackIs l es sl
stack_cases l [] v o sl h = absurd h
stack_cases l (e ∷ es) v o sl (ty, idx, kind, rest) = (e, es, refl, ty, idx, kind, rest)

pub record Popped (l : Layout) (ret : ℕ) (expect : Option Valty) (v : Valty) (o : Option ℕ)
    (sl : List Slot) (s : ConvState) : Type 0 where
  pub elem : StackElem
  pub after : ConvState
  pub runs : pop_wasm_stk expect s ≡ done elem after
  pub has_ty : elem.val_type ≡ some v
  pub has_idx : elem.idx ≡ reg_of l (v, o) sl
  pub holds : Holds l ret sl after
  pub same : Same s after

module _ {l : Layout} {ret : ℕ} {v : Valty} {sl : List Slot} {s : ConvState} where
  pub pop-Holds :
      (expect : Option Valty) (o : Option ℕ)
      → Accepts expect v
      → top l v sl < 126
      → Holds l ret ((v, o) ∷ sl) s
      → Popped l ret expect v o sl s
  pop-Holds expect none accepts small h =
      let (e, es, shape, ty, idx, kind, rest) = stack_cases l s.wasm_stack v none sl h.stack in
      let (is, at) = h.pools v in
      let own = temps-own v sl in
      let p = released e.idx (s.regs v) in
      let free = free_register-ok is e.idx (omega arith) (omega arith) (omega arith) in
      record {
        elem = e;
        after = record s { wasm_stack = es; regs = update_at v p s.regs };
        runs = pop-temp s e es v shape ty expect p accepts kind free;
        has_ty = ty;
        has_idx = idx;
        same = record { body = refl; graph = refl };
        holds = record {
          stack = rest;
          pools =
              update_at-each (PoolAt l sl) v p s.regs
                (released-PoolIs is e.idx (omega arith) (omega arith), omega arith)
                (λ w ne. let (is', at') = h.pools w in (is', omega (arith, temps-other v sl w ne)));
          tables = λ w. omega (arith, h.tables w, temps-le v sl none w);
          locals = h.locals;
        };
      }
  pop-Holds expect (some i) accepts small h =
      let (e, es, shape, ty, idx, (own, un), rest) =
        stack_cases l s.wasm_stack v (some i) sl h.stack in
      record {
        elem = e;
        after = record s { wasm_stack = es };
        runs = pop-local s e es v shape ty expect accepts own un;
        has_ty = ty;
        has_idx = idx;
        same = record { body = refl; graph = refl };
        holds = record { stack = rest; pools = h.pools; tables = h.tables; locals = h.locals };
      }

-- A table that grows keeps its elements.
grown_tabs-content :
    (ret r pc : ℕ) (v : Valty) (tabs : Valty → LocalTab) (w : Valty)
    → (more : List LocalTabElem) × ((grown_tabs ret r pc v tabs w).content
        ≡ (tabs w).content ++ more)
grown_tabs-content ret r pc v tabs w = elim (Bool-cases (leb (length (tabs v).content + ret) r)) [
  | inl e ↦ rw e (
      update_at-each (λ u t. (more : List LocalTabElem) × (t.content ≡ (tabs u).content ++ more)) v
        _ tabs (_, refl) (λ u ne. ([], sym (append-nil _))) w)
  | inr e ↦ rw e ([], sym (append-nil _))
]

-- A register that is at most one behind the table is in it then.
grown_tabs-room :
    (ret r pc : ℕ) (v : Valty) (tabs : Valty → LocalTab)
    → r ≤ length (tabs v).content + ret
    → r + 1 ≤ length (grown_tabs ret r pc v tabs v).content + ret
grown_tabs-room ret r pc v tabs room = elim (Bool-cases (leb (length (tabs v).content + ret) r)) [
  | inl e ↦
      rw (e, same_valty_refl v)
        (omega (arith, length-append (tabs v).content (table_elem v pc ∷ [])))
  | inr e ↦ rw e (ground arith)
]

LocalIs-grown :
    {l : Layout} {ret i : ℕ} {w : Valty} {elems : List LocalMapElem}
    {content content' : List LocalTabElem}
    → (more : List LocalTabElem) × (content' ≡ content ++ more)
    → LocalIs l ret elems content i w
    → LocalIs l ret elems content' i w
LocalIs-grown {l} {ret} {i} {content = content} (more, e) o = record {
  elem = o.elem;
  found = o.found;
  has_ty = o.has_ty;
  has_reg = o.has_reg;
  above = o.above;
  tab_elem = o.tab_elem;
  in_tab =
      rw (e, get_elem?-append content more (l.loc i - ret) (lt_of_get_elem? content _ o.in_tab))
        o.in_tab;
  not_temp = o.not_temp;
  not_unreachable = o.not_unreachable;
}

pub record Pushed (l : Layout) (ret pc : ℕ) (v : Valty) (sl : List Slot) (s : ConvState)
    : Type 0 where
  pub reg_id : ℕ
  pub after : ConvState
  pub runs : push_temp_reg ret pc v s ≡ done reg_id after
  pub is_top : reg_id ≡ top l v sl
  pub holds : Holds l ret ((v, none) ∷ sl) after
  pub same : Same s after

module _ {l : Layout} {ret : ℕ} {sl : List Slot} {s : ConvState} where
  pub push-Holds :
      (pc : ℕ) (v : Valty) → top l v sl < 126 → Holds l ret sl s → Pushed l ret pc v sl s
  push-Holds pc v small h =
      let (is, at) = h.pools v in
      let t = taken (s.regs v) in
      let takes = get_available_reg-ok is (omega arith) in
      let room : t.reg_id ≤ length (s.local_tab v).content + ret = omega (arith, h.tables v) in
      let now = allocated ret pc v s t takes room in
      let grows = grown_tabs-content ret t.reg_id pc v s.local_tab in
      record {
        reg_id = t.reg_id;
        after = record now { wasm_stack = temp_elem v t.reg_id pc ∷ s.wasm_stack };
        runs = push_temp_reg-ok ret pc v s t takes room (omega arith);
        is_top = at;
        same = record { body = refl; graph = refl };
        holds = record {
          stack = (refl, at, refl, h.stack);
          pools =
              update_at-each (PoolAt l ((v, none) ∷ sl)) v t.pool s.regs
                (taken-PoolIs is, omega (arith, temps-own v sl))
                (λ w ne. let (is', at') = h.pools w in (is', omega (arith, temps-other v sl w ne)));
          tables = λ w. elim (Bool-cases (same_valty v w)) [
            | inl e ↦
                subst
                  (λ u.
                    top l u ((v, none) ∷ sl)
                    ≤ length (grown_tabs ret t.reg_id pc v s.local_tab u).content + ret)
                  (same_valty-eq v w e)
                  (omega
                    (arith, grown_tabs-room ret t.reg_id pc v s.local_tab room, temps-own v sl))
            | inr e ↦
                let (more, longer) = grows w in
                omega (
                  arith,
                  temps-other v sl w e,
                  h.tables w,
                  ap length longer,
                  length-append (s.local_tab w).content more,
                )
          ];
          locals = λ i w g. LocalIs-grown (grows w) (h.locals i w g);
        };
      }
