-- ===== src/Conv/Begun.antt =====
-- The tables that Create_ubh_code (src/wasm/converter.cxx) fills for the parameters and locals, one
-- after another.
use uwasm_vm.Base.{
  ℕ, suc, ◌+◌, ◌-◌, ◌≡◌, ◌<◌, refl, ap, sym, ◌∙◌, arith, false, List, [], ◌∷◌, ◌++◌, length,
  length-append, get_elem?, get_elem?-append, get_elem?-length, lt_of_get_elem?, take, take_append,
  take-length, append_assoc, some-injective, All, append-All, leb, some, Bool-cases, inl, inr,
}
use mathlib.Core.Path.{subst}
use mathlib.Core.List.{append-nil}
use uwasm_vm.Isa.Opcode.{Valty}
use uwasm_vm.Conv.State.{
  LocalKind, is_temp, is_unreachable, ConvState, LocalMapElem, LocalTab, LocalTabElem, same_valty,
}
use uwasm_vm.Conv.Locals.{add_local, add_locals}
use uwasm_vm.Conv.Registers.{same_valty_refl}
use uwasm_vm.Conv.Holds.{update_at-each}
use uwasm_vm.Conv.Places.{count, count-append}

abbrev pub IsOwn : LocalTabElem → Type 0
IsOwn e = (is_temp e.kind ≡ false) × (is_unreachable e.kind ≡ false)

-- The tables where the parameters and locals `d` have been added to those of the start `o`.
pub record Begun (ret : ℕ) (o : ConvState) (d : List Valty) (s : ConvState) : Type 0 where
  pub sizes : (v : Valty) → length (s.local_tab v).content ≡ count v d
  pub owns : (v : Valty) → All IsOwn (s.local_tab v).content
  pub many : length s.local_map ≡ length d
  pub entries :
      (i : ℕ) (v : Valty)
      → get_elem? d i ≡ some v
      → (e : LocalMapElem) × (get_elem? s.local_map i ≡ some e)
        × (e.ty ≡ v)
        × (e.reg_idx ≡ ret + count v (take i d))
  pub regs : s.regs ≡ o.regs
  pub wasm_stack : s.wasm_stack ≡ o.wasm_stack

abbrev added_tab : LocalKind → Valty → LocalTab → LocalTab
added_tab kind w tab = record tab {
  content = tab.content ++ (record { kind = kind; val_type = w; push_stmt = 0 } ∷ []);
}

abbrev added_elem : ℕ → LocalKind → Valty → LocalTab → LocalMapElem
added_elem ret kind w tab = record {
  reg_idx = length (added_tab kind w tab).content + ret - 1;
  ty = w;
  map_kind = kind;
}

count-one : (w : Valty) (d : List Valty) → count w (d ++ (w ∷ [])) ≡ count w d + 1
count-one w d =
    let one : count w (w ∷ []) ≡ 1 = rw (same_valty_refl w) refl in
    omega (arith, count-append w d (w ∷ []), one)

count-other :
    (w v : Valty) (d : List Valty) → same_valty w v ≡ false → count v (d ++ (w ∷ [])) ≡ count v d
count-other w v d ne =
    let no : count v (w ∷ []) ≡ 0 = rw ne refl in omega (arith, count-append v d (w ∷ []), no)

length-added :
    (kind : LocalKind) (w : Valty) (tab : LocalTab)
    → length (added_tab kind w tab).content ≡ length tab.content + 1
length-added kind w tab =
    length-append tab.content (record { kind = kind; val_type = w; push_stmt = 0 } ∷ [])

module _ {ret : ℕ} {o : ConvState} (kind : LocalKind) (own : is_temp kind ≡ false)
    (known : is_unreachable kind ≡ false) (w : Valty) {d : List Valty} {s : ConvState}
    (b : Begun ret o d s) where
  abbrev tab : LocalTab
  tab = added_tab kind w (s.local_tab w)

  abbrev elem : LocalMapElem
  elem = added_elem ret kind w (s.local_tab w)

  added_entry :
      (i : ℕ) (v : Valty)
      → get_elem? (d ++ (w ∷ [])) i ≡ some v
      → (e : LocalMapElem) × (get_elem? (s.local_map ++ (elem ∷ [])) i ≡ some e)
        × (e.ty ≡ v)
        × (e.reg_idx ≡ ret + count v (take i (d ++ (w ∷ []))))
  added_entry i v is = elim (Bool-cases (leb (suc i) (length d))) [
    | inl before ↦
        let lt : i < length d = ground arith in
        let (e, found, ty, reg) = b.entries i v (sym (get_elem?-append d (w ∷ []) i lt) ∙ is) in
        let same : get_elem? (s.local_map ++ (elem ∷ [])) i ≡ get_elem? s.local_map i =
          get_elem?-append s.local_map (elem ∷ []) i (omega (arith, b.many)) in
        (
          e,
          same ∙ found,
          ty,
          reg ∙ ap (λ t. ret + count v t) (sym (take_append i d (w ∷ []) (omega arith))),
        )
    | inr last ↦
        let at : length d ≡ i =
          ground (arith, lt_of_get_elem? (d ++ (w ∷ [])) i is, length-append d (w ∷ [])) in
        let is_w : w ≡ v =
          some-injective
            (sym (get_elem?-length d w) ∙ ap (λ k. get_elem? (d ++ (w ∷ [])) k) at ∙ is) in
        let all : take i (d ++ (w ∷ [])) ≡ d =
          take_append i d (w ∷ []) (omega arith) ∙ ap (λ k. take k d) (sym at) ∙ take-length d in
        let behind : count v (take i (d ++ (w ∷ []))) ≡ count w d = cc (all, is_w) in
        (
          elem,
          ap (λ k. get_elem? (s.local_map ++ (elem ∷ [])) k) (sym at ∙ sym b.many)
              ∙ get_elem?-length s.local_map elem,
          is_w,
          omega (arith, behind, length-added kind w (s.local_tab w), b.sizes w),
        )
  ]

  add_local-Begun : Begun ret o (d ++ (w ∷ [])) (add_local ret kind w s)
  unfolding add_local
  add_local-Begun = record {
    sizes =
        update_at-each (λ v t. length t.content ≡ count v (d ++ (w ∷ []))) w tab s.local_tab
          (omega (arith, length-added kind w (s.local_tab w), b.sizes w, count-one w d))
          (λ v ne. omega (arith, b.sizes v, count-other w v d ne));
    owns =
        update_at-each (λ v t. All IsOwn t.content) w tab s.local_tab
          (append-All IsOwn (s.local_tab w).content (_ ∷ []) (b.owns w) ((own, known), tt))
          (λ v ne. b.owns v);
    many =
        length-append s.local_map (elem ∷ [])
        ∙ ap (λ k. k + 1) b.many
        ∙ sym (length-append d (w ∷ []));
    entries = added_entry;
    regs = b.regs;
    wasm_stack = b.wasm_stack;
  }

pub add_locals-Begun :
    {ret : ℕ} {o : ConvState} (kind : LocalKind)
    → is_temp kind ≡ false
    → is_unreachable kind ≡ false
    → (vs d : List Valty) {s : ConvState} → Begun ret o d s
    → Begun ret o (d ++ vs) (add_locals ret kind vs s)
unfolding add_locals
add_locals-Begun {ret} {o} kind own known [] d {s} b =
    subst (λ t. Begun ret o t s) (sym (append-nil d)) b
add_locals-Begun {ret} {o} kind own known (w ∷ vs) d {s} b =
    let now =
      add_locals-Begun kind own known vs (d ++ (w ∷ [])) (add_local-Begun kind own known w b) in
    subst (λ t. Begun ret o t (add_locals ret kind vs (add_local ret kind w s)))
      (append_assoc d (w ∷ []) vs) now
