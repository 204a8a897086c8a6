-- ===== src/Isa/Links.antt =====
-- The functions and the labels that Expand_code (src/ubh/u_module.cxx) finds, against the
-- instructions that the encoder was given.
use uwasm_vm.Base.{ℕ, zero, suc, ◌+◌, ◌<◌, ◌≡◌, ◌∙◌, refl, sym, ap, arith, true, false}
use uwasm_vm.Base.{
  List, [], ◌∷◌, ◌++◌, All, length, length-append, append_assoc, take, drop, drop-length, get_elem?,
  get_elem?-length, map,
}
use uwasm_vm.Base.{Option, some, none, ok, ok-injective}
use mathlib.Core.Path.{subst}
use uwasm_vm.Isa.Expand.{AmExpand}
use uwasm_vm.Isa.Code.{nothing}
use uwasm_vm.Isa.CodeRoundTrip.{
  Inst, short, long, IsEncodable, add_all, expanded_all, sizes, written_all, written_all-insts,
  encode_each,
}
use uwasm_vm.Isa.Module.{
  FuncCode, expand_labels, Placed, FuncExpanded, expand_func, FuncsExpanded, append_code,
  expand_funcs, ModuleExpanded, break_l, expand_code, with_break,
}

-- A function as it is given to the encoder: its instructions, and for each label the number of the
-- instruction that it stands before.
pub data Source : Type 0 where
  imported : Source
  code : List Inst → List ℕ → Source

-- What Set_label stores: the number of words of the instructions before.
abbrev pub label_pos : List Inst → ℕ → ℕ
label_pos is k = sizes (take k is)

abbrev pub IsEncoded : Source → FuncCode → Type 0
IsEncoded imported f = f.is_extern ≡ true
IsEncoded (code is targets) f =
    (f.is_extern ≡ false)
    × (add_all [] is ≡ ok f.inst_tab)
    × (f.lab_tab ≡ map (label_pos is) targets)

abbrev pub AreEncoded : List Source → List FuncCode → Type 0
AreEncoded [] [] = Unit
AreEncoded (s ∷ ss) (f ∷ fs) = IsEncoded s f × AreEncoded ss fs
AreEncoded [] (f ∷ fs) = ⊥
AreEncoded (s ∷ ss) [] = ⊥

abbrev pub IsLinkable : Source → Type 0
IsLinkable imported = Unit
IsLinkable (code is targets) =
    All IsEncodable is × (0 < length is) × All (λ k. k < length is) targets

-- A function's instructions start at its entry of _expanded_func_base, and its labels are that many
-- instructions further.
abbrev pub IsResolved : (ℕ → AmExpand) → List AmExpand → List Source → List (Option Placed) → Type 0
IsResolved raw table [] [] = Unit
IsResolved raw table (imported ∷ ss) (none ∷ ps) = IsResolved raw table ss ps
IsResolved raw table (code is targets ∷ ss) (some p ∷ ps) =
    ((more : List AmExpand) × (drop p.base table ≡ expanded_all raw p.base is ++ more))
    × (p.labels ≡ map (λ k. p.base + k) targets)
    × IsResolved raw table ss ps
IsResolved raw table [] (p ∷ ps) = ⊥
IsResolved raw table (s ∷ ss) [] = ⊥
IsResolved raw table (imported ∷ ss) (some p ∷ ps) = ⊥
IsResolved raw table (code is targets ∷ ss) (none ∷ ps) = ⊥

-- Where an instruction starts, the map has its number.
written_all-origin :
    (raw : ℕ → AmExpand) (is : List Inst) (pc n k : ℕ)
    → k < length is
    → get_elem? (written_all raw is pc n).origin_pc_map (label_pos is k) ≡ some (some (n + k))
written_all-origin raw [] pc n k h = absurd (omega arith)
written_all-origin raw (short op v o ∷ is) pc n zero h = ap (λ t. some (some t)) (omega arith)
written_all-origin raw (long op v o ∷ is) pc n zero h = ap (λ t. some (some t)) (omega arith)
written_all-origin raw (short op v o ∷ is) pc n (suc k) h =
    let next : 1 + label_pos is k ≡ suc (label_pos is k) = omega arith in
    rw next (
      written_all-origin raw is (pc + 1) (n + 1) k (omega arith)
      ∙ ap (λ t. some (some t)) (omega arith))
written_all-origin raw (long op v o ∷ is) pc n (suc k) h =
    let next : 2 + label_pos is k ≡ suc (suc (label_pos is k)) = omega arith in
    rw next (
      written_all-origin raw is (pc + 2) (n + 1) k (omega arith)
      ∙ ap (λ t. some (some t)) (omega arith))

module _ (raw : ℕ → AmExpand) (is : List Inst) (pc n : ℕ) where
  expand_labels-map :
      (targets : List ℕ)
      → All (λ k. k < length is) targets
      → expand_labels (written_all raw is pc n).origin_pc_map (map (label_pos is) targets)
        ≡ ok (map (λ k. n + k) targets)
  unfolding expand_labels
  expand_labels-map [] inside = refl
  expand_labels-map (k ∷ ks) (first, inside) =
      rw (written_all-origin raw is pc n k first, expand_labels-map ks inside) refl

  expand_func_lem :
      (f : FuncCode) (targets : List ℕ)
      → IsEncoded (code is targets) f
      → IsLinkable (code is targets)
      → expand_func raw f pc n
        ≡ ok (record {
          code = written_all raw is pc n;
          placed = record { base = n; labels = map (λ k. n + k) targets };
        })
  unfolding expand_func
  expand_func_lem f targets (own, words, labels) (fits, some_insts, inside) =
      let (ws, added, reads, len) = encode_each raw n is fits in
      let same : ws ≡ f.inst_tab = ok-injective (sym (added []) ∙ words) in
      let first : get_elem? (written_all raw is pc n).origin_pc_map 0 ≡ some (some n) =
        written_all-origin raw is pc n 0 some_insts ∙ ap (λ t. some (some t)) (omega arith) in
      rw (sym same, reads pc, labels, expand_labels-map targets inside, first) refl

module _ (raw : ℕ → AmExpand) where
  funcs_imported :
      (f : FuncCode) (fs : List FuncCode) (pc n : ℕ) (r : FuncsExpanded)
      → f.is_extern ≡ true
      → expand_funcs raw fs pc n ≡ ok r
      → expand_funcs raw (f ∷ fs) pc n ≡ ok (record r { placed = none ∷ r.placed })
  unfolding expand_funcs
  funcs_imported f fs pc n r own rest = rw (own, rest) refl

  funcs_code :
      (f : FuncCode) (fs : List FuncCode) (pc n : ℕ) (e : FuncExpanded) (r : FuncsExpanded)
      → f.is_extern ≡ false
      → expand_func raw f pc n ≡ ok e
      → expand_funcs raw fs (pc + length f.inst_tab) (n + length e.code.insts) ≡ ok r
      → expand_funcs raw (f ∷ fs) pc n
        ≡ ok (record { code = append_code e.code r.code; placed = some e.placed ∷ r.placed })
  unfolding expand_funcs
  funcs_code f fs pc n e r own this rest = rw (own, this, rest) refl

  regroup : (pre xs ys zs : List AmExpand) → pre ++ ((xs ++ ys) ++ zs) ≡ (pre ++ xs) ++ (ys ++ zs)
  regroup pre xs ys zs =
      ap (λ t. pre ++ t) (append_assoc xs ys zs) ∙ sym (append_assoc pre xs (ys ++ zs))

  -- Behind whatever entries stand before, and before whatever stands behind.
  funcs-IsResolved :
      (ss : List Source) (fs : List FuncCode) (pre : List AmExpand) (pc : ℕ)
      → AreEncoded ss fs
      → All IsLinkable ss
      → (r : FuncsExpanded) × (expand_funcs raw fs pc (length pre) ≡ ok r)
        × ((tail : List AmExpand) → IsResolved raw (pre ++ (r.code.insts ++ tail)) ss r.placed)
  unfolding expand_funcs
  funcs-IsResolved [] [] pre pc encoded links =
      (record { code = nothing; placed = [] }, refl, λ tail. tt)
  funcs-IsResolved [] (f ∷ fs) pre pc encoded links = absurd encoded
  funcs-IsResolved (s ∷ ss) [] pre pc encoded links = absurd encoded
  funcs-IsResolved (imported ∷ ss) (f ∷ fs) pre pc (own, others) (link, links) =
      let (r, expands, resolved) = funcs-IsResolved ss fs pre pc others links in
      (
        record r { placed = none ∷ r.placed },
        funcs_imported f fs pc (length pre) r own expands,
        resolved,
      )
  funcs-IsResolved (code is targets ∷ ss) (f ∷ fs) pre pc (own, others) (link, links) =
      let e : FuncExpanded = record {
        code = written_all raw is pc (length pre);
        placed = record { base = length pre; labels = map (λ k. length pre + k) targets };
      } in
      let xs : List AmExpand = e.code.insts in
      let (r, expands, resolved) =
        funcs-IsResolved ss fs (pre ++ xs) (pc + length f.inst_tab) others links in
      let start : length (pre ++ xs) ≡ length pre + length xs = length-append pre xs in
      let made =
        funcs_code f fs pc (length pre) e r own.0
          (expand_func_lem raw is pc (length pre) f targets own link)
          (ap (expand_funcs raw fs (pc + length f.inst_tab)) (sym start) ∙ expands) in
      (
        record { code = append_code e.code r.code; placed = some e.placed ∷ r.placed },
        made,
        λ tail. (
          (
            r.code.insts ++ tail,
            drop-length pre ((xs ++ r.code.insts) ++ tail)
                ∙ append_assoc xs r.code.insts tail
                ∙ ap (λ t. t ++ (r.code.insts ++ tail)) (written_all-insts raw is pc (length pre)),
          ),
          refl,
          subst (λ t. IsResolved raw t ss r.placed) (sym (regroup pre xs r.code.insts tail))
              (resolved tail),
        ),
      )

  -- Expand_code of functions that the encoder was given succeeds. Every function's instructions
  -- start at its entry of the function table, in order, each label leads to the instruction that it
  -- was set before, and the entry after _end_pc is the break instruction. The instructions are
  -- encodable, a function with code has one at least, and no label stands behind the last one.
  pub expand_code-IsResolved :
      (ss : List Source) (fs : List FuncCode)
      → AreEncoded ss fs
      → All IsLinkable ss
      → (m : ModuleExpanded) × (expand_code raw fs ≡ ok m)
        × IsResolved raw m.table ss m.placed
        × ((e : AmExpand) × (get_elem? m.table (m.end_pc + 1) ≡ some e) × (e.opcode_l ≡ break_l))
  unfolding expand_code
  expand_code-IsResolved ss fs encoded links =
      let (r, expands, resolved) = funcs-IsResolved ss fs [] 0 encoded links in
      let n : ℕ = length r.code.insts in
      let last : AmExpand = record (raw (n + 1)) { opcode_l = break_l } in
      let next : n + 1 ≡ length (r.code.insts ++ raw n ∷ []) =
        sym (length-append r.code.insts (raw n ∷ [])) in
      (
        with_break raw r,
        rw expands refl,
        resolved (raw n ∷ last ∷ []),
        (
          last,
          ap (get_elem? (r.code.insts ++ (raw n ∷ last ∷ []))) next
              ∙ ap (λ t. get_elem? t (length (r.code.insts ++ raw n ∷ [])))
                  (sym (append_assoc r.code.insts (raw n ∷ []) (last ∷ [])))
              ∙ get_elem?-length (r.code.insts ++ raw n ∷ []) last,
          refl,
        ),
      )
