-- ===== src/Isa/CodeRoundTrip.antt =====
-- Whole functions: the instructions that the encoder adds one after the other against what
-- Expand_code (src/ubh/u_module.cxx) makes of their words.
use uwasm_vm.Base.{
  ℕ, ◌+◌, ◌*◌, ◌/◌, ◌%◌, ◌^◌, ◌<◌, ◌≡◌, ◌∙◌, refl, ap, arith, true, false, length, length-append,
  ok-injective, >>=-eq-ok,
}
use uwasm_vm.Base.{some, List, [], ◌∷◌, ◌++◌, All, Result, ok, ◌>>=◌}
use mathlib.Core.List.{append_assoc, append-nil}
use uwasm_vm.Isa.Opcode.{Valty}
use uwasm_vm.Isa.Table.{ty_am_of}
use uwasm_vm.Isa.Word.{opcode, is_32bit_ty, is_32bit_opcode}
use uwasm_vm.Isa.Expand.{AmExpand, expand_inst32, expand_inst64}
use uwasm_vm.Isa.Operands.{Short, Long, plain, mode, mode_l, content, content_l, Fits, FitsLong}
use uwasm_vm.Isa.Operands.{place, place_l}
use uwasm_vm.Isa.RoundTrip.{with_opcode, expand-init_inst32, expand-init_inst64_0}
use uwasm_vm.Isa.Limits.{is_32bit_opcode-eq_ty}
use uwasm_vm.Isa.Code.{add_inst, Expanded, one_word, two_words, nothing, expand_words}

pub data Inst : Type 0 where
  short : ℕ → Valty → Short → Inst
  long : ℕ → Valty → Long → Inst

-- An opcode of the list with its address mode, and operands that fit.
abbrev pub IsEncodable : Inst → Type 0
IsEncodable (short op v o) = (ty_am_of op ≡ some (mode o)) × Fits o
IsEncodable (long op v o) = (ty_am_of op ≡ some (mode_l o)) × FitsLong o

abbrev pub expanded : Inst → AmExpand → AmExpand
expanded (short op v o) e = place o (with_opcode op v e)
expanded (long op v o) e = place_l o (with_opcode op v e)

abbrev pub add : List ℕ → Inst → Result (List ℕ)
add tab (short op v o) = add_inst tab op v (mode o) (content o)
add tab (long op v o) = add_inst tab op v (mode_l o) (content_l o)

-- The calls of Add_inst, in order.
abbrev pub add_all : List ℕ → List Inst → Result (List ℕ)
add_all tab [] = ok tab
add_all tab (i ∷ is) = do tab' ← add tab i; add_all tab' is

abbrev pub expanded_all : (ℕ → AmExpand) → ℕ → List Inst → List AmExpand
expanded_all raw n [] = []
expanded_all raw n (i ∷ is) = expanded i (raw n) ∷ expanded_all raw (n + 1) is

-- The words that an instruction takes.
abbrev pub size : Inst → ℕ
size (short op v o) = 1
size (long op v o) = 2

abbrev pub sizes : List Inst → ℕ
sizes [] = 0
sizes (i ∷ is) = size i + sizes is

-- What the loop writes for the instructions: an entry each, and the two maps.
abbrev written : Inst → AmExpand → ℕ → ℕ → Expanded → Expanded
written (short op v o) = one_word
written (long op v o) = two_words

abbrev pub written_all : (ℕ → AmExpand) → List Inst → ℕ → ℕ → Expanded
written_all raw [] pc n = nothing
written_all raw (i ∷ is) pc n =
    written i (expanded i (raw n)) pc n (written_all raw is (pc + size i) (n + 1))

-- The effect of one instruction's words, for any words that follow.
abbrev Reads : (ℕ → AmExpand) → ℕ → Inst → List ℕ → Type 0
Reads raw n i ws =
    (pc : ℕ) (rest : List ℕ) (r : Expanded)
    → expand_words raw rest (pc + size i) (n + 1) ≡ ok r
    → expand_words raw (ws ++ rest) pc n ≡ ok (written i (expanded i (raw n)) pc n r)

is_short : (o : Short) → is_32bit_ty (mode o) ≡ true
unfolding is_32bit_ty
is_short plain = refl
is_short _ = refl

is_long : (o : Long) → is_32bit_ty (mode_l o) ≡ false
unfolding is_32bit_ty
is_long (Long.r_imm a i) = refl
is_long _ = refl

module _ (raw : ℕ → AmExpand) (n w op : ℕ) (v : Valty) where
  read_short :
      (o : Short)
      → is_32bit_opcode (opcode w) ≡ true
      → expand_inst32 w (raw n) ≡ ok (expanded (short op v o) (raw n))
      → Reads raw n (short op v o) (w ∷ [])
  unfolding expand_words
  read_short o len e pc [] r got =
      rw (len, expand_words, e)
        (ap (λ t. ok (one_word (expanded (short op v o) (raw n)) pc n t)) (ok-injective got))
  read_short o len e pc (high ∷ rest) r got = rw (len, expand_words, e, got) refl

  read_long :
      (o : Long)
      → w < 2 ^ 64
      → is_32bit_opcode (opcode w) ≡ false
      → expand_inst64 w (raw n) ≡ ok (expanded (long op v o) (raw n))
      → Reads raw n (long op v o) (w % 2 ^ 32 ∷ w / 2 ^ 32 % 2 ^ 32 ∷ [])
  unfolding expand_words
  read_long o fits len e pc rest r got =
      let low : opcode (w % 2 ^ 32) ≡ opcode w = omega arith in
      let whole : w % 2 ^ 32 + w / 2 ^ 32 % 2 ^ 32 * 2 ^ 32 ≡ w = omega arith in
      rw (low, len, expand_words, whole, e, got) refl

-- The words of one instruction.
pub encode :
    (raw : ℕ → AmExpand) (n : ℕ) (i : Inst)
    → IsEncodable i
    → (ws : List ℕ) × ((tab : List ℕ) → add tab i ≡ ok (tab ++ ws))
      × Reads raw n i ws
      × (length ws ≡ size i)
unfolding add_inst
encode raw n (short op v o) (known, fits) =
    let (w, made, code, reads) = expand-init_inst32 0 op v (raw n) o known fits in
    let len : is_32bit_opcode (opcode w) ≡ true =
      ap is_32bit_opcode code ∙ is_32bit_opcode-eq_ty op (mode o) known ∙ is_short o in
    (w ∷ [], λ tab. rw (is_short o, add_inst, made), read_short raw n w op v o len reads, refl)
encode raw n (long op v o) (known, fits) =
    let (w, made, code, reads, below) = expand-init_inst64_0 op v (raw n) o known fits in
    let len : is_32bit_opcode (opcode w) ≡ false =
      ap is_32bit_opcode code ∙ is_32bit_opcode-eq_ty op (mode_l o) known ∙ is_long o in
    (
      w % 2 ^ 32 ∷ w / 2 ^ 32 % 2 ^ 32 ∷ [],
      λ tab. rw (is_long o, add_inst, made),
      read_long raw n w op v o below len reads,
      refl,
    )

pub add_all-append :
    (tab : List ℕ) (is js : List Inst) {mid : List ℕ}
    → add_all tab is ≡ ok mid
    → add_all tab (is ++ js) ≡ add_all mid js
add_all-append tab [] js e = ap (λ t. add_all t js) (ok-injective e)
add_all-append tab (i ∷ is) js e =
    let (tab', first, rest) = >>=-eq-ok (add tab i) _ e in rw first (add_all-append tab' is js rest)

pub encode_each :
    (raw : ℕ → AmExpand) (n : ℕ) (is : List Inst)
    → All IsEncodable is
    → (ws : List ℕ) × ((tab : List ℕ) → add_all tab is ≡ ok (tab ++ ws))
      × ((pc : ℕ) → expand_words raw ws pc n ≡ ok (written_all raw is pc n))
      × (length ws ≡ sizes is)
unfolding expand_words
encode_each raw n [] h = ([], λ tab. rw append-nil, λ pc. refl, refl)
encode_each raw n (i ∷ is) (h, hs) =
    let (ws, added, reads, len) = encode raw n i h in
    let (more, added_all, reads_all, len_all) = encode_each raw (n + 1) is hs in
    (
      ws ++ more,
      λ tab. rw (added tab, added_all (tab ++ ws), append_assoc),
      λ pc. reads pc more (written_all raw is (pc + size i) (n + 1)) (reads_all (pc + size i)),
      omega (arith, length-append ws more, len, len_all),
    )

pub written_all-insts :
    (raw : ℕ → AmExpand) (is : List Inst) (pc n : ℕ)
    → (written_all raw is pc n).insts ≡ expanded_all raw n is
written_all-insts raw [] pc n = refl
written_all-insts raw (short op v o ∷ is) pc n =
    ap (λ t. expanded (short op v o) (raw n) ∷ t) (written_all-insts raw is (pc + 1) (n + 1))
written_all-insts raw (long op v o ∷ is) pc n =
    ap (λ t. expanded (long op v o) (raw n) ∷ t) (written_all-insts raw is (pc + 2) (n + 1))

-- Adding instructions whose opcodes are in the list and whose operands fit never fails, and
-- expanding the words gives one entry for each instruction, in order: its opcode, its value type
-- and its operands, whatever the expanded table held before.
pub expand_words-add_all :
    (raw : ℕ → AmExpand) (pc n : ℕ) (is : List Inst)
    → All IsEncodable is
    → (ws : List ℕ) × (r : Expanded) × (add_all [] is ≡ ok ws)
      × (expand_words raw ws pc n ≡ ok r)
      × (r.insts ≡ expanded_all raw n is)
expand_words-add_all raw pc n is h =
    let (ws, added, reads, len) = encode_each raw n is h in
    (ws, written_all raw is pc n, added [], reads pc, written_all-insts raw is pc n)
