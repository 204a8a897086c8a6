-- ===== src/Isa/PcMaps.antt =====
-- The two maps that Expand_code (src/ubh/u_module.cxx) leaves for the debugger: from instructions to
-- words and back.
use uwasm_vm.Base.{ℕ, zero, suc, ◌+◌, ◌-◌, ◌*◌, ◌^◌, ◌<◌, ◌≤◌, ◌≡◌, refl, ap, ◌∙◌, arith, inl, inr}
use uwasm_vm.Base.{
  some, List, [], ◌∷◌, get_elem?, length, some_of_lt, lt_of_get_elem?, ok, err-ne-ok, >>=-eq-ok,
  ok-injective, Bool-cases,
}
use mathlib.Core.Path.{subst}
use uwasm_vm.Isa.Word.{opcode, is_32bit_opcode}
use uwasm_vm.Isa.Expand.{AmExpand, expand_inst32, expand_inst64}
use uwasm_vm.Isa.Code.{Expanded, one_word, two_words, nothing, expand_words}

-- From word `pc` and instruction `n` on, the entry of an instruction is a word whose entry is that
-- instruction.
abbrev pub IsInverse : ℕ → ℕ → Expanded → Type 0
IsInverse pc n r =
    (i p : ℕ)
    → get_elem? r.expanded_pc_map i ≡ some p
    → (pc ≤ p) × (get_elem? r.origin_pc_map (p - pc) ≡ some (some (n + i)))

nothing-IsInverse : (pc n : ℕ) → IsInverse pc n nothing
nothing-IsInverse pc n i p h = cc

one_word-IsInverse :
    (e : AmExpand) (pc n : ℕ) (r : Expanded)
    → IsInverse (pc + 1) (n + 1) r
    → IsInverse pc n (one_word e pc n r)
one_word-IsInverse e pc n r rest zero p h =
    let here : pc ≡ p = cc in
    let first : p - pc ≡ 0 = omega arith in
    (omega arith, rw first (ap (λ k. some (some k)) (omega arith)))
one_word-IsInverse e pc n r rest (suc i) p h =
    let (later, found) = rest i p h in
    let next : p - pc ≡ suc (p - (pc + 1)) = omega arith in
    (omega arith, rw next (found ∙ ap (λ k. some (some k)) (omega arith)))

two_words-IsInverse :
    (e : AmExpand) (pc n : ℕ) (r : Expanded)
    → IsInverse (pc + 2) (n + 1) r
    → IsInverse pc n (two_words e pc n r)
two_words-IsInverse e pc n r rest zero p h =
    let here : pc ≡ p = cc in
    let first : p - pc ≡ 0 = omega arith in
    (omega arith, rw first (ap (λ k. some (some k)) (omega arith)))
two_words-IsInverse e pc n r rest (suc i) p h =
    let (later, found) = rest i p h in
    let next : p - pc ≡ suc (suc (p - (pc + 2))) = omega arith in
    (omega arith, rw next (found ∙ ap (λ k. some (some k)) (omega arith)))

expand_words-IsInverse :
    (raw : ℕ → AmExpand) (ws : List ℕ) (pc n : ℕ) (r : Expanded)
    → expand_words raw ws pc n ≡ ok r
    → IsInverse pc n r
unfolding expand_words
expand_words-IsInverse raw [] pc n r got =
    let same : nothing ≡ r = ok-injective got in
    subst (λ t. IsInverse pc n t) same (nothing-IsInverse pc n)
expand_words-IsInverse raw (w ∷ []) pc n r got = elim (Bool-cases (is_32bit_opcode (opcode w))) [
  | inl short ↦
      let (e, made, done) =
        >>=-eq-ok (expand_inst32 w (raw n)) _ (rw (expand_words, short) at got) in
      subst (λ t. IsInverse pc n t) (ok-injective done)
        (one_word-IsInverse e pc n nothing (nothing-IsInverse (pc + 1) (n + 1)))
  | inr long ↦ absurd (err-ne-ok (rw (expand_words, long) at got))
]
expand_words-IsInverse raw (w ∷ high ∷ rest) pc n r got =
    elim (Bool-cases (is_32bit_opcode (opcode w))) [
      | inl short ↦
          let (e, made, more) =
            >>=-eq-ok (expand_inst32 w (raw n)) _ (rw (expand_words, short) at got) in
          let (t, expanded, done) =
            >>=-eq-ok (expand_words raw (high ∷ rest) (pc + 1) (n + 1)) _ more in
          subst (λ t. IsInverse pc n t) (ok-injective done)
            (one_word-IsInverse e pc n t
              (expand_words-IsInverse raw (high ∷ rest) (pc + 1) (n + 1) t expanded))
      | inr long ↦
          let (e, made, more) =
            >>=-eq-ok (expand_inst64 (w + high * 2 ^ 32) (raw n)) _
              (rw (expand_words, long) at got) in
          let (t, expanded, done) = >>=-eq-ok (expand_words raw rest (pc + 2) (n + 1)) _ more in
          subst (λ t. IsInverse pc n t) (ok-injective done)
            (two_words-IsInverse e pc n t
              (expand_words-IsInverse raw rest (pc + 2) (n + 1) t expanded))
    ]

-- The maps have an entry for each instruction, and for each word.
abbrev AreWhole : List ℕ → Expanded → Type 0
AreWhole ws r = (length r.expanded_pc_map ≡ length r.insts) × (length r.origin_pc_map ≡ length ws)

expand_words-AreWhole :
    (raw : ℕ → AmExpand) (ws : List ℕ) (pc n : ℕ) (r : Expanded)
    → expand_words raw ws pc n ≡ ok r
    → AreWhole ws r
unfolding expand_words
expand_words-AreWhole raw [] pc n r got = subst (AreWhole []) (ok-injective got) (refl, refl)
expand_words-AreWhole raw (w ∷ []) pc n r got = elim (Bool-cases (is_32bit_opcode (opcode w))) [
  | inl short ↦
      let (e, made, done) =
        >>=-eq-ok (expand_inst32 w (raw n)) _ (rw (expand_words, short) at got) in
      subst (AreWhole (w ∷ [])) (ok-injective done) (refl, refl)
  | inr long ↦ absurd (err-ne-ok (rw (expand_words, long) at got))
]
expand_words-AreWhole raw (w ∷ high ∷ rest) pc n r got =
    elim (Bool-cases (is_32bit_opcode (opcode w))) [
      | inl short ↦
          let (e, made, more) =
            >>=-eq-ok (expand_inst32 w (raw n)) _ (rw (expand_words, short) at got) in
          let (t, expanded, done) =
            >>=-eq-ok (expand_words raw (high ∷ rest) (pc + 1) (n + 1)) _ more in
          let (there, back) = expand_words-AreWhole raw (high ∷ rest) (pc + 1) (n + 1) t expanded in
          subst (AreWhole (w ∷ high ∷ rest)) (ok-injective done) (ap suc there, ap suc back)
      | inr long ↦
          let (e, made, more) =
            >>=-eq-ok (expand_inst64 (w + high * 2 ^ 32) (raw n)) _
              (rw (expand_words, long) at got) in
          let (t, expanded, done) = >>=-eq-ok (expand_words raw rest (pc + 2) (n + 1)) _ more in
          let (there, back) = expand_words-AreWhole raw rest (pc + 2) (n + 1) t expanded in
          subst (AreWhole (w ∷ high ∷ rest)) (ok-injective done)
            (ap suc there, ap (λ k. suc (suc k)) back)
    ]

-- Where expanding a function's words succeeds, the map to words has an entry for each instruction
-- and the map back one for each word. The entry of an instruction is a word of the function, and the
-- map back gives for that word the instruction again.
pub origin-expanded_pc_map :
    (raw : ℕ → AmExpand) (ws : List ℕ) (pc n : ℕ) (r : Expanded)
    → expand_words raw ws pc n ≡ ok r
    → (length r.expanded_pc_map ≡ length r.insts)
      × (length r.origin_pc_map ≡ length ws)
      × ((i : ℕ)
          → i < length r.insts
          → (p : ℕ) × (get_elem? r.expanded_pc_map i ≡ some p)
            × (pc ≤ p)
            × (p < pc + length ws)
            × (get_elem? r.origin_pc_map (p - pc) ≡ some (some (n + i))))
origin-expanded_pc_map raw ws pc n r got =
    let (there, back) = expand_words-AreWhole raw ws pc n r got in
    (
      there,
      back,
      λ i lt.
          let (p, entry) = some_of_lt r.expanded_pc_map i (omega arith) in
          let (le, found) = expand_words-IsInverse raw ws pc n r got i p entry in
          let inside = lt_of_get_elem? r.origin_pc_map (p - pc) found in
          (p, entry, le, omega arith, found),
    )
