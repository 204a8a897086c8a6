-- ===== src/Encoder/CodeLayout.antt =====
-- Where the code section holds what it holds: the offsets that Finish sets, the words that
-- Write_to_buf writes (src/encoder/u_inst_encoder.cxx), and the walk of Set_code_sec
-- (src/ubh/u_module.cxx).
use uwasm_vm.Base.{ℕ, suc, ◌+◌, ◌*◌, ◌/◌, ◌%◌, ◌^◌, ◌<◌, ◌≡◌, refl, sym, ap, ◌∙◌, arith}
use uwasm_vm.Base.{
  List, [], ◌∷◌, ◌++◌, length, length-append, append_assoc, drop, drop-length, All, Option, some,
  none,
}
use uwasm_vm.Base.{ok, >>=-eq-ok, ok-injective}
use mathlib.Core.Path.{subst}
use uwasm_vm.Base.{true}
use uwasm_vm.Encoder.Code.{complete}
use uwasm_vm.Encoder.Code.{
  CodeBody, ubh_code_size, entry_size, finish_body, finish, label_words, write_to_buf, code_offsets,
}

-- Within the bit fields of UBH_CODE.
pub record IsSmall (b : CodeBody) : Type 0 where
  pub insts : length b.inst_tab < 2 ^ 20
  pub labels : length b.lab_tab < 2 ^ 12

-- In the words of a section, the code of a body at offset `off` stands where its offsets say.
pub record IsPlaced (words : List ℕ) (off : ℕ) (b : CodeBody) : Type 0 where
  pub inst_off : b.inst_tab_off ≡ off + ubh_code_size
  pub after_insts : List ℕ
  pub insts : drop (b.inst_tab_off / 4) words ≡ b.inst_tab ++ after_insts
  pub after_labels : List ℕ
  pub labels : drop (b.label_tab_off / 4) words ≡ label_words b.lab_tab ++ after_labels

abbrev pub IsLaidOut : List ℕ → List ℕ → List CodeBody → Type 0
IsLaidOut words [] [] = Unit
IsLaidOut words (off ∷ offs) (b ∷ bs) = IsPlaced words off b × IsLaidOut words offs bs
IsLaidOut words [] (b ∷ bs) = ⊥
IsLaidOut words (off ∷ offs) [] = ⊥

length-label_words : (ls : List (Option ℕ)) → length (label_words ls) ≡ length ls
length-label_words [] = refl
length-label_words (some pos ∷ ls) = ap suc (length-label_words ls)
length-label_words (none ∷ ls) = ap suc (length-label_words ls)

-- What lies behind two stretches of words.
behind :
    (words pre mid rest : List ℕ) (off : ℕ)
    → words ≡ pre ++ (mid ++ rest)
    → off ≡ 4 * (length pre + length mid)
    → drop (off / 4) words ≡ rest
behind words pre mid rest off made place =
    let count : off / 4 ≡ length (pre ++ mid) = omega (arith, length-append pre mid) in
    rw (count, made, sym (append_assoc pre mid rest)) (drop-length (pre ++ mid) rest)

-- Finish, for one body.
finish_body_lem :
    (off : ℕ) (b d : CodeBody)
    → finish_body off b ≡ ok d
    → d ≡ record b {
      label_num = length b.lab_tab % 2 ^ 12;
      code_size = length b.inst_tab % 2 ^ 20;
      inst_tab_off = off + ubh_code_size;
      label_tab_off = off + ubh_code_size + 4 * length b.inst_tab;
    }
unfolding finish_body
finish_body_lem off b d done = ground arith

abbrev pub total : List CodeBody → ℕ
total [] = 0
total (b ∷ bs) = ubh_code_size + 4 * (length b.inst_tab + length b.lab_tab) + total bs

abbrev finished : ℕ → CodeBody → CodeBody
finished off b = record b {
  label_num = length b.lab_tab % 2 ^ 12;
  code_size = length b.inst_tab % 2 ^ 20;
  inst_tab_off = off + ubh_code_size;
  label_tab_off = off + ubh_code_size + 4 * length b.inst_tab;
}

finished-IsPlaced :
    (pre head rest : List ℕ) (b : CodeBody)
    → length head ≡ 10
    → IsPlaced
        (pre ++ (head ++ (b.inst_tab ++ (label_words b.lab_tab ++ rest))))
        (4 * length pre)
        (finished (4 * length pre) b)
finished-IsPlaced pre head rest b ten =
    let words : List ℕ = pre ++ (head ++ (b.inst_tab ++ (label_words b.lab_tab ++ rest))) in
    record {
      inst_off = refl;
      after_insts = label_words b.lab_tab ++ rest;
      insts = behind words pre head _ _ refl (omega (arith, ten));
      after_labels = rest;
      labels =
          behind words pre (head ++ b.inst_tab) _ _
            (ap (λ t. pre ++ t)
              (sym (append_assoc head b.inst_tab (label_words b.lab_tab ++ rest))))
            (omega (arith, ten, length-append head b.inst_tab));
    }

module _ (head : CodeBody → List ℕ) (ten : (b : CodeBody) → length (head b) ≡ 10) where
  -- The words of the first body, before those of the others.
  abbrev words_of : CodeBody → List ℕ
  words_of d = head d ++ (d.inst_tab ++ label_words d.lab_tab)

  length-words_of :
      (d : CodeBody)
      → 4 * length (words_of d) ≡ ubh_code_size + 4 * (length d.inst_tab + length d.lab_tab)
  length-words_of d = omega (
    arith,
    length-append (head d) (d.inst_tab ++ label_words d.lab_tab),
    length-append d.inst_tab (label_words d.lab_tab),
    length-label_words d.lab_tab,
    ten d,
  )

  split_words :
      (d : CodeBody) (pre rest : List ℕ)
      → pre ++ (head d ++ (d.inst_tab ++ (label_words d.lab_tab ++ rest)))
        ≡ (pre ++ words_of d) ++ rest
  split_words d pre rest =
      ap (λ t. pre ++ (head d ++ t)) (sym (append_assoc d.inst_tab (label_words d.lab_tab) rest))
      ∙ ap (λ t. pre ++ t) (sym (append_assoc (head d) (d.inst_tab ++ label_words d.lab_tab) rest))
      ∙ sym (append_assoc pre (words_of d) rest)

  module _ (b : CodeBody) (pre : List ℕ) (small : IsSmall b) where
    abbrev done : CodeBody
    done = finished (4 * length pre) b

    -- Where the next body starts, in bytes.
    next_start :
        4 * length (pre ++ words_of done)
        ≡ 4 * length pre + ubh_code_size + 4 * (length b.inst_tab + length b.lab_tab)
    next_start = omega (arith, length-append pre (words_of done), length-words_of done)

    cons-IsLaidOut :
        (rest : List CodeBody)
        → IsLaidOut
            ((pre ++ words_of done) ++ write_to_buf head rest)
            (code_offsets (4 * length (pre ++ words_of done)) rest)
            rest
        → IsLaidOut
            (pre ++ write_to_buf head (done ∷ rest))
            (code_offsets (4 * length pre) (done ∷ rest))
            (done ∷ rest)
    unfolding write_to_buf code_offsets
    cons-IsLaidOut rest others =
        let walk : 4 * length pre + ubh_code_size + done.code_size * 4 + done.label_num * 4
            ≡ 4 * length (pre ++ words_of done) =
          omega (arith, next_start, small.insts, small.labels) in
        let made : pre ++ write_to_buf head (done ∷ rest)
            ≡ (pre ++ words_of done) ++ write_to_buf head rest =
          split_words done pre (write_to_buf head rest) in
        (
          finished-IsPlaced pre (head done) (write_to_buf head rest) b (ten done),
          subst
              (λ start.
                IsLaidOut (pre ++ write_to_buf head (done ∷ rest)) (code_offsets start rest) rest)
              (sym walk)
              (subst
                (λ words.
                  IsLaidOut words (code_offsets (4 * length (pre ++ words_of done)) rest) rest)
                (sym made) others),
        )

  laid_out :
      (bs ds : List CodeBody) (pre : List ℕ)
      → finish (4 * length pre) bs ≡ ok ds
      → All IsSmall bs
      → 4 * length pre + total bs < 2 ^ 32
      → IsLaidOut (pre ++ write_to_buf head ds) (code_offsets (4 * length pre) ds) ds
  unfolding finish write_to_buf code_offsets
  laid_out [] ds pre e small room =
      subst (λ t. IsLaidOut (pre ++ write_to_buf head t) (code_offsets (4 * length pre) t) t)
        (ok-injective e) tt
  laid_out (b ∷ bs) ds pre e (first, small) room =
      let (d, one, more) = >>=-eq-ok (finish_body (4 * length pre) b) _ e in
      let (rest, others, all) =
        >>=-eq-ok (finish ((4 * length pre + entry_size d) % 2 ^ 32) bs) _ more in
      let same : done b pre first ≡ d = sym (finish_body_lem (4 * length pre) b d one) in
      let offset : (4 * length pre + entry_size d) % 2 ^ 32
          ≡ 4 * length (pre ++ words_of (done b pre first)) =
        rw⁻¹ same (omega (arith, next_start b pre first)) in
      let tail =
        laid_out bs rest (pre ++ words_of (done b pre first))
          (ap (λ n. finish n bs) (sym offset) ∙ others) small
          (omega (arith, next_start b pre first)) in
      subst (λ t. IsLaidOut (pre ++ write_to_buf head t) (code_offsets (4 * length pre) t) t)
        (ap (λ t. t ∷ rest) same ∙ ok-injective all) (cons-IsLaidOut b pre first rest tail)

  finish-ok :
      (off : ℕ) (bs : List CodeBody)
      → All (λ b. complete b.lab_tab ≡ true) bs
      → (ds : List CodeBody) × (finish off bs ≡ ok ds)
  unfolding finish finish_body
  finish-ok off [] set = ([], refl)
  finish-ok off (b ∷ bs) (first, set) =
      let (rest, others) = finish-ok ((off + entry_size (finished off b)) % 2 ^ 32) bs set in
      (finished off b ∷ rest, rw (finish, first, others) refl)

  -- Where every label is set, the encoder finishes, Set_code_sec walks to every UBH_CODE of the
  -- section that is written then, and each one's two offsets are where its instructions and its
  -- labels stand. The section is below 2 ^ 32 bytes, and every function has fewer than 2 ^ 20 words
  -- of code and 2 ^ 12 labels.
  pub finish-IsLaidOut :
      (bs : List CodeBody)
      → All (λ b. complete b.lab_tab ≡ true) bs
      → All IsSmall bs
      → total bs < 2 ^ 32
      → (ds : List CodeBody) × (finish 0 bs ≡ ok ds)
        × IsLaidOut (write_to_buf head ds) (code_offsets 0 ds) ds
  finish-IsLaidOut bs set small room =
      let (ds, e) = finish-ok 0 bs set in (ds, e, laid_out bs ds [] e small (omega arith))
