-- ===== src/Encoder/Buffers.antt =====
-- Writes to the buffer of Write_to_file (src/encoder/u_encoder.cxx), one behind another.
use uwasm_vm.Base.{
  ℕ, zero, suc, ◌+◌, ◌-◌, ◌*◌, ◌≤◌, ◌≡◌, refl, sym, ap, ◌∙◌, arith, Bool, true, false, leb, leb→le,
  err-ne-ok, List, [], ◌∷◌, ◌++◌, length, length-append, length-replicate, append_assoc, take, drop,
  replicate, take_append, take-length, ok, defined_if, >>=-eq-ok,
}
use mathlib.Core.List.{append-nil}
use uwasm_vm.Encoder.Shdr.{Shdr}
use uwasm_vm.Encoder.Sections.{write_at, shdr_bytes, shdrs_of, shdr_size}

drop-replicate : (n m x : ℕ) → drop n (replicate m x) ≡ replicate (m - n) x
drop-replicate zero m x = let same : m ≡ m - 0 = omega arith in ap (λ k. replicate k x) same
drop-replicate (suc n) zero x =
    let same : 0 ≡ 0 - suc n = omega arith in ap (λ k. replicate k x) same
drop-replicate (suc n) (suc m) x =
    let same : m - n ≡ suc m - suc n = omega arith in
    drop-replicate n m x ∙ ap (λ k. replicate k x) same

drop_further : (n : ℕ) (xs ys : List ℕ) → drop (length xs + n) (xs ++ ys) ≡ drop n ys
drop_further n [] ys = let same : 0 + n ≡ n = omega arith in ap (λ k. drop k ys) same
drop_further n (x ∷ xs) ys =
    let same : suc (length xs) + n ≡ suc (length xs + n) = omega arith in
    ap (λ k. drop k (x ∷ (xs ++ ys))) same ∙ drop_further n xs ys

-- A write behind what has been written.
pub write_at-append :
    (off k : ℕ) (front bytes : List ℕ)
    → off ≡ length front
    → length bytes ≤ k
    → write_at off bytes (front ++ replicate k 0)
      ≡ ok ((front ++ bytes) ++ replicate (k - length bytes) 0)
unfolding write_at
write_at-append off k front bytes at room =
    let inside : leb (off + length bytes) (length (front ++ replicate k 0)) ≡ true =
      ground (arith, length-append front (replicate k 0), length-replicate {A = ℕ} k 0) in
    let before : take off (front ++ replicate k 0) ≡ front =
      ap (λ n. take n (front ++ replicate k 0)) at
      ∙ take_append (length front) front (replicate k 0) (omega arith)
      ∙ take-length front in
    let behind : drop (off + length bytes) (front ++ replicate k 0)
        ≡ replicate (k - length bytes) 0 =
      ap (λ n. drop (n + length bytes) (front ++ replicate k 0)) at
      ∙ drop_further (length bytes) front (replicate k 0)
      ∙ drop-replicate (length bytes) k 0 in
    rw (inside, before, behind)
      (ap ok (sym (append_assoc front bytes (replicate (k - length bytes) 0))))

pub defined_true : (b : Bool) {u : Unit {0}} → defined_if b ≡ ok u → b ≡ true
defined_true true e = refl
defined_true false e = absurd (err-ne-ok e)

-- A write that succeeds is inside the buffer.
pub write_at-inside :
    (off : ℕ) (bytes buf : List ℕ) {r : List ℕ}
    → write_at off bytes buf ≡ ok r
    → off + length bytes ≤ length buf
unfolding write_at
write_at-inside off bytes buf e =
    let (u, inside, done) = >>=-eq-ok (defined_if (leb (off + length bytes) (length buf))) _ e in
    leb→le _ _ (defined_true _ inside)

-- Three writes that fill the buffer.
pub write_at-filled :
    (head body tail : List ℕ) (size off : ℕ)
    → off ≡ length head + length body
    → size ≡ off + length tail
    → (a : List ℕ) × (b : List ℕ) × (write_at 0 head (replicate size 0) ≡ ok a)
      × (write_at (length head) body a ≡ ok b)
      × (write_at off tail b ≡ ok (head ++ (body ++ tail)))
write_at-filled head body tail size off at total =
    let k1 = size - length head in
    let k2 = k1 - length body in
    let none_left : k2 - length tail ≡ 0 = omega arith in
    (
      head ++ replicate k1 0,
      (head ++ body) ++ replicate k2 0,
      write_at-append 0 size [] head refl (omega arith),
      write_at-append (length head) k1 head body refl (omega arith),
      write_at-append off k2 (head ++ body) tail (omega (arith, length-append head body))
            (omega arith)
          ∙ ap (λ n. ok (((head ++ body) ++ tail) ++ replicate n 0)) none_left
          ∙ ap ok (append-nil ((head ++ body) ++ tail) ∙ append_assoc head body tail),
    )

pub length-shdrs_of : (hs : List Shdr) → length (shdrs_of hs) ≡ shdr_size * length hs
length-shdrs_of [] = refl
length-shdrs_of (h ∷ hs) =
    omega (arith, length-append (shdr_bytes h) (shdrs_of hs), length-shdrs_of hs)
