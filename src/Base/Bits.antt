-- ===== src/Base/Bits.antt =====
-- `|` of bit fields that do not overlap.
use Prim.Native.Nat.{
  ℕ, zero, suc, ◌+◌, ◌*◌, ◌/◌, ◌%◌, ◌^◌, ◌≤◌, ◌<◌, max, digits, bit_or, bit_or-bitwise,
}
use native.Mathlib.Nat.{pow-succ', le_refl}
use mathlib.Core.Path.{◌≡◌, refl, ap, ◌∙◌}
use native.Mathlib.Omega.{arith}

abbrev or_digits : ℕ → ℕ → ℕ → ℕ
or_digits count x y = digits (λ rest. rest) max count x y

-- Any count of digits that is not below the first number gives the same.
same_digits : (x y big small : ℕ) → x ≤ small → x ≤ big → or_digits big x y ≡ or_digits small x y
same_digits zero y zero zero low high = refl
same_digits zero y (suc big) zero low high = refl
same_digits zero y zero (suc small) low high = refl
same_digits zero y (suc big) (suc small) low high = refl
same_digits (suc x) y big zero low high = absurd (omega arith)
same_digits (suc x) y zero (suc small) low high = absurd (omega arith)
same_digits (suc x) y (suc big) (suc small) low high =
    ap (λ d. d * 2 + max (suc x % 2) (y % 2))
      (same_digits (suc x / 2) (y / 2) big small (omega arith) (omega arith))

-- The lowest digit and the others.
lowest : (x y : ℕ) → bit_or x y ≡ bit_or (x / 2) (y / 2) * 2 + max (x % 2) (y % 2)
lowest zero y = simp bit_or-bitwise (omega arith)
lowest (suc x) y =
    simp bit_or-bitwise
      (omega (arith, same_digits (suc x / 2) (y / 2) x (suc x / 2) (le_refl _) (omega arith)))

with_nothing : (count x : ℕ) → x ≤ count → bit_or x 0 ≡ x
with_nothing zero x small = ground arith
with_nothing (suc count) x small =
    omega (arith, lowest x 0, with_nothing count (x / 2) (omega arith))

doubled : (q k : ℕ) → q * 2 ^ suc k ≡ 2 * (q * 2 ^ k)
doubled q k = omega (arith, ap (λ p. q * p) (pow-succ' 2 k))

-- Above bit `k` and below it.
pub bit_or-below : (k q r : ℕ) → r < 2 ^ k → bit_or (q * 2 ^ k) r ≡ q * 2 ^ k + r
bit_or-below zero q r below =
    let nothing : r ≡ 0 = omega arith in
    let one : q * 1 ≡ q = omega arith in
    rw (nothing, one) (with_nothing q q (le_refl q) ∙ omega arith)
bit_or-below (suc k) q r below =
    let half : q * 2 ^ suc k / 2 ≡ q * 2 ^ k = omega (arith, doubled q k) in
    let fits : r / 2 < 2 ^ k = omega (arith, pow-succ' 2 k) in
    omega (
      arith,
      doubled q k,
      lowest (q * 2 ^ suc k) r,
      ap (λ x. bit_or x (r / 2)) half,
      bit_or-below k q (r / 2) fits,
    )
