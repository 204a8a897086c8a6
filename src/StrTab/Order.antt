-- ===== src/StrTab/Order.antt =====
-- COMPARATOR (src/utilities/u_str_tab.cxx), which orders the keys of the string table's cache by the
-- bytes that they point to.
use uwasm_vm.Base.{ℕ, ◌+◌, ◌-◌, ◌*◌, ◌<◌, ◌≡◌, ◌↔◌, ◌⊎◌, inl, inr, refl, sym, ap, ◌∙◌, arith}
use uwasm_vm.Base.{
  Bool, true, false, not, ◌&&◌, ltb, ◌==◌, if◌then◌else◌, List, [], ◌∷◌, length, All,
}
use uwasm_vm.Base.{Bool-cases, ==_iff}
use uwasm_vm.Base.Int.{signed, ltb_ℤ}

-- `s1[i] < s2[i]`: a char is signed.
abbrev pub char_lt : ℕ → ℕ → Bool
char_lt a b = ltb_ℤ (signed 256 a) (signed 256 b)

-- The loop, which does not leave at the first difference.
unfoldable pub last_difference : List ℕ → List ℕ → Bool → Bool
last_difference (a ∷ s1) (b ∷ s2) comp_r =
    last_difference s1 s2 (if a == b then comp_r else char_lt a b)
last_difference [] s2 comp_r = comp_r
last_difference (a ∷ s1) [] comp_r = comp_r

-- COMPARATOR::operator(), on the bytes of the two keys.
unfoldable pub comparator : List ℕ → List ℕ → Bool
unfolding last_difference
comparator s1 s2 =
    if length s1 == length s2
    then last_difference s1 s2 (ltb (length s1) (length s2))
    else ltb (length s1) (length s2)

-- What the map takes for the same key.
abbrev pub equivalent : List ℕ → List ℕ → Bool
equivalent s1 s2 = not (comparator s1 s2) && not (comparator s2 s1)

abbrev pub same_bytes : List ℕ → List ℕ → Bool
same_bytes [] [] = true
same_bytes (a ∷ s1) (b ∷ s2) = (a == b) && same_bytes s1 s2
same_bytes [] (b ∷ s2) = false
same_bytes (a ∷ s1) [] = false

abbrev pub IsByte : ℕ → Type 0
IsByte b = b < 256

-- A byte as its rank among the signed chars.
abbrev rank : ℕ → ℕ
rank b = if ltb b 128 then b + 128 else b - 128

-- The bytes as digits, the last one the highest.
abbrev pub value : List ℕ → ℕ
value [] = 0
value (b ∷ s) = rank b + 256 * value s

char_lt-rank : (a b : ℕ) → a < 256 → b < 256 → char_lt a b ≡ ltb (rank a) (rank b)
char_lt-rank a b ha hb = ground arith

rank-eq : (a b : ℕ) → a < 256 → b < 256 → (a == b) ≡ (rank a == rank b)
rank-eq a b ha hb = ground arith

rank_lt : (a : ℕ) → a < 256 → rank a < 256
rank_lt a ha = ground arith

-- The higher digits decide, and where they agree the lowest one does.
next_digit :
    (x y v w : ℕ) (r : Bool)
    → x < 256
    → y < 256
    → (if v == w then (if x == y then r else ltb x y) else ltb v w)
      ≡ (if x + 256 * v == y + 256 * w then r else ltb (x + 256 * v) (y + 256 * w))
next_digit x y v w r hx hy = ground arith

-- Over strings of one length the loop compares their values.
last_difference-value :
    (s1 s2 : List ℕ) (r : Bool)
    → All IsByte s1
    → All IsByte s2
    → length s1 ≡ length s2
    → last_difference s1 s2 r ≡ (if value s1 == value s2 then r else ltb (value s1) (value s2))
unfolding last_difference
last_difference-value [] [] r b1 b2 same = refl
last_difference-value [] (b ∷ s2) r b1 b2 same = absurd (omega arith)
last_difference-value (a ∷ s1) [] r b1 b2 same = absurd (omega arith)
last_difference-value (a ∷ s1) (b ∷ s2) r (ha, b1) (hb, b2) same =
    last_difference-value s1 s2 _ b1 b2 (omega arith)
    ∙ rw (rank-eq a b ha hb, char_lt-rank a b ha hb)
        (next_digit (rank a) (rank b) (value s1) (value s2) r (rank_lt a ha) (rank_lt b hb))

abbrev less : ℕ → ℕ → ℕ → ℕ → Bool
less l1 l2 v1 v2 = if l1 == l2 then ltb v1 v2 else ltb l1 l2

where_same : (l1 l2 v1 v2 : ℕ) → l1 ≡ l2 → (if v1 == v2 then ltb l1 l2 else ltb v1 v2) ≡ ltb v1 v2
where_same l1 l2 v1 v2 same = ground arith

comparator-less :
    (s1 s2 : List ℕ)
    → All IsByte s1
    → All IsByte s2
    → comparator s1 s2 ≡ less (length s1) (length s2) (value s1) (value s2)
unfolding comparator
comparator-less s1 s2 b1 b2 = elim (Bool-cases (length s1 == length s2)) [
  | inl same ↦
      let eq = (==_iff (length s1) (length s2)).0 same in
      rw same (
        last_difference-value s1 s2 (ltb (length s1) (length s2)) b1 b2 eq
        ∙ where_same (length s1) (length s2) (value s1) (value s2) eq)
  | inr differ ↦ rw differ refl
]

less_iff : (l1 l2 v1 v2 : ℕ) → (less l1 l2 v1 v2 ≡ true) ↔ ((l1 < l2) ⊎ ((l1 ≡ l2) × (v1 < v2)))
less_iff l1 l2 v1 v2 = ground arith

-- The order that the map keeps its keys in: by length, and within one length by value. Hence it is
-- a strict total order of the keys.
pub comparator_iff :
    (s1 s2 : List ℕ)
    → All IsByte s1
    → All IsByte s2
    → (comparator s1 s2 ≡ true)
      ↔ ((length s1 < length s2) ⊎ ((length s1 ≡ length s2) × (value s1 < value s2)))
comparator_iff s1 s2 b1 b2 =
    rw (comparator-less s1 s2 b1 b2) (less_iff (length s1) (length s2) (value s1) (value s2))

value-injective :
    (s1 s2 : List ℕ)
    → All IsByte s1
    → All IsByte s2
    → length s1 ≡ length s2
    → value s1 ≡ value s2
    → s1 ≡ s2
value-injective [] [] b1 b2 same e = refl
value-injective [] (b ∷ s2) b1 b2 same e = absurd (omega arith)
value-injective (a ∷ s1) [] b1 b2 same e = absurd (omega arith)
value-injective (a ∷ s1) (b ∷ s2) (ha, b1) (hb, b2) same e =
    let first : a ≡ b = same_rank a b (value s1) (value s2) ha hb e in
    let rest : value s1 ≡ value s2 = same_rest a b (value s1) (value s2) ha hb e in
    ap (λ t. t ∷ s1) first ∙ ap (λ t. b ∷ t) (value-injective s1 s2 b1 b2 (omega arith) rest)
  where
    same_rank : (a b v w : ℕ) → a < 256 → b < 256 → rank a + 256 * v ≡ rank b + 256 * w → a ≡ b
    same_rank a b v w ha hb e = ground arith

    same_rest : (a b v w : ℕ) → a < 256 → b < 256 → rank a + 256 * v ≡ rank b + 256 * w → v ≡ w
    same_rest a b v w ha hb e = ground arith

neither :
    (l1 l2 v1 v2 : ℕ)
    → (not (less l1 l2 v1 v2) && not (less l2 l1 v2 v1)) ≡ true
    → (l1 ≡ l2) × (v1 ≡ v2)
neither l1 l2 v1 v2 h = ground arith

irreflexive : (l v : ℕ) → (not (less l l v v) && not (less l l v v)) ≡ true
irreflexive l v = ground arith

pub same_bytes→eq : (s1 s2 : List ℕ) → same_bytes s1 s2 ≡ true → s1 ≡ s2
same_bytes→eq [] [] h = refl
same_bytes→eq [] (b ∷ s2) h = absurd (cc)
same_bytes→eq (a ∷ s1) [] h = absurd (cc)
same_bytes→eq (a ∷ s1) (b ∷ s2) h =
    let (first, rest) = both (a == b) (same_bytes s1 s2) h in
    ap (λ t. t ∷ s1) ((==_iff a b).0 first) ∙ ap (λ t. b ∷ t) (same_bytes→eq s1 s2 rest)
  where
    both : (x y : Bool) → (x && y) ≡ true → (x ≡ true) × (y ≡ true)
    both x y h = ground arith

pub same_bytes_refl : (s : List ℕ) → same_bytes s s ≡ true
same_bytes_refl [] = refl
same_bytes_refl (a ∷ s) = rw ((==_iff a a).1 refl) (same_bytes_refl s)

equivalent_refl : (s : List ℕ) → All IsByte s → equivalent s s ≡ true
equivalent_refl s b = rw (comparator-less s s b b) (irreflexive (length s) (value s))

equivalent→eq : (s1 s2 : List ℕ) → All IsByte s1 → All IsByte s2 → equivalent s1 s2 ≡ true → s1 ≡ s2
equivalent→eq s1 s2 b1 b2 h =
    let (same, value) =
      neither (length s1) (length s2) (value s1) (value s2)
        (rw (comparator-less s1 s2 b1 b2, comparator-less s2 s1 b2 b1) at h) in
    value-injective s1 s2 b1 b2 same value

eq_of_iff : (x y : Bool) → (x ≡ true → y ≡ true) → (y ≡ true → x ≡ true) → x ≡ y
eq_of_iff true true f g = refl
eq_of_iff true false f g = sym (f refl)
eq_of_iff false true f g = g refl
eq_of_iff false false f g = refl

-- Two keys are one to the map exactly where they point to the same bytes.
pub equivalent-same_bytes :
    (s1 s2 : List ℕ) → All IsByte s1 → All IsByte s2 → equivalent s1 s2 ≡ same_bytes s1 s2
equivalent-same_bytes s1 s2 b1 b2 =
    eq_of_iff (equivalent s1 s2) (same_bytes s1 s2)
      (λ h. rw (equivalent→eq s1 s2 b1 b2 h) (same_bytes_refl s2))
      (λ h. rw (same_bytes→eq s1 s2 h) (equivalent_refl s2 b2))
