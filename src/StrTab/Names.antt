-- ===== src/StrTab/Names.antt =====
-- The string table as the list of names that its users see: an entry's number is its position
-- (src/utilities/u_str_tab.cxx).
use uwasm_vm.Base.{
  ℕ, zero, suc, ◌+◌, ◌<◌, ◌≤◌, ◌≡◌, refl, ap, ◌∙◌, arith, ◌⊎◌, inl, inr, Bool-cases, get_elem?,
  some-injective,
}
use uwasm_vm.Base.{
  Bool, true, false, if◌then◌else◌, List, [], ◌∷◌, ◌++◌, length, All, map, Option, some, none,
}
use uwasm_vm.Base.{
  take, drop, take_append, drop_append, length-drop, drop-length, take-length, take-All, drop-All,
}
use uwasm_vm.StrTab.Order.{IsByte, same_bytes, same_bytes→eq}
use uwasm_vm.StrTab.Table.{Entry, StrTab, contents}

abbrev pub strings : StrTab → List (List ℕ)
strings t = map (contents t.raw_buf) t.entry_vec

-- The position of a name, counted from `i`.
unfoldable pub index_from : ℕ → List (List ℕ) → List ℕ → Option ℕ
index_from i [] s = none
index_from i (n ∷ ns) s =
    let rest = index_from (i + 1) ns s in if same_bytes n s then some i else rest

abbrev pub index_of : List (List ℕ) → List ℕ → Option ℕ
index_of ns s = index_from 0 ns s

abbrev pub or_else : Option ℕ → Option ℕ → Option ℕ
or_else (some i) other = some i
or_else none other = other

abbrev pub found_at : List ℕ → List ℕ → ℕ → Option ℕ
found_at n s i = if same_bytes n s then some i else none

-- Within the buffer, and not empty.
pub record IsInside (raw : List ℕ) (e : Entry) : Type 0 where
  pub some_bytes : 0 < e.len
  pub within : e.off + e.len ≤ length raw

pub or_else_assoc : (a b c : Option ℕ) → or_else (or_else a b) c ≡ or_else a (or_else b c)
or_else_assoc none b c = refl
or_else_assoc (some i) b c = refl

pub or_else-none : (a : Option ℕ) → or_else a none ≡ a
or_else-none none = refl
or_else-none (some i) = refl

-- To split on a computed option and keep the equation.
pub Option-cases : (o : Option ℕ) → ((i : ℕ) × (o ≡ some i)) ⊎ (o ≡ none)
Option-cases none = inr refl
Option-cases (some i) = inl (i, refl)

if_or_else :
    (b : Bool) (x y z : Option ℕ) (i : ℕ)
    → x ≡ or_else y z
    → (if b then some i else x) ≡ or_else (if b then some i else y) z
if_or_else true x y z i e = refl
if_or_else false x y z i e = e

pub index_from-append :
    (i : ℕ) (ns : List (List ℕ)) (n s : List ℕ)
    → index_from i (ns ++ n ∷ []) s ≡ or_else (index_from i ns s) (found_at n s (i + length ns))
unfolding index_from
index_from-append i [] n s = ap (found_at n s) (omega arith)
index_from-append i (m ∷ ns) n s = if_or_else (same_bytes m s) _ _ _ i (
    index_from-append (i + 1) ns n s
    ∙ ap (λ j. or_else (index_from (i + 1) ns s) (found_at n s j)) (omega arith))

-- More bytes at the end change no string.
pub contents-append :
    (raw more : List ℕ) (e : Entry) → IsInside raw e → contents (raw ++ more) e ≡ contents raw e
contents-append raw more e inside =
    ap (take e.len) (drop_append e.off raw more (omega (arith, inside.within)))
    ∙ take_append e.len (drop e.off raw) more
        (omega (arith, inside.within, length-drop e.off raw (omega (arith, inside.within))))

pub contents-All : (raw : List ℕ) (e : Entry) → All IsByte raw → All IsByte (contents raw e)
contents-All raw e bytes = take-All IsByte e.len (drop e.off raw) (drop-All IsByte e.off raw bytes)

pub contents-new :
    (raw s : List ℕ) (e : Entry) → e.off ≡ length raw → e.len ≡ length s → contents (raw ++ s) e ≡ s
contents-new raw s e off len = rw (off, len, drop-length raw s) (take-length s)

-- A name stands where it is found.
pub index_from-found :
    (i : ℕ) (ns : List (List ℕ)) (s : List ℕ) (j : ℕ)
    → index_from i ns s ≡ some j
    → (k : ℕ) × (j ≡ i + k) × (get_elem? ns k ≡ some s)
unfolding index_from
index_from-found i [] s j found = absurd (cc)
index_from-found i (n ∷ ns) s j found = elim (Bool-cases (same_bytes n s)) [
  | inl same ↦
      (0, omega (arith, some-injective (rw same at found)), ap some (same_bytes→eq n s same))
  | inr differ ↦
      let (k, place, here) = index_from-found (i + 1) ns s j (rw differ at found) in
      (suc k, omega arith, here)
]

-- The entry of a string that has been found.
pub get_elem?-strings :
    (raw : List ℕ) (es : List Entry) (k : ℕ) (s : List ℕ)
    → get_elem? (map (contents raw) es) k ≡ some s
    → (e : Entry) × (get_elem? es k ≡ some e) × (contents raw e ≡ s)
get_elem?-strings raw [] k s here = absurd (cc)
get_elem?-strings raw (e ∷ es) zero s here = (e, refl, some-injective here)
get_elem?-strings raw (e ∷ es) (suc k) s here = get_elem?-strings raw es k s here
