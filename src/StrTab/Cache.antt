-- ===== src/StrTab/Cache.antt =====
-- What a lookup in the cache finds after each of the two ways in which Add updates it
-- (src/utilities/u_str_tab.cxx).
use uwasm_vm.Base.{ℕ, ◌+◌, ◌≡◌, refl, sym, ap, ◌∙◌, Bool, true, false, Bool-cases, inl, inr}
use uwasm_vm.Base.{if◌then◌else◌, List, [], ◌∷◌, ◌++◌, All, map, Option, some, none}
use mathlib.Core.Path.{subst}
use uwasm_vm.StrTab.Order.{IsByte, same_bytes, equivalent, equivalent-same_bytes, same_bytes→eq}
use uwasm_vm.StrTab.Table.{Entry, Cached, contents, find, assign, insert, rebuild}
use uwasm_vm.StrTab.Names.{
  IsInside, index_from, or_else, or_else_assoc, or_else-none, Option-cases, found_at,
  contents-append, contents-All,
}

-- More bytes at the end change no lookup.
pub find-append :
    (raw more s : List ℕ) (cs : List Cached)
    → All (λ c. IsInside raw c.key) cs
    → find (raw ++ more) s cs ≡ find raw s cs
unfolding find
find-append raw more s [] inside = refl
find-append raw more s (c ∷ cs) (first, rest) =
    rw (contents-append raw more c.key first, find-append raw more s cs rest) refl

by_key :
    (b : Bool) (i : ℕ) (x y : Option ℕ)
    → (if b then some i else or_else x y) ≡ or_else (if b then some i else x) y
by_key true i x y = refl
by_key false i x y = refl

find-++ :
    (raw s : List ℕ) (cs : List Cached) (c : Cached)
    → find raw s (cs ++ c ∷ [])
      ≡ or_else (find raw s cs) (if equivalent (contents raw c.key) s then some c.idx else none)
unfolding find
find-++ raw s [] c = refl
find-++ raw s (d ∷ cs) c =
    rw (find-++ raw s cs c) (by_key (equivalent (contents raw d.key) s) d.idx (find raw s cs) _)

pub assign-new :
    (raw : List ℕ) (k : Entry) (v : ℕ) (cs : List Cached)
    → find raw (contents raw k) cs ≡ none
    → assign raw k v cs ≡ cs ++ record { key = k; idx = v } ∷ []
unfolding find assign
assign-new raw k v [] missing = refl
assign-new raw k v (c ∷ cs) missing =
    let (differ, rest) =
      not_here (equivalent (contents raw c.key) (contents raw k)) c.idx _ missing in
    rw (differ, assign-new raw k v cs rest) refl
  where
    not_here :
        (b : Bool) (i : ℕ) (x : Option ℕ)
        → (if b then some i else x) ≡ none
        → (b ≡ false) × (x ≡ none)
    not_here true i x h = absurd (cc)
    not_here false i x h = (refl, h)

pub insert-found :
    (raw : List ℕ) (k : Entry) (v : ℕ) (cs : List Cached) (j : ℕ)
    → find raw (contents raw k) cs ≡ some j
    → insert raw k v cs ≡ cs
unfolding insert
insert-found raw k v cs j found = rw (found, insert) refl

pub insert-new :
    (raw : List ℕ) (k : Entry) (v : ℕ) (cs : List Cached)
    → find raw (contents raw k) cs ≡ none
    → insert raw k v cs ≡ cs ++ record { key = k; idx = v } ∷ []
unfolding insert
insert-new raw k v cs missing = rw (missing, insert) refl

found_else :
    (b : Bool) (i : ℕ) (x : Option ℕ)
    → or_else (if b then some i else none) x ≡ (if b then some i else x)
found_else true i x = refl
found_else false i x = refl

module _ (raw : List ℕ) (bytes : All IsByte raw) (s : List ℕ) (s_bytes : All IsByte s) where
  -- One more key at the end, with the string that it points to.
  pub find-added :
      (cs : List Cached) (k : Entry) (v : ℕ)
      → find raw s (cs ++ record { key = k; idx = v } ∷ [])
        ≡ or_else (find raw s cs) (found_at (contents raw k) s v)
  find-added cs k v =
      find-++ raw s cs (record { key = k; idx = v })
      ∙ rw (equivalent-same_bytes (contents raw k) s (contents-All raw k bytes) s_bytes) refl

  found_here :
      (n : List ℕ) (cs : List Cached) (j v : ℕ)
      → find raw n cs ≡ some j
      → find raw s cs ≡ or_else (find raw s cs) (found_at n s v)
  found_here n cs j v found = elim (Bool-cases (same_bytes n s)) [
    | inl same ↦
        let here : find raw s cs ≡ some j =
          subst (λ t. find raw t cs ≡ some j) (same_bytes→eq n s same) found in
        rw here refl
    | inr differ ↦ rw differ (sym (or_else-none (find raw s cs)))
  ]

  find-insert :
      (e : Entry) (i : ℕ) (cs : List Cached)
      → find raw s (insert raw e i cs) ≡ or_else (find raw s cs) (found_at (contents raw e) s i)
  find-insert e i cs = elim (Option-cases (find raw (contents raw e) cs)) [
    | inl (j, found) ↦
        rw (insert-found raw e i cs j found) (found_here (contents raw e) cs j i found)
    | inr missing ↦ rw (insert-new raw e i cs missing) (find-added cs e i)
  ]

  -- The rebuilt cache finds the first entry with the string.
  pub find-rebuild :
      (i : ℕ) (es : List Entry) (cs : List Cached)
      → find raw s (rebuild raw i es cs)
        ≡ or_else (find raw s cs) (index_from i (map (contents raw) es) s)
  unfolding rebuild index_from
  find-rebuild i [] cs = sym (or_else-none (find raw s cs))
  find-rebuild i (e ∷ es) cs =
      find-rebuild (i + 1) es (insert raw e i cs)
      ∙ rw (find-insert e i cs) (
          or_else_assoc (find raw s cs) (found_at (contents raw e) s i) _
          ∙ ap (λ o. or_else (find raw s cs) o)
              (found_else (same_bytes (contents raw e) s) i
                (index_from (i + 1) (map (contents raw) es) s)))
