-- ===== src/StrTab/Refines.antt =====
-- U_STR_TAB::Request (src/utilities/u_str_tab.cxx) against a list of names, whichever reallocations
-- the buffer's vector makes.
use uwasm_vm.Base.{ℕ, suc, ◌+◌, ◌-◌, ◌%◌, ◌^◌, ◌<◌, ◌≡◌, refl, sym, ap, ◌∙◌, arith, inl, inr}
use uwasm_vm.Base.{Bool, true, not, ◌&&◌, Bool-cases, lt→ltb}
use uwasm_vm.Base.{List, [], ◌∷◌, ◌++◌, length, length-append, All, append-All, map-All, map, none}
use uwasm_vm.Base.{ok}
use mathlib.Core.Path.{subst}
use uwasm_vm.StrTab.Order.{IsByte}
use uwasm_vm.StrTab.Table.{
  Entry, Cached, StrTab, Indexed, contents, find, assign, insert, rebuild, starts_inside, appended,
  is_empty, add,
}
use uwasm_vm.StrTab.Names.{
  strings, IsInside, index_of, index_from-append, or_else, found_at, contents-append, contents-new,
  Option-cases,
}
use uwasm_vm.StrTab.Cache.{
  find-append, find-added, find-rebuild, assign-new, insert-found, insert-new,
}

-- Entries and keys lie in the buffer, and the cache finds the first entry with a string.
pub record IsWf (t : StrTab) : Type 0 where
  pub bytes : All IsByte t.raw_buf
  pub entries : All (IsInside t.raw_buf) t.entry_vec
  pub keys : All (λ c. IsInside t.raw_buf c.key) t.cache
  pub finds : (s : List ℕ) → All IsByte s → find t.raw_buf s t.cache ≡ index_of (strings t) s

inside-append : (raw more : List ℕ) (e : Entry) → IsInside raw e → IsInside (raw ++ more) e
inside-append raw more e inside = record {
  some_bytes = inside.some_bytes;
  within = omega (arith, length-append raw more, inside.within);
}

strings-append :
    (raw more : List ℕ) (es : List Entry)
    → All (IsInside raw) es
    → map (contents (raw ++ more)) es ≡ map (contents raw) es
strings-append raw more [] inside = refl
strings-append raw more (e ∷ es) (first, rest) =
    rw (contents-append raw more e first, strings-append raw more es rest) refl

map-++ :
    (f : Entry → List ℕ) (es : List Entry) (e : Entry) → map f (es ++ e ∷ []) ≡ map f es ++ f e ∷ []
map-++ f [] e = refl
map-++ f (d ∷ es) e = ap (λ t. f d ∷ t) (map-++ f es e)

pub length-map : (f : Entry → List ℕ) (es : List Entry) → length (map f es) ≡ length es
length-map f [] = refl
length-map f (e ∷ es) = ap suc (length-map f es)

insert-keys :
    (raw : List ℕ) (e : Entry) (i : ℕ) (cs : List Cached)
    → IsInside raw e
    → All (λ c. IsInside raw c.key) cs
    → All (λ c. IsInside raw c.key) (insert raw e i cs)
insert-keys raw e i cs first rest = elim (Option-cases (find raw (contents raw e) cs)) [
  | inl (j, found) ↦ rw (insert-found raw e i cs j found) rest
  | inr missing ↦
      rw (insert-new raw e i cs missing) (
        append-All (λ c. IsInside raw c.key) cs (record { key = e; idx = i } ∷ []) rest (first, tt))
]

rebuild-keys :
    (raw : List ℕ) (i : ℕ) (es : List Entry) (cs : List Cached)
    → All (IsInside raw) es
    → All (λ c. IsInside raw c.key) cs
    → All (λ c. IsInside raw c.key) (rebuild raw i es cs)
unfolding rebuild
rebuild-keys raw i [] cs none_left inside = inside
rebuild-keys raw i (e ∷ es) cs (first, rest) inside =
    rebuild-keys raw (i + 1) es (insert raw e i cs) rest (insert-keys raw e i cs first inside)

starts_inside-All :
    (raw : List ℕ) (es : List Entry) → All (IsInside raw) es → starts_inside raw es ≡ true
starts_inside-All raw [] inside = refl
starts_inside-All raw (e ∷ es) (first, rest) =
    rw
      (
        lt→ltb e.off (length raw) (omega (arith, first.some_bytes, first.within)),
        starts_inside-All raw es rest,
      )
      refl

-- Add at a table that is well formed, with room for one more string.
module _ (t : StrTab) (s : List ℕ) (wf : IsWf t) (s_bytes : All IsByte s) (s_some : 0 < length s)
    (room : length t.raw_buf < 2 ^ 32) (entries_room : length t.entry_vec < 2 ^ 32) where
  abbrev raw : List ℕ
  raw = t.raw_buf ++ s

  abbrev new : Entry
  new = appended t s

  abbrev entries : List Entry
  entries = t.entry_vec ++ new ∷ []

  abbrev entry_idx : ℕ
  entry_idx = (length entries - 1) % 2 ^ 32

  new_off : new.off ≡ length t.raw_buf
  new_off = omega arith

  idx_lem : entry_idx ≡ length t.entry_vec
  idx_lem = omega (arith, length-append t.entry_vec (new ∷ []))

  new_inside : IsInside raw new
  new_inside = record {
    some_bytes = s_some;
    within = omega (arith, length-append t.raw_buf s, new_off);
  }

  new-contents : contents raw new ≡ s
  new-contents = contents-new t.raw_buf s new new_off refl

  raw_bytes : All IsByte raw
  raw_bytes = append-All IsByte t.raw_buf s wf.bytes s_bytes

  entries_inside : All (IsInside raw) entries
  entries_inside =
      append-All (IsInside raw) t.entry_vec (new ∷ [])
        (map-All t.entry_vec (inside-append t.raw_buf s) wf.entries) (new_inside, tt)

  old_keys : All (λ c. IsInside raw c.key) t.cache
  old_keys = map-All t.cache (λ c. inside-append t.raw_buf s c.key) wf.keys

  abbrev with_cache : List Cached → StrTab
  with_cache cache = record { entry_vec = entries; raw_buf = raw; cache = cache }

  strings_lem : (cache : List Cached) → strings (with_cache cache) ≡ strings t ++ s ∷ []
  strings_lem cache =
      map-++ (contents raw) t.entry_vec new
      ∙ rw (strings-append t.raw_buf s t.entry_vec wf.entries, new-contents) refl

  index_of-strings :
      (cache : List Cached) (n : List ℕ)
      → index_of (strings (with_cache cache)) n
        ≡ or_else (index_of (strings t) n) (found_at s n (length t.entry_vec))
  index_of-strings cache n =
      ap (λ ns. index_of ns n) (strings_lem cache)
      ∙ index_from-append 0 (strings t) s n
      ∙ ap (λ j. or_else (index_of (strings t) n) (found_at s n j))
          (omega (arith, length-map (contents t.raw_buf) t.entry_vec))

  abbrev assigned : List Cached
  assigned = assign raw new entry_idx t.cache

  assigned_lem :
      index_of (strings t) s ≡ none
      → assigned ≡ t.cache ++ record { key = new; idx = entry_idx } ∷ []
  assigned_lem missing =
      assign-new raw new entry_idx t.cache
        (rw (new-contents, find-append t.raw_buf s s t.cache wf.keys, wf.finds s s_bytes) missing)

  assigned_finds :
      index_of (strings t) s ≡ none
      → (n : List ℕ) → All IsByte n
      → find raw n assigned ≡ index_of (strings (with_cache assigned)) n
  assigned_finds missing n n_bytes =
      ap (find raw n) (assigned_lem missing)
      ∙ find-added raw raw_bytes n n_bytes t.cache new entry_idx
      ∙ rw (find-append t.raw_buf s n t.cache wf.keys, wf.finds n n_bytes, new-contents, idx_lem)
          (sym (index_of-strings assigned n))

  assigned-IsWf : index_of (strings t) s ≡ none → IsWf (with_cache assigned)
  assigned-IsWf missing = record {
    bytes = raw_bytes;
    entries = entries_inside;
    keys =
        subst (λ cs. All (λ c. IsInside raw c.key) cs) (sym (assigned_lem missing))
          (append-All (λ c. IsInside raw c.key) t.cache (record { key = new; idx = entry_idx } ∷ [])
            old_keys (new_inside, tt));
    finds = assigned_finds missing;
  }

  abbrev rebuilt : List Cached
  rebuilt = rebuild raw 0 entries []

  rebuilt_finds :
      (n : List ℕ) → All IsByte n → find raw n rebuilt ≡ index_of (strings (with_cache rebuilt)) n
  unfolding find
  rebuilt_finds n n_bytes = find-rebuild raw raw_bytes n n_bytes 0 entries []

  rebuilt-IsWf : IsWf (with_cache rebuilt)
  rebuilt-IsWf = record {
    bytes = raw_bytes;
    entries = entries_inside;
    keys = rebuild-keys raw 0 entries [] entries_inside tt;
    finds = rebuilt_finds;
  }

  -- Adding a string that is not there, moved or not.
  pub add-new :
      (moved : Bool)
      → index_of (strings t) s ≡ none
      → (r : Indexed) × (add moved t s ≡ ok r)
        × IsWf r.table
        × (strings r.table ≡ strings t ++ s ∷ [])
        × (r.idx ≡ length t.entry_vec)
        × (length r.table.raw_buf ≡ length t.raw_buf + length s)
        × (length r.table.entry_vec ≡ length t.entry_vec + 1)
        × (r.table.entry_vec ≡ t.entry_vec ++ appended t s ∷ [])
  unfolding add
  add-new moved missing = elim (Bool-cases (not (is_empty t.raw_buf) && moved)) [
    | inl moves ↦ (
      record { table = with_cache rebuilt; idx = entry_idx },
      rw (moves, starts_inside-All raw entries entries_inside) refl,
      rebuilt-IsWf,
      strings_lem rebuilt,
      idx_lem,
      length-append t.raw_buf s,
      length-append t.entry_vec (new ∷ []),
      refl,
    )
    | inr stays ↦ (
      record { table = with_cache assigned; idx = entry_idx },
      rw
          (
            stays,
            lt→ltb new.off (length raw) (omega (arith, new_inside.some_bytes, new_inside.within)),
          )
          refl,
      assigned-IsWf missing,
      strings_lem assigned,
      idx_lem,
      length-append t.raw_buf s,
      length-append t.entry_vec (new ∷ []),
      refl,
    )
  ]
