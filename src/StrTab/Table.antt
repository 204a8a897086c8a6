-- ===== src/StrTab/Table.antt =====
-- U_STR_TAB (src/utilities/u_str_tab.h, src/utilities/u_str_tab.cxx). A pointer into the buffer is
-- an offset, so a key of the cache is an offset with a length, and the map's order looks at the
-- bytes there. Which order the map keeps its keys in is not modelled, since a key has at most one
-- equivalent in it.
use uwasm_vm.Base.{ℕ, ◌+◌, ◌-◌, ◌%◌, ◌^◌, Bool, true, false, not, ◌&&◌, ltb, ◌==◌, if◌then◌else◌}
use uwasm_vm.Base.{
  List, [], ◌∷◌, ◌++◌, length, get_elem?, take, drop, replicate, Option, some, none,
}
use uwasm_vm.Base.{Result, ok, ◌>>◌, ◌>>=◌, is_true, defined_if, in_bounds}
use uwasm_vm.StrTab.Order.{equivalent}

-- An entry of _entry_vec, and a key of the cache.
pub record Entry : Type 0 where
  pub off : ℕ
  pub len : ℕ

pub record Cached : Type 0 where
  pub key : Entry
  pub idx : ℕ

pub record StrTab : Type 0 where
  pub entry_vec : List Entry
  pub raw_buf : List ℕ
  pub cache : List Cached

abbrev pub new_str_tab : StrTab
new_str_tab = record { entry_vec = []; raw_buf = []; cache = [] }

abbrev pub contents : List ℕ → Entry → List ℕ
contents raw e = take e.len (drop e.off raw)

-- `_cache.find` and the map's other operations, with what the keys point to.
unfoldable pub find : List ℕ → List ℕ → List Cached → Option ℕ
find raw s [] = none
find raw s (c ∷ cs) =
    let rest = find raw s cs in if equivalent (contents raw c.key) s then some c.idx else rest

-- `_cache[k] = v`, which keeps the old key where there is an equivalent one.
unfoldable pub assign : List ℕ → Entry → ℕ → List Cached → List Cached
assign raw k v [] = record { key = k; idx = v } ∷ []
assign raw k v (c ∷ cs) =
    let rest = assign raw k v cs in
    if equivalent (contents raw c.key) (contents raw k) then record c { idx = v } ∷ cs else c ∷ rest

-- `_cache.insert({k, v})`, which changes nothing where there is an equivalent key.
unfoldable pub insert : List ℕ → Entry → ℕ → List Cached → List Cached
unfolding find
insert raw k v cs = elim (find raw (contents raw k) cs) [
  | some j ↦ cs
  | none ↦ cs ++ record { key = k; idx = v } ∷ []
]

-- The loop that fills the cleared cache, from entry `i` on.
unfoldable pub rebuild : List ℕ → ℕ → List Entry → List Cached → List Cached
unfolding insert
rebuild raw i [] cs = cs
rebuild raw i (e ∷ es) cs = rebuild raw (i + 1) es (insert raw e i cs)

-- Contains and Get_idx.
unfoldable pub contains : StrTab → List ℕ → Bool
unfolding find
contains t buf = elim (find t.raw_buf buf t.cache) [ some i ↦ true | none ↦ false ]

unfoldable pub get_idx : StrTab → List ℕ → ℕ
unfolding find
get_idx t buf = elim (find t.raw_buf buf t.cache) [ some i ↦ i | none ↦ 0 ]

abbrev pub starts_inside : List ℕ → List Entry → Bool
starts_inside raw [] = true
starts_inside raw (e ∷ es) = ltb e.off (length raw) && starts_inside raw es

-- `moved` says that the buffer's vector has to be reallocated for the new bytes. The table keeps
-- 32-bit offsets.
abbrev pub appended : StrTab → List ℕ → Entry
appended t buf = record { off = length t.raw_buf % 2 ^ 32; len = length buf }

abbrev pub is_empty : List ℕ → Bool
is_empty [] = true
is_empty (b ∷ s) = false

-- A result: the table, and the index that the call returns.
pub record Indexed : Type 0 where
  pub table : StrTab
  pub idx : ℕ

unfoldable pub add : Bool → StrTab → List ℕ → Result Indexed
unfolding assign rebuild
add moved t buf =
    let e = appended t buf in
    let raw = t.raw_buf ++ buf in
    let entries = t.entry_vec ++ e ∷ [] in
    let entry_idx = (length entries - 1) % 2 ^ 32 in
    if not (is_empty t.raw_buf) && moved
    then (defined_if (starts_inside raw entries)
        >> ok (record {
          table = record { entry_vec = entries; raw_buf = raw; cache = rebuild raw 0 entries [] };
          idx = entry_idx;
        }))
    else (defined_if (ltb e.off (length raw))
        >> ok (record {
          table = record {
            entry_vec = entries;
            raw_buf = raw;
            cache = assign raw e entry_idx t.cache;
          };
          idx = entry_idx;
        }))

unfoldable pub get_off : StrTab → ℕ → Result ℕ
get_off t idx =
    is_true (ltb idx (length t.entry_vec))
    >> (in_bounds (get_elem? t.entry_vec idx) >>= λ e. ok e.off)

unfoldable pub request : Bool → StrTab → List ℕ → Result Indexed
unfolding find add
request moved t buf = elim (find t.raw_buf buf t.cache) [
  | some i ↦ ok (record { table = t; idx = i })
  | none ↦ add moved t buf
]

-- Get_entry_str, whose result is where the string starts.
unfoldable pub get_entry_str : StrTab → ℕ → Result ℕ
get_entry_str t entry_idx = do
  e ← in_bounds (get_elem? t.entry_vec entry_idx)
  defined_if (ltb e.off (length t.raw_buf))
  ok e.off

-- The remainder by 0 is undefined.
unfoldable pub pad : Bool → StrTab → ℕ → Result StrTab
unfolding add
pad moved t align =
    defined_if (not (align == 0))
    >> (if length t.raw_buf % align == 0
        then ok t
        else (add moved t (replicate (align - length t.raw_buf % align) 0) >>= λ r. ok r.table))
