-- ===== src/Encoder/Requests.antt =====
-- What a request for a function does (Inner_request_func and Request_func, src/encoder/u_encoder.cxx).
use uwasm_vm.Base.{ℕ, ◌+◌, ◌-◌, ◌%◌, ◌^◌, ◌<◌, ◌≡◌, refl, sym, ap, ◌∙◌, arith}
use uwasm_vm.Base.{
  Bool, true, false, if◌then◌else◌, bit_and, List, [], ◌∷◌, ◌++◌, length, length-append, get_elem?,
  get_elem?-length, All,
}
use uwasm_vm.Base.{Option, some, none, ok, err, assertion, ltb, lt→ltb}
use mathlib.Core.Path.{subst}
use uwasm_vm.StrTab.Order.{IsByte, same_bytes, same_bytes_refl}
use uwasm_vm.StrTab.Table
use uwasm_vm.StrTab.Table.{StrTab, find, appended}
use uwasm_vm.StrTab.Names.{strings, index_of, index_from}
use uwasm_vm.StrTab.Refines.{IsWf, add-new}
use uwasm_vm.Encoder.Funcs.{
  UbhFunc, ubh_func, Encoder, Requested, Answer, f_extern, f_native, f_export, has_flag, find_func,
  inner_request_func, request_func, import_if, export_if,
}

-- Contains and Get_idx by what the cache finds.
contains-none :
    (t : StrTab) (s : List ℕ) → Table.contains t s ≡ false → find t.raw_buf s t.cache ≡ none
unfolding Table.contains
contains-none t s missing = by_option (find t.raw_buf s t.cache) missing
  where
    by_option : (o : Option ℕ) → elim o [ some i ↦ true | none ↦ false ] ≡ false → o ≡ none
    by_option none h = refl
    by_option (some i) h = absurd (cc)

module _ (moved : Bool) (e : Encoder) (func_name : List ℕ) (type_idx flags : ℕ) where
  abbrev next_func : ℕ → UbhFunc
  next_func off = ubh_func type_idx off flags

  abbrev added : StrTab → ℕ → Requested
  added tab off = record {
    encoder = record e { module_str_tab = tab; func_tab = e.func_tab ++ next_func off ∷ [] };
    func_idx = length (e.func_tab ++ next_func off ∷ []) - 1;
    exist = false;
  }

  inner_new :
      Table.contains e.module_str_tab func_name ≡ false
      → (r : Table.Indexed) (off : ℕ) → Table.add moved e.module_str_tab func_name ≡ ok r
      → Table.get_off r.table r.idx ≡ ok off
      → inner_request_func moved e func_name type_idx flags ≡ ok (added r.table off)
  unfolding inner_request_func
  inner_new missing r off adds at_off = rw (missing, adds, at_off) refl

  request_new :
      (tab : StrTab) (off : ℕ)
      → inner_request_func moved e func_name type_idx flags ≡ ok (added tab off)
      → bit_and flags f_native ≡ 0
      → request_func moved e func_name type_idx flags
        ≡ ok (record {
          encoder =
              export_if (has_flag flags f_export) (length (e.func_tab ++ next_func off ∷ []) - 1) (
                import_if
                  (has_flag flags f_extern)
                  (length (e.func_tab ++ next_func off ∷ []) - 1)
                  (added tab off).encoder);
          idx = length (e.func_tab ++ next_func off ∷ []) - 1;
        })
  unfolding request_func
  request_new tab off made native = rw (made, native) refl

-- A name that is not there goes to the end of the buffer.
add_off :
    (moved : Bool) (t : StrTab) (s : List ℕ)
    → IsWf t
    → All IsByte s
    → 0 < length s
    → length t.raw_buf < 2 ^ 32
    → length t.entry_vec < 2 ^ 32
    → Table.contains t s ≡ false
    → (r : Table.Indexed) × (Table.add moved t s ≡ ok r)
      × (Table.get_off r.table r.idx ≡ ok (length t.raw_buf))
      × IsWf r.table
      × (strings r.table ≡ strings t ++ s ∷ [])
      × (length r.table.raw_buf ≡ length t.raw_buf + length s)
      × (length r.table.entry_vec ≡ length t.entry_vec + 1)
unfolding Table.get_off
add_off moved t s wf bytes some_bytes room entries_room missing =
    let none_there = sym (wf.finds s bytes) ∙ contains-none t s missing in
    let (r, adds, r_wf, names, idx, raw, entries, all_entries) =
      add-new t s wf bytes some_bytes room entries_room moved none_there in
    let below : ltb r.idx (length r.table.entry_vec) ≡ true = lt→ltb _ _ (omega arith) in
    let here : get_elem? r.table.entry_vec r.idx ≡ some (appended t s) =
      rw (idx, all_entries) (get_elem?-length t.entry_vec (appended t s)) in
    let off : length t.raw_buf % 2 ^ 32 ≡ length t.raw_buf = omega arith in
    (r, adds, rw (below, here, off) refl, r_wf, names, raw, entries)

-- A function with a new name gets the next index and an entry that holds its type, its flags and
-- the offset of its name, which stands there in the module's strings; it is imported where it is
-- extern and exported where it is exported. The strings are well formed and stay below 64 KiB, the
-- name is not empty, and the flags do not say native.
pub request_func-new :
    (moved : Bool) (e : Encoder) (func_name : List ℕ) (type_idx flags : ℕ)
    → IsWf e.module_str_tab
    → All IsByte func_name
    → 0 < length func_name
    → length e.module_str_tab.raw_buf < 2 ^ 16
    → length e.module_str_tab.entry_vec < 2 ^ 32
    → Table.contains e.module_str_tab func_name ≡ false
    → bit_and flags f_native ≡ 0
    → (a : Answer) × (request_func moved e func_name type_idx flags ≡ ok a)
      × (a.idx ≡ length e.func_tab)
      × (a.encoder.func_tab
          ≡ e.func_tab ++ ubh_func type_idx (length e.module_str_tab.raw_buf) flags ∷ [])
      × (strings a.encoder.module_str_tab ≡ strings e.module_str_tab ++ func_name ∷ [])
      × (a.encoder.import_tab ≡ (
          if has_flag flags f_extern
          then e.import_tab ++ length e.func_tab % 2 ^ 28 ∷ []
          else e.import_tab))
      × (a.encoder.export_tab ≡ (
          if has_flag flags f_export
          then e.export_tab ++ length e.func_tab % 2 ^ 28 ∷ []
          else e.export_tab))
      × IsWf a.encoder.module_str_tab
      × (length a.encoder.module_str_tab.raw_buf
          ≡ length e.module_str_tab.raw_buf + length func_name)
      × (length a.encoder.module_str_tab.entry_vec ≡ length e.module_str_tab.entry_vec + 1)
request_func-new moved e func_name type_idx flags wf bytes some_bytes room entries_room missing
      native =
    let (r, adds, at_off, r_wf, names, raw, entries) =
      add_off moved e.module_str_tab func_name wf bytes some_bytes (omega arith) entries_room
        missing in
    let off : ℕ = length e.module_str_tab.raw_buf in
    let inner = inner_new moved e func_name type_idx flags missing r off adds at_off in
    let last : length (e.func_tab ++ ubh_func type_idx off flags ∷ []) - 1 ≡ length e.func_tab =
      omega (arith, length-append e.func_tab (ubh_func type_idx off flags ∷ [])) in
    let (funcs, tab, imports, exports) =
      listed (has_flag flags f_extern) (has_flag flags f_export)
        (length (e.func_tab ++ ubh_func type_idx off flags ∷ []) - 1)
        (added moved e func_name type_idx flags r.table off).encoder in
    (
      _,
      request_new moved e func_name type_idx flags r.table off inner native,
      last,
      funcs,
      ap strings tab ∙ names,
      imports
          ∙ ap
              (λ i.
                if has_flag flags f_extern then e.import_tab ++ i % 2 ^ 28 ∷ [] else e.import_tab)
              last,
      exports
          ∙ ap
              (λ i.
                if has_flag flags f_export then e.export_tab ++ i % 2 ^ 28 ∷ [] else e.export_tab)
              last,
      subst IsWf (sym tab) r_wf,
      ap (λ t. length t.raw_buf) tab ∙ raw,
      ap (λ t. length t.entry_vec) tab ∙ entries,
    )
  where
    listed :
        (imported exported : Bool) (i : ℕ) (e : Encoder)
        → ((export_if exported i (import_if imported i e)).func_tab ≡ e.func_tab)
          × ((export_if exported i (import_if imported i e)).module_str_tab ≡ e.module_str_tab)
          × ((export_if exported i (import_if imported i e)).import_tab
              ≡ (if imported then e.import_tab ++ i % 2 ^ 28 ∷ [] else e.import_tab))
          × ((export_if exported i (import_if imported i e)).export_tab
              ≡ (if exported then e.export_tab ++ i % 2 ^ 28 ∷ [] else e.export_tab))
    listed true true i e = (refl, refl, refl, refl)
    listed true false i e = (refl, refl, refl, refl)
    listed false true i e = (refl, refl, refl, refl)
    listed false false i e = (refl, refl, refl, refl)

-- The loop over functions that hold offsets, none of them the number of the name's entry.
pub again_lem :
    (moved : Bool) (e : Encoder) (func_name : List ℕ) (type_idx flags : ℕ)
    → Table.contains e.module_str_tab func_name ≡ true
    → find_func 0 e.func_tab (Table.get_idx e.module_str_tab func_name) ≡ none
    → request_func moved e func_name type_idx flags ≡ err assertion
unfolding request_func inner_request_func
again_lem moved e func_name type_idx flags there missing = rw (there, missing) refl

-- What a table with the three strings finds.
pub third :
    (t : StrTab) (first second name : List ℕ)
    → IsWf t
    → strings t ≡ first ∷ second ∷ name ∷ []
    → All IsByte name
    → same_bytes first name ≡ false
    → same_bytes second name ≡ false
    → (Table.contains t name ≡ true) × (Table.get_idx t name ≡ 2)
unfolding Table.contains Table.get_idx index_from
third t first second name wf names bytes other1 other2 =
    let found : find t.raw_buf name t.cache ≡ some 2 =
      wf.finds name bytes
      ∙ ap (λ ns. index_of ns name) names
      ∙ rw (other1, other2, same_bytes_refl name) refl in
    rw (found, Table.contains, Table.get_idx) (refl, refl)
