-- ===== src/StrTab/Run.antt =====
-- Sequences of U_STR_TAB::Request (src/utilities/u_str_tab.cxx) against a list of names.
use uwasm_vm.Base.{ℕ, ◌+◌, ◌^◌, ◌<◌, ◌≤◌, ◌≡◌, refl, sym, ap, ◌∙◌, arith, inl, inr, Bool}
use uwasm_vm.Base.{List, [], ◌∷◌, ◌++◌, length, All, some, none, Result, ok, ◌>>=◌}
use uwasm_vm.Base.{
  get_elem?, get_elem?-length, get_elem?-All, lt_of_get_elem?, lt→ltb, drop, take-drop,
}
use uwasm_vm.StrTab.Order.{IsByte}
use uwasm_vm.StrTab.Table.{StrTab, Indexed, contents, new_str_tab, find, add, request, get_off}
use uwasm_vm.StrTab.Names.{
  strings, index_from, index_of, Option-cases, IsInside, index_from-found, get_elem?-strings,
}
use uwasm_vm.StrTab.Refines.{IsWf, add-new, length-map}

-- The list of names: a name that is there keeps its position, and a new one goes to the end.
pub record Named : Type 0 where
  pub names : List (List ℕ)
  pub idx : ℕ

unfoldable pub request_name : List (List ℕ) → List ℕ → Named
request_name ns s = elim (index_of ns s) [
  | some i ↦ record { names = ns; idx = i }
  | none ↦ record { names = ns ++ s ∷ []; idx = length ns }
]

-- A request, and whether the vector moves if it has to grow for it.
pub record Req : Type 0 where
  pub moved : Bool
  pub buf : List ℕ

pub record Answers (A : Type 0) : Type 0 where
  pub state : A
  pub idxs : List ℕ

unfoldable pub request_all : StrTab → List Req → Result (Answers StrTab)
unfolding request
request_all t [] = ok (record { state = t; idxs = [] })
request_all t (q ∷ qs) = do
  r ← request q.moved t q.buf
  rest ← request_all r.table qs
  ok (record { state = rest.state; idxs = r.idx ∷ rest.idxs })

unfoldable pub name_all : List (List ℕ) → List Req → Answers (List (List ℕ))
unfolding request_name
name_all ns [] = record { state = ns; idxs = [] }
name_all ns (q ∷ qs) =
    let r = request_name ns q.buf in
    let rest = name_all r.names qs in record { state = rest.state; idxs = r.idx ∷ rest.idxs }

abbrev pub bytes_of : List Req → ℕ
bytes_of [] = 0
bytes_of (q ∷ qs) = length q.buf + bytes_of qs

pub record IsRequest (q : Req) : Type 0 where
  pub bytes : All IsByte q.buf
  pub some_bytes : 0 < length q.buf

module _ (ns : List (List ℕ)) (s : List ℕ) where
  request_name-there :
      (i : ℕ) → index_of ns s ≡ some i → request_name ns s ≡ record { names = ns; idx = i }
  unfolding request_name
  request_name-there i there = rw (there, request_name) refl

  request_name-new :
      index_of ns s ≡ none → request_name ns s ≡ record { names = ns ++ s ∷ []; idx = length ns }
  unfolding request_name
  request_name-new missing = rw (missing, request_name) refl

module _ (moved : Bool) (t : StrTab) (s : List ℕ) where
  pub request-there :
      (i : ℕ)
      → find t.raw_buf s t.cache ≡ some i
      → request moved t s ≡ ok (record { table = t; idx = i })
  unfolding request
  request-there i there = rw (there, request) refl

  pub request-new : find t.raw_buf s t.cache ≡ none → request moved t s ≡ add moved t s
  unfolding request
  request-new missing = rw (missing, request) refl

request-refines :
    (t : StrTab) (q : Req)
    → IsWf t
    → IsRequest q
    → length t.raw_buf < 2 ^ 32
    → length t.entry_vec < 2 ^ 32
    → (r : Indexed) × (request q.moved t q.buf ≡ ok r)
      × IsWf r.table
      × (strings r.table ≡ (request_name (strings t) q.buf).names)
      × (r.idx ≡ (request_name (strings t) q.buf).idx)
      × (length r.table.raw_buf ≤ length t.raw_buf + length q.buf)
      × (length r.table.entry_vec ≤ length t.entry_vec + length q.buf)
request-refines t q wf asked room entries_room = elim (Option-cases (index_of (strings t) q.buf)) [
  | inl (i, there) ↦
      let named = request_name-there (strings t) q.buf i there in
      (
        record { table = t; idx = i },
        request-there q.moved t q.buf i (wf.finds q.buf asked.bytes ∙ there),
        wf,
        ap (λ n. n.names) (sym named),
        ap (λ n. n.idx) (sym named),
        omega arith,
        omega arith,
      )
  | inr missing ↦
      let named = request_name-new (strings t) q.buf missing in
      let (r, added, r_wf, names, idx, raw, entries, all_entries) =
        add-new t q.buf wf asked.bytes asked.some_bytes room entries_room q.moved missing in
      (
        r,
        request-new q.moved t q.buf (wf.finds q.buf asked.bytes ∙ missing) ∙ added,
        r_wf,
        names ∙ ap (λ n. n.names) (sym named),
        idx ∙ sym (length-map (contents t.raw_buf) t.entry_vec) ∙ ap (λ n. n.idx) (sym named),
        omega arith,
        omega (arith, asked.some_bytes),
      )
]

request_name-here :
    (ns : List (List ℕ)) (s : List ℕ)
    → get_elem? (request_name ns s).names (request_name ns s).idx ≡ some s
request_name-here ns s = elim (Option-cases (index_of ns s)) [
  | inl (i, there) ↦
      let (k, place, here) = index_from-found 0 ns s i there in
      let same : i ≡ k = omega arith in rw (request_name-there ns s i there, same) here
  | inr missing ↦ rw (request_name-new ns s missing) (get_elem?-length ns s)
]

-- After a request the string stands in the buffer where Get_off says, and the table is still well
-- formed.
pub request-stored :
    (t : StrTab) (q : Req)
    → IsWf t
    → IsRequest q
    → length t.raw_buf < 2 ^ 32
    → length t.entry_vec < 2 ^ 32
    → (r : Indexed) × (off : ℕ) × (more : List ℕ) × (request q.moved t q.buf ≡ ok r)
      × (get_off r.table r.idx ≡ ok off)
      × (drop off r.table.raw_buf ≡ q.buf ++ more)
      × (off < length r.table.raw_buf)
      × IsWf r.table
      × (length r.table.raw_buf ≤ length t.raw_buf + length q.buf)
unfolding get_off
request-stored t q wf asked room entries_room =
    let (r, answered, r_wf, names, idx, raw, entries) =
      request-refines t q wf asked room entries_room in
    let here : get_elem? (strings r.table) r.idx ≡ some q.buf =
      rw (names, idx) (request_name-here (strings t) q.buf) in
    let (e, entry, held) = get_elem?-strings r.table.raw_buf r.table.entry_vec r.idx q.buf here in
    let below =
      lt→ltb r.idx (length r.table.entry_vec) (lt_of_get_elem? r.table.entry_vec r.idx entry) in
    let inside : IsInside r.table.raw_buf e =
      get_elem?-All (IsInside r.table.raw_buf) r.table.entry_vec r.idx r_wf.entries entry in
    (
      r,
      e.off,
      drop e.len (drop e.off r.table.raw_buf),
      answered,
      rw (below, entry) refl,
      sym (take-drop e.len (drop e.off r.table.raw_buf))
          ∙ ap (λ s. s ++ drop e.len (drop e.off r.table.raw_buf)) held,
      omega (arith, inside.some_bytes, inside.within),
      r_wf,
      raw,
    )

all-refines :
    (t : StrTab) (qs : List Req)
    → IsWf t
    → All IsRequest qs
    → length t.raw_buf + bytes_of qs < 2 ^ 32
    → length t.entry_vec + bytes_of qs < 2 ^ 32
    → (r : Answers StrTab) × (request_all t qs ≡ ok r)
      × (strings r.state ≡ (name_all (strings t) qs).state)
      × (r.idxs ≡ (name_all (strings t) qs).idxs)
unfolding request_all name_all
all-refines t [] wf asked room entries_room = (record { state = t; idxs = [] }, refl, refl, refl)
all-refines t (q ∷ qs) wf (first, rest) room entries_room =
    let (r, answered, r_wf, names, idx, raw, entries) =
      request-refines t q wf first (omega arith) (omega arith) in
    let (a, others, state, idxs) = all-refines r.table qs r_wf rest (omega arith) (omega arith) in
    (
      record { state = a.state; idxs = r.idx ∷ a.idxs },
      rw (answered, others) refl,
      state ∙ ap (λ ns. (name_all ns qs).state) names,
      ap (λ i. i ∷ a.idxs) idx
          ∙ ap (λ is. (request_name (strings t) q.buf).idx ∷ is)
              (idxs ∙ ap (λ ns. (name_all ns qs).idxs) names),
    )

pub new-IsWf : IsWf new_str_tab
unfolding find index_from
new-IsWf = record { bytes = tt; entries = tt; keys = tt; finds = λ s b. refl }

-- Whichever of the requests make the vector move, a sequence of requests at a new table succeeds,
-- and its answers and entries are those of a list in which a name keeps its position and a new one
-- goes to the end. The requested strings are not empty, and have less than 2 ^ 32 bytes together.
pub request_all-refines :
    (qs : List Req)
    → All IsRequest qs
    → bytes_of qs < 2 ^ 32
    → (r : Answers StrTab) × (request_all new_str_tab qs ≡ ok r)
      × (strings r.state ≡ (name_all [] qs).state)
      × (r.idxs ≡ (name_all [] qs).idxs)
request_all-refines qs asked room =
    all-refines new_str_tab qs new-IsWf asked (omega arith) (omega arith)
