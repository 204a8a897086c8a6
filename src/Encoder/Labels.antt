-- ===== src/Encoder/Labels.antt =====
-- The labels of a function: Request_label and Set_label (src/encoder/u_inst_encoder.h,
-- src/encoder/u_inst_encoder.cxx) with Add_label (src/encoder/u_encoder.cxx).
use uwasm_vm.Base.{
  ℕ, ◌^◌, ◌<◌, ◌≡◌, ◌≢◌, ◌∙◌, refl, sym, ap, arith, inl, inr, Bool, true, lt→ltb, ◌==◌, ==_iff,
}
use uwasm_vm.Base.{
  List, [], ◌∷◌, ◌++◌, All, length, length-append, length-set, get_elem?, get_elem?-set_self,
  get_elem?-set_ne, get_elem?-append, get_elem?-length, lt_of_get_elem?, set,
}
use uwasm_vm.Base.{Option, some, none, ok}
use uwasm_vm.StrTab.Order.{IsByte}
use uwasm_vm.StrTab.Table
use uwasm_vm.StrTab.Table.{StrTab, Indexed, find, contents}
use uwasm_vm.StrTab.Names.{strings, index_of, Option-cases, index_from-found}
use uwasm_vm.StrTab.Refines.{IsWf, add-new, length-map}
use uwasm_vm.Encoder.Code.{CodeBody, Labelled, request_label, set_label, add_label}

-- The label table has a position for each name.
pub record IsNamed (b : CodeBody) : Type 0 where
  pub names : IsWf b.lab_names
  pub same_num : length b.lab_names.entry_vec ≡ length b.lab_tab

-- What a request leaves, and what it answers.
pub record IsAnswer (b : CodeBody) (label_name : List ℕ) (r : Labelled) : Type 0 where
  pub insts : r.body.inst_tab ≡ b.inst_tab
  pub name : get_elem? (strings r.body.lab_names) r.label_idx ≡ some label_name
  pub inside : r.label_idx < length r.body.lab_tab
  pub keeps : (j : ℕ) → j < length b.lab_tab → get_elem? r.body.lab_tab j ≡ get_elem? b.lab_tab j
  pub named : IsNamed r.body

module _ (moved : Bool) (b : CodeBody) (s : List ℕ) where
  request_label-there :
      (i : ℕ)
      → find b.lab_names.raw_buf s b.lab_names.cache ≡ some i
      → request_label moved b s ≡ ok (record { body = b; label_idx = i })
  unfolding request_label Table.contains Table.get_idx
  request_label-there i there = rw (there, Table.contains, Table.get_idx) refl

  abbrev with_label : StrTab → CodeBody
  with_label names = record b { lab_names = names; lab_tab = b.lab_tab ++ none ∷ [] }

  request_label-new :
      (r : Indexed)
      → find b.lab_names.raw_buf s b.lab_names.cache ≡ none
      → Table.add moved b.lab_names s ≡ ok r
      → (length r.table.entry_vec == length (b.lab_tab ++ none ∷ [])) ≡ true
      → request_label moved b s ≡ ok (record { body = with_label r.table; label_idx = r.idx })
  unfolding request_label Table.contains
  request_label-new r missing adds same = rw (missing, Table.contains, adds, same) refl

  module _ (wf : IsNamed b) (bytes : All IsByte s) (some_bytes : 0 < length s)
      (room : length b.lab_names.raw_buf < 2 ^ 32)
      (entries : length b.lab_names.entry_vec < 2 ^ 32) where
    request_label_lem : (r : Labelled) × (request_label moved b s ≡ ok r) × IsAnswer b s r
    request_label_lem = elim (Option-cases (index_of (strings b.lab_names) s)) [
      | inl (i, there) ↦
          let (k, place, here) = index_from-found 0 (strings b.lab_names) s i there in
          let same : k ≡ i = omega arith in
          let below = lt_of_get_elem? (strings b.lab_names) k here in
          (
            record { body = b; label_idx = i },
            request_label-there i (wf.names.finds s bytes ∙ there),
            record {
              insts = refl;
              name = rw⁻¹ same here;
              inside = omega (
                arith,
                below,
                length-map (contents b.lab_names.raw_buf) b.lab_names.entry_vec,
                wf.same_num,
              );
              keeps = λ j h. refl;
              named = wf;
            },
          )
      | inr missing ↦
          let (r, adds, r_wf, names, idx, raw, more, all) =
            add-new b.lab_names s wf.names bytes some_bytes room entries moved missing in
          let longer = length-append b.lab_tab (none ∷ []) in
          let same : length r.table.entry_vec ≡ length (b.lab_tab ++ none ∷ []) =
            omega (arith, longer, more, wf.same_num) in
          let last : r.idx ≡ length (strings b.lab_names) =
            idx ∙ sym (length-map (contents b.lab_names.raw_buf) b.lab_names.entry_vec) in
          (
            record { body = with_label r.table; label_idx = r.idx },
            request_label-new r (wf.names.finds s bytes ∙ missing) adds ((==_iff _ _).1 same),
            record {
              insts = refl;
              name = rw (names, last) (get_elem?-length (strings b.lab_names) s);
              inside = omega (arith, longer, idx, wf.same_num);
              keeps = λ j h. get_elem?-append b.lab_tab (none ∷ []) j h;
              named = record { names = r_wf; same_num = same };
            },
          )
    ]

    -- A label that is added stands for the position of the next instruction, under the index of its
    -- name, and every other label keeps its position; the table goes on to have a position for each
    -- name. The names are well formed and have room, and the label's name is not empty.
    pub add_label_lem :
        (r : Labelled) × (add_label moved b s ≡ ok r)
        × (get_elem? (strings r.body.lab_names) r.label_idx ≡ some s)
        × (get_elem? r.body.lab_tab r.label_idx ≡ some (some (length b.inst_tab)))
        × ((j : ℕ)
            → j < length b.lab_tab
            → r.label_idx ≢ j
            → get_elem? r.body.lab_tab j ≡ get_elem? b.lab_tab j)
        × IsNamed r.body
    unfolding add_label set_label
    add_label_lem =
        let (r, asked, answer) = request_label_lem in
        let below = lt→ltb r.label_idx (length r.body.lab_tab) answer.inside in
        let position : Option ℕ = some (length r.body.inst_tab) in
        let next : CodeBody = record r.body { lab_tab = set r.body.lab_tab r.label_idx position } in
        (
          record { body = next; label_idx = r.label_idx },
          rw (asked, below) refl,
          answer.name,
          get_elem?-set_self r.body.lab_tab r.label_idx position answer.inside
              ∙ ap (λ is. some (some (length is))) answer.insts,
          λ j h other.
              get_elem?-set_ne r.body.lab_tab r.label_idx j position other ∙ answer.keeps j h,
          record {
            names = answer.named.names;
            same_num = answer.named.same_num ∙ sym (length-set r.body.lab_tab r.label_idx position);
          },
        )
