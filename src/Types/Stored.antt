-- ===== src/Types/Stored.antt =====
-- A type added to the encoder and read back from its tables: Add_type
-- (src/encoder/u_type_encoder.cxx) with Decode_type_and_cache (src/ubh/u_module.cxx).
use uwasm_vm.Base.{
  ℕ, suc, ◌+◌, ◌%◌, ◌^◌, ◌<◌, ◌≤◌, ◌≡◌, refl, ap, arith, inl, inr, Bool, Bool-cases,
}
use uwasm_vm.Base.{true, false, ltb, lt→ltb, ltb→lt, List, [], ◌∷◌, ◌++◌, length, All}
use uwasm_vm.Base.{get_elem?, get_elem?-length, drop, some-injective, some, none, Result, ok}
use uwasm_vm.StrTab.Names.{Option-cases}
use uwasm_vm.StrTab.Refines.{IsWf}
use uwasm_vm.StrTab.Run.{Req, request-stored}
use uwasm_vm.Types.Encode.{
  UbhType, ubh_type, same_type, byte_num, find_type, intern, TypeEncoder, Added, add_type,
  are_valtys, checked_add_type, max_type_elem_num, type_to_number,
}
use uwasm_vm.Types.Decode.{decode_long, decode_type}
use uwasm_vm.Types.ShortForm.{decode_type-short}
use uwasm_vm.Types.RoundTrip.{decode_long-long_form}

abbrev fields : ℕ → ℕ → ℕ → UbhType
fields r p e = record { ret_num = r; param_num = p; elem = e }

by_fields : {r r' p p' e e' : ℕ} → r ≡ r' → p ≡ p' → e ≡ e' → fields r p e ≡ fields r' p' e'
by_fields rets params elems = rw (rets, params, elems) refl

same_type→eq : (a b : UbhType) → same_type a b ≡ true → a ≡ b
same_type→eq a b same =
    let (rets, params, elems) : (a.ret_num ≡ b.ret_num)
        × (a.param_num ≡ b.param_num)
        × (a.elem ≡ b.elem) =
      ground arith in
    by_fields rets params elems

find_type-found :
    (i : ℕ) (us : List UbhType) (t : UbhType) (j : ℕ)
    → find_type i us t ≡ some j
    → (k : ℕ) × (j ≡ i + k) × (get_elem? us k ≡ some t)
unfolding find_type
find_type-found i [] t j found = absurd (cc)
find_type-found i (u ∷ us) t j found = elim (Bool-cases (same_type u t)) [
  | inl same ↦
      (0, omega (arith, some-injective (rw same at found)), ap some (same_type→eq u t same))
  | inr differ ↦
      let (k, place, here) = find_type-found (i + 1) us t j (rw differ at found) in
      (suc k, omega arith, here)
]

module _ (te : TypeEncoder) (t : UbhType) where
  intern-there :
      (i : ℕ) → find_type 0 te.type_list t ≡ some i → intern te t ≡ record { encoder = te; idx = i }
  unfolding intern
  intern-there i found = rw (found, intern) refl

  intern-new :
      find_type 0 te.type_list t ≡ none
      → intern te t ≡ record {
        encoder = record te { type_list = te.type_list ++ t ∷ [] };
        idx = length te.type_list;
      }
  unfolding intern
  intern-new missing = rw (missing, intern) refl

  -- The type stands at its index, and the strings are left alone.
  intern-here :
      (get_elem? (intern te t).encoder.type_list (intern te t).idx ≡ some t)
      × ((intern te t).encoder.nn_tab ≡ te.nn_tab)
  intern-here = elim (Option-cases (find_type 0 te.type_list t)) [
    | inl (i, found) ↦
        let (k, place, here) = find_type-found 0 te.type_list t i found in
        let same : i ≡ k = omega arith in rw (intern-there i found, same) (here, refl)
    | inr missing ↦ rw (intern-new missing) (get_elem?-length te.type_list t, refl)
  ]

are_valtys-All : (vs : List ℕ) → All (λ v. v < 4) vs → are_valtys vs ≡ true
are_valtys-All [] small = refl
are_valtys-All (v ∷ vs) (first, rest) = rw (lt→ltb v 4 first, are_valtys-All vs rest) refl

-- What an added type is read back as.
abbrev ReadsBack : Result Added → List ℕ → List ℕ → Type 0
ReadsBack r rets params =
    (a : Added) × (t : UbhType) × (r ≡ ok a)
    × (get_elem? a.encoder.type_list a.idx ≡ some t)
    × (decode_type a.encoder.nn_tab.raw_buf t ≡ ok (record { rets = rets; params = params }))
    × IsWf a.encoder.nn_tab

module _ (moved : Bool) (te : TypeEncoder) (rets params : List ℕ) (wf : IsWf te.nn_tab)
    (few : length rets ≤ 3) (ret_valtys : All (λ v. v < 4) rets)
    (param_valtys : All (λ v. v < 4) params) where
  add_short :
      length rets + length params < 14 → ReadsBack (add_type moved te rets params) rets params
  unfolding add_type
  add_short total =
      let t = ubh_type (length rets) (length params) (type_to_number rets params) in
      let short = lt→ltb (length rets + length params) max_type_elem_num total in
      let (here, same) = intern-here te t in
      (
        intern te t,
        t,
        rw short refl,
        here,
        rw same (decode_type-short te.nn_tab.raw_buf rets params few total ret_valtys param_valtys),
        rw same wf,
      )

  read_long :
      (nn_sec buf more : List ℕ) (off : ℕ)
      → off < 2 ^ 26
      → drop off nn_sec ≡ buf ++ more
      → decode_long (length rets) (buf ++ more) ≡ ok (record { rets = rets; params = params })
      → decode_type nn_sec (ubh_type (length rets) 0xff off)
        ≡ ok (record { rets = rets; params = params })
  unfolding decode_type
  read_long nn_sec buf more off below stands reads =
      let ret_num : length rets % 4 ≡ length rets = omega arith in
      let place : off % 2 ^ 26 ≡ off = omega arith in rw (place, ret_num, stands) reads

  add_long :
      13 < length rets + length params
      → length rets + length params < 255
      → length te.nn_tab.raw_buf + 2 + byte_num (length rets + length params) < 2 ^ 26
      → length te.nn_tab.entry_vec < 2 ^ 32
      → ReadsBack (add_type moved te rets params) rets params
  unfolding add_type
  add_long many total room entries_room =
      let long : ltb (length rets + length params) max_type_elem_num ≡ false = ground arith in
      let (buf, packed, bytes, size, reads) =
        decode_long-long_form rets params (omega arith) total ret_valtys param_valtys in
      let q : Req = record { moved = moved; buf = buf } in
      let (r, off, more, asked, at_off, stands, inside, r_wf, longer) =
        request-stored te.nn_tab q wf (record { bytes = bytes; some_bytes = omega arith })
          (omega arith) entries_room in
      let next : TypeEncoder = record te { nn_tab = r.table } in
      let t = ubh_type (length rets) 0xff off in
      let (here, same) = intern-here next t in
      (
        intern next t,
        t,
        rw (long, packed, asked, at_off) refl,
        here,
        rw same (read_long r.table.raw_buf buf more off (omega arith) stands (reads more)),
        rw same r_wf,
      )

  checks_pass :
      length rets + length params < 255
      → checked_add_type moved te rets params ≡ add_type moved te rets params
  unfolding checked_add_type
  checks_pass total =
      rw
        (
          lt→ltb (length rets + length params) 255 total,
          are_valtys-All rets ret_valtys,
          are_valtys-All params param_valtys,
        )
        refl

-- A type that is added stands in the table of types under the index that is returned, and
-- Decode_type_and_cache reads its results and parameters back from that entry and the encoder's
-- strings, in the short form and in the long one. The type has at most 3 results, at most 254 results
-- and parameters, and only the four value types; the encoder's strings are well formed and have
-- room below 2 ^ 26.
pub decode_type-checked_add_type :
    (moved : Bool) (te : TypeEncoder) (rets params : List ℕ)
    → IsWf te.nn_tab
    → length rets ≤ 3
    → length rets + length params < 255
    → All (λ v. v < 4) rets
    → All (λ v. v < 4) params
    → length te.nn_tab.raw_buf + 2 + byte_num (length rets + length params) < 2 ^ 26
    → length te.nn_tab.entry_vec < 2 ^ 32
    → (a : Added) × (t : UbhType) × (checked_add_type moved te rets params ≡ ok a)
      × (get_elem? a.encoder.type_list a.idx ≡ some t)
      × (decode_type a.encoder.nn_tab.raw_buf t ≡ ok (record { rets = rets; params = params }))
      × IsWf a.encoder.nn_tab
decode_type-checked_add_type moved te rets params wf few total ret_valtys param_valtys room
      entries_room =
    rw (checks_pass moved te rets params wf few ret_valtys param_valtys total)
      (elim (Bool-cases (ltb (length rets + length params) 14)) [
        | inl short ↦
            add_short moved te rets params wf few ret_valtys param_valtys (ltb→lt _ _ short)
        | inr long ↦
            add_long moved te rets params wf few ret_valtys param_valtys (ground arith) total room
              entries_room
      ])
