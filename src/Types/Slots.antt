-- ===== src/Types/Slots.antt =====
-- Two bits of a byte, as the long form of a type writes and reads them (`|=` in
-- src/encoder/u_type_encoder.cxx, `>>` with TYPE_MASK in src/ubh/u_module.cxx).
use uwasm_vm.Base.{ℕ, ◌+◌, ◌-◌, ◌*◌, ◌/◌, ◌%◌, ◌^◌, ◌<◌, ◌≡◌, refl, arith}
use uwasm_vm.Base.{
  Bool, true, not, ◌||◌, ◌==◌, ==_iff, if◌then◌else◌, bit_or, all_below, all_below_sound,
}

abbrev pub read : ℕ → ℕ → ℕ
read b o = b / 2 ^ (8 - (o + 1) * 2) % 4

abbrev pub write : ℕ → ℕ → ℕ → ℕ
write b o v = bit_or b (v % 4 * 2 ^ (8 - (o + 1) * 2)) % 256

abbrev fits : ℕ → ℕ → ℕ → ℕ → Bool
fits b o v p = not (read b o == 0) || (read (write b o v) p == (if p == o then v else read b p))

abbrev byte_fits : ℕ → Bool
byte_fits b = all_below 4 λ o. all_below 4 λ v. all_below 4 λ p. fits b o v p

fits_everywhere : all_below 256 byte_fits ≡ true
unfolding all_below
fits_everywhere = refl

fits_lem : (b o v p : ℕ) → b < 256 → o < 4 → v < 4 → p < 4 → fits b o v p ≡ true
fits_lem b o v p hb ho hv hp =
    let at_b = all_below_sound 256 byte_fits b hb fits_everywhere in
    let at_o = all_below_sound 4 (λ o. all_below 4 λ v. all_below 4 λ p. fits b o v p) o ho at_b in
    let at_v = all_below_sound 4 (λ v. all_below 4 λ p. fits b o v p) v hv at_o in
    all_below_sound 4 (λ p. fits b o v p) p hp at_v

holds_then : (x y : Bool) → x ≡ true → (not x || y) ≡ true → y ≡ true
holds_then x y h k = ground arith

-- Into two clear bits a value is written as it is, and the other bits stay.
pub read-write :
    (b o v p : ℕ)
    → b < 256
    → o < 4
    → v < 4
    → p < 4
    → read b o ≡ 0
    → read (write b o v) p ≡ (if p == o then v else read b p)
read-write b o v p hb ho hv hp clear =
    (==_iff _ _).0
      (holds_then (read b o == 0) _ ((==_iff (read b o) 0).1 clear) (fits_lem b o v p hb ho hv hp))
