-- ===== src/Eval/ByteArray/Aligned.antt =====
-- setBits and getBits of internal/eval/bytearray.go count the bits of a byte from opposite ends.
use dice_db_distributed_syst.Prelude.{
  ℕ, zero, suc, ◌+◌, ◌-◌, ◌*◌, ◌/◌, ◌%◌, ◌^◌, ◌≤◌, ◌<◌, ◌≡◌, refl, sym, ap, ◌∙◌, inl, inr, Bool,
  true, false, ◌&&◌, Option, none, some, arith, ◌==◌, if◌then◌else◌, Option-cases, length, Str,
  nat_eq, str_eq,
}
use dice_db_distributed_syst.Prelude.Int.{
  ℤ, pos, pos_part, ◌+ℤ◌, ◌-ℤ◌, leb_ℤ, pattern64, wrap64, wrap64-eq_self,
}
use dice_db_distributed_syst.Eval.ByteArray.{
  get_bit, get_bit_at, read_bits, write_bits, field_value, get_bits, set_bits, room_for,
  missing_bits, increase_size,
}
use dice_db_distributed_syst.Eval.ByteArray.Laws.{AreBytes, bit_in, put_byte-Changed}

-- The left half of every byte.
abbrev pub SameLeft : Str → Str → Type 0
SameLeft b b' = (length b' ≡ length b) × ((j : ℕ) → j % 8 < 4 → get_bit j b' ≡ get_bit j b)

write_bits-SameLeft :
    (n offset value : ℕ) (b : Str)
    → AreBytes b
    → offset % 8 + n ≤ 4
    → offset / 8 < length b
    → (b' : Str) × (write_bits n offset value b ≡ some b') × SameLeft b b'
unfolding write_bits get_bit
write_bits-SameLeft zero offset value b h le lt = (b, refl, (refl, λ j p. refl))
write_bits-SameLeft (suc n) offset value b h le lt =
    let bit = value % 2 == 1 in
    let (b₁, c) = put_byte-Changed (offset / 8) (offset % 8) bit b h (omega arith) lt in
    let more =
      write_bits-SameLeft n (offset + 1) (value / 2) b₁ c.bytes (omega arith)
        (omega (arith, c.size)) in
    let (b₂, result, s) = more in
    (
      b₂,
      rw (write_bits, c.result) result,
      (
        omega (arith, s.0, c.size),
        λ j p.
            let apart : (j / 8 == offset / 8 && offset % 8 == 7 - j % 8) ≡ false = ground arith in
            s.1 j p
            ∙ c.bits (j / 8) (7 - j % 8) (omega arith)
            ∙ ap (λ t. if t then some bit else bit_in (j / 8) (2 ^ (7 - j % 8)) b) apart,
      ),
    )

pos-succ : (o : ℕ) → pos o +ℤ pos 1 ≡ pos (o + 1)
unfolding ◌+ℤ◌
pos-succ o = ground arith

abbrev digit_of : Bool → ℕ
digit_of bit = if bit then 1 else 0

read_bits_step :
    (n o value : ℕ) (b : Str)
    → read_bits (suc n) (pos o) value b ≡ elim (get_bit_at (pos o) b) [
      | none ↦ none
      | some bit ↦ read_bits n (pos (o + 1)) (value * 2 + digit_of bit) b
    ]
unfolding read_bits
read_bits_step n o value b =
    ap
      (λ t. elim (get_bit_at (pos o) b) [
        | none ↦ none
        | some bit ↦ read_bits n t (value * 2 + digit_of bit) b
      ])
      (pos-succ o)

read_bits-SameLeft :
    (n o value : ℕ) (b b' : Str)
    → SameLeft b b'
    → o % 8 + n ≤ 4
    → read_bits n (pos o) value b' ≡ read_bits n (pos o) value b
unfolding get_bit_at
read_bits-SameLeft zero o value b b' s le = read_none o value b' ∙ sym (read_none o value b)
  where
    read_none : (o value : ℕ) (b : Str) → read_bits 0 (pos o) value b ≡ some value
    read_none o value b = unfold read_bits in refl
read_bits-SameLeft (suc n) o value b b' s le =
    let at : get_bit o b' ≡ get_bit o b = s.1 o (omega arith) in
    read_bits_step n o value b' ∙ elim (Option-cases (get_bit o b)) [
      | inl e ↦ rw (at, e) (sym (read_bits_step n o value b ∙ rw e refl))
      | inr (bit, e) ↦
          rw (at, e)
            (read_bits-SameLeft n (o + 1) (value * 2 + digit_of bit) b b' s (omega arith)
              ∙ sym (read_bits_step n o value b ∙ rw e refl))
    ]

fits_lem :
    (o n len : ℕ) → o + n ≤ len → len < 2 ^ 63 → leb_ℤ (wrap64 (pos o +ℤ pos n)) (pos len) ≡ true
fits_lem o n len h lt =
    let e : pos o +ℤ pos n ≡ pos (o + n) = pos-add o n in
    let w : wrap64 (pos (o + n)) ≡ pos (o + n) =
      wrap64-eq_self (pos (o + n)) (omega arith, omega arith) in
    rw (e, w) (ground arith)
  where
    pos-add : (o n : ℕ) → pos o +ℤ pos n ≡ pos (o + n)
    pos-add o n = unfold ◌+ℤ◌ in ground arith

set_bits-SameLeft :
    (offset width : ℕ) (value : ℤ) (b : Str)
    → AreBytes b
    → offset % 8 + width ≤ 4
    → 0 < width
    → offset + width ≤ length b * 8
    → length b * 8 < 2 ^ 63
    → (b' : Str) × (set_bits (pos offset) width value b ≡ some b') × SameLeft b b'
unfolding set_bits
set_bits-SameLeft offset width value b h le w in_range small =
    let room : room_for (pos offset) width b ≡ b =
      ap
        (λ t.
          if t
          then b
          else increase_size (pos_part (wrap64 (pos offset +ℤ pos width +ℤ pos 7)) / 8) b)
        (fits_lem offset width (length b * 8) in_range small) in
    let (b', result, s) = write_bits-SameLeft width offset (pattern64 value) b h le (omega arith) in
    (b', ap (write_bits width offset (pattern64 value)) room ∙ result, s)

-- A field that is set within the first four of a byte's positions changes nothing that is read there:
-- setBits counts the bits of a byte from the lowest, getBits from the highest.
get_bits-set_bits_left :
    (offset width : ℕ) (value : ℤ) (at size : ℕ) (signed : Bool) (b : Str)
    → AreBytes b
    → offset % 8 + width ≤ 4
    → 0 < width
    → offset + width ≤ length b * 8
    → length b * 8 < 2 ^ 63
    → at % 8 + size ≤ 4
    → (b' : Str) × (set_bits (pos offset) width value b ≡ some b')
      × (get_bits (pos at) size signed b' ≡ get_bits (pos at) size signed b)
unfolding get_bits
get_bits-set_bits_left offset width value at size signed b h le w in_range small le' =
    let (b', result, s) = set_bits-SameLeft offset width value b h le w in_range small in
    let missing : missing_bits (pos at) size b' ≡ missing_bits (pos at) size b =
      ap (λ n. pos_part (wrap64 (pos at +ℤ pos size) -ℤ pos (n * 8))) s.0 in
    let extra = missing_bits (pos at) size b in
    let read = read_bits-SameLeft (size - extra) at 0 b b' s (omega arith) in
    let answer : ℕ → Option ℕ → Option ℤ =
      λ e o. elim o [ none ↦ none | some n ↦ some (field_value signed size e n) ] in
    (
      b',
      result,
      ap (λ e. answer e (read_bits (size - e) (pos at) 0 b')) missing ∙ ap (answer extra) read,
    )
