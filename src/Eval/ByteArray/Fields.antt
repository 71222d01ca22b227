-- ===== src/Eval/ByteArray/Fields.antt =====
-- incrByBits of internal/eval/bytearray.go, and executeBitfieldOps of internal/eval/store_eval.go.
use dice_db_distributed_syst.Prelude.{
  ℕ, zero, suc, ◌+◌, ◌-◌, ◌%◌, ◌^◌, Bool, true, false, ◌||◌, Option, none, some, List, [], ◌∷◌,
  if◌then◌else◌, Str, nat_eq, str_eq,
}
use dice_db_distributed_syst.Prelude.Int.{
  ℤ, pos, negsuc, pos_part, neg_part, sub_ℕ, ◌+ℤ◌, ◌-ℤ◌, ltb_ℤ, wrap64,
}
use dice_db_distributed_syst.Eval.ByteArray.{get_bits, set_bits, increase_size, room_for}

pub data Overflow : Type 0 where
  wrap sat fail : Overflow

-- Go's % on int64: the sign is the dividend's; none for a division by 0.
unfoldable pub rem64 : ℤ → ℤ → Option ℤ
rem64 a (pos zero) = none
rem64 (pos n) b = some (pos (n % (pos_part b + neg_part b)))
rem64 (negsuc n) b = some (sub_ℕ 0 (suc n % (pos_part b + neg_part b)))

-- int64(1<<k), where k may be 63.
abbrev pub shifted : ℕ → ℤ
shifted k = wrap64 (pos (2 ^ k))

abbrev pub max_val : Bool → ℕ → ℤ
max_val true width = wrap64 (shifted (width - 1) -ℤ pos 1)
max_val false width = wrap64 (shifted width -ℤ pos 1)

abbrev pub min_val : Bool → ℕ → ℤ
min_val true width = wrap64 (pos 0 -ℤ shifted (width - 1))
min_val false width = pos 0

-- The result of a step: a panic, an overflow that is refused, or the number and the bytes.
pub data Counted : Type 0 where
  bits_panic refused : Counted
  counted : ℤ → Str → Counted

-- newValue under WRAP.
unfoldable pub wrapped : Bool → ℕ → ℤ → Option ℤ
unfolding rem64
wrapped false width new = rem64 new (wrap64 (max_val false width +ℤ pos 1))
wrapped true width new =
    let lo = min_val true width in
    let range_size = wrap64 (wrap64 (max_val true width -ℤ lo) +ℤ pos 1) in
    elim (rem64 (wrap64 (new -ℤ lo)) range_size) [
      | none ↦ none
      | some r ↦ elim (rem64 (wrap64 (r +ℤ range_size)) range_size) [
        | none ↦ none
        | some q ↦ some (wrap64 (q +ℤ lo))
      ]
    ]

unfoldable pub stored : ℤ → ℕ → Str → Option ℤ → Counted
unfolding set_bits
stored offset width b none = bits_panic
stored offset width b (some v) = elim (set_bits offset width v b) [
  | none ↦ bits_panic
  | some b' ↦ counted v b'
]

unfoldable pub incr_by_bits : ℤ → ℕ → ℤ → Overflow → Bool → Str → Counted
unfolding get_bits increase_size wrapped stored
incr_by_bits offset width increment overflow signed b =
    let b' = room_for offset width b in
    elim (get_bits offset width signed b') [
      | none ↦ bits_panic
      | some value ↦
          let new = wrap64 (value +ℤ increment) in
          let hi = max_val signed width in
          let lo = min_val signed width in
          elim overflow [
            | wrap ↦ stored offset width b' (wrapped signed width new)
            | sat ↦
                stored offset width b'
                  (some (if ltb_ℤ hi new then hi else if ltb_ℤ new lo then lo else new))
            | fail ↦
                if ltb_ℤ hi new || ltb_ℤ new lo then refused else stored offset width b' (some new)
          ]
    ]

-- BitFieldOp by its kind: whether the field is signed, its width, its offset, and a value.
pub data BitFieldOp : Type 0 where
  get : Bool → ℕ → ℤ → BitFieldOp
  set incrby : Bool → ℕ → ℤ → ℤ → BitFieldOp
  overflow : Overflow → BitFieldOp

-- The loop: the results, none for an overflow that is refused, and the bytes. A refused increment has
-- grown the array already. none is a panic.
abbrev pub then_result : Option ℤ → Option (List (Option ℤ) × Str) → Option (List (Option ℤ) × Str)
then_result r none = none
then_result r (some (rs, b)) = some (r ∷ rs, b)

unfoldable pub execute_bitfield_ops :
    Overflow → List BitFieldOp → Str → Option (List (Option ℤ) × Str)
unfolding get_bits set_bits incr_by_bits
execute_bitfield_ops o [] b = some ([], b)
execute_bitfield_ops o (overflow o' ∷ ops) b = execute_bitfield_ops o' ops b
execute_bitfield_ops o (get signed width offset ∷ ops) b =
    let rest = execute_bitfield_ops o ops b in
    elim (get_bits offset width signed b) [ none ↦ none | some v ↦ then_result (some v) rest ]
execute_bitfield_ops o (set signed width offset value ∷ ops) b =
    let rest = λ (b' : Str). execute_bitfield_ops o ops b' in
    elim (get_bits offset width signed b) [
      | none ↦ none
      | some v ↦ elim (set_bits offset width value b) [
        | none ↦ none
        | some b' ↦ then_result (some v) (rest b')
      ]
    ]
execute_bitfield_ops o (incrby signed width offset increment ∷ ops) b =
    let rest = λ (b' : Str). execute_bitfield_ops o ops b' in
    elim (incr_by_bits offset width increment o signed b) [
      | bits_panic ↦ none
      | refused ↦ then_result none (rest (room_for offset width b))
      | counted v b' ↦ then_result (some v) (rest b')
    ]
