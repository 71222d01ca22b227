-- ===== src/Eval/BitPos/Laws.antt =====
-- BITPOS finds the first bit of a range: getBitPos of internal/eval/bitpos.go.
use dice_db_distributed_syst.Prelude.{
  ℕ, ◌+◌, ◌-◌, ◌*◌, ◌/◌, ◌^◌, ◌≤◌, ◌<◌, ◌≡◌, ◌≢◌, ◌⊎◌, if◌then◌else◌, Bool, true, false, Option,
  none, some, length, Str, nat_eq, str_eq,
}
use dice_db_distributed_syst.Prelude.Int.{
  place, ℤ, pos, negsuc, pos_part, ◌-ℤ◌, ◌≤ℤ◌, IsInt64, ltb_ℤ,
}
use dice_db_distributed_syst.Eval.ByteArray.{get_bit}
use dice_db_distributed_syst.Eval.BitPos.{unit_size}

-- The first position from i on, of n, at which GetBit reads the bit, or none.
abbrev pub NotBefore : Bool → ℕ → ℕ → Str → Type 0
NotBefore bit i k b = (j : ℕ) → i ≤ j → j < k → get_bit j b ≢ some bit

abbrev pub IsFirst : Bool → ℕ → ℕ → Str → Option ℕ → Type 0
IsFirst bit i n b none = NotBefore bit i (i + n) b
IsFirst bit i n b (some k) = (get_bit k b ≡ some bit) × (i ≤ k) × (k < i + n) × NotBefore bit i k b

-- The bits of a unit, and the units of an array.
abbrev pub bits_in : Bool → ℕ
bits_in true = 8
bits_in false = 1

abbrev pub units_of : Bool → Str → ℕ
units_of true b = length b
units_of false b = length b * 8

-- A unit of the array that lies between the places of a start and an end.
abbrev pub InRange : Bool → ℤ → ℤ → Str → ℕ → Type 0
InRange in_bytes start end b u =
    (u < units_of in_bytes b)
    × (place (units_of in_bytes b) start ≤ℤ pos u)
    × (pos u ≤ℤ place (units_of in_bytes b) end)

-- A bit of the range that GetBit reads as wanted.
abbrev pub Matches : Bool → Bool → ℤ → ℤ → Str → ℕ → Type 0
Matches bit in_bytes start end b k =
    InRange in_bytes start end b (k / bits_in in_bytes) × (get_bit k b ≡ some bit)

-- The first match; past the last bit; or -1.
abbrev pub Answers : Bool → Bool → Bool → ℤ → ℤ → Str → ℤ → Type 0
Answers bit in_bytes end_provided start end b z =
    ((k : ℕ) × (z ≡ pos k)
      × Matches bit in_bytes start end b k
      × ((j : ℕ) → j < k → ¬ Matches bit in_bytes start end b j))
    ⊎ ((z ≡ pos (length b * 8))
        × ((j : ℕ) → ¬ Matches bit in_bytes start end b j)
        × (bit ≡ false)
        × (end_provided ≡ false)
        × ((u : ℕ) × InRange in_bytes start end b u))
    ⊎ ((z ≡ negsuc 0)
        × ((j : ℕ) → ¬ Matches bit in_bytes start end b j)
        × ((bit ≡ true) ⊎ (end_provided ≡ true) ⊎ ((u : ℕ) → ¬ InRange in_bytes start end b u)))

-- The range of units that the code has, of which none is past the array.
abbrev last_of : ℕ → ℤ → ℤ
last_of len z = let last = pos len -ℤ pos 1 in if ltb_ℤ last z then last else z

module _ (bit in_bytes end_provided : Bool) (start end : ℤ) (b : Str) (hs : IsInt64 start)
    (he : IsInt64 end) (small : length b * 8 < 2 ^ 63) where
  abbrev lo : ℕ
  lo = pos_part (place (units_of in_bytes b) start)

  abbrev hi : ℤ
  hi = last_of (units_of in_bytes b) (place (units_of in_bytes b) end)

  abbrev width : ℕ
  width = (pos_part hi + 1) * unit_size in_bytes - lo * unit_size in_bytes
