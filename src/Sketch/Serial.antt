-- ===== src/Sketch/Serial.antt =====
-- serialize and DeserializeCMS of internal/eval/countminsketch.go. A write to a bytes.Buffer has no
-- error.
use dice_db_distributed_syst.Prelude.{
  ℕ, zero, suc, ◌+◌, ◌*◌, ◌/◌, ◌%◌, ◌^◌, Option, none, some, List, [], ◌∷◌, ◌++◌, ltb,
  if◌then◌else◌, length, Str, nat_eq, str_eq,
}
use dice_db_distributed_syst.Prelude.Int.{pos, leb_ℤ, signed64}
use dice_db_distributed_syst.Sketch.{CountMinSketch}

-- binary.Write and binary.Read of a uint64, with the highest byte first.
unfoldable pub put_uint64 : ℕ → Str
put_uint64 x =
    (x / 72057594037927936 % 256)
    ∷ (x / 281474976710656 % 256)
    ∷ (x / 1099511627776 % 256)
    ∷ (x / 4294967296 % 256)
    ∷ (x / 16777216 % 256)
    ∷ (x / 65536 % 256)
    ∷ (x / 256 % 256)
    ∷ (x % 256)
    ∷ []

unfoldable pub read_uint64 : Str → Option (ℕ × Str)
read_uint64 (a ∷ b ∷ c ∷ d ∷ e ∷ f ∷ g ∷ h ∷ l) = some (
  a * 72057594037927936
      + b * 281474976710656
      + c * 1099511627776
      + d * 4294967296
      + e * 16777216
      + f * 65536
      + g * 256
      + h,
  l,
)
read_uint64 _ = none

unfoldable pub write_row : List ℕ → Str
unfolding put_uint64
write_row [] = []
write_row (x ∷ xs) = put_uint64 x ++ write_row xs

unfoldable pub write_matrix : List (List ℕ) → Str
unfolding write_row
write_matrix [] = []
write_matrix (row ∷ rows) = write_row row ++ write_matrix rows

unfoldable pub serialize : CountMinSketch → Str
unfolding write_matrix put_uint64
serialize c =
    put_uint64 c.depth ++ (put_uint64 c.width ++ (put_uint64 c.count ++ write_matrix c.matrix))

unfoldable pub read_row : ℕ → Str → Option (List ℕ × Str)
unfolding read_uint64
read_row zero l = some ([], l)
read_row (suc n) l = elim (read_uint64 l) [
  | none ↦ none
  | some (x, l') ↦ elim (read_row n l') [ none ↦ none | some (xs, r) ↦ some (x ∷ xs, r) ]
]

unfoldable pub read_matrix : ℕ → ℕ → Str → Option (List (List ℕ) × Str)
unfolding read_row
read_matrix zero width l = some ([], l)
read_matrix (suc n) width l = elim (read_row width l) [
  | none ↦ none
  | some (row, l') ↦ elim (read_matrix n width l') [
    | none ↦ none
    | some (rows, r) ↦ some (row ∷ rows, r)
  ]
]

pub data Deserialized : Type 0 where
  insufficient_data size_mismatch read_error : Deserialized
  sketch : CountMinSketch → Deserialized

-- The end of DeserializeCMS, once depth, width and count are read.
unfoldable pub deserialize_matrix : ℕ → ℕ → ℕ → Str → Deserialized
unfolding read_matrix signed64
deserialize_matrix depth width count l =
    let expected_size = signed64 (depth * width * 8 % 2 ^ 64) in
    if leb_ℤ (pos (length l)) expected_size
    then size_mismatch
    else elim (read_matrix depth width l) [
      | none ↦ read_error
      | some (matrix, _) ↦
          sketch (record { depth = depth; width = width; matrix = matrix; count = count })
    ]

unfoldable pub deserialize_cms : Str → Deserialized
unfolding read_uint64 deserialize_matrix
deserialize_cms l = if ltb (length l) 24 then insufficient_data else elim (read_uint64 l) [
  | none ↦ read_error
  | some (depth, l1) ↦ elim (read_uint64 l1) [
    | none ↦ read_error
    | some (width, l2) ↦ elim (read_uint64 l2) [
      | none ↦ read_error
      | some (count, l3) ↦ deserialize_matrix depth width count l3
    ]
  ]
]
