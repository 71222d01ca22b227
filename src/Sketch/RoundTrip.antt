-- ===== src/Sketch/RoundTrip.antt =====
-- A sketch of internal/eval/countminsketch.go that is written and read back.
use dice_db_distributed_syst.Prelude.{
  ℕ, suc, ◌+◌, ◌*◌, ◌/◌, ◌%◌, ◌^◌, ◌<◌, ◌≡◌, refl, sym, ap, ◌∙◌, true, false, some, List, [], ◌∷◌,
  ◌++◌, arith, ltb, length, length-append, All, Str, nat_eq, str_eq,
}
use dice_db_distributed_syst.Prelude.Int.{pos, leb_ℤ, signed64}
use mathlib.Core.List.{append_assoc}
use dice_db_distributed_syst.Sketch.{CountMinSketch}
use dice_db_distributed_syst.Sketch.Serial.{
  put_uint64, write_row, write_matrix, serialize, read_row, read_matrix, Deserialized,
  size_mismatch, sketch, deserialize_matrix, deserialize_cms,
}

abbrev digits : ℕ → ℕ
digits x =
    x / 72057594037927936 % 256 * 72057594037927936
    + x / 281474976710656 % 256 * 281474976710656
    + x / 1099511627776 % 256 * 1099511627776
    + x / 4294967296 % 256 * 4294967296
    + x / 16777216 % 256 * 16777216
    + x / 65536 % 256 * 65536
    + x / 256 % 256 * 256
    + x % 256

whole : (x : ℕ) → x < 2 ^ 64 → digits x ≡ x
whole x h = omega arith

abbrev AreCells : List ℕ → Type 0
AreCells = All (λ x. x < 2 ^ 64)

-- A matrix of rows of a width, with uint64s as cells.
abbrev pub IsMatrix : ℕ → List (List ℕ) → Type 0
IsMatrix width = All (λ row. (length row ≡ width) × AreCells row)

read_row-write_row :
    (xs : List ℕ) (l : Str) → AreCells xs → read_row (length xs) (write_row xs ++ l) ≡ some (xs, l)
unfolding read_row write_row
read_row-write_row [] l h = refl
read_row-write_row (x ∷ xs) l h =
    rw (read_row, read_row-write_row xs l h.1) (ap (λ y. some (y ∷ xs, l)) (whole x h.0))

read_matrix-write_matrix :
    (rows : List (List ℕ)) (width : ℕ) (l : Str)
    → IsMatrix width rows
    → read_matrix (length rows) width (write_matrix rows ++ l) ≡ some (rows, l)
unfolding read_matrix write_matrix
read_matrix-write_matrix [] width l h = refl
read_matrix-write_matrix (row ∷ rows) width l h =
    let e : read_row width (write_row row ++ write_matrix rows ++ l)
        ≡ some (row, write_matrix rows ++ l) =
      ap (λ n. read_row n (write_row row ++ write_matrix rows ++ l)) (sym (h.0.0))
      ∙ ap (read_row (length row)) (append_assoc (write_row row) (write_matrix rows) l)
      ∙ read_row-write_row row (write_matrix rows ++ l) (h.0.1) in
    rw (read_matrix, e, read_matrix-write_matrix rows width l h.1) refl

length-write_row : (xs : List ℕ) → length (write_row xs) ≡ length xs * 8
unfolding write_row put_uint64
length-write_row [] = refl
length-write_row (x ∷ xs) = omega (arith, length-write_row xs)

cells : (a n w : ℕ) → w * 8 + n * w * 8 ≡ suc n * w * 8
cells a n w = grind arith

length-write_matrix :
    (rows : List (List ℕ)) (width : ℕ)
    → IsMatrix width rows
    → length (write_matrix rows) ≡ length rows * width * 8
unfolding write_matrix
length-write_matrix [] width h = omega arith
length-write_matrix (row ∷ rows) width h =
    length-append (write_row row) (write_matrix rows)
    ∙ omega (arith, length-write_row row, h.0.0, length-write_matrix rows width h.1)
    ∙ cells 0 (length rows) width

abbrev pub outcome : CountMinSketch → Str → Deserialized
outcome c [] = size_mismatch
outcome c (_ ∷ _) = sketch c

matrix_outcome :
    (c : CountMinSketch) (rest : Str)
    → IsMatrix c.width c.matrix
    → length c.matrix ≡ c.depth
    → c.depth * c.width * 8 < 2 ^ 63
    → deserialize_matrix c.depth c.width c.count (write_matrix c.matrix ++ rest) ≡ outcome c rest
unfolding deserialize_matrix signed64
matrix_outcome c rest m n s =
    let size : length (write_matrix c.matrix) ≡ c.depth * c.width * 8 =
      length-write_matrix c.matrix c.width m ∙ ap (λ k. k * c.width * 8) n in
    let total = length-append (write_matrix c.matrix) rest in
    let plain : signed64 (c.depth * c.width * 8 % 2 ^ 64) ≡ pos (c.depth * c.width * 8) =
      ground arith in
    let read : read_matrix c.depth c.width (write_matrix c.matrix ++ rest) ≡ some (c.matrix, rest) =
      ap (λ k. read_matrix k c.width (write_matrix c.matrix ++ rest)) (sym n)
      ∙ read_matrix-write_matrix c.matrix c.width rest m in
    by_rest rest read plain (total ∙ ap (λ k. k + length rest) size)
  where
    by_rest :
        (r : Str)
        → read_matrix c.depth c.width (write_matrix c.matrix ++ r) ≡ some (c.matrix, r)
        → signed64 (c.depth * c.width * 8 % 2 ^ 64) ≡ pos (c.depth * c.width * 8)
        → length (write_matrix c.matrix ++ r) ≡ c.depth * c.width * 8 + length r
        → deserialize_matrix c.depth c.width c.count (write_matrix c.matrix ++ r) ≡ outcome c r
    by_rest [] g p e =
        let refused : leb_ℤ (pos (length (write_matrix c.matrix ++ [])))
              (pos (c.depth * c.width * 8))
            ≡ true =
          ground (arith, e) in
        rw (deserialize_matrix, p, refused) refl
    by_rest (x ∷ r) g p e =
        let enough : leb_ℤ (pos (length (write_matrix c.matrix ++ x ∷ r)))
              (pos (c.depth * c.width * 8))
            ≡ false =
          ground (arith, e) in
        rw (deserialize_matrix, p, enough, g) refl

-- A sketch of depth rows of width cells, with uint64s and fewer than 2^63 bytes of cells, that is
-- written reads back as it was if at least one byte follows it, and is refused for its size if
-- nothing does.
pub deserialize_cms-serialize :
    (c : CountMinSketch) (rest : Str)
    → IsMatrix c.width c.matrix
    → length c.matrix ≡ c.depth
    → c.depth < 2 ^ 64
    → c.width < 2 ^ 64
    → c.count < 2 ^ 64
    → c.depth * c.width * 8 < 2 ^ 63
    → deserialize_cms (serialize c ++ rest) ≡ outcome c rest
unfolding serialize deserialize_cms
deserialize_cms-serialize c rest m n d w k s =
    let room : ltb
          (length
            (put_uint64 0 ++ (put_uint64 0 ++ (put_uint64 0 ++ (write_matrix c.matrix ++ rest)))))
          24
        ≡ false =
      ground arith in
    let l = write_matrix c.matrix ++ rest in
    rw (deserialize_cms, room)
      (ap (λ y. deserialize_matrix y (digits c.width) (digits c.count) l) (whole c.depth d)
        ∙ ap (λ y. deserialize_matrix c.depth y (digits c.count) l) (whole c.width w)
        ∙ ap (λ y. deserialize_matrix c.depth c.width y l) (whole c.count k)
        ∙ matrix_outcome c rest m n s)
