-- ===== src/Sketch.antt =====
-- internal/eval/countminsketch.go: the count-min sketch. The hash (hash/fnv) is a parameter: the two
-- base hashes of a key. A row of the matrix is the list of its cells, each a uint64.
pub mod Laws
pub mod Merge
pub mod Serial
pub mod RoundTrip
use dice_db_distributed_syst.Prelude.{
  ℕ, zero, suc, ◌+◌, ◌-◌, ◌*◌, ◌%◌, ◌^◌, List, [], ◌∷◌, arith, ltb, if◌then◌else◌, replicate, Str,
  str_beq, nat_eq, str_eq,
}

pub record CountMinSketch : Type 0 where
  pub depth : ℕ
  pub width : ℕ
  pub matrix : List (List ℕ)
  pub count : ℕ

unfoldable pub new_count_min_sketch : ℕ → ℕ → CountMinSketch
new_count_min_sketch depth width = record {
  depth = depth;
  width = width;
  matrix = replicate depth (replicate width 0);
  count = 0;
}

-- matrixPositions from a row on, for n rows. A width of 0, which the options refuse, would panic.
unfoldable pub positions_from : ℕ → ℕ → ℕ → ℕ → ℕ → List ℕ
positions_from hash1 hash2 width row zero = []
positions_from hash1 hash2 width row (suc n) =
    (hash1 + hash2 * row) % 2 ^ 64 % width ∷ positions_from hash1 hash2 width (row + 1) n

-- matrix[row][col]: the cell at a column, and the row with n more in it.
abbrev pub cell : List ℕ → ℕ → ℕ
cell [] col = 0
cell (x ∷ xs) zero = x
cell (x ∷ xs) (suc col) = cell xs col

abbrev pub add_at : ℕ → ℕ → List ℕ → List ℕ
add_at col n [] = []
add_at zero n (x ∷ xs) = (x + n) % 2 ^ 64 ∷ xs
add_at (suc col) n (x ∷ xs) = x ∷ add_at col n xs

-- The loops of updateMatrix and estimateCount over the positions, with a row for each.
unfoldable pub update_rows : ℕ → List ℕ → List (List ℕ) → List (List ℕ)
update_rows n [] rows = rows
update_rows n (col ∷ cols) [] = []
update_rows n (col ∷ cols) (row ∷ rows) = add_at col n row ∷ update_rows n cols rows

unfoldable pub estimate_rows : ℕ → List ℕ → List (List ℕ) → ℕ
estimate_rows best [] rows = best
estimate_rows best (col ∷ cols) [] = best
estimate_rows best (col ∷ cols) (row ∷ rows) =
    let x = cell row col in
    let best' = if ltb x best then x else best in estimate_rows best' cols rows

module _ (base_hashes : Str → ℕ × ℕ) where
  unfoldable pub matrix_positions : Str → CountMinSketch → List ℕ
  unfolding positions_from
  matrix_positions key c = positions_from (base_hashes key).0 (base_hashes key).1 c.width 0 c.depth

  unfoldable pub update_matrix : Str → ℕ → CountMinSketch → CountMinSketch
  unfolding matrix_positions update_rows
  update_matrix key n c = record c {
    matrix = update_rows n (matrix_positions key c) c.matrix;
    count = (c.count + n) % 2 ^ 64;
  }

  unfoldable pub estimate_count : Str → CountMinSketch → ℕ
  unfolding matrix_positions estimate_rows
  estimate_count key c = estimate_rows (2 ^ 64 - 1) (matrix_positions key c) c.matrix

-- A source of a merge: the key that it stands under, its weight and its sketch.
pub record Source : Type 0 where
  pub key : Str
  pub weight : ℕ
  pub sketch : CountMinSketch

-- The sketch that counts for a source: the destination's own copy where the key is the destination's.
unfoldable pub source_sketch : Str → CountMinSketch → Source → CountMinSketch
source_sketch original_key original_copy s =
    if str_beq s.key original_key then original_copy else s.sketch

abbrev pub row_at : List (List ℕ) → ℕ → List ℕ
row_at [] row = []
row_at (r ∷ rs) zero = r
row_at (r ∷ rs) (suc row) = row_at rs row

-- The innermost loop of mergeMatrices at a cell, and the loop for the count.
unfoldable pub merge_cell : Str → CountMinSketch → ℕ → ℕ → List Source → ℕ → ℕ
unfolding source_sketch
merge_cell key copy row col [] acc = acc
merge_cell key copy row col (s ∷ ss) acc =
    merge_cell key copy row col ss
      ((acc + s.weight * cell (row_at (source_sketch key copy s).matrix row) col) % 2 ^ 64)

unfoldable pub merge_count : Str → CountMinSketch → List Source → ℕ → ℕ
unfolding source_sketch
merge_count key copy [] acc = acc
merge_count key copy (s ∷ ss) acc =
    merge_count key copy ss ((acc + s.weight * (source_sketch key copy s).count) % 2 ^ 64)

unfoldable pub merge_row : Str → CountMinSketch → List Source → ℕ → ℕ → ℕ → List ℕ
unfolding merge_cell
merge_row key copy ss row col zero = []
merge_row key copy ss row col (suc n) =
    merge_cell key copy row col ss 0 ∷ merge_row key copy ss row (col + 1) n

unfoldable pub merge_rows : Str → CountMinSketch → List Source → ℕ → ℕ → List (List ℕ)
unfolding merge_row
merge_rows key copy ss row zero = []
merge_rows key copy ss row (suc n) =
    merge_row key copy ss row 0 copy.width ∷ merge_rows key copy ss (row + 1) n

-- mergeMatrices: every cell and the count start again from 0.
unfoldable pub merge_matrices : Str → List Source → CountMinSketch → CountMinSketch
unfolding merge_rows merge_count
merge_matrices key ss c = record c {
  matrix = merge_rows key c ss 0 c.depth;
  count = merge_count key c ss 0;
}
