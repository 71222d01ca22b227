-- ===== src/Sketch/Merge.antt =====
-- mergeMatrices of internal/eval/countminsketch.go against the weighted sum of its sources.
use dice_db_distributed_syst.Prelude.{
  ℕ, zero, suc, ◌+◌, ◌*◌, ◌%◌, ◌^◌, ◌<◌, ◌≡◌, refl, ap, ◌∙◌, List, [], ◌∷◌, arith, Str, nat_eq,
  str_eq,
}
use dice_db_distributed_syst.Sketch.{
  CountMinSketch, Source, source_sketch, row_at, cell, merge_cell, merge_row, merge_rows,
  merge_matrices,
}

abbrev pub weighted : (Source → ℕ) → List Source → ℕ
weighted f [] = 0
weighted f (s ∷ ss) = s.weight * f s + weighted f ss

-- What a source has at a cell.
abbrev pub source_cell : Str → CountMinSketch → ℕ → ℕ → Source → ℕ
source_cell key c row col s = cell (row_at (source_sketch key c s).matrix row) col

merge_cell-sum :
    (key : Str) (c : CountMinSketch) (row col : ℕ) (ss : List Source) (acc : ℕ)
    → acc + weighted (source_cell key c row col) ss < 2 ^ 64
    → merge_cell key c row col ss acc ≡ acc + weighted (source_cell key c row col) ss
unfolding merge_cell
merge_cell-sum key c row col [] acc h = omega arith
merge_cell-sum key c row col (s ∷ ss) acc h =
    let x = s.weight * source_cell key c row col s in
    let e : (acc + x) % 2 ^ 64 ≡ acc + x = omega arith in
    rw e (merge_cell-sum key c row col ss (acc + x) (omega arith) ∙ omega arith)

cell-merge_row :
    (key : Str) (c : CountMinSketch) (ss : List Source) (row col n j : ℕ)
    → j < n
    → cell (merge_row key c ss row col n) j ≡ merge_cell key c row (col + j) ss 0
unfolding merge_row
cell-merge_row key c ss row col zero j h = absurd (omega arith)
cell-merge_row key c ss row col (suc n) zero h = let e : col + 0 ≡ col = omega arith in rw e refl
cell-merge_row key c ss row col (suc n) (suc j) h =
    let e : col + 1 + j ≡ col + suc j = omega arith in
    cell-merge_row key c ss row (col + 1) n j (omega arith)
    ∙ ap (λ k. merge_cell key c row k ss 0) e

row_at-merge_rows :
    (key : Str) (c : CountMinSketch) (ss : List Source) (row n i : ℕ)
    → i < n
    → row_at (merge_rows key c ss row n) i ≡ merge_row key c ss (row + i) 0 c.width
unfolding merge_rows
row_at-merge_rows key c ss row zero i h = absurd (omega arith)
row_at-merge_rows key c ss row (suc n) zero h = let e : row + 0 ≡ row = omega arith in rw e refl
row_at-merge_rows key c ss row (suc n) (suc i) h =
    let e : row + 1 + i ≡ row + suc i = omega arith in
    row_at-merge_rows key c ss (row + 1) n i (omega arith)
    ∙ ap (λ k. merge_row key c ss k 0 c.width) e

plain :
    (key : Str) (c : CountMinSketch) (row col : ℕ) (ss : List Source)
    → merge_cell key c (0 + row) (0 + col) ss 0 ≡ merge_cell key c row col ss 0
plain key c row col ss =
    let e : 0 + row ≡ row = omega arith in let g : 0 + col ≡ col = omega arith in rw (e, g) refl

-- Every cell of a merge is the sum of its sources, each with its weight and the destination by
-- the copy of what it had, where that sum fits into 64 bits.
merge_matrices-cell :
    (key : Str) (ss : List Source) (c : CountMinSketch) (row col : ℕ)
    → row < c.depth
    → col < c.width
    → weighted (source_cell key c row col) ss < 2 ^ 64
    → cell (row_at (merge_matrices key ss c).matrix row) col
      ≡ weighted (source_cell key c row col) ss
unfolding merge_matrices
merge_matrices-cell key ss c row col p q h =
    ap (λ r. cell r col) (row_at-merge_rows key c ss 0 c.depth row p)
    ∙ cell-merge_row key c ss (0 + row) 0 c.width col q
    ∙ plain key c row col ss
    ∙ merge_cell-sum key c row col ss 0 (omega arith)
    ∙ omega arith
