-- ===== src/Sketch/Laws.antt =====
-- The count-min sketch of internal/eval/countminsketch.go never counts too little.
use dice_db_distributed_syst.Prelude.{
  ℕ, zero, suc, ◌+◌, ◌-◌, ◌*◌, ◌%◌, ◌^◌, ◌≤◌, ◌<◌, ◌≡◌, refl, ap, ◌∙◌, inl, inr, List, [], ◌∷◌,
  arith, ltb, if◌then◌else◌, if_both, Bool-cases, length, replicate, All, Str, str_beq, str_beq_iff,
  nat_eq, str_eq,
}
use mathlib.Core.Path.{subst}
use native.Mathlib.Nat.{mod-lt}
use dice_db_distributed_syst.Sketch.{
  CountMinSketch, new_count_min_sketch, positions_from, cell, add_at, update_rows, estimate_rows,
  matrix_positions, update_matrix, estimate_count,
}

-- The cells at some positions have v at least.
abbrev pub AtLeast : ℕ → List ℕ → List (List ℕ) → Type 0
AtLeast v [] rows = Unit
AtLeast v (col ∷ cols) [] = Unit
AtLeast v (col ∷ cols) (row ∷ rows) = (v ≤ cell row col) × AtLeast v cols rows

abbrev pub IsBelow : ℕ → List (List ℕ) → Type 0
IsBelow m = All (All (λ x. x ≤ m))

abbrev pub IsWide : ℕ → List (List ℕ) → Type 0
IsWide w = All (λ row. length row ≡ w)

pub estimate_rows-AtLeast :
    (v : ℕ) (cols : List ℕ) (rows : List (List ℕ)) (best : ℕ)
    → v ≤ best
    → AtLeast v cols rows
    → v ≤ estimate_rows best cols rows
unfolding estimate_rows
estimate_rows-AtLeast v [] rows best h a = h
estimate_rows-AtLeast v (col ∷ cols) [] best h a = h
estimate_rows-AtLeast v (col ∷ cols) (row ∷ rows) best h a =
    estimate_rows-AtLeast v cols rows (if ltb (cell row col) best then cell row col else best)
      (if_both (λ x. v ≤ x) (ltb (cell row col) best) a.0 h) a.1

add_at-here :
    (col n : ℕ) (row : List ℕ) (m : ℕ)
    → col < length row
    → All (λ x. x ≤ m) row
    → m + n < 2 ^ 64
    → cell (add_at col n row) col ≡ cell row col + n
add_at-here col n [] m h b s = absurd (omega arith)
add_at-here zero n (x ∷ row) m h b s = omega (arith, b.0)
add_at-here (suc col) n (x ∷ row) m h b s = add_at-here col n row m (omega arith) b.1 s

add_at_mono :
    (col n : ℕ) (row : List ℕ) (m j : ℕ)
    → All (λ x. x ≤ m) row
    → m + n < 2 ^ 64
    → cell row j ≤ cell (add_at col n row) j
add_at_mono col n [] m j b s = omega arith
add_at_mono zero n (x ∷ row) m zero b s = omega (arith, b.0)
add_at_mono zero n (x ∷ row) m (suc j) b s = omega arith
add_at_mono (suc col) n (x ∷ row) m zero b s = omega arith
add_at_mono (suc col) n (x ∷ row) m (suc j) b s = add_at_mono col n row m j b.1 s

length-add_at : (col n : ℕ) (row : List ℕ) → length (add_at col n row) ≡ length row
length-add_at col n [] = refl
length-add_at zero n (x ∷ row) = refl
length-add_at (suc col) n (x ∷ row) = ap suc (length-add_at col n row)

below_mono : (m n : ℕ) (row : List ℕ) → m ≤ n → All (λ x. x ≤ m) row → All (λ x. x ≤ n) row
below_mono m n [] h b = tt
below_mono m n (x ∷ row) h b = (omega (arith, b.0), below_mono m n row h b.1)

pub IsBelow-mono : (m n : ℕ) (rows : List (List ℕ)) → m ≤ n → IsBelow m rows → IsBelow n rows
IsBelow-mono m n [] h b = tt
IsBelow-mono m n (row ∷ rows) h b = (below_mono m n row h b.0, IsBelow-mono m n rows h b.1)

add_at-below :
    (col n : ℕ) (row : List ℕ) (m : ℕ)
    → All (λ x. x ≤ m) row
    → All (λ x. x ≤ m + n) (add_at col n row)
add_at-below col n [] m b = tt
add_at-below zero n (x ∷ row) m b = (omega (arith, b.0), below_mono m (m + n) row (omega arith) b.1)
add_at-below (suc col) n (x ∷ row) m b = (omega (arith, b.0), add_at-below col n row m b.1)

update_rows-IsBelow :
    (n : ℕ) (cols : List ℕ) (rows : List (List ℕ)) (m : ℕ)
    → IsBelow m rows
    → IsBelow (m + n) (update_rows n cols rows)
unfolding update_rows
update_rows-IsBelow n [] rows m b = IsBelow-mono m (m + n) rows (omega arith) b
update_rows-IsBelow n (col ∷ cols) [] m b = tt
update_rows-IsBelow n (col ∷ cols) (row ∷ rows) m b =
    (add_at-below col n row m b.0, update_rows-IsBelow n cols rows m b.1)

update_rows-IsWide :
    (n : ℕ) (cols : List ℕ) (rows : List (List ℕ)) (w : ℕ)
    → IsWide w rows
    → IsWide w (update_rows n cols rows)
unfolding update_rows
update_rows-IsWide n [] rows w h = h
update_rows-IsWide n (col ∷ cols) [] w h = tt
update_rows-IsWide n (col ∷ cols) (row ∷ rows) w h =
    (length-add_at col n row ∙ h.0, update_rows-IsWide n cols rows w h.1)

-- What another key adds takes nothing away, and the key's own update adds to all its cells.
update_rows-other :
    (v n : ℕ) (ps qs : List ℕ) (rows : List (List ℕ)) (m : ℕ)
    → IsBelow m rows
    → m + n < 2 ^ 64
    → AtLeast v ps rows
    → AtLeast v ps (update_rows n qs rows)
unfolding update_rows
update_rows-other v n [] qs rows m b s a = tt
update_rows-other v n (p ∷ ps) [] rows m b s a = a
update_rows-other v n (p ∷ ps) (q ∷ qs) [] m b s a = tt
update_rows-other v n (p ∷ ps) (q ∷ qs) (row ∷ rows) m b s a = (
  omega (arith, a.0, add_at_mono q n row m p b.0 s),
  update_rows-other v n ps qs rows m b.1 s a.1,
)

update_rows-own :
    (v n : ℕ) (ps : List ℕ) (rows : List (List ℕ)) (m w : ℕ)
    → IsBelow m rows
    → m + n < 2 ^ 64
    → IsWide w rows
    → All (λ p. p < w) ps
    → AtLeast v ps rows
    → AtLeast (v + n) ps (update_rows n ps rows)
unfolding update_rows
update_rows-own v n [] rows m w b s h r a = tt
update_rows-own v n (p ∷ ps) [] m w b s h r a = tt
update_rows-own v n (p ∷ ps) (row ∷ rows) m w b s h r a = (
  omega (arith, a.0, add_at-here p n row m (omega (arith, r.0, h.0)) b.0 s),
  update_rows-own v n ps rows m w b.1 s h.1 r.1 a.1,
)

positions_from-below : (h1 h2 w row n : ℕ) → 0 < w → All (λ p. p < w) (positions_from h1 h2 w row n)
unfolding positions_from
positions_from-below h1 h2 w row zero h = tt
positions_from-below h1 h2 w row (suc n) h =
    (mod-lt ((h1 + h2 * row) % 2 ^ 64) h, positions_from-below h1 h2 w (row + 1) n h)

replicate-All : {A : Type 0} (P : A → Type 0) (n : ℕ) (x : A) → P x → All P (replicate n x)
replicate-All P zero x p = tt
replicate-All P (suc n) x p = (p, replicate-All P n x p)

length-replicate : {A : Type 0} (n : ℕ) (x : A) → length (replicate n x) ≡ n
length-replicate zero x = refl
length-replicate (suc n) x = ap suc (length-replicate n x)

AtLeast-zero : (cols : List ℕ) (rows : List (List ℕ)) → AtLeast 0 cols rows
AtLeast-zero [] rows = tt
AtLeast-zero (col ∷ cols) [] = tt
AtLeast-zero (col ∷ cols) (row ∷ rows) = (omega arith, AtLeast-zero cols rows)

abbrev pub counted : Str → List (Str × ℕ) → ℕ
counted key [] = 0
counted key ((k, n) ∷ l) = if str_beq key k then n + counted key l else counted key l

abbrev pub total : List (Str × ℕ) → ℕ
total [] = 0
total ((_, n) ∷ l) = n + total l

counted-total : (key : Str) (l : List (Str × ℕ)) → counted key l ≤ total l
counted-total key [] = omega arith
counted-total key ((k, n) ∷ l) = ground (arith, counted-total key l)

module _ (base_hashes : Str → ℕ × ℕ) where
  -- A sketch that has counted f of each key at least: its cells are below its count, and those of a
  -- key have what the key was counted.
  pub record Counts (f : Str → ℕ) (c : CountMinSketch) : Type 0 where
    pub positive : 0 < c.width
    pub wide : IsWide c.width c.matrix
    pub below : IsBelow c.count c.matrix
    pub least : (key : Str) → AtLeast (f key) (matrix_positions base_hashes key c) c.matrix

  pub new_count_min_sketch-Counts :
      (depth width : ℕ) → 0 < width → Counts (λ key. 0) (new_count_min_sketch depth width)
  unfolding new_count_min_sketch
  new_count_min_sketch-Counts depth width h = record {
    positive = h;
    wide =
        replicate-All (λ row. length row ≡ width) depth (replicate width 0)
          (length-replicate width 0);
    below =
        replicate-All (All (λ x. x ≤ 0)) depth (replicate width 0)
          (replicate-All (λ x. x ≤ 0) width 0 (omega arith));
    least = λ key. AtLeast-zero _ _;
  }

  abbrev pub added : (Str → ℕ) → Str → ℕ → Str → ℕ
  added f k n key = if str_beq key k then f key + n else f key

  -- An update counts the key n times more, and no other key less.
  pub update_matrix-Counts :
      (f : Str → ℕ) (k : Str) (n : ℕ) (c : CountMinSketch)
      → Counts f c
      → c.count + n < 2 ^ 64
      → Counts (added f k n) (update_matrix base_hashes k n c)
  unfolding update_matrix matrix_positions
  update_matrix-Counts f k n c h s =
      let e : (c.count + n) % 2 ^ 64 ≡ c.count + n = omega arith in
      record {
        positive = h.positive;
        wide = update_rows-IsWide n (matrix_positions base_hashes k c) c.matrix c.width h.wide;
        below =
            rw e
              (update_rows-IsBelow n (matrix_positions base_hashes k c) c.matrix c.count h.below);
        least = λ key. elim (Bool-cases (str_beq key k)) [
          | inl g ↦
              let same : key ≡ k = (str_beq_iff key k).0 g in
              rw (g, same)
                (update_rows-own (f k) n (matrix_positions base_hashes k c) c.matrix c.count c.width
                  h.below s h.wide
                  (positions_from-below (base_hashes k).0 (base_hashes k).1 c.width 0 c.depth
                    h.positive)
                  (h.least k))
          | inr g ↦ rw g (
              update_rows-other (f key) n (matrix_positions base_hashes key c)
                (matrix_positions base_hashes k c) c.matrix c.count h.below s (h.least key))
        ];
      }

  abbrev pub update_all : List (Str × ℕ) → CountMinSketch → CountMinSketch
  update_all [] c = c
  update_all ((key, n) ∷ l) c = update_all l (update_matrix base_hashes key n c)

  update_matrix-count :
      (k : Str) (n : ℕ) (c : CountMinSketch)
      → c.count + n < 2 ^ 64
      → (update_matrix base_hashes k n c).count ≡ c.count + n
  unfolding update_matrix
  update_matrix-count k n c h = omega arith

  new-count :
      (depth width : ℕ) (l : List (Str × ℕ))
      → total l < 2 ^ 64
      → (new_count_min_sketch depth width).count + total l < 2 ^ 64
  unfolding new_count_min_sketch
  new-count depth width l h = omega arith

  update_all-AtLeast :
      (l : List (Str × ℕ)) (f : Str → ℕ) (c : CountMinSketch) (key : Str)
      → Counts f c
      → c.count + total l < 2 ^ 64
      → AtLeast
          (f key + counted key l)
          (matrix_positions base_hashes key (update_all l c))
          (update_all l c).matrix
  update_all-AtLeast [] f c key h s =
      subst (λ v. AtLeast v (matrix_positions base_hashes key c) c.matrix) (omega arith)
        (h.least key)
  update_all-AtLeast ((k, n) ∷ l) f c key h s =
      let c' = update_matrix base_hashes k n c in
      let size : c'.count ≡ c.count + n = update_matrix-count k n c (omega arith) in
      let r =
        update_all-AtLeast l (added f k n) c' key (update_matrix-Counts f k n c h (omega arith))
          (omega (arith, size)) in
      let sum : added f k n key + counted key l ≡ f key + counted key ((k, n) ∷ l) = ground arith in
      subst
        (λ v.
          AtLeast v (matrix_positions base_hashes key (update_all l c')) (update_all l c').matrix)
        sum r

  -- The estimate of a key in a sketch of positive width is never below the sum of what the key
  -- was counted, as long as all counts together fit into 64 bits.
  pub estimate_count-update_all :
      (l : List (Str × ℕ)) (depth width : ℕ) (key : Str)
      → 0 < width
      → total l < 2 ^ 64
      → counted key l
        ≤ estimate_count base_hashes key (update_all l (new_count_min_sketch depth width))
  unfolding estimate_count
  estimate_count-update_all l depth width key h s =
      let c = new_count_min_sketch depth width in
      let zero_plus : 0 + counted key l ≡ counted key l = omega arith in
      estimate_rows-AtLeast (counted key l) (matrix_positions base_hashes key (update_all l c))
        (update_all l c).matrix (2 ^ 64 - 1) (omega (arith, counted-total key l))
        (subst
          (λ v.
            AtLeast v (matrix_positions base_hashes key (update_all l c)) (update_all l c).matrix)
          zero_plus
          (update_all-AtLeast l (λ k. 0) c key (new_count_min_sketch-Counts depth width h)
            (new-count depth width l s)))
