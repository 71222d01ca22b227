-- ===== src/Eval/Arrays.antt =====
-- The helpers of internal/eval/store_eval.go on JSON arrays, over elements of any kind.
use dice_db_distributed_syst.Prelude.{
  ℕ, suc, ◌+◌, ◌-◌, ◌&&◌, ◌||◌, Option, none, some, List, [], ◌∷◌, ◌++◌, ◌==◌, if◌then◌else◌,
  length, get_elem?, drop, take, Str, nat_eq, str_eq,
}
use dice_db_distributed_syst.Prelude.Int.{
  ℤ, pos, negsuc, pos_part, ◌+ℤ◌, ◌-ℤ◌, ltb_ℤ, leb_ℤ, wrap64,
}
use dice_db_distributed_syst.Strconv.{parse_int}

-- adjustIndices
unfoldable pub adjust_indices : ℤ → ℤ → ℕ → ℤ × ℤ
adjust_indices start stop len =
    let n = pos len in
    let start₁ = if ltb_ℤ start (pos 0) then wrap64 (start +ℤ n) else start in
    let stop₁ = if leb_ℤ stop (pos 0) then wrap64 (stop +ℤ n) else stop in
    let start₂ = if ltb_ℤ start₁ (pos 0) then pos 0 else start₁ in
    let stop₂ = if ltb_ℤ stop₁ (pos 0) then pos 0 else stop₁ in
    let stop₃ = if ltb_ℤ n stop₂ then n else stop₂ in
    if len == 0
    then (negsuc 0, negsuc 0)
    else if leb_ℤ n start₂
    then (negsuc 0, negsuc 0)
    else if ltb_ℤ stop₃ start₂
    then (negsuc 0, negsuc 0)
    else (start₂, stop₃)

-- adjustIndex: the array's length itself is let through.
unfoldable pub adjust_index : ℤ → ℕ → ℤ
adjust_index idx len =
    let n = pos len in
    let idx' = if ltb_ℤ n idx then n -ℤ pos 1 else idx in
    if ltb_ℤ idx' (pos 0) then if ltb_ℤ idx' (pos 0 -ℤ n) then pos 0 else n +ℤ idx' else idx'

pub data Popped {ℓ} (A : Type ℓ) : Type ℓ where
  empty bad_index index_panic : Popped A
  popped : A → List A → Popped A

module _ {ℓ} {A : Type ℓ} where
  -- trimElementAndUpdateArray. A slice may end past the length, up to the capacity of the array: the
  -- capacity is taken to be the length, and none is a panic.
  unfoldable pub trim_element_and_update_array : List A → ℤ → ℤ → Option (List A)
  unfolding adjust_index
  trim_element_and_update_array arr start stop =
      let n = length arr in
      let i = adjust_index start n in
      let j = adjust_index stop n in
      if n == 0 || leb_ℤ (pos n) start
      then some []
      else if ltb_ℤ j i
      then some []
      else if ltb_ℤ i (pos 0) || leb_ℤ (pos n) j
      then none
      else some (take (pos_part j + 1 - pos_part i) (drop (pos_part i) arr))

  -- insertElementAndUpdateArray; none is its error.
  unfoldable pub insert_element_and_update_array : List A → ℤ → List A → Option (List A)
  unfolding adjust_index
  insert_element_and_update_array arr index elements =
      let n = pos (length arr) in
      let i = pos_part (adjust_index index (length arr)) in
      if leb_ℤ (pos 0 -ℤ n) index && leb_ℤ index n
      then some (take i arr ++ elements ++ drop i arr)
      else none

  abbrev pop_at : ℤ → List A → Popped A
  pop_at (negsuc _) arr = index_panic
  pop_at (pos i) arr = elim (get_elem? arr i) [
    | none ↦ index_panic
    | some x ↦ popped x (take i arr ++ drop (i + 1) arr)
  ]

  unfoldable pub pop_element_and_update_array : List A → Str → Popped A
  unfolding adjust_index parse_int
  pop_element_and_update_array [] index = empty
  pop_element_and_update_array (x ∷ xs) [] = pop_at (pos (length xs)) (x ∷ xs)
  pop_element_and_update_array (x ∷ xs) (c ∷ t) = elim (parse_int (c ∷ t)) [
    | none ↦ bad_index
    | some i ↦ pop_at (adjust_index i (suc (length xs))) (x ∷ xs)
  ]

  -- reverseSlice writes each element to its place from the end.
  unfoldable pub reverse_slice : List A → List A
  reverse_slice [] = []
  reverse_slice (x ∷ xs) = reverse_slice xs ++ x ∷ []
