-- ===== src/Eval/Hash/Scan.antt =====
-- HSCAN of internal/eval/store_eval.go. The pattern compiler (github.com/gobwas/glob) is a parameter:
-- none for a pattern that it refuses, with the text of its error, or what the pattern matches.
use dice_db_distributed_syst.Prelude.{
  ℕ, ◌+◌, ◌-◌, Bool, true, false, ◌&&◌, ◌||◌, Option, none, some, List, [], ◌∷◌, ◌++◌, ltb, leb,
  ◌==◌, if◌then◌else◌, length, drop, Str, codes, str_beq, nat_eq, str_eq,
}
use dice_db_distributed_syst.Prelude.Int.{ℤ, pos, negsuc, pos_part, ltb_ℤ}
use dice_db_distributed_syst.Strconv.{parse_int, format_int}
use dice_db_distributed_syst.Upper.{to_upper}
use dice_db_distributed_syst.Table
use dice_db_distributed_syst.Object.{ObjectType}
use dice_db_distributed_syst.Store.State.{Store}
use dice_db_distributed_syst.Wire.{Run, panic}
use dice_db_distributed_syst.Eval.{
  page, wrong_type_operation, integer_out_of_range, general, make_eval_result, make_eval_error,
}
use dice_db_distributed_syst.Eval.Fetch.{missing, mistyped, cast_panic, found, fetch}
use dice_db_distributed_syst.Eval.HashMap.{HashMap, as_hash_map}
use dice_db_distributed_syst.Eval.Hash.{Evaluated, argument_error, keys_of}

pub data Compiled : Type 0 where
  compiled : (Str → Bool) → Compiled
  invalid : Str → Compiled

-- sort.Strings: by bytes.
unfoldable pub str_leb : Str → Str → Bool
str_leb [] t = true
str_leb (x ∷ xs) [] = false
str_leb (x ∷ xs) (y ∷ ys) = ltb x y || (x == y && str_leb xs ys)

unfoldable pub insert_sorted : Str → List Str → List Str
unfolding str_leb
insert_sorted x [] = x ∷ []
insert_sorted x (y ∷ ys) =
    let rest = insert_sorted x ys in if str_leb x y then x ∷ y ∷ ys else y ∷ rest

unfoldable pub sort_strings : List Str → List Str
unfolding insert_sorted
sort_strings [] = []
sort_strings (x ∷ xs) = insert_sorted x (sort_strings xs)

-- The options, from a pattern and a count on; none for a count that is refused.
unfoldable pub scan_options : List Str → Str → ℕ → Option (Str × ℕ)
unfolding parse_int to_upper
scan_options (o ∷ v ∷ rest) pattern count =
    let with_pattern = scan_options rest v count in
    let with_count : Option (Str × ℕ) = elim (parse_int v) [
      | none ↦ none
      | some n ↦ if ltb_ℤ n (pos 1) then none else scan_options rest pattern (pos_part n)
    ] in
    let as_before = scan_options rest pattern count in
    if str_beq (to_upper o) (codes "MATCH")
    then with_pattern
    else if str_beq (to_upper o) (codes "COUNT")
    then with_count
    else as_before
scan_options _ pattern count = some (pattern, count)

-- The loop over the keys, the first of which has index i: the pairs found, and the new cursor.
unfoldable pub scan_loop : (Str → Bool) → HashMap → ℕ → ℕ → List Str → List Str × ℕ
scan_loop matches h i wanted [] = ([], 0)
scan_loop matches h i wanted (k ∷ ks) =
    let value : Str = elim (Table.load k h) [ none ↦ [] | some v ↦ v ] in
    let (found_later, cursor) = scan_loop matches h (i + 1) (wanted - 1) ks in
    let unmatched = scan_loop matches h (i + 1) wanted ks in
    if matches k
    then if leb wanted 1 then (k ∷ value ∷ [], i + 1) else (k ∷ value ∷ found_later, cursor)
    else unmatched

-- A cursor below zero indexes the keys out of range, also where there is none.
unfoldable pub hscan_found : (Str → Compiled) → ℤ → List Str → HashMap → Store → Evaluated
unfolding scan_options scan_loop sort_strings make_eval_result make_eval_error format_int
hscan_found compile cursor options h s = elim (scan_options options (codes "*") 10) [
  | none ↦ Run.ok (make_eval_error integer_out_of_range, s)
  | some (pattern, count) ↦ elim (compile pattern) [
    | invalid text ↦ Run.ok (make_eval_error (general (codes "Invalid glob pattern: " ++ text)), s)
    | compiled matches ↦ elim cursor [
      | negsuc _ ↦ panic
      | pos i ↦
          let (results, next) = scan_loop matches h i count (drop i (sort_strings (keys_of h))) in
          let next' = if leb (length h) next then 0 else next in
          Run.ok (make_eval_result (page (format_int (pos next')) results), s)
    ]
  ]
]

unfoldable pub eval_hscan : (Str → Compiled) → ℤ → List Str → Store → Evaluated
unfolding fetch hscan_found parse_int make_eval_result make_eval_error
eval_hscan compile now (key ∷ cursor ∷ options) s = elim (parse_int cursor) [
  | none ↦ Run.ok (make_eval_error integer_out_of_range, s)
  | some c ↦
      let (f, s') = fetch ObjectType.ss_map as_hash_map now key s in
      elim f [
        | missing ↦ Run.ok (make_eval_result (page (codes "0") []), s')
        | mistyped ↦ Run.ok (make_eval_error wrong_type_operation, s')
        | cast_panic ↦ panic
        | found r h ↦ hscan_found compile c options h s'
      ]
]
eval_hscan compile now _ s = argument_error "HSCAN" s
