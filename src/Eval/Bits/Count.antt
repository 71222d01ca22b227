-- ===== src/Eval/Bits/Count.antt =====
-- BITCOUNT of internal/eval/store_eval.go.
use dice_db_distributed_syst.Prelude.{
  ℕ, zero, suc, ◌+◌, ◌-◌, ◌*◌, ◌/◌, ◌%◌, ◌^◌, Bool, ◌&&◌, ◌||◌, Option, none, some, List, [], ◌∷◌,
  ltb, leb, ◌==◌, if◌then◌else◌, length, get_elem?, drop, Str, codes, str_beq, nat_eq, str_eq,
}
use dice_db_distributed_syst.Prelude.Int.{
  ℤ, pos, negsuc, pos_part, ◌+ℤ◌, ◌-ℤ◌, ltb_ℤ, leb_ℤ, wrap64,
}
use Prim.Native.Nat.{bit_and, min}
use dice_db_distributed_syst.Strconv.{parse_int}
use dice_db_distributed_syst.Upper.{to_upper}
use dice_db_distributed_syst.Store.State.{Store}
use dice_db_distributed_syst.Store.Access.{get}
use dice_db_distributed_syst.Wire.{Run, panic}
use dice_db_distributed_syst.Eval.{
  resp, integer_zero, number, EvalError, wrong_type_operation, integer_out_of_range, invalid_syntax,
  make_eval_result, make_eval_error,
}
use dice_db_distributed_syst.Eval.Hash.{Evaluated, argument_error}
use dice_db_distributed_syst.Eval.ByteArray.{hit}
use dice_db_distributed_syst.Eval.Bits.{own, copied, wrong_type, cast_panic, bytes_for}

abbrev pub bit_of : Bool → ℕ
bit_of v = if v then 1 else 0

-- bits.OnesCount8
unfoldable pub ones_count8 : ℕ → ℕ
ones_count8 x =
    bit_of (hit x 1)
    + bit_of (hit x 2)
    + bit_of (hit x 4)
    + bit_of (hit x 8)
    + bit_of (hit x 16)
    + bit_of (hit x 32)
    + bit_of (hit x 64)
    + bit_of (hit x 128)

-- The ones of n bytes.
unfoldable pub ones_of : ℕ → Str → ℕ
unfolding ones_count8
ones_of zero b = 0
ones_of (suc n) [] = 0
ones_of (suc n) (x ∷ b) = ones_count8 x + ones_of n b

-- The masks of a byte: from a bit on, and up to a bit, both counted from the left.
abbrev pub from_mask : ℕ → ℕ
from_mask s = 0xFF / 2 ^ s

abbrev pub to_mask : ℕ → ℕ
to_mask e = 0xFF * 2 ^ (7 - e) % 256

abbrev pub byte_at : ℕ → Str → ℕ
byte_at i b = elim (get_elem? b i) [ none ↦ 0 | some x ↦ x ]

-- The range in bytes, with ends that are not negative; none is a panic, for a start below zero.
unfoldable pub count_bytes : ℤ → ℤ → Str → Option ℕ
unfolding ones_of
count_bytes start end b =
    if ltb_ℤ end start || leb_ℤ (pos (length b)) start then some 0 else elim start [
      | negsuc _ ↦ none
      | pos i ↦ some (ones_of (min (pos_part end) (length b - 1) + 1 - i) (drop i b))
    ]

-- The range in bits, from a start that is not negative and not past the end.
unfoldable pub count_between : ℕ → ℕ → Str → ℕ
count_between start end b =
    let start_byte = start / 8 in
    let end_byte = min (end / 8) (length b - 1) in
    let end_offset = if end_byte == length b - 1 then 7 else end % 8 in
    if start_byte == end_byte
    then ones_count8
        (bit_and (byte_at start_byte b) (bit_and (from_mask (start % 8)) (to_mask end_offset)))
    else ones_count8 (bit_and (byte_at start_byte b) (from_mask (start % 8)))
      + ones_of (end_byte - (start_byte + 1)) (drop (start_byte + 1) b)
      + ones_count8 (bit_and (byte_at end_byte b) (to_mask end_offset))

-- A start below zero panics as a shift or an index, unless there is no byte and it is above -8.
unfoldable pub count_bits : ℤ → ℤ → Str → Option ℕ
unfolding count_between
count_bits start end b = if ltb_ℤ end start then some 0 else elim start [
  | negsuc n ↦ if ltb n 7 && length b == 0 then some 0 else none
  | pos i ↦ if leb (length b) (i / 8) then some 0 else some (count_between i (pos_part end) b)
]

-- The range that the arguments give, with its unit.
abbrev pub from_end : ℕ → ℤ → ℤ
from_end n i = if ltb_ℤ i (pos 0) then wrap64 (i +ℤ pos n) else i

pub data Range : Type 0 where
  range : ℤ → ℤ → Str → Range
  bad : EvalError → Range

unfoldable pub range_of : List Str → ℕ → Range
unfolding parse_int to_upper
range_of [] n = range (pos 0) (pos n -ℤ pos 1) (codes "BYTE")
range_of (start ∷ []) n = elim (parse_int start) [
  | none ↦ bad integer_out_of_range
  | some _ ↦ bad (invalid_syntax (codes "BITCOUNT"))
]
range_of (start ∷ end ∷ rest) n = elim (parse_int start) [
  | none ↦ bad integer_out_of_range
  | some i ↦ elim (parse_int end) [
    | none ↦ bad integer_out_of_range
    | some j ↦ range i j (elim rest [ [] ↦ codes "BYTE" | unit ∷ _ ↦ to_upper unit ])
  ]
]

abbrev counted_result : Option ℕ → Store → Evaluated
counted_result none s = panic
counted_result (some n) s = Run.ok (make_eval_result (number (pos n)), s)

unfoldable pub count_range : List Str → Str → Store → Evaluated
unfolding range_of count_bytes count_bits make_eval_result make_eval_error
count_range args b s = elim (range_of args (length b)) [
  | bad e ↦ Run.ok (make_eval_error e, s)
  | range i j unit ↦
      if str_beq unit (codes "BYTE")
      then counted_result (count_bytes (from_end (length b) i) (from_end (length b) j) b) s
      else if str_beq unit (codes "BIT")
      then counted_result (count_bits (from_end (length b * 8) i) (from_end (length b * 8) j) b) s
      else Run.ok (make_eval_error (invalid_syntax (codes "BITCOUNT")), s)
]

unfoldable pub eval_bitcount : ℤ → List Str → Store → Evaluated
unfolding get bytes_for count_range make_eval_result make_eval_error
eval_bitcount now [] s = argument_error "BITCOUNT" s
eval_bitcount now (key ∷ args) s =
    if ltb 3 (length args)
    then Run.ok (make_eval_error (invalid_syntax (codes "GETBIT")), s)
    else let (o, s') = get now key s in
      elim o [
        | none ↦ Run.ok (make_eval_result (resp integer_zero), s')
        | some r ↦ elim (bytes_for (s'.objs r)) [
          | own b ↦ count_range args b s'
          | copied b ↦ count_range args b s'
          | cast_panic ↦ panic
          | wrong_type ↦ Run.ok (make_eval_error wrong_type_operation, s')
        ]
      ]
