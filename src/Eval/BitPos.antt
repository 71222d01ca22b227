-- ===== src/Eval/BitPos.antt =====
-- BITPOS: internal/eval/bitpos.go.
pub mod Laws
use dice_db_distributed_syst.Prelude.{
  ℕ, zero, suc, ◌+◌, ◌-◌, ◌*◌, Bool, true, false, not, ◌&&◌, ◌||◌, Option, none, some, List, [],
  ◌∷◌, arith, ltb, leb, if◌then◌else◌, length, Str, codes, str_beq, nat_eq, str_eq,
}
use dice_db_distributed_syst.Prelude.Int.{
  ℤ, pos, negsuc, pos_part, ◌+ℤ◌, ◌-ℤ◌, ltb_ℤ, eqb_ℤ, wrap64,
}
use Prim.Native.Nat.{min}
use dice_db_distributed_syst.Strconv.{parse_int}
use dice_db_distributed_syst.Upper.{to_upper}
use dice_db_distributed_syst.Object.{Obj}
use dice_db_distributed_syst.Store.State.{Store}
use dice_db_distributed_syst.Store.Access.{get}
use dice_db_distributed_syst.Wire.{Run, panic}
use dice_db_distributed_syst.Eval.{
  resp, integer_zero, integer_negative_one, number, EvalError, integer_out_of_range, invalid_syntax,
  general, make_eval_result, make_eval_error,
}
use dice_db_distributed_syst.Eval.Hash.{Evaluated, argument_error}
use dice_db_distributed_syst.Eval.ByteArray.{get_value_as_byte_slice, get_bit}

-- getBitPosWithBitRange, over n bits from the bit i on. A bit past the end would panic; the callers
-- ask for none, and here it is no match.
abbrev pub same : Bool → Bool → Bool
same true v = v
same false v = not v

unfoldable pub get_bit_pos_with_bit_range : Bool → ℕ → ℕ → Str → Option ℕ
unfolding get_bit
get_bit_pos_with_bit_range bit zero i b = none
get_bit_pos_with_bit_range bit (suc n) i b =
    let later = get_bit_pos_with_bit_range bit n (i + 1) b in
    elim (get_bit i b) [ none ↦ later | some v ↦ if same bit v then some i else later ]

-- adjustBitPosSearchRange: the end is below zero where the range is empty.
unfoldable pub adjust_bit_pos_search_range : ℤ → ℤ → ℕ → ℕ × ℤ
adjust_bit_pos_search_range start end len =
    let start' = if ltb_ℤ start (pos 0) then wrap64 (start +ℤ pos len) else start in
    let end' = if ltb_ℤ end (pos 0) then wrap64 (end +ℤ pos len) else end in
    let last = pos len -ℤ pos 1 in (pos_part start', if ltb_ℤ last end' then last else end')

-- getBitPos after the range is known, in units of 8 bits or of one. With no end given, a 0 that is not
-- found is said to stand after the last bit.
abbrev pub is_empty_range : ℕ × ℤ → ℕ → Bool
is_empty_range (start, end) len = ltb_ℤ end (pos start) || leb len start

abbrev pub or_end : Bool → Bool → ℕ → Option ℕ → ℤ
or_end bit end_provided bit_len (some i) = pos i
or_end bit end_provided bit_len none = if not bit && not end_provided then pos bit_len else negsuc 0

unfoldable pub search_range : Bool → ℕ → ℕ × ℤ → ℕ → Str → Bool → ℤ
unfolding get_bit_pos_with_bit_range
search_range bit unit (start, end) len b end_provided =
    let found =
      get_bit_pos_with_bit_range bit ((pos_part end + 1) * unit - start * unit) (start * unit) b in
    if is_empty_range (start, end) len
    then negsuc 0
    else or_end bit end_provided (length b * 8) found

-- getBitPos; `in_bytes` is rangeType == BYTE.
abbrev pub unit_size : Bool → ℕ
unit_size in_bytes = if in_bytes then 8 else 1

abbrev pub units : Bool → Str → ℕ
units in_bytes b = if in_bytes then length b else length b * 8

unfoldable pub get_bit_pos : Str → Bool → ℤ → ℤ → Bool → Bool → ℤ
unfolding search_range adjust_bit_pos_search_range
get_bit_pos b bit start end in_bytes end_provided =
    let len = units in_bytes b in
    let r = adjust_bit_pos_search_range start end len in
    search_range bit (unit_size in_bytes) r len b end_provided

-- parseBitToFind, with the texts of its errors.
pub data BitToFind : Type 0 where
  bit_to_find : Bool → BitToFind
  no_bit : Str → BitToFind

unfoldable pub parse_bit_to_find : Str → BitToFind
unfolding parse_int
parse_bit_to_find t = elim (parse_int t) [
  | none ↦ no_bit (codes "value is not an integer or out of range")
  | some n ↦
      if eqb_ℤ n (pos 0)
      then bit_to_find false
      else if eqb_ℤ n (pos 1)
      then bit_to_find true
      else no_bit (codes "the bit argument must be 1 or 0")
]

-- parseOptionalParams: start, end, whether the unit is the byte, and whether an end is given.
pub data Params : Type 0 where
  params : ℤ → ℤ → Bool → Bool → Params
  bad : EvalError → Params

abbrev unit_of : ℤ → ℤ → Str → Params
unit_of start end t =
    if str_beq t (codes "BYTE")
    then params start end true true
    else if str_beq t (codes "BIT")
    then params start end false true
    else bad (invalid_syntax (codes "BITPOS"))

unfoldable pub parse_optional_params : List Str → ℕ → Params
unfolding parse_int to_upper
parse_optional_params [] len = params (pos 0) (pos len -ℤ pos 1) true false
parse_optional_params (start ∷ []) len = elim (parse_int start) [
  | none ↦ bad integer_out_of_range
  | some i ↦ params i (pos len -ℤ pos 1) true false
]
parse_optional_params (start ∷ end ∷ rest) len = elim (parse_int start) [
  | none ↦ bad integer_out_of_range
  | some i ↦ elim (parse_int end) [
    | none ↦ bad integer_out_of_range
    | some j ↦ elim rest [ [] ↦ params i j true true | unit ∷ _ ↦ unit_of i j (to_upper unit) ]
  ]
]

abbrev type_text : Str
type_text = codes "ERR unsopported type"

unfoldable pub bitpos_found : Bool → List Str → Obj → Store → Evaluated
unfolding get_value_as_byte_slice parse_optional_params get_bit_pos make_eval_result make_eval_error
bitpos_found bit args o s = elim (get_value_as_byte_slice o) [
  | panic ↦ panic
  | Run.ok o ↦ elim o [
    | none ↦ Run.ok (make_eval_error (general type_text), s)
    | some b ↦ elim (parse_optional_params args (length b)) [
      | bad e ↦ Run.ok (make_eval_error e, s)
      | params start end in_bytes end_provided ↦
          let found = get_bit_pos b bit start end in_bytes end_provided in
          Run.ok (make_eval_result (number found), s)
    ]
  ]
]

unfoldable pub eval_bitpos : ℤ → List Str → Store → Evaluated
unfolding get parse_bit_to_find bitpos_found make_eval_result make_eval_error
eval_bitpos now (key ∷ wanted ∷ args) s =
    if ltb 3 (length args)
    then argument_error "BITPOS" s
    else let (o, s') = get now key s in
      elim (parse_bit_to_find wanted) [
        | no_bit text ↦ Run.ok (make_eval_error (general text), s')
        | bit_to_find bit ↦ elim o [
          | some r ↦ bitpos_found bit args (s'.objs r) s'
          | none ↦
              Run.ok (
                make_eval_result (if bit then resp integer_negative_one else resp integer_zero),
                s',
              )
        ]
      ]
eval_bitpos now _ s = argument_error "BITPOS" s
