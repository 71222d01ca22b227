-- ===== src/Eval/BitField.antt =====
-- BITFIELD and BITFIELD_RO: bitfieldEvalGeneric of internal/eval/store_eval.go, and ParseBitfieldOps of
-- internal/server/utils/bitfield.go.
use dice_db_distributed_syst.Prelude.{
  ℕ, Bool, true, false, ◌||◌, none, some, List, [], ◌∷◌, ◌==◌, if◌then◌else◌, Str, codes, str_beq,
  nat_eq, str_eq,
}
use dice_db_distributed_syst.Prelude.Int.{ℤ, pos, negsuc, pos_part, ◌*ℤ◌, ltb_ℤ, leb_ℤ, wrap64}
use dice_db_distributed_syst.Strconv.{parse_int}
use dice_db_distributed_syst.Upper.{to_upper}
use dice_db_distributed_syst.Object.{ObjectType, Value}
use dice_db_distributed_syst.Store.State.{Store, new_obj}
use dice_db_distributed_syst.Store.Access.{get}
use dice_db_distributed_syst.Store.Put.{put}
use dice_db_distributed_syst.Wire.{Run, panic}
use dice_db_distributed_syst.Eval.{
  maybe_numbers, EvalError, wrong_type_operation, integer_out_of_range, invalid_syntax, general,
  make_eval_result, make_eval_error,
}
use dice_db_distributed_syst.Eval.Fetch.{write_value}
use dice_db_distributed_syst.Eval.Hash.{Evaluated, argument_error}
use dice_db_distributed_syst.Eval.ByteArray.{new_byte_array}
use dice_db_distributed_syst.Eval.ByteArray.Fields.{
  wrap, sat, fail, BitFieldOp, execute_bitfield_ops,
}
use dice_db_distributed_syst.Eval.Bits.{Bytes, own, copied, wrong_type, cast_panic, bytes_for}

abbrev type_text : Str
type_text =
    codes
      "Invalid bitfield type. Use something like i16 u8. Note that u64 is not supported but i64 is"

abbrev offset_text : Str
offset_text = codes "bit offset is not an integer or out of range"

-- A part of the arguments: what it gives, an error, or an index out of range.
pub data Parsed {ℓ} (A : Type ℓ) : Type ℓ where
  parsed : A → Parsed A
  refused : EvalError → Parsed A
  panics : Parsed A

abbrev pub and_then {ℓ κ} : {A : Type ℓ} {B : Type κ} → Parsed A → (A → Parsed B) → Parsed B
and_then (parsed a) f = f a
and_then (refused e) f = refused e
and_then panics f = panics

-- An encoding: whether it is signed, and its width, which is 63 at most without a sign.
unfoldable pub parse_width : Bool → Str → Parsed (Bool × ℕ)
unfolding parse_int
parse_width signed digits = elim (parse_int digits) [
  | none ↦ refused (general type_text)
  | some w ↦
      if leb_ℤ w (pos 0) || ltb_ℤ (pos (if signed then 64 else 63)) w
      then refused (general type_text)
      else parsed (signed, pos_part w)
]

unfoldable pub parse_encoding : Str → Parsed (Bool × ℕ)
unfolding parse_width
parse_encoding [] = panics
parse_encoding (c ∷ digits) =
    if c == b'i'
    then parse_width true digits
    else if c == b'u'
    then parse_width false digits
    else refused (general type_text)

-- An offset, in fields after a #.
unfoldable pub parse_offset : ℕ → Str → Parsed ℤ
unfolding parse_int
parse_offset width [] = panics
parse_offset width (c ∷ digits) =
    if c == b'#'
    then elim (parse_int digits) [
      | none ↦ refused (general offset_text)
      | some n ↦ parsed (wrap64 (n *ℤ pos width))
    ]
    else elim (parse_int (c ∷ digits)) [ none ↦ refused (general offset_text) | some n ↦ parsed n ]

unfoldable pub parse_encoding_and_offset : Str → Str → Parsed ((Bool × ℕ) × ℤ)
unfolding parse_encoding parse_offset
parse_encoding_and_offset encoding offset =
    and_then (parse_encoding encoding)
      (λ e. and_then (parse_offset e.1 offset) (λ o. parsed (e, o)))

unfoldable pub get_op : Str → Str → Parsed BitFieldOp
unfolding parse_encoding_and_offset
get_op encoding offset =
    and_then (parse_encoding_and_offset encoding offset)
      (λ p. parsed (BitFieldOp.get p.0.0 p.0.1 p.1))

unfoldable pub value_op : (Bool → ℕ → ℤ → ℤ → BitFieldOp) → Str → Str → Str → Parsed BitFieldOp
unfolding parse_encoding_and_offset parse_int
value_op op encoding offset value = and_then (parse_encoding_and_offset encoding offset) (λ p.
    elim (parse_int value) [
      | none ↦ refused integer_out_of_range
      | some n ↦ parsed (op p.0.0 p.0.1 p.1 n)
    ])

unfoldable pub overflow_op : Str → Parsed BitFieldOp
unfolding to_upper
overflow_op word =
    if str_beq (to_upper word) (codes "WRAP")
    then parsed (BitFieldOp.overflow wrap)
    else if str_beq (to_upper word) (codes "FAIL")
    then parsed (BitFieldOp.overflow fail)
    else if str_beq (to_upper word) (codes "SAT")
    then parsed (BitFieldOp.overflow sat)
    else refused (general (codes "Invalid OVERFLOW type specified"))

pub data Kind : Type 0 where
  is_get is_set is_incrby is_overflow is_unknown : Kind

unfoldable pub kind_of : Str → Kind
unfolding to_upper
kind_of word =
    if str_beq (to_upper word) (codes "GET")
    then is_get
    else if str_beq (to_upper word) (codes "SET")
    then is_set
    else if str_beq (to_upper word) (codes "INCRBY")
    then is_incrby
    else if str_beq (to_upper word) (codes "OVERFLOW")
    then is_overflow
    else is_unknown

abbrev syntax {ℓ} : {A : Type ℓ} → Parsed A
syntax = refused (invalid_syntax (codes "BITFIELD"))

abbrev read_only_text : Str
read_only_text = codes "BITFIELD_RO only supports the GET subcommand"

-- An operation before the rest: the read-only form refuses all but GET once they have parsed.
abbrev reading : Parsed BitFieldOp → Parsed (List BitFieldOp) → Parsed (List BitFieldOp)
reading op rest = and_then op (λ o. and_then rest (λ os. parsed (o ∷ os)))

abbrev writing : Bool → Parsed BitFieldOp → Parsed (List BitFieldOp) → Parsed (List BitFieldOp)
writing read_only op rest = and_then op (λ o.
    if read_only then refused (general read_only_text) else and_then rest (λ os. parsed (o ∷ os)))

-- ParseBitfieldOps, over the arguments after the key.
unfoldable pub parse_bitfield_ops : Bool → List Str → Parsed (List BitFieldOp)
unfolding kind_of get_op value_op overflow_op
parse_bitfield_ops ro [] = parsed []
parse_bitfield_ops ro (k ∷ []) = syntax
parse_bitfield_ops ro (k ∷ e ∷ []) = elim (kind_of k) [
  | is_overflow ↦ writing ro (overflow_op e) (parsed [])
  | _ ↦ syntax
]
parse_bitfield_ops ro (k ∷ e ∷ o ∷ []) = elim (kind_of k) [
  | is_get ↦ reading (get_op e o) (parsed [])
  | is_overflow ↦ writing ro (overflow_op e) (parse_bitfield_ops ro (o ∷ []))
  | _ ↦ syntax
]
parse_bitfield_ops ro (k ∷ e ∷ o ∷ v ∷ rest) = elim (kind_of k) [
  | is_get ↦ reading (get_op e o) (parse_bitfield_ops ro (v ∷ rest))
  | is_set ↦ writing ro (value_op BitFieldOp.set e o v) (parse_bitfield_ops ro rest)
  | is_incrby ↦ writing ro (value_op BitFieldOp.incrby e o v) (parse_bitfield_ops ro rest)
  | is_overflow ↦ writing ro (overflow_op e) (parse_bitfield_ops ro (o ∷ v ∷ rest))
  | is_unknown ↦ syntax
]

-- A missing key gets an array of one byte, also from the read-only form.
unfoldable pub bitfield_object : ℤ → Str → Store → ℕ × Store
unfolding get new_obj put new_byte_array
bitfield_object now key s =
    let (o, s') = get now key s in
    elim o [
      | some r ↦ (r, s')
      | none ↦
          let (r, s₁) =
            new_obj now (Value.byte_array (new_byte_array 1)) (negsuc 0) ObjectType.byte_array s' in
          (r, put now key r s₁)
    ]

-- What is written to the bytes of a string or an integer is not kept.
unfoldable pub run_ops : List BitFieldOp → ℕ → Bytes → Store → Evaluated
unfolding execute_bitfield_ops write_value make_eval_result make_eval_error
run_ops ops r wrong_type s = Run.ok (make_eval_error wrong_type_operation, s)
run_ops ops r cast_panic s = panic
run_ops ops r (own b) s = elim (execute_bitfield_ops wrap ops b) [
  | none ↦ panic
  | some (rs, b') ↦
      Run.ok (make_eval_result (maybe_numbers rs), write_value r (Value.byte_array b') s)
]
run_ops ops r (copied b) s = elim (execute_bitfield_ops wrap ops b) [
  | none ↦ panic
  | some (rs, b') ↦ Run.ok (make_eval_result (maybe_numbers rs), s)
]

unfoldable pub bitfield_eval_generic : ℤ → Str → List Str → Bool → Store → Evaluated
unfolding parse_bitfield_ops bitfield_object bytes_for run_ops make_eval_error
bitfield_eval_generic now key args read_only s = elim (parse_bitfield_ops read_only args) [
  | panics ↦ panic
  | refused e ↦ Run.ok (make_eval_error e, s)
  | parsed ops ↦ let (r, s') = bitfield_object now key s in run_ops ops r (bytes_for (s'.objs r)) s'
]

unfoldable pub eval_bitfield : ℤ → List Str → Store → Evaluated
unfolding bitfield_eval_generic
eval_bitfield now (key ∷ args) s = bitfield_eval_generic now key args false s
eval_bitfield now [] s = argument_error "BITFIELD" s

unfoldable pub eval_bitfield_ro : ℤ → List Str → Store → Evaluated
unfolding bitfield_eval_generic
eval_bitfield_ro now (key ∷ args) s = bitfield_eval_generic now key args true s
eval_bitfield_ro now [] s = argument_error "BITFIELD_RO" s
