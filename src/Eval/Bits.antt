-- ===== src/Eval/Bits.antt =====
-- SETBIT, GETBIT and BITCOUNT of internal/eval/store_eval.go. Memory is taken to suffice: SETBIT at an
-- offset of which Go cannot allocate the bytes would panic.
pub mod Count
use dice_db_distributed_syst.Prelude.{
  ℕ, ◌+◌, ◌/◌, Bool, true, false, not, ◌||◌, Option, none, some, List, [], ◌∷◌, arith, ltb,
  if◌then◌else◌, length, Str, codes, str_beq, nat_eq, str_eq,
}
use dice_db_distributed_syst.Prelude.Int.{ℤ, pos, negsuc, ◌-ℤ◌, ltb_ℤ, wrap64}
use dice_db_distributed_syst.Strconv.{parse_int}
use dice_db_distributed_syst.Object.{ObjectType, Value, Obj}
use dice_db_distributed_syst.Store.State.{Store, new_obj, set_expiry}
use dice_db_distributed_syst.Store.Expiry.{get_expiry}
use dice_db_distributed_syst.Store.Access.{get}
use dice_db_distributed_syst.Store.Put.{put}
use dice_db_distributed_syst.Wire.{Run, panic}
use dice_db_distributed_syst.Eval.{
  resp, integer_zero, integer_one, EvalResult, wrong_type_operation, integer_out_of_range, general,
  make_eval_result, make_eval_error,
}
use dice_db_distributed_syst.Eval.Fetch.{write_value}
use dice_db_distributed_syst.Eval.Hash.{Evaluated, argument_error}
use dice_db_distributed_syst.Eval.ByteArray.{
  new_byte_array, get_value_as_byte_slice, byte_slice_to_obj, set_bit, get_bit, get_bit_at,
  increase_size,
}

-- strconv.ParseBool
abbrev is_one_of : List Str → Str → Bool
is_one_of [] t = false
is_one_of (x ∷ xs) t = str_beq x t || is_one_of xs t

abbrev true_words : List Str
true_words = codes "1" ∷ codes "t" ∷ codes "T" ∷ codes "TRUE" ∷ codes "true" ∷ codes "True" ∷ []

abbrev false_words : List Str
false_words = codes "0" ∷ codes "f" ∷ codes "F" ∷ codes "FALSE" ∷ codes "false" ∷ codes "False" ∷ []

unfoldable pub parse_bool : Str → Option Bool
parse_bool t =
    if is_one_of true_words t
    then some true
    else if is_one_of false_words t
    then some false
    else none

-- The bytes of an object, and whether the command reaches into the object itself.
pub data Bytes : Type 0 where
  own copied : Str → Bytes
  wrong_type cast_panic : Bytes

-- The bytes of a string or an integer.
abbrev pub copied_bytes : Run (Option Str) → Bytes
copied_bytes (Run.ok none) = wrong_type
copied_bytes (Run.ok (some b)) = copied b
copied_bytes panic = cast_panic

unfoldable pub bytes_for : Obj → Bytes
unfolding get_value_as_byte_slice
bytes_for o = elim o.type [
  | ObjectType.byte_array ↦ elim o.value [ Value.byte_array b ↦ own b | _ ↦ cast_panic ]
  | ObjectType.string ↦ copied_bytes (get_value_as_byte_slice o)
  | ObjectType.int ↦ copied_bytes (get_value_as_byte_slice o)
  | _ ↦ wrong_type
]

abbrev pub bit_result : Bool → EvalResult
bit_result v = if v then resp integer_one else resp integer_zero

-- The new object, with the old one's expiry time, under the key.
unfoldable pub setbit_put : ℤ → Str → Bool → ℕ → Option ℕ × Store → Evaluated
unfolding get_expiry set_expiry put make_eval_result make_eval_error
setbit_put now key old r (none, s) = Run.ok (make_eval_error wrong_type_operation, s)
setbit_put now key old r (some new, s) =
    let duration : ℤ = elim (get_expiry r s) [ none ↦ negsuc 0 | some exp ↦ wrap64 (exp -ℤ now) ] in
    let s' = if ltb_ℤ (pos 0) duration then set_expiry now new duration s else s in
    Run.ok (make_eval_result (bit_result old), put now key new s')

-- The array grows to the offset's byte; the bytes of a byte array are the object's own.
unfoldable pub setbit_bytes : ℤ → Str → ℕ → Bool → ℕ → Bytes → Store → Evaluated
unfolding set_bit get_bit increase_size byte_slice_to_obj setbit_put write_value make_eval_error
setbit_bytes now key offset value r wrong_type s = Run.ok (make_eval_error wrong_type_operation, s)
setbit_bytes now key offset value r cast_panic s = panic
setbit_bytes now key offset value r (own b) s =
    let b' = increase_size (offset / 8 + 1) b in
    elim (get_bit offset b') [
      | none ↦ panic
      | some old ↦ elim (set_bit offset value b') [
        | none ↦ panic
        | some b'' ↦
            let s' = write_value r (Value.byte_array b'') s in
            setbit_put now key old r (byte_slice_to_obj now b'' (s'.objs r).type s')
      ]
    ]
setbit_bytes now key offset value r (copied b) s =
    let b' = increase_size (offset / 8 + 1) b in
    elim (get_bit offset b') [
      | none ↦ panic
      | some old ↦ elim (set_bit offset value b') [
        | none ↦ panic
        | some b'' ↦ setbit_put now key old r (byte_slice_to_obj now b'' (s.objs r).type s)
      ]
    ]

-- A missing key gets an array of zeros first.
unfoldable pub setbit_object : ℤ → Str → ℕ → Store → ℕ × Store
unfolding get new_obj put new_byte_array
setbit_object now key offset s =
    let (o, s') = get now key s in
    elim o [
      | some r ↦ (r, s')
      | none ↦
          let (r, s₁) =
            new_obj now (Value.byte_array (new_byte_array (offset / 8 + 1))) (negsuc 0)
              ObjectType.byte_array s' in
          (r, put now key r s₁)
    ]

abbrev offset_text : Str
offset_text = codes "bit offset is not an integer or out of range"

abbrev bit_text : Str
bit_text = codes "bit is not an integer or out of range"

unfoldable pub eval_setbit : ℤ → List Str → Store → Evaluated
unfolding parse_int parse_bool setbit_object bytes_for setbit_bytes make_eval_error
eval_setbit now (key ∷ offset ∷ value ∷ []) s = elim (parse_int offset) [
  | none ↦ Run.ok (make_eval_error (general offset_text), s)
  | some n ↦ elim n [
    | negsuc _ ↦ Run.ok (make_eval_error (general offset_text), s)
    | pos i ↦ elim (parse_bool value) [
      | none ↦ Run.ok (make_eval_error (general bit_text), s)
      | some v ↦
          let (r, s') = setbit_object now key i s in
          setbit_bytes now key i v r (bytes_for (s'.objs r)) s'
    ]
  ]
]
eval_setbit now _ s = argument_error "SETBIT" s

-- Past the end a bit is 0; a position below zero goes to the array.
abbrev pub is_past : ℤ → Str → Bool
is_past (pos i) b = ltb (length b) (i / 8 + 1)
is_past (negsuc _) b = false

unfoldable pub getbit_of : ℤ → Str → Store → Evaluated
unfolding get_bit_at make_eval_result
getbit_of offset b s =
    if is_past offset b
    then Run.ok (make_eval_result (resp integer_zero), s)
    else elim (get_bit_at offset b) [
      | none ↦ panic
      | some v ↦ Run.ok (make_eval_result (bit_result v), s)
    ]

unfoldable pub getbit_found : ℤ → Obj → Store → Evaluated
unfolding bytes_for getbit_of make_eval_result make_eval_error
getbit_found offset o s = elim (bytes_for o) [
  | own b ↦ getbit_of offset b s
  | copied b ↦ getbit_of offset b s
  | cast_panic ↦ panic
  | wrong_type ↦ elim o.type [
    | ObjectType.set ↦ Run.ok (make_eval_error wrong_type_operation, s)
    | ObjectType.string ↦ Run.ok (make_eval_error wrong_type_operation, s)
    | ObjectType.int ↦ Run.ok (make_eval_error wrong_type_operation, s)
    | _ ↦ Run.ok (make_eval_result (resp integer_zero), s)
  ]
]

unfoldable pub eval_getbit : ℤ → List Str → Store → Evaluated
unfolding parse_int get getbit_found make_eval_error
eval_getbit now (key ∷ offset ∷ []) s = elim (parse_int offset) [
  | none ↦ Run.ok (make_eval_error integer_out_of_range, s)
  | some i ↦
      let (o, s') = get now key s in
      elim o [
        | none ↦ Run.ok (make_eval_error wrong_type_operation, s')
        | some r ↦ getbit_found i (s'.objs r) s'
      ]
]
eval_getbit now _ s = argument_error "GETBIT" s
