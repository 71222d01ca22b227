-- ===== src/Eval/ByteArray.antt =====
-- internal/eval/bytearray.go. A ByteArray is the list of its bytes: every function that makes or
-- changes one sets Length to their number. none is a panic: an index out of range, or a division by 0.
pub mod Fields
pub mod Laws
pub mod Counts
pub mod Aligned
use dice_db_distributed_syst.Prelude.{
  ℕ, zero, suc, ◌+◌, ◌-◌, ◌*◌, ◌/◌, ◌%◌, ◌^◌, Bool, true, false, ◌&&◌, Option, none, some, [], ◌∷◌,
  ◌++◌, arith, ltb, leb, ◌==◌, if◌then◌else◌, length, get_elem?, replicate, Str, nat_eq, str_eq,
}
use dice_db_distributed_syst.Prelude.Int.{
  ℤ, pos, negsuc, pos_part, sub_ℕ, ◌+ℤ◌, ◌-ℤ◌, leb_ℤ, pattern64, signed64, wrap64,
}
use Prim.Native.Nat.{bit_and}
use dice_db_distributed_syst.Strconv.{parse_int, format_int}
use dice_db_distributed_syst.Wire.{Run, panic}
use dice_db_distributed_syst.Object.{ObjectType, Value, Obj}
use dice_db_distributed_syst.Store.State.{Store, new_obj}

unfoldable pub new_byte_array : ℕ → Str
new_byte_array size = replicate size 0

-- getValueAsByteSlice with its two helpers: a value that is no string or byte array under their tags
-- is an error, one that is no integer under its tag a panic.
unfoldable pub bytes_of : ObjectType → Value → Run (Option Str)
unfolding format_int
bytes_of ObjectType.int v = elim v [ Value.int n ↦ Run.ok (some (format_int n)) | _ ↦ panic ]
bytes_of ObjectType.string v = elim v [ Value.str t ↦ Run.ok (some t) | _ ↦ Run.ok none ]
bytes_of ObjectType.byte_array v = elim v [ Value.byte_array b ↦ Run.ok (some b) | _ ↦ Run.ok none ]
bytes_of _ v = Run.ok none

unfoldable pub get_value_as_byte_slice : Obj → Run (Option Str)
unfolding bytes_of
get_value_as_byte_slice o = bytes_of o.type o.value

-- ByteSliceToObj with ByteSliceToIntObj, ByteSliceToStringObj and ByteSliceToByteArrayObj.
unfoldable pub byte_slice_to_obj : ℤ → Str → ObjectType → Store → Option ℕ × Store
unfolding parse_int new_obj
byte_slice_to_obj now b ObjectType.int s = elim (parse_int b) [
  | none ↦ let (r, s') = new_obj now (Value.str b) (negsuc 0) ObjectType.string s in (some r, s')
  | some n ↦ let (r, s') = new_obj now (Value.int n) (negsuc 0) ObjectType.int s in (some r, s')
]
byte_slice_to_obj now b ObjectType.string s =
    let (r, s') = new_obj now (Value.str b) (negsuc 0) ObjectType.string s in (some r, s')
byte_slice_to_obj now b ObjectType.byte_array s =
    let (r, s') = new_obj now (Value.byte_array b) (negsuc 0) ObjectType.byte_array s in
    (some r, s')
byte_slice_to_obj now b _ s = (none, s)

-- A byte's bit of some weight, and the byte with that bit set or cleared.
abbrev pub hit : ℕ → ℕ → Bool
hit x w = x / w % 2 == 1

abbrev pub put_weight : Bool → ℕ → ℕ → ℕ
put_weight true w x = if hit x w then x else x + w
put_weight false w x = if hit x w then x - w else x

abbrev pub weight : ℕ → ℕ
weight i = 2 ^ (7 - i % 8)

unfoldable pub put_byte : ℕ → ℕ → Bool → Str → Option Str
put_byte idx w v [] = none
put_byte zero w v (x ∷ b) = some (put_weight v w x ∷ b)
put_byte (suc idx) w v (x ∷ b) = elim (put_byte idx w v b) [ none ↦ none | some b' ↦ some (x ∷ b') ]

-- SetBit and GetBit.
unfoldable pub set_bit : ℕ → Bool → Str → Option Str
unfolding put_byte
set_bit i v b = put_byte (i / 8) (weight i) v b

unfoldable pub get_bit : ℕ → Str → Option Bool
get_bit i b = elim (get_elem? b (i / 8)) [ none ↦ none | some x ↦ some (hit x (weight i)) ]

-- GetBit at any position. From -1 down to -7 the index of the byte is 0 and the shift is above 7,
-- which leaves nothing of the 1.
unfoldable pub get_bit_at : ℤ → Str → Option Bool
unfolding get_bit
get_bit_at (pos n) b = get_bit n b
get_bit_at (negsuc n) [] = none
get_bit_at (negsuc n) (x ∷ b) = if ltb n 7 then some false else none

-- popcount, on uint8s.
unfoldable pub popcount : ℕ → ℕ
popcount x =
    let pairs = (x + 256 - bit_and (x / 2) 0x55) % 256 in
    let fours = (bit_and pairs 0x33 + bit_and (pairs / 4) 0x33) % 256 in
    bit_and ((fours + fours / 16) % 256) 0x0F

unfoldable pub bit_count : Str → ℕ
unfolding popcount
bit_count [] = 0
bit_count (x ∷ b) = popcount x + bit_count b

unfoldable pub increase_size : ℕ → Str → Str
increase_size n b = if leb n (length b) then b else b ++ replicate (n - length b) 0

-- ResizeIfNecessary drops the zeros at the end.
unfoldable pub resize_if_necessary : Str → Str
resize_if_necessary [] = []
resize_if_necessary (x ∷ b) = elim (resize_if_necessary b) [
  | [] ↦ if x == 0 then [] else x ∷ []
  | y ∷ r ↦ x ∷ y ∷ r
]

-- getBits. The loop takes the bits from an offset on into an int64, whose pattern is the number.
unfoldable pub read_bits : ℕ → ℤ → ℕ → Str → Option ℕ
unfolding get_bit_at
read_bits zero offset value b = some value
read_bits (suc n) offset value b =
    let next =
      λ (bit : Bool). read_bits n (offset +ℤ pos 1) (value * 2 + (if bit then 1 else 0)) b in
    elim (get_bit_at offset b) [ none ↦ none | some bit ↦ next bit ]

-- The bits past the end count as zeros; with all of them past it the loop takes none.
abbrev pub missing_bits : ℤ → ℕ → Str → ℕ
missing_bits offset width b = pos_part (wrap64 (offset +ℤ pos width) -ℤ pos (length b * 8))

unfoldable pub field_value : Bool → ℕ → ℕ → ℕ → ℤ
field_value signed width extra n =
    let value = if leb width extra then 0 else n * 2 ^ extra % 2 ^ 64 in
    if signed && value / 2 ^ (width - 1) % 2 == 1 then sub_ℕ value (2 ^ width) else signed64 value

unfoldable pub get_bits : ℤ → ℕ → Bool → Str → Option ℤ
unfolding read_bits field_value
get_bits offset width signed b =
    let extra = missing_bits offset width b in
    elim (read_bits (width - extra) offset 0 b) [
      | none ↦ none
      | some n ↦ some (field_value signed width extra n)
    ]

-- setBits: the bits of the value from the lowest on, which go to the bits of a byte from the lowest
-- on. A negative position panics, as an index or as a shift.
unfoldable pub write_bits : ℕ → ℕ → ℕ → Str → Option Str
unfolding put_byte
write_bits zero offset value b = some b
write_bits (suc n) offset value b =
    let next = λ (b' : Str). write_bits n (offset + 1) (value / 2) b' in
    elim (put_byte (offset / 8) (2 ^ (offset % 8)) (value % 2 == 1) b) [
      | none ↦ none
      | some b' ↦ next b'
    ]

abbrev pub room_for : ℤ → ℕ → Str → Str
room_for offset width b =
    if leb_ℤ (wrap64 (offset +ℤ pos width)) (pos (length b * 8))
    then b
    else increase_size (pos_part (wrap64 (offset +ℤ pos width +ℤ pos 7)) / 8) b

unfoldable pub set_bits : ℤ → ℕ → ℤ → Str → Option Str
unfolding write_bits increase_size
set_bits (pos offset) width value b =
    write_bits width offset (pattern64 value) (room_for (pos offset) width b)
set_bits (negsuc _) width value b = none
