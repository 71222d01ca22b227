-- ===== src/Deque.antt =====
-- internal/eval/deque.go: the entries of a deque, each an encoding, the data and the length of both,
-- written backwards. A string of bytes that is cut short would panic, which is none here.
pub mod Codec
pub mod Basic
pub mod Refines
pub mod Backwards
pub mod Ends
pub mod Client
pub mod Insert
pub mod Linked
use dice_db_distributed_syst.Prelude.{
  ℕ, zero, suc, ◌+◌, ◌-◌, ◌*◌, ◌/◌, ◌%◌, ◌^◌, Bool, ◌&&◌, Option, none, some, List, [], ◌∷◌, ◌++◌,
  arith, ltb, leb, ◌==◌, if◌then◌else◌, length, take, replicate, Str, nat_eq, str_eq,
}
use dice_db_distributed_syst.Prelude.Int.{ℤ, pos, negsuc, sub_ℕ, leb_ℤ, pattern64}
use dice_db_distributed_syst.Strconv.{parse_int, format_int}
use dice_db_distributed_syst.Varint.{bit_shifts, continued, ended, get_lsb, get_encode_uint_size}

abbrev pub rev_onto : Str → Str → Str
rev_onto [] acc = acc
rev_onto (x ∷ l) acc = rev_onto l (x ∷ acc)

-- The loop of EncodeUIntRevInPlace, from the last byte of the buffer to the first. The bytes that it
-- does not reach stay 0, and a buffer too short would panic.
unfoldable pub rev_loop : List ℕ → ℕ → ℕ → Str
unfolding get_lsb
rev_loop ws zero x = []
rev_loop [] (suc n) x = replicate (suc n) 0
rev_loop (w ∷ ws) (suc n) x =
    let y = x / 2 ^ w in
    let rest = rev_loop ws n y in continued (get_lsb x w) ∷ (if y == 0 then replicate n 0 else rest)

abbrev pub end_first : Str → Str
end_first [] = []
end_first (b ∷ l) = ended b ∷ l

-- EncodeUIntRevInPlace on n bytes of 0.
unfoldable pub encode_uint_rev : ℕ → ℕ → Str
unfolding rev_loop
encode_uint_rev n x = end_first (rev_onto (rev_loop bit_shifts n x) [])

abbrev pub with_backlen : ℕ → Str → Str
with_backlen backlen b = b ++ encode_uint_rev (get_encode_uint_size backlen) backlen

-- The bytes that come before a string of n bytes.
unfoldable pub str_header : ℕ → Str
str_header n =
    if leb n 63
    then (128 + n) ∷ []
    else if leb n 4095
    then (224 + n / 256) ∷ (n % 256) ∷ []
    else 240 ∷ (n % 256) ∷ (n / 256 % 256) ∷ (n / 65536 % 256) ∷ (n / 16777216 % 256) ∷ []

unfoldable pub encode_deq_str : Str → Str
unfolding str_header encode_uint_rev get_encode_uint_size
encode_deq_str x =
    let header = str_header (length x) in with_backlen (length header + length x) (header ++ x)

abbrev pub is_in : ℤ → ℤ → ℤ → Bool
is_in lo hi v = leb_ℤ lo v && leb_ℤ v hi

-- The bytes of an integer before the last one, which is their number.
unfoldable pub int_bytes : ℤ → Str
int_bytes v =
    let p = pattern64 v in
    if is_in (pos 0) (pos 127) v
    then (p % 256) ∷ []
    else if is_in (negsuc 4095) (pos 4095) v
    then (192 + p / 256 % 32) ∷ (p % 256) ∷ []
    else if is_in (negsuc 32767) (pos 32767) v
    then 241 ∷ (p % 256) ∷ (p / 256 % 256) ∷ []
    else if is_in (negsuc 8388607) (pos 8388607) v
    then 242 ∷ (p % 256) ∷ (p / 256 % 256) ∷ (p / 65536 % 256) ∷ []
    else if is_in (negsuc 2147483647) (pos 2147483647) v
    then 243 ∷ (p % 256) ∷ (p / 256 % 256) ∷ (p / 65536 % 256) ∷ (p / 16777216 % 256) ∷ []
    else 244
      ∷ (p % 256)
      ∷ (p / 256 % 256)
      ∷ (p / 65536 % 256)
      ∷ (p / 16777216 % 256)
      ∷ (p / 4294967296 % 256)
      ∷ (p / 1099511627776 % 256)
      ∷ (p / 281474976710656 % 256)
      ∷ (p / 72057594037927936 % 256)
      ∷ []

unfoldable pub encode_deq_int : ℤ → Str
unfolding int_bytes
encode_deq_int v = int_bytes v ++ length (int_bytes v) ∷ []

unfoldable pub encode_deq_entry : Str → Str
unfolding encode_deq_str encode_deq_int
encode_deq_entry x =
    if leb 21 (length x)
    then encode_deq_str x
    else elim (parse_int x) [ none ↦ encode_deq_str x | some v ↦ encode_deq_int v ]

unfoldable pub get_encode_deq_str_size : ℕ → ℕ
unfolding get_encode_uint_size
get_encode_deq_str_size n =
    let enclen = if leb n 63 then 1 else if leb n 4095 then 2 else 5 in
    enclen + n + get_encode_uint_size (enclen + n)

unfoldable pub get_encode_deq_int_size : ℤ → ℕ
get_encode_deq_int_size v =
    if is_in (pos 0) (pos 127) v
    then 2
    else if is_in (negsuc 4095) (pos 4095) v
    then 3
    else if is_in (negsuc 32767) (pos 32767) v
    then 4
    else if is_in (negsuc 8388607) (pos 8388607) v
    then 5
    else if is_in (negsuc 2147483647) (pos 2147483647) v
    then 6
    else 10

-- It does not ask for the length of x first, as the encoding does.
unfoldable pub get_encode_deq_entry_size : Str → ℕ
unfolding get_encode_deq_str_size get_encode_deq_int_size
get_encode_deq_entry_size x = elim (parse_int x) [
  | none ↦ get_encode_deq_str_size (length x)
  | some v ↦ get_encode_deq_int_size v
]

-- `val <<= 64 - bit; val >>= 64 - bit`: the lowest bits, the highest of them the sign.
unfoldable pub sign_extend : ℕ → ℕ → ℤ
sign_extend bit val =
    let v = val % 2 ^ bit in if ltb v (2 ^ (bit - 1)) then pos v else sub_ℕ v (2 ^ bit)

-- A string of n bytes after a header of h bytes.
unfoldable pub decode_str : ℕ → ℕ → Str → Option (Str × ℕ)
unfolding get_encode_uint_size
decode_str h n rest =
    if ltb (length rest) n then none else some (take n rest, h + n + get_encode_uint_size (h + n))

abbrev pub decoded_int : ℕ → ℕ → ℕ → Option (Str × ℕ)
decoded_int bit val entry_len = some (format_int (sign_extend bit val), entry_len)

unfoldable pub decode_deq_entry : Str → Option (Str × ℕ)
unfolding decode_str sign_extend
decode_deq_entry [] = none
decode_deq_entry (b ∷ l) =
    if ltb b 128
    then decoded_int 8 b 2
    else if b / 32 == 6
    then elim l [ b1 ∷ _ ↦ decoded_int 13 (b % 32 * 256 + b1) 3 | _ ↦ none ]
    else if b == 241
    then elim l [ b1 ∷ b2 ∷ _ ↦ decoded_int 16 (b1 + b2 * 256) 4 | _ ↦ none ]
    else if b == 242
    then elim l [ b1 ∷ b2 ∷ b3 ∷ _ ↦ decoded_int 24 (b1 + b2 * 256 + b3 * 65536) 5 | _ ↦ none ]
    else if b == 243
    then elim l [
      | b1 ∷ b2 ∷ b3 ∷ b4 ∷ _ ↦ decoded_int 32 (b1 + b2 * 256 + b3 * 65536 + b4 * 16777216) 6
      | _ ↦ none
    ]
    else if b == 244
    then elim l [
      | b1 ∷ b2 ∷ b3 ∷ b4 ∷ b5 ∷ b6 ∷ b7 ∷ b8 ∷ _ ↦
          decoded_int 64
            (b1
              + b2 * 256
              + b3 * 65536
              + b4 * 16777216
              + b5 * 4294967296
              + b6 * 1099511627776
              + b7 * 281474976710656
              + b8 * 72057594037927936)
            10
      | _ ↦ none
    ]
    else if b / 64 == 2
    then decode_str 1 (b % 64) l
    else if b / 16 == 14
    then elim l [ b1 ∷ l' ↦ decode_str 2 (b % 16 * 256 + b1) l' | _ ↦ none ]
    else if b == 240
    then elim l [
      | b1 ∷ b2 ∷ b3 ∷ b4 ∷ l' ↦ decode_str 5 (b1 + b2 * 256 + b3 * 65536 + b4 * 16777216) l'
      | _ ↦ none
    ]
    else decoded_int 64 (12345678900000000 + b) 0
