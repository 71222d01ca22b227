-- ===== src/Varint.antt =====
-- internal/dencoding/int.go: variable-length integers, seven bits to a byte, the low ones first.
-- A byte is a number below 256, a uint64 a number below 2 ^ 64.
pub mod RoundTrip
use dice_db_distributed_syst.Prelude.{
  ℕ, ◌+◌, ◌*◌, ◌/◌, ◌%◌, ◌^◌, List, [], ◌∷◌, arith, ltb, leb, ◌==◌, if◌then◌else◌, nat_eq, str_eq,
}
use dice_db_distributed_syst.Prelude.Int.{ℤ, pos, negsuc}

-- getLSB, the panic for more than 8 bits apart: its callers ask for 7 or 1.
unfoldable pub get_lsb : ℕ → ℕ → ℕ
get_lsb x n = x % 256 % 2 ^ n

-- `b | 0b10000000`
abbrev pub continued : ℕ → ℕ
continued b = if ltb b 128 then b + 128 else b

-- `b & 0b01111111`
abbrev pub ended : ℕ → ℕ
ended b = b % 128

abbrev pub bit_shifts : List ℕ
bit_shifts = 7 ∷ 7 ∷ 7 ∷ 7 ∷ 7 ∷ 7 ∷ 7 ∷ 7 ∷ 7 ∷ 1 ∷ []

-- The loop of EncodeUInt over the shifts; past the last one stands the eleventh byte, never written.
unfoldable pub encode_loop : List ℕ → ℕ → List ℕ
unfolding get_lsb
encode_loop [] x = 0 ∷ []
encode_loop (w ∷ ws) x =
    let b = continued (get_lsb x w) in
    let y = x / 2 ^ w in let rest = encode_loop ws y in if y == 0 then ended b ∷ [] else b ∷ rest

unfoldable pub encode_uint : ℕ → List ℕ
unfolding encode_loop
encode_uint x = encode_loop bit_shifts x

-- The loop of DecodeUInt: `scale` is 1 << (7 * i), and the bits of v lie below it, so that `|` adds.
-- What leaves the 64 bits is lost.
unfoldable pub decode_loop : ℕ → ℕ → List ℕ → ℕ
unfolding get_lsb
decode_loop v scale [] = v
decode_loop v scale (b ∷ l) = decode_loop ((v + get_lsb b 7 * scale) % 2 ^ 64) (scale * 128) l

unfoldable pub decode_uint : List ℕ → ℕ
unfolding decode_loop
decode_uint vint = decode_loop 0 1 vint

-- uint64((x << 1) ^ (x >> 63)): twice a number, and twice its complement and one if it is negative.
unfoldable pub zigzag : ℤ → ℕ
zigzag (pos n) = n * 2 % 2 ^ 64
zigzag (negsuc n) = (n * 2 + 1) % 2 ^ 64

unfoldable pub encode_int : ℤ → List ℕ
unfolding encode_uint zigzag
encode_int x = encode_uint (zigzag x)

-- (ux >> 1) ^ uint64((int64(ux)<<63)>>63): the half, complemented if the low bit is set.
unfoldable pub unzigzag : ℕ → ℤ
unzigzag ux = if ux % 2 == 0 then pos (ux / 2) else negsuc (ux / 2)

unfoldable pub decode_int : List ℕ → ℤ
unfolding decode_uint unzigzag
decode_int vint = unzigzag (decode_uint vint)

unfoldable pub get_encode_uint_size : ℕ → ℕ
get_encode_uint_size x =
    if leb x 127
    then 1
    else if ltb x 16383
    then 2
    else if ltb x 2097151
    then 3
    else if ltb x 268435455
    then 4
    else 5
