-- ===== src/Varint/RoundTrip.antt =====
-- The variable-length integers of internal/dencoding/int.go read back.
use dice_db_distributed_syst.Prelude.{
  ℕ, zero, suc, ◌+◌, ◌*◌, ◌/◌, ◌%◌, ◌^◌, ◌<◌, ◌≡◌, ap, ◌∙◌, inl, inr, true, ◌||◌, List, [], ◌∷◌,
  arith, ltb, ◌==◌, if◌then◌else◌, Bool-cases, length, nat_eq, str_eq,
}
use dice_db_distributed_syst.Prelude.Int.{ℤ, pos, negsuc, IsInt64}
use dice_db_distributed_syst.Varint.{
  get_lsb, encode_loop, encode_uint, decode_loop, decode_uint, zigzag, unzigzag, encode_int,
  decode_int, get_encode_uint_size, continued, ended,
}

-- Seven bits are written as one byte, with or without the continuation mark.
pub get_lsb-continued : (x : ℕ) → get_lsb (continued (get_lsb x 7)) 7 ≡ x % 128
unfolding get_lsb
get_lsb-continued x = ground arith

pub get_lsb-ended : (x : ℕ) → get_lsb (ended (continued (get_lsb x 7))) 7 ≡ x % 128
unfolding get_lsb
get_lsb-ended x = ground arith

poly : (q r m : ℕ) → r * m + q * (m * 128) ≡ (q * 128 + r) * m
poly q r m = grind arith

pub split : (x m : ℕ) → x % 128 * m + x / 128 * (m * 128) ≡ x * m
split x m =
    let e : x / 128 * 128 + x % 128 ≡ x = omega arith in
    poly (x / 128) (x % 128) m ∙ ap (λ y. y * m) e

-- n shifts by seven and the last by one, and the numbers that they exhaust.
abbrev shifts : ℕ → List ℕ
shifts zero = 1 ∷ []
shifts (suc n) = 7 ∷ shifts n

abbrev limit : ℕ → ℕ
limit zero = 2
limit (suc n) = 128 * limit n

last_bit :
    (v x m : ℕ) → x < 2 → v + x * m < 2 ^ 64 → decode_loop v m (encode_loop (1 ∷ []) x) ≡ v + x * m
unfolding encode_loop decode_loop get_lsb
last_bit v zero m h b = omega arith
last_bit v (suc zero) m h b = omega arith
last_bit v (suc (suc x)) m h b = absurd (omega arith)

last_byte :
    (v x m : ℕ)
    → x < 128
    → v + x * m < 2 ^ 64
    → decode_loop v m (ended (continued (get_lsb x 7)) ∷ []) ≡ v + x * m
unfolding decode_loop
last_byte v x m h b = let e : x % 128 ≡ x = omega arith in rw (get_lsb-ended x, e) (omega arith)

decode_loop-encode_loop :
    (n v x m : ℕ)
    → x < limit n
    → v + x * m < 2 ^ 64
    → decode_loop v m (encode_loop (shifts n) x) ≡ v + x * m
unfolding encode_loop decode_loop
decode_loop-encode_loop zero v x m h b = last_bit v x m h b
decode_loop-encode_loop (suc n) v x m h b = elim (Bool-cases (x / 128 == 0)) [
  | inl e ↦ rw e (last_byte v x m (ground arith) b)
  | inr e ↦
      let s = split x m in
      let w = v + x % 128 * m in
      let small_w : w % 2 ^ 64 ≡ w = omega arith in
      rw (e, decode_loop, get_lsb-continued x, small_w)
        (decode_loop-encode_loop n w (x / 128) (m * 128) (omega arith) (omega arith) ∙ omega arith)
]

-- Every uint64 reads back from its encoding.
pub decode_uint-encode_uint : (x : ℕ) → x < 2 ^ 64 → decode_uint (encode_uint x) ≡ x
unfolding decode_uint encode_uint
decode_uint-encode_uint x h =
    decode_loop-encode_loop 9 0 x 1 (omega arith) (omega arith) ∙ omega arith

unzigzag-zigzag : (z : ℤ) → IsInt64 z → (unzigzag (zigzag z) ≡ z) × (zigzag z < 2 ^ 64)
unfolding unzigzag zigzag
unzigzag-zigzag (pos n) h = ground arith
unzigzag-zigzag (negsuc n) h = ground arith

-- Every int64 reads back from its encoding, the negative ones included.
decode_int-encode_int : (z : ℤ) → IsInt64 z → decode_int (encode_int z) ≡ z
unfolding decode_int encode_int
decode_int-encode_int z h =
    let q = unzigzag-zigzag z h in ap unzigzag (decode_uint-encode_uint (zigzag z) (q.1)) ∙ q.0

length-encode_loop :
    (ws : List ℕ) (x : ℕ)
    → length (encode_loop (7 ∷ ws) x)
      ≡ (if ltb x 128 then 1 else suc (length (encode_loop ws (x / 128))))
unfolding encode_loop
length-encode_loop ws x = ground arith

-- The number of bytes of an encoding, by the thresholds.
length-encode_uint_lem :
    (x : ℕ)
    → x < 2 ^ 35
    → length (encode_uint x) ≡ (
        if ltb x 128
        then 1
        else if ltb (x / 128) 128
        then 2
        else if ltb (x / 128 / 128) 128
        then 3
        else if ltb (x / 128 / 128 / 128) 128
        then 4
        else 5)
unfolding encode_uint
length-encode_uint_lem x h =
    let c = x / 128 / 128 / 128 in
    let d : ltb (c / 128) 128 ≡ true = ground arith in
    rw
      (
        length-encode_loop (shifts 8) x,
        length-encode_loop (shifts 7) (x / 128),
        length-encode_loop (shifts 6) (x / 128 / 128),
        length-encode_loop (shifts 5) c,
        length-encode_loop (shifts 4) (c / 128),
        d,
      )
      (ground arith)

-- Below 2^35 GetEncodeUIntSize is the length of the encoding, but one more for 16383, 2097151 and
-- 268435455.
pub length-encode_uint :
    (x : ℕ)
    → x < 2 ^ 35
    → get_encode_uint_size x ≡ (
        if x == 16383 || x == 2097151 || x == 268435455
        then suc (length (encode_uint x))
        else length (encode_uint x))
unfolding get_encode_uint_size
length-encode_uint x h = rw (length-encode_uint_lem x h) (ground arith)
