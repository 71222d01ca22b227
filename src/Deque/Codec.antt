-- ===== src/Deque/Codec.antt =====
-- The entries of internal/eval/deque.go read back.
use dice_db_distributed_syst.Prelude.{
  ℕ, zero, suc, ◌+◌, ◌*◌, ◌/◌, ◌%◌, ◌^◌, ◌≤◌, ◌<◌, ◌≡◌, refl, sym, ap, ◌∙◌, ◌⊎◌, inl, inr, true,
  false, none, some, List, [], ◌∷◌, ◌++◌, arith, ltb, leb, ◌==◌, if◌then◌else◌, if_both, Bool-cases,
  Option-cases, length, take, replicate, length-append, Str, nat_eq, str_eq,
}
use dice_db_distributed_syst.Prelude.Int.{ℤ, pos, negsuc, pattern64, IsInt64}
use mathlib.Core.List.{append_assoc}
use dice_db_distributed_syst.Strconv.{parse_int, format_int}
use dice_db_distributed_syst.Strconv.RoundTrip.{parse_int-IsInt64}
use dice_db_distributed_syst.Varint.{bit_shifts, get_encode_uint_size}
use dice_db_distributed_syst.Deque.{
  encode_uint_rev, rev_loop, rev_onto, end_first, str_header, int_bytes, encode_deq_str,
  encode_deq_int, encode_deq_entry, sign_extend, decode_str, decoded_int, is_in, decode_deq_entry,
  get_encode_deq_str_size, get_encode_deq_int_size, get_encode_deq_entry_size,
}

length-zeros : (n : ℕ) → length {A = ℕ} (replicate n 0) ≡ n
length-zeros zero = refl
length-zeros (suc n) = ap suc (length-zeros n)

pub length-rev_loop : (ws : List ℕ) (n x : ℕ) → length (rev_loop ws n x) ≡ n
unfolding rev_loop
length-rev_loop ws zero x = refl
length-rev_loop [] (suc n) x = ap suc (length-zeros n)
length-rev_loop (w ∷ ws) (suc n) x = ap suc (
    if_both (λ (l : Str). length l ≡ n) (x / 2 ^ w == 0) (length-zeros n)
      (length-rev_loop ws n (x / 2 ^ w)))

length-rev_onto : (l acc : Str) → length (rev_onto l acc) ≡ length l + length acc
length-rev_onto [] acc = omega arith
length-rev_onto (x ∷ l) acc = omega (arith, length-rev_onto l (x ∷ acc))

length-end_first : (l : Str) → length (end_first l) ≡ length l
length-end_first [] = refl
length-end_first (b ∷ l) = refl

pub length-encode_uint_rev : (n x : ℕ) → length (encode_uint_rev n x) ≡ n
unfolding encode_uint_rev
length-encode_uint_rev n x =
    length-end_first (rev_onto (rev_loop bit_shifts n x) [])
    ∙ length-rev_onto (rev_loop bit_shifts n x) []
    ∙ omega (arith, length-rev_loop bit_shifts n x)

pub take-append : (a b : Str) → take (length a) (a ++ b) ≡ a
take-append [] b = refl
take-append (x ∷ a) b = ap (λ l. x ∷ l) (take-append a b)

pub decode_str-append :
    (h : ℕ) (x rest : Str)
    → decode_str h (length x) (x ++ rest)
      ≡ some (x, h + length x + get_encode_uint_size (h + length x))
unfolding decode_str
decode_str-append h x rest =
    let e : ltb (length (x ++ rest)) (length x) ≡ false = ground (arith, length-append x rest) in
    rw (e, take-append x rest) refl

-- The tags of strings.
decode-6 :
    (b : ℕ) (l : Str) → 128 ≤ b → b < 192 → decode_deq_entry (b ∷ l) ≡ decode_str 1 (b % 64) l
unfolding decode_deq_entry
decode-6 b l p q = ground arith

decode-12 :
    (b b1 : ℕ) (l : Str)
    → 224 ≤ b
    → b < 240
    → decode_deq_entry (b ∷ b1 ∷ l) ≡ decode_str 2 (b % 16 * 256 + b1) l
unfolding decode_deq_entry
decode-12 b b1 l p q = ground arith

decode-32 :
    (b1 b2 b3 b4 : ℕ) (l : Str)
    → decode_deq_entry (240 ∷ b1 ∷ b2 ∷ b3 ∷ b4 ∷ l)
      ≡ decode_str 5 (b1 + b2 * 256 + b3 * 65536 + b4 * 16777216) l
unfolding decode_deq_entry
decode-32 b1 b2 b3 b4 l = refl

-- What follows the header of a string does not matter to the decoding.
pub decode-str_header :
    (n : ℕ) (l : Str)
    → n < 2 ^ 32
    → decode_deq_entry (str_header n ++ l) ≡ decode_str (length (str_header n)) n l
unfolding str_header
decode-str_header n l h = elim (Bool-cases (leb n 63)) [
  | inl e ↦
      let m : (128 + n) % 64 ≡ n = ground arith in
      rw e (decode-6 (128 + n) l (omega arith) (ground arith) ∙ ap (λ k. decode_str 1 k l) m)
  | inr e ↦ elim (Bool-cases (leb n 4095)) [
    | inl g ↦
        let m : (224 + n / 256) % 16 * 256 + n % 256 ≡ n = ground arith in
        rw (e, g)
          (decode-12 (224 + n / 256) (n % 256) l (omega arith) (ground arith)
            ∙ ap (λ k. decode_str 2 k l) m)
    | inr g ↦
        let m : n % 256
              + n / 256 % 256 * 256
              + n / 65536 % 256 * 65536
              + n / 16777216 % 256 * 16777216
            ≡ n =
          omega arith in
        rw (e, g)
          (decode-32 (n % 256) (n / 256 % 256) (n / 65536 % 256) (n / 16777216 % 256) l
            ∙ ap (λ k. decode_str 5 k l) m)
  ]
]

pub length-encode_deq_str :
    (x : Str)
    → length (encode_deq_str x)
      ≡ length (str_header (length x))
        + length x
        + get_encode_uint_size (length (str_header (length x)) + length x)
unfolding encode_deq_str
length-encode_deq_str x =
    let header = str_header (length x) in
    let tail =
      encode_uint_rev (get_encode_uint_size (length header + length x))
        (length header + length x) in
    let e =
      length-encode_uint_rev (get_encode_uint_size (length header + length x))
        (length header + length x) in
    omega (arith, length-append (header ++ x) tail, length-append header x, e)

pub decode-encode_deq_str :
    (x rest : Str)
    → length x < 2 ^ 32
    → decode_deq_entry (encode_deq_str x ++ rest) ≡ some (x, length (encode_deq_str x))
unfolding encode_deq_str
decode-encode_deq_str x rest h =
    let header = str_header (length x) in
    let k = length header + length x in
    let tail = encode_uint_rev (get_encode_uint_size k) k in
    ap decode_deq_entry
      (append_assoc (header ++ x) tail rest ∙ append_assoc header x (tail ++ rest))
    ∙ decode-str_header (length x) (x ++ (tail ++ rest)) h
    ∙ decode_str-append (length header) x (tail ++ rest)
    ∙ ap (λ n. some (x, n)) (sym (length-encode_deq_str x))

-- The tags of integers, and the integers that their bytes stand for.
int-8 : (v : ℤ) → is_in (pos 0) (pos 127) v ≡ true → sign_extend 8 (pattern64 v % 256) ≡ v
unfolding sign_extend pattern64
int-8 (pos n) h = ground arith
int-8 (negsuc n) h = ground arith

int-13 :
    (v : ℤ)
    → is_in (negsuc 4095) (pos 4095) v ≡ true
    → sign_extend 13 ((192 + pattern64 v / 256 % 32) % 32 * 256 + pattern64 v % 256) ≡ v
unfolding sign_extend pattern64
int-13 (pos n) h = ground arith
int-13 (negsuc n) h = ground arith

int-16 :
    (v : ℤ)
    → is_in (negsuc 32767) (pos 32767) v ≡ true
    → sign_extend 16 (pattern64 v % 256 + pattern64 v / 256 % 256 * 256) ≡ v
unfolding sign_extend pattern64
int-16 (pos n) h = ground arith
int-16 (negsuc n) h = ground arith

int-24 :
    (v : ℤ)
    → is_in (negsuc 8388607) (pos 8388607) v ≡ true
    → sign_extend 24
        (pattern64 v % 256 + pattern64 v / 256 % 256 * 256 + pattern64 v / 65536 % 256 * 65536)
      ≡ v
unfolding sign_extend pattern64
int-24 (pos n) h = ground arith
int-24 (negsuc n) h = ground arith

int-32 :
    (v : ℤ)
    → is_in (negsuc 2147483647) (pos 2147483647) v ≡ true
    → sign_extend 32 (
        pattern64 v % 256
        + pattern64 v / 256 % 256 * 256
        + pattern64 v / 65536 % 256 * 65536
        + pattern64 v / 16777216 % 256 * 16777216)
      ≡ v
unfolding sign_extend pattern64
int-32 (pos n) h = ground arith
int-32 (negsuc n) h = ground arith

int-64 :
    (v : ℤ)
    → IsInt64 v
    → sign_extend 64 (
        pattern64 v % 256
        + pattern64 v / 256 % 256 * 256
        + pattern64 v / 65536 % 256 * 65536
        + pattern64 v / 16777216 % 256 * 16777216
        + pattern64 v / 4294967296 % 256 * 4294967296
        + pattern64 v / 1099511627776 % 256 * 1099511627776
        + pattern64 v / 281474976710656 % 256 * 281474976710656
        + pattern64 v / 72057594037927936 % 256 * 72057594037927936)
      ≡ v
unfolding sign_extend pattern64
int-64 (pos n) h = ground arith
int-64 (negsuc n) h = ground arith

decode-7 : (b : ℕ) (l : Str) → b < 128 → decode_deq_entry (b ∷ l) ≡ decoded_int 8 b 2
unfolding decode_deq_entry
decode-7 b l h = ground arith

decode-13 :
    (b b1 : ℕ) (l : Str)
    → 192 ≤ b
    → b < 224
    → decode_deq_entry (b ∷ b1 ∷ l) ≡ decoded_int 13 (b % 32 * 256 + b1) 3
unfolding decode_deq_entry
decode-13 b b1 l p q = ground arith

small_7 : (v : ℤ) → is_in (pos 0) (pos 127) v ≡ true → pattern64 v % 256 < 128
unfolding pattern64
small_7 (pos n) h = ground arith
small_7 (negsuc n) h = ground arith

-- An integer reads back as its decimal digits, whatever follows its bytes.
pub decode-int_bytes :
    (v : ℤ) (rest : Str)
    → IsInt64 v
    → decode_deq_entry (int_bytes v ++ rest) ≡ some (format_int v, length (int_bytes v) + 1)
unfolding int_bytes decode_deq_entry
decode-int_bytes v rest h = elim (Bool-cases (is_in (pos 0) (pos 127) v)) [
  | inl a ↦ rw a (
      decode-7 (pattern64 v % 256) rest (small_7 v a)
      ∙ ap (λ z. some (format_int z, 2)) (int-8 v a))
  | inr a ↦ elim (Bool-cases (is_in (negsuc 4095) (pos 4095) v)) [
    | inl b ↦
        rw (a, b)
          (decode-13 (192 + pattern64 v / 256 % 32) (pattern64 v % 256) rest (omega arith)
              (omega arith)
            ∙ ap (λ z. some (format_int z, 3)) (int-13 v b))
    | inr b ↦ elim (Bool-cases (is_in (negsuc 32767) (pos 32767) v)) [
      | inl c ↦ rw (a, b, c) (ap (λ z. some (format_int z, 4)) (int-16 v c))
      | inr c ↦ elim (Bool-cases (is_in (negsuc 8388607) (pos 8388607) v)) [
        | inl d ↦ rw (a, b, c, d) (ap (λ z. some (format_int z, 5)) (int-24 v d))
        | inr d ↦ elim (Bool-cases (is_in (negsuc 2147483647) (pos 2147483647) v)) [
          | inl e ↦ rw (a, b, c, d, e) (ap (λ z. some (format_int z, 6)) (int-32 v e))
          | inr e ↦ rw (a, b, c, d, e) (ap (λ z. some (format_int z, 10)) (int-64 v h))
        ]
      ]
    ]
  ]
]

decode-encode_deq_int :
    (v : ℤ) (rest : Str)
    → IsInt64 v
    → decode_deq_entry (encode_deq_int v ++ rest) ≡ some (format_int v, length (encode_deq_int v))
unfolding encode_deq_int
decode-encode_deq_int v rest h =
    let last = length (int_bytes v) ∷ [] in
    ap decode_deq_entry (append_assoc (int_bytes v) last rest)
    ∙ decode-int_bytes v (last ++ rest) h
    ∙ ap (λ n. some (format_int v, n)) (sym (length-append (int_bytes v) last))

-- What an entry gives back: a string of fewer than 21 bytes that is a number, in its shortest form.
abbrev pub canonical : Str → Str
canonical x =
    if leb 21 (length x) then x else elim (parse_int x) [ none ↦ x | some v ↦ format_int v ]

-- Every entry of a string shorter than 2^32 bytes reads back, whatever follows it, as the string
-- in its canonical form and with the length of the entry.
pub decode-encode_deq_entry :
    (x rest : Str)
    → length x < 2 ^ 32
    → decode_deq_entry (encode_deq_entry x ++ rest)
      ≡ some (canonical x, length (encode_deq_entry x))
unfolding encode_deq_entry
decode-encode_deq_entry x rest h = elim (Bool-cases (leb 21 (length x))) [
  | inl e ↦ rw e (decode-encode_deq_str x rest h)
  | inr e ↦ elim (Option-cases (parse_int x)) [
    | inl g ↦ rw (e, g) (decode-encode_deq_str x rest h)
    | inr (v, g) ↦ rw (e, g) (decode-encode_deq_int v rest (parse_int-IsInt64 x v g))
  ]
]

length-encode_deq_int : (v : ℤ) → length (encode_deq_int v) ≡ get_encode_deq_int_size v
unfolding encode_deq_int int_bytes get_encode_deq_int_size
length-encode_deq_int v = ground arith

length-str_header :
    (n : ℕ) → length (str_header n) ≡ (if leb n 63 then 1 else if leb n 4095 then 2 else 5)
unfolding str_header
length-str_header n = ground arith

size-none :
    (x : Str)
    → parse_int x ≡ none
    → get_encode_deq_entry_size x ≡ get_encode_deq_str_size (length x)
unfolding get_encode_deq_entry_size
size-none x g = rw (get_encode_deq_entry_size, g) refl

size-some :
    (x : Str) (v : ℤ)
    → parse_int x ≡ some v
    → get_encode_deq_entry_size x ≡ get_encode_deq_int_size v
unfolding get_encode_deq_entry_size
size-some x v g = rw (get_encode_deq_entry_size, g) refl

-- The size that is computed for an entry is the number of its bytes, for a string of fewer than
-- 21 bytes or one that is no number.
pub length-encode_deq_entry :
    (x : Str)
    → (length x < 21) ⊎ (parse_int x ≡ none)
    → length (encode_deq_entry x) ≡ get_encode_deq_entry_size x
unfolding encode_deq_entry get_encode_deq_str_size
length-encode_deq_entry x h =
    let s : length (encode_deq_str x) ≡ get_encode_deq_str_size (length x) =
      length-encode_deq_str x
      ∙ ap (λ k. k + length x + get_encode_uint_size (k + length x))
          (length-str_header (length x)) in
    elim (Option-cases (parse_int x)) [
      | inl g ↦ elim (Bool-cases (leb 21 (length x))) [
        | inl e ↦ rw (e, size-none x g) s
        | inr e ↦ rw (e, size-none x g, g) s
      ]
      | inr (v, g) ↦
          let e : leb 21 (length x) ≡ false = elim h [
            | inl k ↦ ground arith
            | inr k ↦ absurd (ground arith)
          ] in
          rw (e, g, size-some x v g) (length-encode_deq_int v)
    ]
