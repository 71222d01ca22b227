-- ===== src/Bloom.antt =====
-- internal/eval/type_bloomfilter.go and bloom_utils.go: the Bloom filter. The hash functions
-- (murmur3, seeded) are a parameter: a list of functions from values to uint64s, whose Write never
-- fails. The sizes that NewBloomFilter computes with floating-point logarithms are arguments.
pub mod Laws
pub mod Answers
use dice_db_distributed_syst.Prelude.{
  ℕ, zero, suc, ◌+◌, ◌-◌, ◌*◌, ◌/◌, ◌%◌, ◌^◌, Bool, false, not, none, some, List, [], ◌∷◌, arith,
  ◌==◌, if◌then◌else◌, length, get_elem?, replicate, Str, nat_eq, str_eq,
}

pub record Bloom : Type 0 where
  pub hash_fns : List (Str → ℕ)
  pub bits : ℕ
  pub bitset : Str
  pub cnt : ℕ

-- `1 << offset` of the bit b, and whether a byte has it.
abbrev pub bit_weight : ℕ → ℕ
bit_weight b = 2 ^ (7 - b % 8)

abbrev pub has_bit : ℕ → ℕ → Bool
has_bit x b = x / bit_weight b % 2 == 1

abbrev pub with_bit : ℕ → ℕ → ℕ
with_bit x b = if has_bit x b then x else x + bit_weight b

-- setBit: an index past the end changes nothing.
unfoldable pub set_byte : ℕ → ℕ → Str → Str
set_byte idx b [] = []
set_byte zero b (x ∷ buf) = with_bit x b ∷ buf
set_byte (suc idx) b (x ∷ buf) = x ∷ set_byte idx b buf

unfoldable pub set_bit : ℕ → Str → Str
unfolding set_byte
set_bit b buf = set_byte (b / 8) b buf

unfoldable pub is_bit_set : ℕ → Str → Bool
is_bit_set b buf = elim (get_elem? buf (b / 8)) [ none ↦ false | some x ↦ has_bit x b ]

-- The end of NewBloomFilter: for k hash functions and the number of bits that its formula gives.
unfoldable pub new_bloom_filter : List (Str → ℕ) → ℕ → Bloom
new_bloom_filter hash_fns bits =
    let bytes_needed = if bits % 8 == 0 then bits / 8 else bits / 8 + 1 in
    record {
      hash_fns = hash_fns;
      bits = bytes_needed * 8;
      bitset = replicate bytes_needed 0;
      cnt = 0;
    }

-- updateIndexes: a filter with no bits would panic, and has no element either.
unfoldable pub indexes : List (Str → ℕ) → ℕ → Str → List ℕ
indexes [] bits value = []
indexes (fn ∷ fns) bits value = fn value % bits ∷ indexes fns bits value

-- The loop of add: the bits that were set, and the bits after it.
unfoldable pub add_loop : List ℕ → ℕ → Str → ℕ × Str
unfolding set_bit is_bit_set
add_loop [] count buf = (count, buf)
add_loop (v ∷ vs) count buf =
    let hit = is_bit_set v buf in
    let count' = if hit then count + 1 else count in
    let buf' = if hit then buf else set_bit v buf in add_loop vs count' buf'

-- What add and exists answer: 0, 1, or an error for an empty value.
pub data BloomReply : Type 0 where
  integer_zero integer_one empty_value : BloomReply

unfoldable pub add : Str → Bloom → BloomReply × Bloom
unfolding add_loop indexes
add [] b = (empty_value, b)
add (x ∷ xs) b =
    let vs = indexes b.hash_fns b.bits (x ∷ xs) in
    let (count, bitset) = add_loop vs 0 b.bitset in
    if count == length vs
    then (integer_zero, record b { bitset = bitset })
    else (integer_one, record b { bitset = bitset; cnt = (b.cnt + 1) % 2 ^ 64 })

unfoldable pub all_set : List ℕ → Str → BloomReply
unfolding is_bit_set
all_set [] buf = integer_one
all_set (v ∷ vs) buf =
    let rest = all_set vs buf in if not (is_bit_set v buf) then integer_zero else rest

unfoldable pub exists : Str → Bloom → BloomReply
unfolding all_set indexes
exists [] b = empty_value
exists (x ∷ xs) b = all_set (indexes b.hash_fns b.bits (x ∷ xs)) b.bitset
