-- ===== src/Tests/Evals.antt =====
-- The theorems on the evaluation library, internal/eval, at small inputs.
use dice_db_distributed_syst.Prelude.{
  ℕ, ◌+◌, ◌*◌, ◌≡◌, refl, ◌⊎◌, inl, false, none, some, List, [], ◌∷◌, arith, ◌==◌, if◌then◌else◌,
  length, Str, codes, str_beq, nat_eq, str_eq,
}
use dice_db_distributed_syst.Prelude.Int.{pos, ◌+ℤ◌, IsInt64}
use dice_db_distributed_syst.Strconv.{parse_int, format_int}
use dice_db_distributed_syst.Table
use dice_db_distributed_syst.Object.{ObjectType, Value}
use dice_db_distributed_syst.Store.State.{Store}
use dice_db_distributed_syst.Store.Invariant.{IsValid}
use dice_db_distributed_syst.Store.View.{Entry}
use dice_db_distributed_syst.Tests.{key_n, demo, demo-IsValid}
use dice_db_distributed_syst.Cmd.Hash.{hset_loop}
use dice_db_distributed_syst.Deque.{get_encode_deq_entry_size}
use dice_db_distributed_syst.Varint.{get_encode_uint_size}
use dice_db_distributed_syst.Deque.Client.{
  Request, push_left, push_right, pop_left, pop_right, list_replies,
}
use dice_db_distributed_syst.Deque.Linked.{new_deque}
use dice_db_distributed_syst.Deque.Linked.Laws.{Holds}
use dice_db_distributed_syst.Deque.Linked.Client.{node_replies, node_replies-Holds}
use dice_db_distributed_syst.Eval.ByteArray.{set_bit, get_bit}
use dice_db_distributed_syst.Eval.ByteArray.Laws.{AreBytes, get_bit-set_bit}
use dice_db_distributed_syst.Eval.ByteArray.Counts.{ones_upto, end_of, count_between-ones_upto}
use dice_db_distributed_syst.Eval.Bits.Count.{count_between}
use dice_db_distributed_syst.Eval.Sets.{has_member, eval_sadd}
use dice_db_distributed_syst.Eval.Sets.Laws.{Added}
use dice_db_distributed_syst.Eval.Sets.View.{SetChanged, eval_sadd-Added}
use dice_db_distributed_syst.Eval.HashMap.{
  HashMap, hash_map_builder, increment_value, incremented, refused, overflow_text,
}
use dice_db_distributed_syst.Eval.Hash.Laws.{
  whole_pairs, is_odd, hash_map_builder-hset_loop, SumKept, increment_value-sum,
}

abbrev two_bytes : Str
two_bytes = 5 ∷ 255 ∷ []

get_bit-set_bit_example :
    (b' : Str) × (set_bit 9 false two_bytes ≡ some b')
    × AreBytes b'
    × (length b' ≡ length two_bytes)
    × ((j : ℕ) → get_bit j b' ≡ (if j == 9 then some false else get_bit j two_bytes))
get_bit-set_bit_example =
    get_bit-set_bit 9 false two_bytes (omega arith, (omega arith, tt)) (omega arith)

count_between-ones_upto_example :
    count_between 3 9 two_bytes + ones_upto 3 two_bytes
    ≡ ones_upto (end_of 9 (length two_bytes)) two_bytes
count_between-ones_upto_example =
    count_between-ones_upto 3 9 two_bytes (omega arith, (omega arith, tt)) (omega arith)
      (omega arith)

abbrev words : List Str
words = codes "a" ∷ codes "b" ∷ codes "a" ∷ []

-- The store with a set under both keys.
abbrev with_sets : Store
with_sets = record demo {
  objs = λ r. record {
    type = ObjectType.set;
    last_accessed_at = pos 10;
    value = Value.set (codes "b" ∷ []);
  };
}

abbrev set_entry : Entry
set_entry = record {
  value = Value.set (codes "b" ∷ []);
  type = ObjectType.set;
  expiry = some (pos 5000);
}

with_sets-IsValid : IsValid with_sets
with_sets-IsValid = record {
  keys = demo-IsValid.keys;
  times = demo-IsValid.times;
  counted = demo-IsValid.counted;
  allocated = demo-IsValid.allocated;
  unshared = demo-IsValid.unshared;
  dated = demo-IsValid.dated;
}

eval_sadd-Added_example :
    (n : ℕ) × (l' : List Str) × Added words (codes "b" ∷ []) n l'
    × SetChanged
        (pos 100)
        key_n
        set_entry
        with_sets
        n
        l'
        (eval_sadd (pos 100) (key_n ∷ words) with_sets)
unfolding Table.get Table.load has_member
eval_sadd-Added_example =
    eval_sadd-Added (pos 100) key_n (codes "a") (codes "b" ∷ codes "a" ∷ []) (codes "b" ∷ [])
      set_entry with_sets with_sets-IsValid (unfold str_beq in refl) refl refl (refl, tt)

abbrev hash : HashMap
hash = (codes "n", codes "41") ∷ []

hash_map_builder-hset_loop_example : hash_map_builder words hash ≡ (
  (hset_loop (whole_pairs words) hash).1,
  if is_odd words then none else some (hset_loop (whole_pairs words) hash).0,
)
hash_map_builder-hset_loop_example = hash_map_builder-hset_loop words hash

increment_value-sum_example :
    (IsInt64 (pos 41 +ℤ pos 1)
      × (parse_int (format_int (pos 41 +ℤ pos 1)) ≡ some (pos 41 +ℤ pos 1))
      × ((h' : HashMap) × (increment_value (codes "n") (pos 1) hash
            ≡ incremented (pos 41 +ℤ pos 1) h')
          × SumKept (codes "n") (pos 41 +ℤ pos 1) hash h'))
    ⊎ ((¬ IsInt64 (pos 41 +ℤ pos 1))
        × (increment_value (codes "n") (pos 1) hash ≡ refused overflow_text))
unfolding Table.load parse_int
increment_value-sum_example =
    increment_value-sum (codes "n") (codes "41") (pos 41) (pos 1) hash (unfold str_beq in refl) refl
      (omega arith, omega arith)

-- A growth to twice the bytes.
abbrev twice : ℕ → ℕ → ℕ
twice room n = n * 2

abbrev requests : List Request
requests = push_right (codes "x") ∷ push_left (codes "007") ∷ pop_right ∷ pop_left ∷ pop_left ∷ []

new_deque-Holds : Holds new_deque []
new_deque-Holds = record { size = refl; short = tt; layout = (refl, refl) }

node_replies-Holds_example : node_replies twice requests new_deque ≡ list_replies requests []
unfolding get_encode_deq_entry_size parse_int get_encode_uint_size
node_replies-Holds_example =
    node_replies-Holds twice (λ room n. omega arith) requests new_deque []
      (
        (inl (omega arith), omega arith, omega arith),
        ((inl (omega arith), omega arith, omega arith), tt),
      )
      new_deque-Holds
