-- ===== src/Deque/Linked.antt =====
-- Deque of internal/eval/deque.go over the byteList of bytelist.go, without LInsert. The nodes stand in
-- their order from head to tail, each with its buffer and its capacity; the counter of their sizes is
-- left out. How far Go's append grows a buffer is a parameter, and so is no more than its contract.
pub mod Laws
pub mod Heads
pub mod Firsts
pub mod Tails
pub mod Range
pub mod Client
use dice_db_distributed_syst.Prelude.{
  ℕ, zero, suc, ◌+◌, ◌-◌, Bool, true, false, ◌&&◌, Option, none, some, List, [], ◌∷◌, ◌++◌, arith,
  ltb, leb, ◌==◌, if◌then◌else◌, length, drop, take, replicate, Str, nat_eq, str_eq,
}
use dice_db_distributed_syst.Prelude.Int.{ℤ, pos, ltb_ℤ, leb_ℤ}
use dice_db_distributed_syst.Deque.{encode_deq_entry, decode_deq_entry, get_encode_deq_entry_size}
use dice_db_distributed_syst.Deque.Basic
use dice_db_distributed_syst.Deque.Basic.{
  DequeBasic, r_pop, sanitize_start_index, sanitize_stop_index,
}

pub record Node : Type 0 where
  pub buf : Str
  pub cap : ℕ

pub record Deque : Type 0 where
  pub length : ℕ
  pub nodes : List Node
  pub left_idx : ℕ

abbrev pub min_deque_node_size : ℕ
min_deque_node_size = 256

abbrev pub new_deque : Deque
new_deque = record { length = 0; nodes = []; left_idx = 0 }

-- EncodeDeqEntryInPlace on as many bytes as were computed for the entry: it runs out of them where the
-- entry is longer. Bytes that the length at the end of an entry does not need are taken to be 0.
unfoldable pub encode_in_place : Str → Option Str
encode_in_place x =
    if length (encode_deq_entry x) == get_encode_deq_entry_size x
    then some (encode_deq_entry x)
    else none

-- The capacity of a new node.
abbrev pub node_capacity : ℕ → ℕ
node_capacity size = if ltb min_deque_node_size size then size else min_deque_node_size

module _ (grown : ℕ → ℕ → ℕ) where
  -- LPush: into the room before the first entry; into a new head; or into a new buffer with the old
  -- entries behind, where a room above the size of a node makes the capacity too small. none is a panic.
  unfoldable pub push_head : ℕ → Str → ℕ → List Node → Option (List Node × ℕ)
  push_head size e left [] =
      if left == 0
      then some (
        (record { buf = replicate (node_capacity size - size) 0 ++ e; cap = node_capacity size })
            ∷ [],
        node_capacity size - size,
      )
      else none
  push_head size e left (n ∷ ns) =
      if leb size left
      then some
          ((record n { buf = take (left - size) n.buf ++ e ++ drop left n.buf }) ∷ ns, left - size)
      else if left == 0
      then some (
        (record { buf = replicate (node_capacity size - size) 0 ++ e; cap = node_capacity size })
            ∷ n
            ∷ ns,
        node_capacity size - size,
      )
      else if ltb min_deque_node_size left
      then none
      else let b = e ++ drop left n.buf in
        let room = size + min_deque_node_size - left in
        let cap = if leb (length b) room then room else grown room (length b) in
        some ((record { buf = b; cap = cap }) ∷ ns, 0)

  unfoldable pub l_push : Str → Deque → Option Deque
  unfolding encode_in_place push_head
  l_push x q = elim (encode_in_place x) [
    | none ↦ none
    | some e ↦ elim (push_head (get_encode_deq_entry_size x) e q.left_idx q.nodes) [
      | none ↦ none
      | some (ns, left) ↦ some (record { length = q.length + 1; nodes = ns; left_idx = left })
    ]
  ]

-- RPush: into a new tail, into a new buffer, or behind the last entry.
unfoldable pub push_tail : ℕ → Str → List Node → List Node
push_tail size e [] = (record { buf = e; cap = node_capacity size }) ∷ []
push_tail size e (n ∷ []) =
    if length n.buf == n.cap
    then n ∷ (record { buf = e; cap = node_capacity size }) ∷ []
    else if ltb (n.cap - length n.buf) size
    then (record { buf = n.buf ++ e; cap = length n.buf + size }) ∷ []
    else (record n { buf = n.buf ++ e }) ∷ []
push_tail size e (n ∷ m ∷ ns) = n ∷ push_tail size e (m ∷ ns)

unfoldable pub r_push : Str → Deque → Option Deque
unfolding encode_in_place push_tail
r_push x q = elim (encode_in_place x) [
  | none ↦ none
  | some e ↦ some (record q {
    length = q.length + 1;
    nodes = push_tail (get_encode_deq_entry_size x) e q.nodes;
  })
]

pub data Popped : Type 0 where
  popped : Str → Deque → Popped
  deque_empty panics : Popped

unfoldable pub l_pop : Deque → Popped
l_pop q = if q.length == 0 then deque_empty else elim q.nodes [
  | [] ↦ panics
  | n ∷ ns ↦ elim (decode_deq_entry (drop q.left_idx n.buf)) [
    | none ↦ panics
    | some (x, entry_len) ↦
        let left = q.left_idx + entry_len in
        if left == length n.buf
        then popped x (record { length = q.length - 1; nodes = ns; left_idx = 0 })
        else popped x (record { length = q.length - 1; nodes = n ∷ ns; left_idx = left })
  ]
]

-- RPop: what it does to the tail's buffer are the lines of DequeBasic's; a buffer that is left empty
-- goes with its node.
abbrev pub keep_node : Node → Str → List Node
keep_node n [] = []
keep_node n (b ∷ bs) = (record n { buf = b ∷ bs }) ∷ []

unfoldable pub pop_tail : ℕ → List Node → Option (Str × List Node)
pop_tail len [] = none
pop_tail len (n ∷ []) = elim (r_pop (record { length = len; buf = n.buf })) [
  | Basic.popped x q ↦ some (x, keep_node n q.buf)
  | _ ↦ none
]
pop_tail len (n ∷ m ∷ ns) = elim (pop_tail len (m ∷ ns)) [
  | none ↦ none
  | some (x, ns') ↦ some (x, n ∷ ns')
]

abbrev pub is_gone : List Node → Bool
is_gone [] = true
is_gone (n ∷ ns) = false

unfoldable pub r_pop_linked : Deque → Popped
unfolding pop_tail
r_pop_linked q = if q.length == 0 then deque_empty else elim (pop_tail q.length q.nodes) [
  | none ↦ panics
  | some (x, ns) ↦ popped x (record {
    length = q.length - 1;
    nodes = ns;
    left_idx = if is_gone ns then 0 else q.left_idx;
  })
]

-- The iterator's Next: the entry, and where the next one starts; none is a panic.
unfoldable pub next_entry : List Node → ℕ → Option (Str × List Node × ℕ)
next_entry [] idx = none
next_entry (n ∷ ns) idx = elim (decode_deq_entry (drop idx n.buf)) [
  | none ↦ none
  | some (x, entry_len) ↦
      some (if idx + entry_len == length n.buf then (x, ns, 0) else (x, n ∷ ns, idx + entry_len))
]

-- The loop of LRange, over n entries, the first of them at index i.
unfoldable pub range_loop : ℕ → ℕ → ℤ → ℤ → List Node → ℕ → Option (List Str)
unfolding next_entry
range_loop zero i start stop ns idx = some []
range_loop (suc n) i start stop ns idx =
    if ltb_ℤ stop (pos i) then some [] else elim (next_entry ns idx) [
      | none ↦ none
      | some (x, ns', idx') ↦ elim (range_loop n (i + 1) start stop ns' idx') [
        | none ↦ none
        | some l ↦ some (if leb_ℤ start (pos i) && leb_ℤ (pos i) stop then x ∷ l else l)
      ]
    ]

unfoldable pub l_range : ℤ → ℤ → Deque → Option (List Str)
unfolding range_loop
l_range start stop q =
    let start' = sanitize_start_index q.length start in
    let stop' = sanitize_stop_index q.length stop in
    if ltb_ℤ stop' start' then some [] else range_loop q.length 0 start' stop' q.nodes q.left_idx
