-- ===== src/Deque/Basic.antt =====
-- DequeBasic of internal/eval/deque.go: the entries of a list, one after the other in one buffer. How
-- much room the buffer has is left out: a push copies it where there is too little.
use dice_db_distributed_syst.Prelude.{
  ℕ, zero, suc, ◌+◌, ◌-◌, Bool, ◌&&◌, Option, none, some, List, [], ◌∷◌, ◌++◌, ltb, ◌==◌,
  if◌then◌else◌, length, drop, take, Str, str_beq, nat_eq, str_eq,
}
use dice_db_distributed_syst.Prelude.Int.{ℤ, pos, ◌+ℤ◌, ◌-ℤ◌, ltb_ℤ, leb_ℤ}
use dice_db_distributed_syst.Varint.{decode_uint}
use dice_db_distributed_syst.Deque.{rev_onto, encode_deq_entry, decode_deq_entry}

pub record DequeBasic : Type 0 where
  pub length : ℕ
  pub buf : Str

abbrev pub new_basic_deque : DequeBasic
new_basic_deque = record { length = 0; buf = [] }

unfoldable pub l_push : Str → DequeBasic → DequeBasic
l_push x q = record { length = q.length + 1; buf = encode_deq_entry x ++ q.buf }

unfoldable pub r_push : Str → DequeBasic → DequeBasic
r_push x q = record { length = q.length + 1; buf = q.buf ++ encode_deq_entry x }

-- An element and the deque without it, an empty deque, or a panic on a buffer that is cut short.
pub data Popped : Type 0 where
  popped : Str → DequeBasic → Popped
  deque_empty panics : Popped

unfoldable pub l_pop : DequeBasic → Popped
l_pop q = if q.length == 0 then deque_empty else elim (decode_deq_entry q.buf) [
  | none ↦ panics
  | some (x, entry_len) ↦ popped x (record { length = q.length - 1; buf = drop entry_len q.buf })
]

-- The bytes of the length that stands at the end, the last one first: RPop looks for the first byte
-- from the end without the continuation mark.
unfoldable pub scan_back : Str → Option (Str × Str)
scan_back [] = none
scan_back (b ∷ l) =
    let rest = scan_back l in
    if ltb b 128
    then some (b ∷ [], l)
    else elim rest [ none ↦ none | some (bs, l') ↦ some (b ∷ bs, l') ]

unfoldable pub r_pop : DequeBasic → Popped
unfolding scan_back
r_pop q = if q.length == 0 then deque_empty else elim (scan_back (rev_onto q.buf [])) [
  | none ↦ panics
  | some (backlen_bytes, before) ↦
      let backlen = decode_uint backlen_bytes in
      if ltb (length before) backlen
      then panics
      else elim (decode_deq_entry (rev_onto (take backlen before) [])) [
        | none ↦ panics
        | some (x, _) ↦
            popped x (record { length = q.length - 1; buf = rev_onto (drop backlen before) [] })
      ]
]

abbrev pub sanitize_start_index : ℕ → ℤ → ℤ
sanitize_start_index len start =
    let s : ℤ = if ltb_ℤ start (pos 0) then pos len +ℤ start else start in
    if ltb_ℤ s (pos 0) then pos 0 else s

abbrev pub sanitize_stop_index : ℕ → ℤ → ℤ
sanitize_stop_index len stop =
    let s : ℤ = if ltb_ℤ stop (pos 0) then pos len +ℤ stop else stop in
    if leb_ℤ (pos len) s then pos len -ℤ pos 1 else s

-- The loop of LRange over what the iterator has left.
unfoldable pub range_loop : ℕ → ℕ → ℤ → ℤ → Str → Option (List Str)
range_loop zero i start stop buf = some []
range_loop (suc n) i start stop buf = elim (decode_deq_entry buf) [
  | none ↦ if ltb_ℤ stop (pos i) then some [] else none
  | some (x, entry_len) ↦
      let rest = range_loop n (i + 1) start stop (drop entry_len buf) in
      if ltb_ℤ stop (pos i) then some [] else elim rest [
        | none ↦ none
        | some l ↦ some (if leb_ℤ start (pos i) && leb_ℤ (pos i) stop then x ∷ l else l)
      ]
]

unfoldable pub l_range : ℤ → ℤ → DequeBasic → Option (List Str)
unfolding range_loop
l_range start stop q =
    let start' = sanitize_start_index q.length start in
    let stop' = sanitize_stop_index q.length stop in
    if ltb_ℤ stop' start' then some [] else range_loop q.length 0 start' stop' q.buf

pub data Place : Type 0 where
  before after : Place

-- What LInsert says: there is no pivot, or the length with the deque.
unfoldable pub insert_at : ℕ → Str → DequeBasic → DequeBasic
insert_at idx element q = record {
  length = q.length + 1;
  buf = take idx q.buf ++ encode_deq_entry element ++ drop idx q.buf;
}

-- insertBeforeAfterPivot: the pivot's entry is the bytes from `start` to `next`, and `more` says that
-- the iterator has another element.
unfoldable pub insert_by_pivot : Str → Place → ℕ → ℕ → Bool → DequeBasic → DequeBasic
unfolding l_push r_push insert_at
insert_by_pivot element before start next more q =
    if start == 0 then l_push element q else insert_at start element q
insert_by_pivot element after start next more q =
    if more then insert_at next element q else r_push element q

pub data Inserted : Type 0 where
  no_pivot : Inserted
  inserted : ℕ → DequeBasic → Inserted
  panics : Inserted

unfoldable pub insert_loop : Str → Str → Place → ℕ → ℕ → Str → DequeBasic → Inserted
unfolding insert_by_pivot
insert_loop pivot element place zero idx rest q = no_pivot
insert_loop pivot element place (suc n) idx rest q = elim (decode_deq_entry rest) [
  | none ↦ Inserted.panics
  | some (x, entry_len) ↦
      let q' = insert_by_pivot element place idx (idx + entry_len) (ltb 0 n) q in
      let later = insert_loop pivot element place n (idx + entry_len) (drop entry_len rest) q in
      if str_beq x pivot then inserted q'.length q' else later
]

-- LInsert, for the two places that its callers pass on.
unfoldable pub l_insert : Str → Str → Place → DequeBasic → Inserted
unfolding insert_loop
l_insert pivot element place q = insert_loop pivot element place q.length 0 q.buf q
