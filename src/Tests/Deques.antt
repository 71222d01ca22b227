-- ===== src/Tests/Deques.antt =====
-- The theorems on the deque of internal/eval/deque.go at short ones.
use dice_db_distributed_syst.Prelude.{
  ◌≡◌, refl, inl, some, List, [], ◌∷◌, ◌++◌, arith, length, Str, codes, str_beq, nat_eq, str_eq,
}
use dice_db_distributed_syst.Prelude.Int.{place, pos, negsuc}
use dice_db_distributed_syst.Deque.{encode_deq_entry, decode_deq_entry, get_encode_deq_entry_size}
use dice_db_distributed_syst.Deque.Codec.{
  canonical, decode-encode_deq_entry, length-encode_deq_entry,
}
use dice_db_distributed_syst.Deque.Basic.{new_basic_deque, after, inserted, l_insert}
use dice_db_distributed_syst.Deque.Refines.{Represents, between, encode_all}
use dice_db_distributed_syst.Deque.Client.{
  Request, push_left, push_right, pop_left, pop_right, replies, list_replies, holding,
  replies-Represents,
}
use dice_db_distributed_syst.Deque.Linked.{Deque, l_range}
use dice_db_distributed_syst.Deque.Linked.Laws.{Holds, cons-ne}
use dice_db_distributed_syst.Deque.Linked.Range.{l_range-between}
use dice_db_distributed_syst.Deque.Insert.{l_insert-list}

abbrev requests : List Request
requests = push_left (codes "007") ∷ push_right (codes "x") ∷ pop_right ∷ pop_left ∷ pop_left ∷ []

nothing_held : Represents new_basic_deque []
nothing_held = record { size = refl; entries = refl; short = tt }

replies-Represents_example : replies requests new_basic_deque ≡ list_replies requests []
replies-Represents_example =
    replies-Represents requests new_basic_deque [] (omega arith, (omega arith, tt)) nothing_held

decode-encode_deq_entry_example :
    decode_deq_entry (encode_deq_entry (codes "+5") ++ (1 ∷ 2 ∷ []))
    ≡ some (canonical (codes "+5"), length (encode_deq_entry (codes "+5")))
decode-encode_deq_entry_example = decode-encode_deq_entry (codes "+5") (1 ∷ 2 ∷ []) (omega arith)

abbrev x_entry : Str
x_entry = encode_all (codes "x" ∷ [])

abbrev y_entry : Str
y_entry = encode_all (codes "y" ∷ [])

-- Two nodes, the first with a byte of no use before its entry.
abbrev two_nodes : Deque
two_nodes = record {
  length = 2;
  nodes =
      (record { buf = 9 ∷ x_entry; cap = length (9 ∷ x_entry) })
      ∷ (record { buf = y_entry; cap = length y_entry })
      ∷ [];
  left_idx = 1;
}

two_nodes-Holds : Holds two_nodes (codes "x" ∷ codes "y" ∷ [])
two_nodes-Holds = record {
  size = refl;
  short = (omega arith, (omega arith, tt));
  layout = (
    9 ∷ [],
    codes "x" ∷ [],
    codes "y" ∷ [],
    refl,
    refl,
    refl,
    λ k. absurd (cons-ne (codes "x") [] k),
    omega arith,
    (codes "y" ∷ [], [], refl, refl, cons-ne (codes "y") [], omega arith, refl),
  );
}

l_range-between_example :
    l_range (pos 0) (negsuc 0) two_nodes
    ≡ some (between (place 2 (pos 0)) (place 2 (negsuc 0)) 0 (codes "x" ∷ codes "y" ∷ []))
l_range-between_example =
    l_range-between (pos 0) (negsuc 0) two_nodes (codes "x" ∷ codes "y" ∷ []) two_nodes-Holds

abbrev two : List Str
two = codes "+7" ∷ codes "x" ∷ []

l_insert-list_example :
    l_insert (codes "7") (codes "y") after (holding two)
    ≡ inserted 3 (holding (codes "+7" ∷ codes "y" ∷ codes "x" ∷ []))
unfolding str_beq dice_db_distributed_syst.Strconv.parse_int
    dice_db_distributed_syst.Strconv.format_int
l_insert-list_example =
    l_insert-list (codes "7") (codes "y") after (holding two) two
      (record { size = refl; entries = refl; short = (omega arith, (omega arith, tt)) })

length-encode_deq_entry_example :
    length (encode_deq_entry (codes "-4097")) ≡ get_encode_deq_entry_size (codes "-4097")
length-encode_deq_entry_example = length-encode_deq_entry (codes "-4097") (inl (omega arith))
