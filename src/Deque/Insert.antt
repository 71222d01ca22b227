-- ===== src/Deque/Insert.antt =====
-- LInsert of internal/eval/deque.go against a list.
use dice_db_distributed_syst.Prelude.{
  ℕ, zero, suc, ◌+◌, ◌≡◌, refl, sym, ap, ◌∙◌, inl, inr, Bool, true, false, Option, none, some, List,
  [], ◌∷◌, ◌++◌, arith, ltb, ◌==◌, if◌then◌else◌, Bool-cases, length, drop, take, length-append,
  All, Str, str_beq, nat_eq, str_eq,
}
use mathlib.Core.List.{append_assoc, append-nil}
use dice_db_distributed_syst.Deque.{encode_deq_entry}
use dice_db_distributed_syst.Deque.Codec.{canonical, decode-encode_deq_entry, take-append}
use dice_db_distributed_syst.Deque.Basic.{
  DequeBasic, Place, before, after, l_push, r_push, insert_at, insert_by_pivot, Inserted, no_pivot,
  inserted, insert_loop, l_insert,
}
use dice_db_distributed_syst.Deque.Refines.{
  IsShort, encode_all, encode_all-append, Represents, drop-append,
}
use dice_db_distributed_syst.Deque.Client.{holding}

-- An element before or after the head of a list.
abbrev pub put_by : Str → Place → Str → List Str → List Str
put_by element before x xs = element ∷ x ∷ xs
put_by element after x xs = x ∷ element ∷ xs

-- A list with an element before or after the first one that shows as the pivot, none without it.
abbrev pub insert_list : Str → Str → Place → List Str → Option (List Str)
insert_list pivot element place [] = none
insert_list pivot element place (x ∷ xs) =
    if str_beq (canonical x) pivot
    then some (put_by element place x xs)
    else elim (insert_list pivot element place xs) [ none ↦ none | some ys ↦ some (x ∷ ys) ]

encode_all-both : (xs ys : List Str) → encode_all (xs ++ ys) ≡ encode_all xs ++ encode_all ys
encode_all-both [] ys = refl
encode_all-both (x ∷ xs) ys =
    ap (λ l. encode_deq_entry x ++ l) (encode_all-both xs ys)
    ∙ sym (append_assoc (encode_deq_entry x) (encode_all xs) (encode_all ys))

-- An element between two parts of the buffer.
insert_at-between :
    (element : Str) (xs ys : List Str)
    → insert_at (length (encode_all xs)) element (holding (xs ++ ys)) ≡ holding (xs ++ element ∷ ys)
unfolding insert_at
insert_at-between element xs ys =
    let whole = encode_all-both xs ys in
    let e : take (length (encode_all xs)) (encode_all (xs ++ ys)) ≡ encode_all xs =
      ap (take (length (encode_all xs))) whole ∙ take-append (encode_all xs) (encode_all ys) in
    let g : drop (length (encode_all xs)) (encode_all (xs ++ ys)) ≡ encode_all ys =
      ap (drop (length (encode_all xs))) whole ∙ drop-append (encode_all xs) (encode_all ys) in
    let n : length (xs ++ ys) + 1 ≡ length (xs ++ element ∷ ys) =
      omega (arith, length-append xs ys, length-append xs (element ∷ ys)) in
    let b = encode_all-both xs (element ∷ ys) in
    ap
      (λ t. record {
        length = length (xs ++ ys) + 1;
        buf =
            t ++ encode_deq_entry element ++ drop (length (encode_all xs)) (encode_all (xs ++ ys));
      })
      e
    ∙ ap
        (λ d. record {
          length = length (xs ++ ys) + 1;
          buf = encode_all xs ++ encode_deq_entry element ++ d;
        })
        g
    ∙ ap
        (λ k. record {
          length = k;
          buf = encode_all xs ++ encode_deq_entry element ++ encode_all ys;
        })
        n
    ∙ ap (λ c. record { length = length (xs ++ element ∷ ys); buf = c })
        (append_assoc (encode_all xs) (encode_deq_entry element) (encode_all ys) ∙ sym b)

-- At either end a push is an insertion.
by_pivot-before :
    (element : Str) (idx next : ℕ) (more : Bool) (q : DequeBasic)
    → insert_by_pivot element before idx next more q ≡ insert_at idx element q
unfolding insert_by_pivot l_push insert_at
by_pivot-before element zero next more q = refl
by_pivot-before element (suc idx) next more q =
    let e : (suc idx == 0) ≡ false = ground arith in rw e refl

r_push-holding :
    (element : Str) (xs : List Str) → r_push element (holding xs) ≡ holding (xs ++ element ∷ [])
unfolding r_push
r_push-holding element xs =
    let n : length xs + 1 ≡ length (xs ++ element ∷ []) =
      omega (arith, length-append xs (element ∷ [])) in
    ap (λ b. record { length = length xs + 1; buf = b }) (sym (encode_all-append xs element))
    ∙ ap (λ k. record { length = k; buf = encode_all (xs ++ element ∷ []) }) n

by_pivot-after :
    (element : Str) (idx : ℕ) (xs ys : List Str)
    → insert_by_pivot element after idx
        (length (encode_all xs))
        (ltb 0 (length ys))
        (holding (xs ++ ys))
      ≡ holding (xs ++ element ∷ ys)
unfolding insert_by_pivot
by_pivot-after element idx xs [] =
    ap (λ l. r_push element (holding l)) (append-nil xs) ∙ r_push-holding element xs
by_pivot-after element idx xs (y ∷ ys) =
    let e : ltb 0 (length (y ∷ ys)) ≡ true = ground arith in
    rw e (insert_at-between element xs (y ∷ ys))

snoc_append : (pre : List Str) (x : Str) (suf : List Str) → (pre ++ x ∷ []) ++ suf ≡ pre ++ x ∷ suf
snoc_append pre x suf = append_assoc pre (x ∷ []) suf

by_pivot-put_by :
    (element : Str) (place : Place) (pre : List Str) (x : Str) (suf : List Str)
    → insert_by_pivot element place
        (length (encode_all pre))
        (length (encode_all (pre ++ x ∷ [])))
        (ltb 0 (length suf))
        (holding (pre ++ x ∷ suf))
      ≡ holding (pre ++ put_by element place x suf)
by_pivot-put_by element before pre x suf =
    by_pivot-before element (length (encode_all pre)) (length (encode_all (pre ++ x ∷ [])))
      (ltb 0 (length suf)) (holding (pre ++ x ∷ suf))
    ∙ insert_at-between element pre (x ∷ suf)
by_pivot-put_by element after pre x suf =
    ap
      (λ l.
        insert_by_pivot element after (length (encode_all pre))
          (length (encode_all (pre ++ x ∷ []))) (ltb 0 (length suf)) (holding l))
      (sym (snoc_append pre x suf))
    ∙ by_pivot-after element (length (encode_all pre)) (pre ++ x ∷ []) suf
    ∙ ap holding (snoc_append pre x (element ∷ suf))

-- What LInsert says of a list whose first part has no pivot.
abbrev pub answer_after : List Str → Option (List Str) → Inserted
answer_after pre none = no_pivot
answer_after pre (some ys) = inserted (length (pre ++ ys)) (holding (pre ++ ys))

answer_after-snoc :
    (pre : List Str) (x : Str) (found : Option (List Str))
    → answer_after (pre ++ x ∷ []) found
      ≡ answer_after pre (elim found [ none ↦ none | some ys ↦ some (x ∷ ys) ])
answer_after-snoc pre x none = refl
answer_after-snoc pre x (some ys) = ap (λ l. inserted (length l) (holding l)) (snoc_append pre x ys)

insert_loop-list :
    (pivot element : Str) (place : Place) (pre suf : List Str)
    → All IsShort suf
    → insert_loop pivot element place
        (length suf)
        (length (encode_all pre))
        (encode_all suf)
        (holding (pre ++ suf))
      ≡ answer_after pre (insert_list pivot element place suf)
unfolding insert_loop
insert_loop-list pivot element place pre [] s = refl
insert_loop-list pivot element place pre (x ∷ suf) s =
    let d = decode-encode_deq_entry x (encode_all suf) s.0 in
    let next : length (encode_all pre) + length (encode_deq_entry x)
        ≡ length (encode_all (pre ++ x ∷ [])) =
      sym (
        ap length (encode_all-append pre x)
        ∙ length-append (encode_all pre) (encode_deq_entry x)) in
    let rest = drop-append (encode_deq_entry x) (encode_all suf) in
    let put = by_pivot-put_by element place pre x suf in
    let later =
      ap
        (λ l.
          insert_loop pivot element place (length suf) (length (encode_all (pre ++ x ∷ [])))
            (encode_all suf) (holding l))
        (sym (snoc_append pre x suf))
      ∙ insert_loop-list pivot element place (pre ++ x ∷ []) suf s.1
      ∙ answer_after-snoc pre x (insert_list pivot element place suf) in
    elim (Bool-cases (str_beq (canonical x) pivot)) [
      | inl e ↦ rw (insert_loop, d, next, e, put) refl
      | inr e ↦ rw (insert_loop, d, next, e, rest) later
    ]

-- LINSERT on a deque that represents a list answers that there is no pivot if no element has the
-- pivot as its canonical form; otherwise the deque becomes the one of the list with the element
-- directly before or after the first such element, and the answer is its length.
pub l_insert-list :
    (pivot element : Str) (place : Place) (q : DequeBasic) (xs : List Str)
    → Represents q xs
    → l_insert pivot element place q ≡ answer_after [] (insert_list pivot element place xs)
unfolding l_insert
l_insert-list pivot element place q xs r =
    ap (λ n. l_insert pivot element place (record { length = n; buf = q.buf })) r.size
    ∙ ap (λ b. l_insert pivot element place (record { length = length xs; buf = b })) r.entries
    ∙ insert_loop-list pivot element place [] xs r.short
