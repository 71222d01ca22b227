-- ===== src/Deque/Client.antt =====
-- What a client sees of a DequeBasic of internal/eval/deque.go is a list.
use dice_db_distributed_syst.Prelude.{
  ◌+◌, ◌≡◌, refl, sym, ap, ◌∙◌, inl, inr, Option, none, some, List, [], ◌∷◌, ◌++◌, arith,
  Option-cases, length, length-append, All, Str, nat_eq, str_eq,
}
use mathlib.Core.Path.{subst}
use dice_db_distributed_syst.Deque.{encode_deq_entry}
use dice_db_distributed_syst.Deque.Codec.{canonical}
use dice_db_distributed_syst.Deque.Basic.{
  DequeBasic, l_push, r_push, popped, deque_empty, panics, l_pop, r_pop,
}
use dice_db_distributed_syst.Deque.Refines.{
  IsShort, encode_all, encode_all-append, Represents, l_push-Represents, r_push-Represents, tail,
  l_pop-cons, l_pop-nil,
}
use dice_db_distributed_syst.Deque.Ends.{r_pop-r_push}

-- What a client asks of a deque, and what it is answered.
pub data Request : Type 0 where
  push_left push_right : Str → Request
  pop_left pop_right : Request

pub data Answer : Type 0 where
  pushed nothing panicked : Answer
  element : Str → Answer

abbrev pub replies : List Request → DequeBasic → List Answer
replies [] q = []
replies (push_left x ∷ rs) q = pushed ∷ replies rs (l_push x q)
replies (push_right x ∷ rs) q = pushed ∷ replies rs (r_push x q)
replies (pop_left ∷ rs) q = elim (l_pop q) [
  | popped x q' ↦ element x ∷ replies rs q'
  | deque_empty ↦ nothing ∷ replies rs q
  | panics ↦ panicked ∷ []
]
replies (pop_right ∷ rs) q = elim (r_pop q) [
  | popped x q' ↦ element x ∷ replies rs q'
  | deque_empty ↦ nothing ∷ replies rs q
  | panics ↦ panicked ∷ []
]

-- A list without its last element, and that element.
abbrev pub split_last : List Str → Option (List Str × Str)
split_last [] = none
split_last (x ∷ xs) = elim (split_last xs) [ none ↦ some ([], x) | some (ys, y) ↦ some (x ∷ ys, y) ]

-- The same of a list.
abbrev pub list_replies : List Request → List Str → List Answer
list_replies [] xs = []
list_replies (push_left x ∷ rs) xs = pushed ∷ list_replies rs (x ∷ xs)
list_replies (push_right x ∷ rs) xs = pushed ∷ list_replies rs (xs ++ x ∷ [])
list_replies (pop_left ∷ rs) [] = nothing ∷ list_replies rs []
list_replies (pop_left ∷ rs) (x ∷ xs) = element (canonical x) ∷ list_replies rs xs
list_replies (pop_right ∷ rs) xs = elim (split_last xs) [
  | none ↦ nothing ∷ list_replies rs []
  | some (ys, y) ↦ element (canonical y) ∷ list_replies rs ys
]

abbrev pub AreShort : List Request → Type 0
AreShort [] = Unit
AreShort (push_left x ∷ rs) = IsShort x × AreShort rs
AreShort (push_right x ∷ rs) = IsShort x × AreShort rs
AreShort (pop_left ∷ rs) = AreShort rs
AreShort (pop_right ∷ rs) = AreShort rs

pub split_last-none : (xs : List Str) → split_last xs ≡ none → xs ≡ []
split_last-none [] h = refl
split_last-none (x ∷ xs) h = absurd (ground arith)

pub split_last-some :
    (xs ys : List Str) (y : Str) → split_last xs ≡ some (ys, y) → xs ≡ ys ++ y ∷ []
split_last-some [] ys y h = absurd (ground arith)
split_last-some (x ∷ xs) ys y h = elim (Option-cases (split_last xs)) [
  | inl e ↦
      let empty = split_last-none xs e in
      let first : [] ≡ ys = ground arith in
      let same : x ≡ y = ground arith in rw (empty, sym first, same) refl
  | inr ((zs, z), e) ↦
      let whole = split_last-some xs zs z e in
      let first : x ∷ zs ≡ ys = ground arith in
      let same : z ≡ y = ground arith in rw (whole, sym first, same) refl
]

pub All-init : (xs : List Str) (y : Str) → All IsShort (xs ++ y ∷ []) → All IsShort xs × IsShort y
All-init [] y h = (tt, h.0)
All-init (x ∷ xs) y h = let r = All-init xs y h.1 in ((h.0, r.0), r.1)

r_pop-nil : (q : DequeBasic) → Represents q [] → r_pop q ≡ deque_empty
unfolding r_pop
r_pop-nil q r = let e : q.length ≡ 0 = omega (arith, r.size) in rw e refl

abbrev pub holding : List Str → DequeBasic
holding xs = record { length = length xs; buf = encode_all xs }

r_pop-snoc :
    (q : DequeBasic) (xs : List Str) (y : Str)
    → Represents q (xs ++ y ∷ [])
    → (r_pop q ≡ popped (canonical y) (holding xs)) × Represents (holding xs) xs
unfolding r_push
r_pop-snoc q xs y r =
    let (init, last) = All-init xs y r.short in
    let n : q.length ≡ length xs + 1 = omega (arith, r.size, length-append xs (y ∷ [])) in
    let b : q.buf ≡ encode_all xs ++ encode_deq_entry y = r.entries ∙ encode_all-append xs y in
    (
      ap (λ k. r_pop (record { length = k; buf = q.buf })) n
          ∙ ap (λ k. r_pop (record { length = length xs + 1; buf = k })) b
          ∙ r_pop-r_push y (holding xs) last,
      record { size = refl; entries = refl; short = init },
    )

-- A DequeBasic that represents a list of strings shorter than 2^32 bytes answers any sequence of
-- pushes and pops at both ends, of strings that short, as the list does, where an element that
-- comes out is in its canonical form.
pub replies-Represents :
    (rs : List Request) (q : DequeBasic) (xs : List Str)
    → AreShort rs
    → Represents q xs
    → replies rs q ≡ list_replies rs xs
replies-Represents [] q xs s r = refl
replies-Represents (push_left x ∷ rs) q xs s r =
    ap (λ l. pushed ∷ l)
      (replies-Represents rs (l_push x q) (x ∷ xs) s.1 (l_push-Represents x q xs s.0 r))
replies-Represents (push_right x ∷ rs) q xs s r =
    ap (λ l. pushed ∷ l)
      (replies-Represents rs (r_push x q) (xs ++ x ∷ []) s.1 (r_push-Represents x q xs s.0 r))
replies-Represents (pop_left ∷ rs) q [] s r =
    rw (replies, l_pop-nil q r) (ap (λ l. nothing ∷ l) (replies-Represents rs q [] s r))
replies-Represents (pop_left ∷ rs) q (x ∷ xs) s r =
    let (e, r') = l_pop-cons q x xs r in
    rw (replies, e) (ap (λ l. element (canonical x) ∷ l) (replies-Represents rs (tail q x) xs s r'))
replies-Represents (pop_right ∷ rs) q xs s r = elim (Option-cases (split_last xs)) [
  | inl e ↦
      let r0 = subst (Represents q) (split_last-none xs e) r in
      rw (replies, list_replies, e, r_pop-nil q r0)
        (ap (λ l. nothing ∷ l) (replies-Represents rs q [] s r0))
  | inr ((ys, y), e) ↦
      let (p, r1) = r_pop-snoc q ys y (subst (Represents q) (split_last-some xs ys y e) r) in
      rw (replies, list_replies, e, p)
        (ap (λ l. element (canonical y) ∷ l) (replies-Represents rs (holding ys) ys s r1))
]
