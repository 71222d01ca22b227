-- ===== src/Deque/Refines.antt =====
-- DequeBasic of internal/eval/deque.go against a list of its elements.
use dice_db_distributed_syst.Prelude.{
  ℕ, ◌+◌, ◌-◌, ◌^◌, ◌<◌, ◌≡◌, refl, sym, ap, ◌∙◌, inl, inr, true, false, ◌&&◌, Option, some, List,
  [], ◌∷◌, ◌++◌, arith, ◌==◌, if◌then◌else◌, Bool-cases, length, drop, length-append, All, Str,
  nat_eq, str_eq,
}
use dice_db_distributed_syst.Prelude.Int.{ℤ, pos, ltb_ℤ, leb_ℤ}
use mathlib.Core.List.{append_assoc, append-nil}
use dice_db_distributed_syst.Deque.{encode_deq_entry, decode_deq_entry}
use dice_db_distributed_syst.Deque.Codec.{canonical, decode-encode_deq_entry}
use dice_db_distributed_syst.Deque.Basic.{
  DequeBasic, l_push, r_push, popped, deque_empty, l_pop, sanitize_start_index, sanitize_stop_index,
  range_loop, l_range,
}

abbrev pub encode_all : List Str → Str
encode_all [] = []
encode_all (x ∷ xs) = encode_deq_entry x ++ encode_all xs

abbrev pub IsShort : Str → Type 0
IsShort x = length x < 2 ^ 32

-- A deque holds the entries of some elements, in their order.
pub record Represents (q : DequeBasic) (xs : List Str) : Type 0 where
  pub size : q.length ≡ length xs
  pub entries : q.buf ≡ encode_all xs
  pub short : All IsShort xs

pub encode_all-append :
    (xs : List Str) (x : Str) → encode_all (xs ++ x ∷ []) ≡ encode_all xs ++ encode_deq_entry x
encode_all-append [] x = append-nil (encode_deq_entry x)
encode_all-append (y ∷ ys) x =
    ap (λ l. encode_deq_entry y ++ l) (encode_all-append ys x)
    ∙ sym (append_assoc (encode_deq_entry y) (encode_all ys) (encode_deq_entry x))

pub All-append : (xs : List Str) (x : Str) → All IsShort xs → IsShort x → All IsShort (xs ++ x ∷ [])
All-append [] x h s = (s, tt)
All-append (y ∷ ys) x h s = (h.0, All-append ys x h.1 s)

pub l_push-Represents :
    (x : Str) (q : DequeBasic) (xs : List Str)
    → IsShort x
    → Represents q xs
    → Represents (l_push x q) (x ∷ xs)
unfolding l_push
l_push-Represents x q xs s r = record {
  size = omega (arith, r.size);
  entries = ap (λ l. encode_deq_entry x ++ l) r.entries;
  short = (s, r.short);
}

pub r_push-Represents :
    (x : Str) (q : DequeBasic) (xs : List Str)
    → IsShort x
    → Represents q xs
    → Represents (r_push x q) (xs ++ x ∷ [])
unfolding r_push
r_push-Represents x q xs s r = record {
  size = omega (arith, r.size, length-append xs (x ∷ []));
  entries = ap (λ l. l ++ encode_deq_entry x) r.entries ∙ sym (encode_all-append xs x);
  short = All-append xs x r.short s;
}

pub drop-append : (a b : Str) → drop (length a) (a ++ b) ≡ b
drop-append [] b = refl
drop-append (x ∷ a) b = drop-append a b

abbrev pub tail : DequeBasic → Str → DequeBasic
tail q x = record { length = q.length - 1; buf = drop (length (encode_deq_entry x)) q.buf }

pub l_pop-cons :
    (q : DequeBasic) (x : Str) (xs : List Str)
    → Represents q (x ∷ xs)
    → (l_pop q ≡ popped (canonical x) (tail q x)) × Represents (tail q x) xs
unfolding l_pop
l_pop-cons q x xs r =
    let full : (q.length == 0) ≡ false = ground (arith, r.size) in
    let decoded : decode_deq_entry q.buf ≡ some (canonical x, length (encode_deq_entry x)) =
      ap decode_deq_entry r.entries ∙ decode-encode_deq_entry x (encode_all xs) (r.short.0) in
    (
      rw (full, decoded) refl,
      record {
        size = omega (arith, r.size);
        entries =
            ap (drop (length (encode_deq_entry x))) r.entries
            ∙ drop-append (encode_deq_entry x) (encode_all xs);
        short = r.short.1;
      },
    )

pub l_pop-nil : (q : DequeBasic) → Represents q [] → l_pop q ≡ deque_empty
unfolding l_pop
l_pop-nil q r = let e : q.length ≡ 0 = omega (arith, r.size) in rw e refl

-- The elements of a list, the first at index i, whose indexes lie between two bounds.
abbrev pub between : ℤ → ℤ → ℕ → List Str → List Str
between lo hi i [] = []
between lo hi i (x ∷ xs) =
    if leb_ℤ lo (pos i) && leb_ℤ (pos i) hi
    then canonical x ∷ between lo hi (i + 1) xs
    else between lo hi (i + 1) xs

pub between-past :
    (lo hi : ℤ) (i : ℕ) (xs : List Str) → ltb_ℤ hi (pos i) ≡ true → between lo hi i xs ≡ []
between-past lo hi i [] h = refl
between-past lo hi i (x ∷ xs) h =
    let e : leb_ℤ (pos i) hi ≡ false = ground arith in
    let n : (leb_ℤ lo (pos i) && leb_ℤ (pos i) hi) ≡ false = ground arith in
    rw n (between-past lo hi (i + 1) xs (ground arith))

range_loop-between :
    (xs : List Str) (i : ℕ) (lo hi : ℤ)
    → All IsShort xs
    → range_loop (length xs) i lo hi (encode_all xs) ≡ some (between lo hi i xs)
unfolding range_loop
range_loop-between [] i lo hi s = refl
range_loop-between (x ∷ xs) i lo hi s =
    let d = decode-encode_deq_entry x (encode_all xs) s.0 in
    let rest =
      ap (range_loop (length xs) (i + 1) lo hi) (drop-append (encode_deq_entry x) (encode_all xs))
      ∙ range_loop-between xs (i + 1) lo hi s.1 in
    elim (Bool-cases (ltb_ℤ hi (pos i))) [
      | inl e ↦ rw (range_loop, d, e) (ap some (sym (between-past lo hi i (x ∷ xs) e)))
      | inr e ↦ rw (range_loop, d, e, rest) refl
    ]

between-none : (lo hi : ℤ) (i : ℕ) (xs : List Str) → ltb_ℤ hi lo ≡ true → between lo hi i xs ≡ []
between-none lo hi i [] h = refl
between-none lo hi i (x ∷ xs) h =
    let n : (leb_ℤ lo (pos i) && leb_ℤ (pos i) hi) ≡ false = ground arith in
    rw n (between-none lo hi (i + 1) xs h)

pub cut :
    (lo hi : ℤ) (xs : List Str) (o : Option (List Str))
    → o ≡ some (between lo hi 0 xs)
    → (if ltb_ℤ hi lo then some [] else o) ≡ some (between lo hi 0 xs)
cut lo hi xs o h = elim (Bool-cases (ltb_ℤ hi lo)) [
  | inl e ↦ rw e (ap some (sym (between-none lo hi 0 xs e)))
  | inr e ↦ rw e h
]

-- LRANGE on a deque that represents a list answers the canonical forms of the elements between
-- its indexes, negative ones counted from the end.
l_range-between :
    (start stop : ℤ) (q : DequeBasic) (xs : List Str)
    → Represents q xs
    → l_range start stop q
      ≡ some (
          between
            (sanitize_start_index (length xs) start)
            (sanitize_stop_index (length xs) stop)
            0
            xs)
unfolding l_range
l_range-between start stop q xs r =
    let lo = sanitize_start_index (length xs) start in
    let hi = sanitize_stop_index (length xs) stop in
    let read = range_loop-between xs 0 lo hi r.short in
    ap (λ n. l_range start stop (record { length = n; buf = q.buf })) r.size
    ∙ ap (λ b. l_range start stop (record { length = length xs; buf = b })) r.entries
    ∙ cut lo hi xs (range_loop (length xs) 0 lo hi (encode_all xs)) read
