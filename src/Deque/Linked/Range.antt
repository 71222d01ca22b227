-- ===== src/Deque/Linked/Range.antt =====
-- LRange of Deque in internal/eval/deque.go.
use dice_db_distributed_syst.Prelude.{
  ℕ, ◌+◌, ◌≤◌, ◌<◌, ◌≡◌, refl, sym, ap, ◌∙◌, inl, inr, ◌&&◌, some, List, [], ◌∷◌, arith, Bool-cases,
  length, All, Str, nat_eq, str_eq,
}
use dice_db_distributed_syst.Prelude.Int.{place, ℤ, pos, negsuc, ◌+ℤ◌, ◌-ℤ◌, ltb_ℤ, leb_ℤ}
use dice_db_distributed_syst.Deque.Basic.{sanitize_start_index, sanitize_stop_index}
use dice_db_distributed_syst.Deque.Refines.{IsShort, between, between-past, cut}
use dice_db_distributed_syst.Deque.Linked.{Node, Deque, range_loop, l_range}
use dice_db_distributed_syst.Deque.Linked.Laws.{Layout, Holds}
use dice_db_distributed_syst.Deque.Linked.Firsts.{next_entry-Layout}

range_loop-between :
    (xs : List Str) (i : ℕ) (lo hi : ℤ) (ns : List Node) (left : ℕ)
    → All IsShort xs
    → Layout ns left xs
    → range_loop (length xs) i lo hi ns left ≡ some (between lo hi i xs)
unfolding range_loop
range_loop-between [] i lo hi ns left s l = refl
range_loop-between (x ∷ xs) i lo hi ns left s l =
    let (ns', left', d, l') = next_entry-Layout ns left x xs s l in
    let rest = range_loop-between xs (i + 1) lo hi ns' left' s.1 l' in
    elim (Bool-cases (ltb_ℤ hi (pos i))) [
      | inl e ↦ rw (range_loop, e) (ap some (sym (between-past lo hi i (x ∷ xs) e)))
      | inr e ↦ elim (Bool-cases (leb_ℤ lo (pos i) && leb_ℤ (pos i) hi)) [
        | inl t ↦ rw (range_loop, d, e, rest, between, t) refl
        | inr t ↦ rw (range_loop, d, e, rest, between, t) refl
      ]
    ]

-- Two ranges that agree on the indexes of a list.
between_ext :
    (lo hi lo' hi' : ℤ) (i : ℕ) (xs : List Str)
    → ((j : ℕ)
        → i ≤ j
        → j < i + length xs
        → (leb_ℤ lo (pos j) && leb_ℤ (pos j) hi) ≡ (leb_ℤ lo' (pos j) && leb_ℤ (pos j) hi'))
    → between lo hi i xs ≡ between lo' hi' i xs
between_ext lo hi lo' hi' i [] h = refl
between_ext lo hi lo' hi' i (x ∷ xs) h =
    let here = h i (omega arith) (omega arith) in
    let rest = between_ext lo hi lo' hi' (i + 1) xs (λ j p q. h j (omega arith) (omega arith)) in
    elim (Bool-cases (leb_ℤ lo' (pos i) && leb_ℤ (pos i) hi')) [
      | inl t ↦ rw (between, here, t, rest) refl
      | inr t ↦ rw (between, here, t, rest) refl
    ]

sanitized :
    (start stop : ℤ) (len j : ℕ)
    → j < len
    → (leb_ℤ (sanitize_start_index len start) (pos j)
        && leb_ℤ (pos j) (sanitize_stop_index len stop))
      ≡ (leb_ℤ (place len start) (pos j) && leb_ℤ (pos j) (place len stop))
unfolding ◌+ℤ◌ ◌-ℤ◌
sanitized (pos m) (pos n) len j h = ground arith
sanitized (pos m) (negsuc n) len j h = ground arith
sanitized (negsuc m) (pos n) len j h = ground arith
sanitized (negsuc m) (negsuc n) len j h = ground arith

-- LRange on a Deque whose nodes hold a list answers the canonical forms of the elements from the
-- place of its start to the place of its stop, both included, where a negative index counts from
-- the end.
pub l_range-between :
    (start stop : ℤ) (q : Deque) (xs : List Str)
    → Holds q xs
    → l_range start stop q ≡ some (between (place (length xs) start) (place (length xs) stop) 0 xs)
unfolding l_range
l_range-between start stop q xs v =
    let lo = sanitize_start_index (length xs) start in
    let hi = sanitize_stop_index (length xs) stop in
    ap (λ n. l_range start stop (record q { length = n })) v.size
    ∙ cut lo hi xs (range_loop (length xs) 0 lo hi q.nodes q.left_idx)
        (range_loop-between xs 0 lo hi q.nodes q.left_idx v.short v.layout)
    ∙ ap some (
        between_ext lo hi (place (length xs) start) (place (length xs) stop) 0 xs
          (λ j p h. sanitized start stop (length xs) j (omega arith)))
