-- ===== src/Deque/Linked/Client.antt =====
-- What a client sees of a Deque of internal/eval/deque.go, over its nodes, is a list.
use dice_db_distributed_syst.Prelude.{
  ℕ, ◌+◌, ◌≤◌, ◌≡◌, refl, ap, inl, inr, none, some, List, [], ◌∷◌, ◌++◌, arith, Option-cases, All,
  Str, nat_eq, str_eq,
}
use mathlib.Core.Path.{subst}
use dice_db_distributed_syst.Deque.{get_encode_deq_entry_size}
use dice_db_distributed_syst.Deque.Codec.{canonical}
use dice_db_distributed_syst.Deque.Refines.{IsShort}
use dice_db_distributed_syst.Deque.Client.{
  Request, push_left, push_right, pop_left, pop_right, Answer, pushed, nothing, panicked, element,
  split_last, list_replies, split_last-none, split_last-some, All-init,
}
use dice_db_distributed_syst.Deque.Linked.{
  Deque, min_deque_node_size, l_push, r_push, popped, deque_empty, panics, l_pop, r_pop_linked,
}
use dice_db_distributed_syst.Deque.Linked.Laws.{IsSized, Holds, encode_in_place-some}
use dice_db_distributed_syst.Deque.Linked.Heads.{push_head-Layout}
use dice_db_distributed_syst.Deque.Linked.Firsts.{l_pop-Holds, l_pop-empty}
use dice_db_distributed_syst.Deque.Linked.Tails.{r_push-Holds, r_pop-Holds, r_pop-empty}

-- A string whose entry has the size computed for it, and fits into a node.
abbrev pub FitsNode : Str → Type 0
FitsNode x = IsSized x × IsShort x × (get_encode_deq_entry_size x ≤ min_deque_node_size)

abbrev pub AllFit : List Request → Type 0
AllFit [] = Unit
AllFit (push_left x ∷ rs) = FitsNode x × AllFit rs
AllFit (push_right x ∷ rs) = FitsNode x × AllFit rs
AllFit (pop_left ∷ rs) = AllFit rs
AllFit (pop_right ∷ rs) = AllFit rs

module _ (grown : ℕ → ℕ → ℕ) where
  abbrev pub node_replies : List Request → Deque → List Answer
  node_replies [] q = []
  node_replies (push_left x ∷ rs) q = elim (l_push grown x q) [
    | none ↦ panicked ∷ []
    | some q' ↦ pushed ∷ node_replies rs q'
  ]
  node_replies (push_right x ∷ rs) q = elim (r_push x q) [
    | none ↦ panicked ∷ []
    | some q' ↦ pushed ∷ node_replies rs q'
  ]
  node_replies (pop_left ∷ rs) q = elim (l_pop q) [
    | popped x q' ↦ element x ∷ node_replies rs q'
    | deque_empty ↦ nothing ∷ node_replies rs q
    | panics ↦ panicked ∷ []
  ]
  node_replies (pop_right ∷ rs) q = elim (r_pop_linked q) [
    | popped x q' ↦ element x ∷ node_replies rs q'
    | deque_empty ↦ nothing ∷ node_replies rs q
    | panics ↦ panicked ∷ []
  ]

module _ (grown : ℕ → ℕ → ℕ) (grows : (room n : ℕ) → n ≤ grown room n) where
  l_push-Holds :
      (q : Deque) (xs : List Str) (x : Str)
      → FitsNode x
      → Holds q xs
      → (q' : Deque) × (l_push grown x q ≡ some q') × Holds q' (x ∷ xs)
  unfolding l_push
  l_push-Holds q xs x (d, h, small) v =
      elim (push_head-Layout grown grows x q.nodes q.left_idx xs d v.layout) [
        | inl (above, below, e) ↦ absurd (omega arith)
        | inr (ns, left, e, kept) ↦ (
          record { length = q.length + 1; nodes = ns; left_idx = left },
          rw (l_push, encode_in_place-some x d, e) refl,
          record { size = omega (arith, v.size); short = (h, v.short); layout = kept },
        )
      ]

  -- A Deque whose nodes hold a list answers any sequence of pushes and pops at both ends as the
  -- list does, an element that comes out in its canonical form, as long as every pushed string
  -- has an entry of at most 256 bytes and is shorter than 21 bytes or no number; append is
  -- assumed to grow a buffer to what it appends at least.
  pub node_replies-Holds :
      (rs : List Request) (q : Deque) (xs : List Str)
      → AllFit rs
      → Holds q xs
      → node_replies grown rs q ≡ list_replies rs xs
  node_replies-Holds [] q xs f v = refl
  node_replies-Holds (push_left x ∷ rs) q xs f v =
      let (q', e, v') = l_push-Holds q xs x f.0 v in
      rw (node_replies, e) (ap (λ l. pushed ∷ l) (node_replies-Holds rs q' (x ∷ xs) f.1 v'))
  node_replies-Holds (push_right x ∷ rs) q xs f v =
      let (q', e, v') = r_push-Holds q xs x f.0.0 f.0.1 v in
      rw (node_replies, e) (ap (λ l. pushed ∷ l) (node_replies-Holds rs q' (xs ++ x ∷ []) f.1 v'))
  node_replies-Holds (pop_left ∷ rs) q [] f v =
      rw (node_replies, l_pop-empty q v) (ap (λ l. nothing ∷ l) (node_replies-Holds rs q [] f v))
  node_replies-Holds (pop_left ∷ rs) q (x ∷ xs) f v =
      let (q', e, v') = l_pop-Holds q x xs v in
      rw (node_replies, e) (ap (λ l. element (canonical x) ∷ l) (node_replies-Holds rs q' xs f v'))
  node_replies-Holds (pop_right ∷ rs) q xs f v = elim (Option-cases (split_last xs)) [
    | inl e ↦
        let v0 = subst (Holds q) (split_last-none xs e) v in
        rw (node_replies, list_replies, e, r_pop-empty q v0)
          (ap (λ l. nothing ∷ l) (node_replies-Holds rs q [] f v0))
    | inr ((ys, y), e) ↦
        let whole = split_last-some xs ys y e in
        let (init, last) = All-init ys y (subst (All IsShort) whole v.short) in
        let (q', p, v1) = r_pop-Holds q ys y (subst (Holds q) whole v) last init in
        rw (node_replies, list_replies, e, p)
          (ap (λ l. element (canonical y) ∷ l) (node_replies-Holds rs q' ys f v1))
  ]
