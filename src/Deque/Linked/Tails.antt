-- ===== src/Deque/Linked/Tails.antt =====
-- RPush and RPop of Deque in internal/eval/deque.go.
use dice_db_distributed_syst.Prelude.{
  ℕ, ◌+◌, ◌-◌, ◌≤◌, ◌<◌, ◌≡◌, refl, sym, ap, ◌∙◌, ◌≢◌, true, false, some, List, [], ◌∷◌, ◌++◌,
  arith, ◌==◌, if◌then◌else◌, length, length-append, All, Str, nat_eq, str_eq,
}
use mathlib.Core.Path.{subst}
use mathlib.Core.List.{append_assoc, append-nil}
use dice_db_distributed_syst.Deque.{encode_deq_entry, get_encode_deq_entry_size}
use dice_db_distributed_syst.Deque.Codec.{canonical}
use dice_db_distributed_syst.Deque.Basic.{DequeBasic}
use dice_db_distributed_syst.Deque.Basic
use dice_db_distributed_syst.Deque.Refines.{All-append, IsShort, encode_all, encode_all-append}
use dice_db_distributed_syst.Deque.Ends.{r_pop-r_push}
use dice_db_distributed_syst.Deque.Linked.{
  push_tail, Node, Deque, r_push, popped, deque_empty, keep_node, pop_tail, is_gone, r_pop_linked,
}
use dice_db_distributed_syst.Deque.Linked.Heads.{no_junk}
use dice_db_distributed_syst.Deque.Linked.Firsts.{encode-ne, no_entries}
use dice_db_distributed_syst.Deque.Linked.Laws.{
  IsSized, Spread, Layout, Holds, encode_in_place-some, Layout-push_tail, snoc-ne, cons-ne,
}

-- A list that ends in a given element, by its last part.
abbrev Ends : List Str → Str → List Str → Type 0
Ends ys x zs = ys ≡ zs ++ x ∷ []

-- The last element of two parts, the second of which is not empty, stands in the second.
last_of :
    (g rest zs : List Str) (x : Str)
    → g ++ rest ≡ zs ++ x ∷ []
    → rest ≢ []
    → (init : List Str) × (rest ≡ init ++ x ∷ []) × (zs ≡ g ++ init)
last_of [] rest zs x e ne = (zs, e, refl)
last_of (y ∷ g) rest [] x e ne = absurd (ne (nil_right g rest (ground (arith, e))))
  where
    nil_right : (g rest : List Str) → g ++ rest ≡ [] → rest ≡ []
    nil_right [] rest h = h
    nil_right (z ∷ g) rest h = absurd (ground (arith, h))
last_of (y ∷ g) rest (z ∷ zs) x e ne =
    let (init, r, w) = last_of g rest zs x (ground (arith, e)) ne in
    let same : z ≡ y = ground (arith, e) in
    (init, r, ap (λ l. z ∷ l) w ∙ ap (λ t. t ∷ g ++ init) same)

-- A buffer without its last entry.
pop_buffer :
    (len : ℕ) (front : Str) (g zs : List Str) (x : Str)
    → 0 < len
    → IsShort x
    → g ≡ zs ++ x ∷ []
    → Basic.r_pop (record { length = len; buf = front ++ encode_all g })
      ≡ Basic.popped (canonical x) (record { length = len - 1; buf = front ++ encode_all zs })
unfolding Basic.r_push
pop_buffer len front g zs x pos h e =
    let b : front ++ encode_all g ≡ (front ++ encode_all zs) ++ encode_deq_entry x =
      ap (λ l. front ++ encode_all l) e
      ∙ ap (λ l. front ++ l) (encode_all-append zs x)
      ∙ sym (append_assoc front (encode_all zs) (encode_deq_entry x)) in
    let n : len ≡ len - 1 + 1 = omega arith in
    ap (λ k. Basic.r_pop (record { length = k; buf = front ++ encode_all g })) n
    ∙ ap (λ t. Basic.r_pop (record { length = len - 1 + 1; buf = t })) b
    ∙ r_pop-r_push x (record { length = len - 1; buf = front ++ encode_all zs }) h

shorter :
    (front : Str) (g zs : List Str) (x : Str)
    → IsShort x
    → g ≡ zs ++ x ∷ []
    → length (front ++ encode_all zs) < length (front ++ encode_all g)
shorter front g zs x h e =
    let entry : length (encode_deq_entry x) ≢ 0 =
      λ k. encode-ne x h (no_junk (encode_deq_entry x) k) in
    let whole : length (encode_all g) ≡ length (encode_all zs) + length (encode_deq_entry x) =
      ap (λ l. length (encode_all l)) e
      ∙ ap length (encode_all-append zs x)
      ∙ length-append (encode_all zs) (encode_deq_entry x) in
    omega
      (arith, entry, whole, length-append front (encode_all zs), length-append front (encode_all g))

-- What is kept of a node behind the head.
keep_node-Spread :
    (n : Node) (buf : Str) (zs : List Str)
    → buf ≡ encode_all zs
    → All IsShort zs
    → length buf ≤ n.cap
    → Spread (keep_node n buf) zs
keep_node-Spread n [] zs e h c = no_entries zs h (sym (ap length e))
keep_node-Spread n (b ∷ bs) zs e h c =
    (zs, [], sym (append-nil zs), e, λ k. ground (arith, e ∙ ap encode_all k), c, refl)

-- What is kept of the head, where it is the tail.
keep_node-Layout :
    (n : Node) (left : ℕ) (junk buf : Str) (zs : List Str)
    → buf ≡ junk ++ encode_all zs
    → length junk ≡ left
    → All IsShort zs
    → length buf < n.cap
    → Layout (keep_node n buf) (if is_gone (keep_node n buf) then 0 else left) zs
keep_node-Layout n left junk [] zs e j h c =
    let total : 0 ≡ length junk + length (encode_all zs) =
      ap length e ∙ length-append junk (encode_all zs) in
    (refl, no_entries zs h (omega (arith, total)))
keep_node-Layout n left junk (b ∷ bs) zs e j h c = (
  junk,
  zs,
  [],
  sym (append-nil zs),
  e,
  j,
  λ k. (
    refl,
    omega (
      arith,
      j,
      ap length e,
      length-append junk (encode_all zs),
      ap (λ l. length (encode_all l)) k,
    ),
    c,
  ),
  omega arith,
  refl,
)

left_nil : (g rest : List Str) → g ++ rest ≡ [] → g ≡ []
left_nil [] rest e = refl
left_nil (y ∷ g) rest e = absurd (cons-ne y (g ++ rest) e)

All-append-right : (xs ys : List Str) → All IsShort (xs ++ ys) → All IsShort ys
All-append-right [] ys h = h
All-append-right (x ∷ xs) ys h = All-append-right xs ys h.1

whole_group : (ys g rest : List Str) → ys ≡ g ++ rest → rest ≡ [] → ys ≡ g
whole_group ys g rest w s = w ∙ ap (λ r. g ++ r) s ∙ append-nil g

pop_tail-Spread :
    (len : ℕ) (ns : List Node) (ys zs : List Str) (x : Str)
    → 0 < len
    → IsShort x
    → All IsShort zs
    → Spread ns ys
    → ys ≡ zs ++ x ∷ []
    → (ns' : List Node) × (pop_tail len ns ≡ some (canonical x, ns')) × Spread ns' zs
unfolding pop_tail
pop_tail-Spread len [] ys zs x pos h a s e = absurd (snoc-ne zs x (sym e ∙ s))
pop_tail-Spread len (n ∷ []) ys zs x pos h a (g, rest, w, b, ne, c, s) e =
    let last : g ≡ zs ++ x ∷ [] = sym (whole_group ys g rest w s) ∙ e in
    let popped_there =
      ap (λ t. Basic.r_pop (record { length = len; buf = t })) b
      ∙ pop_buffer len [] g zs x pos h last in
    (
      keep_node n (encode_all zs),
      rw (pop_tail, popped_there) refl,
      keep_node-Spread n (encode_all zs) zs refl a
          (omega (arith, shorter [] g zs x h last, ap length b)),
    )
pop_tail-Spread len (n ∷ m ∷ ns) ys zs x pos h a (g, rest, w, b, ne, c, s) e =
    let filled : rest ≢ [] = λ k. s.4 (left_nil s.0 s.1 (sym s.2 ∙ k)) in
    let (init, r, z) = last_of g rest zs x (sym w ∙ e) filled in
    let (ns', done, kept) =
      pop_tail-Spread len (m ∷ ns) rest init x pos h
        (All-append-right g init (subst (All IsShort) z a)) s r in
    (n ∷ ns', rw (pop_tail, done) refl, (g, init, z, b, ne, c, kept))

-- The head too.
pop_tail-Layout :
    (len : ℕ) (ns : List Node) (left : ℕ) (ys zs : List Str) (x : Str)
    → 0 < len
    → IsShort x
    → All IsShort zs
    → Layout ns left ys
    → ys ≡ zs ++ x ∷ []
    → (ns' : List Node) × (pop_tail len ns ≡ some (canonical x, ns'))
      × Layout ns' (if is_gone ns' then 0 else left) zs
unfolding pop_tail
pop_tail-Layout len [] left ys zs x pos h a (z, s) e = absurd (snoc-ne zs x (sym e ∙ s))
pop_tail-Layout len (n ∷ []) left ys zs x pos h a (junk, g, rest, w, b, j, empty, c, s) e =
    let last : g ≡ zs ++ x ∷ [] = sym (whole_group ys g rest w s) ∙ e in
    let popped_there =
      ap (λ t. Basic.r_pop (record { length = len; buf = t })) b
      ∙ pop_buffer len junk g zs x pos h last in
    (
      keep_node n (junk ++ encode_all zs),
      rw (pop_tail, popped_there) refl,
      keep_node-Layout n left junk (junk ++ encode_all zs) zs refl j a
          (omega (arith, shorter junk g zs x h last, ap length b)),
    )
pop_tail-Layout len (n ∷ m ∷ ns) left ys zs x pos h a (junk, g, rest, w, b, j, empty, c, s) e =
    let filled : rest ≢ [] = λ k. s.4 (left_nil s.0 s.1 (sym s.2 ∙ k)) in
    let (init, r, z) = last_of g rest zs x (sym w ∙ e) filled in
    let short = All-append-right g init (subst (All IsShort) z a) in
    let (ns', done, kept) = pop_tail-Spread len (m ∷ ns) rest init x pos h short s r in
    (
      n ∷ ns',
      rw (pop_tail, done) refl,
      (junk, g, init, z, b, j, λ k. absurd (ground (arith, (empty k).0)), c, kept),
    )

pub r_pop-Holds :
    (q : Deque) (zs : List Str) (x : Str)
    → Holds q (zs ++ x ∷ [])
    → IsShort x
    → All IsShort zs
    → (q' : Deque) × (r_pop_linked q ≡ popped (canonical x) q') × Holds q' zs
unfolding r_pop_linked
r_pop-Holds q zs x v h a =
    let len = length-append zs (x ∷ []) in
    let full : (q.length == 0) ≡ false = ground (arith, v.size, len) in
    let (ns', done, kept) =
      pop_tail-Layout q.length q.nodes q.left_idx (zs ++ x ∷ []) zs x (omega (arith, v.size, len)) h
        a v.layout refl in
    (
      record {
        length = q.length - 1;
        nodes = ns';
        left_idx = if is_gone ns' then 0 else q.left_idx;
      },
      rw (full, done) refl,
      record { size = omega (arith, v.size, len); short = a; layout = kept },
    )

pub r_pop-empty : (q : Deque) → Holds q [] → r_pop_linked q ≡ deque_empty
unfolding r_pop_linked
r_pop-empty q v = let e : (q.length == 0) ≡ true = ground (arith, v.size) in rw e refl

pub r_push-Holds :
    (q : Deque) (xs : List Str) (x : Str)
    → IsSized x
    → IsShort x
    → Holds q xs
    → (q' : Deque) × (r_push x q ≡ some q') × Holds q' (xs ++ x ∷ [])
unfolding r_push
r_push-Holds q xs x d h v = (
  record q {
    length = q.length + 1;
    nodes = push_tail (get_encode_deq_entry_size x) (encode_deq_entry x) q.nodes;
  },
  rw (r_push, encode_in_place-some x d) refl,
  record {
    size = omega (arith, v.size, length-append xs (x ∷ []));
    short = All-append xs x v.short h;
    layout = Layout-push_tail x q.nodes q.left_idx xs d v.layout;
  },
)
