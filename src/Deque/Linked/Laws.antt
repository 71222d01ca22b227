-- ===== src/Deque/Linked/Laws.antt =====
-- The nodes of a Deque of internal/eval/deque.go, and the list that they hold.
use dice_db_distributed_syst.Prelude.{
  ℕ, ◌+◌, ◌-◌, ◌≤◌, ◌<◌, ◌≡◌, refl, sym, ap, ◌∙◌, ◌≢◌, ◌⊎◌, inl, inr, true, none, some, List, [],
  ◌∷◌, ◌++◌, arith, ltb, ◌==◌, ==_iff, Bool-cases, length, length-append, All, Str, nat_eq, str_eq,
}
use mathlib.Core.List.{append_assoc, append-nil}
use dice_db_distributed_syst.Strconv.{parse_int}
use dice_db_distributed_syst.Deque.{encode_deq_entry, get_encode_deq_entry_size}
use dice_db_distributed_syst.Deque.Codec.{length-encode_deq_entry}
use dice_db_distributed_syst.Deque.Refines.{IsShort, encode_all, encode_all-append}
use dice_db_distributed_syst.Deque.Linked.{Node, Deque, encode_in_place, node_capacity, push_tail}

-- An element whose size is computed rightly.
abbrev pub IsSized : Str → Type 0
IsSized x = (length x < 21) ⊎ (parse_int x ≡ none)

-- Nodes that each hold the entries of a part of a list, none of them empty.
abbrev pub Spread : List Node → List Str → Type 0
Spread [] ys = ys ≡ []
Spread (n ∷ ns) ys =
    (g : List Str) × (rest : List Str) × (ys ≡ g ++ rest)
    × (n.buf ≡ encode_all g)
    × (g ≢ [])
    × (length n.buf ≤ n.cap)
    × Spread ns rest

-- The head has some bytes of no use first. It may hold nothing else if it is the only node.
abbrev pub Layout : List Node → ℕ → List Str → Type 0
Layout [] left xs = (left ≡ 0) × (xs ≡ [])
Layout (n ∷ ns) left xs =
    (junk : Str) × (g : List Str) × (rest : List Str) × (xs ≡ g ++ rest)
    × (n.buf ≡ junk ++ encode_all g)
    × (length junk ≡ left)
    × (g ≡ [] → (ns ≡ []) × (0 < left) × (length n.buf < n.cap))
    × (length n.buf ≤ n.cap)
    × Spread ns rest

pub record Holds (q : Deque) (xs : List Str) : Type 0 where
  pub size : q.length ≡ length xs
  pub short : All IsShort xs
  pub layout : Layout q.nodes q.left_idx xs

pub encode_in_place-some : (x : Str) → IsSized x → encode_in_place x ≡ some (encode_deq_entry x)
unfolding encode_in_place
encode_in_place-some x h =
    let e : (length (encode_deq_entry x) == get_encode_deq_entry_size x) ≡ true =
      (==_iff _ _).1 (length-encode_deq_entry x h) in
    rw e refl

pub snoc-ne : (g : List Str) (x : Str) → g ++ x ∷ [] ≢ []
snoc-ne [] x h = ground arith
snoc-ne (y ∷ g) x h = ground arith

pub cons-ne : (x : Str) (g : List Str) → x ∷ g ≢ []
cons-ne x g h = ground arith

pub node_capacity-le : (size : ℕ) → size ≤ node_capacity size
node_capacity-le size = ground arith

length-encode :
    (x : Str)
    → IsSized x
    → length (encode_deq_entry x) ≤ node_capacity (get_encode_deq_entry_size x)
length-encode x h =
    omega (arith, length-encode_deq_entry x h, node_capacity-le (get_encode_deq_entry_size x))

-- A node of one element.
new_node :
    (x : Str) (cap : ℕ)
    → length (encode_deq_entry x) ≤ cap
    → Spread (record { buf = encode_deq_entry x; cap = cap } ∷ []) (x ∷ [])
new_node x cap h = (x ∷ [], [], refl, sym (append-nil (encode_deq_entry x)), cons-ne x [], h, refl)

at_end :
    (ys g rest : List Str) (x : Str)
    → ys ≡ g ++ rest
    → rest ≡ []
    → ys ++ x ∷ [] ≡ (g ++ x ∷ []) ++ []
at_end ys g rest x e s =
    ap (λ l. l ++ x ∷ []) (e ∙ ap (λ r. g ++ r) s ∙ append-nil g) ∙ sym (append-nil (g ++ x ∷ []))

beside : (ys g rest : List Str) (x : Str) → ys ≡ g ++ rest → rest ≡ [] → ys ++ x ∷ [] ≡ g ++ x ∷ []
beside ys g rest x e s = at_end ys g rest x e s ∙ append-nil (g ++ x ∷ [])

-- Pushes at the tail.
Spread-push_tail :
    (x : Str) (n : Node) (ns : List Node) (ys : List Str)
    → IsSized x
    → Spread (n ∷ ns) ys
    → Spread (push_tail (get_encode_deq_entry_size x) (encode_deq_entry x) (n ∷ ns)) (ys ++ x ∷ [])
unfolding push_tail
Spread-push_tail x n [] ys h (g, rest, e, b, ne, c, s) =
    let size = get_encode_deq_entry_size x in
    let sized = length-encode_deq_entry x h in
    let len = length-append n.buf (encode_deq_entry x) in
    let more : (cap : ℕ)
        → length (n.buf ++ encode_deq_entry x) ≤ cap
        → Spread (record { buf = n.buf ++ encode_deq_entry x; cap = cap } ∷ []) (ys ++ x ∷ []) =
      λ cap k. (
        g ++ x ∷ [],
        [],
        at_end ys g rest x e s,
        ap (λ l. l ++ encode_deq_entry x) b ∙ sym (encode_all-append g x),
        snoc-ne g x,
        k,
        refl,
      ) in
    elim (Bool-cases (length n.buf == n.cap)) [
      | inl t ↦ rw t (
        g,
        x ∷ [],
        beside ys g rest x e s,
        b,
        ne,
        c,
        new_node x (node_capacity size) (length-encode x h),
      )
      | inr t ↦ elim (Bool-cases (ltb (n.cap - length n.buf) size)) [
        | inl u ↦ rw (t, u) (more (length n.buf + size) (omega (arith, len, sized)))
        | inr u ↦ rw (t, u) (more n.cap (ground (arith, len, sized)))
      ]
    ]
Spread-push_tail x n (m ∷ ns) ys h (g, rest, e, b, ne, c, s) = (
  g,
  rest ++ x ∷ [],
  ap (λ l. l ++ x ∷ []) e ∙ append_assoc g rest (x ∷ []),
  b,
  ne,
  c,
  Spread-push_tail x m ns rest h s,
)

pub Layout-push_tail :
    (x : Str) (ns : List Node) (left : ℕ) (ys : List Str)
    → IsSized x
    → Layout ns left ys
    → Layout (push_tail (get_encode_deq_entry_size x) (encode_deq_entry x) ns) left (ys ++ x ∷ [])
unfolding push_tail
Layout-push_tail x [] left ys h (z, e) = (
  [],
  x ∷ [],
  [],
  ap (λ l. l ++ x ∷ []) e,
  sym (append-nil (encode_deq_entry x)),
  sym z,
  λ k. absurd (cons-ne x [] k),
  length-encode x h,
  refl,
)
Layout-push_tail x (n ∷ []) left ys h (junk, g, rest, e, b, j, empty, c, s) =
    let size = get_encode_deq_entry_size x in
    let sized = length-encode_deq_entry x h in
    let len = length-append n.buf (encode_deq_entry x) in
    let more : (cap : ℕ)
        → length (n.buf ++ encode_deq_entry x) ≤ cap
        → Layout (record { buf = n.buf ++ encode_deq_entry x; cap = cap } ∷ []) left
            (ys ++ x ∷ []) =
      λ cap k. (
        junk,
        g ++ x ∷ [],
        [],
        at_end ys g rest x e s,
        ap (λ l. l ++ encode_deq_entry x) b
            ∙ append_assoc junk (encode_all g) (encode_deq_entry x)
            ∙ ap (λ l. junk ++ l) (sym (encode_all-append g x)),
        j,
        λ k'. absurd (snoc-ne g x k'),
        k,
        refl,
      ) in
    elim (Bool-cases (length n.buf == n.cap)) [
      | inl t ↦ rw t (
        junk,
        g,
        x ∷ [],
        beside ys g rest x e s,
        b,
        j,
        λ k. absurd (ground (arith, (empty k).2)),
        c,
        new_node x (node_capacity size) (length-encode x h),
      )
      | inr t ↦ elim (Bool-cases (ltb (n.cap - length n.buf) size)) [
        | inl u ↦ rw (t, u) (more (length n.buf + size) (omega (arith, len, sized)))
        | inr u ↦ rw (t, u) (more n.cap (ground (arith, len, sized)))
      ]
    ]
Layout-push_tail x (n ∷ m ∷ ns) left ys h (junk, g, rest, e, b, j, empty, c, s) = (
  junk,
  g,
  rest ++ x ∷ [],
  ap (λ l. l ++ x ∷ []) e ∙ append_assoc g rest (x ∷ []),
  b,
  j,
  λ k. absurd (ground (arith, (empty k).0)),
  c,
  Spread-push_tail x m ns rest h s,
)
