-- ===== src/Deque/Linked/Firsts.antt =====
-- The first entry of a Deque in internal/eval/deque.go: LPop.
use dice_db_distributed_syst.Prelude.{
  ℕ, suc, ◌+◌, ◌-◌, ◌≡◌, refl, sym, ap, ◌∙◌, ◌≢◌, ◌⊎◌, inl, inr, true, false, none, some, List, [],
  ◌∷◌, ◌++◌, arith, ◌==◌, Bool-cases, length, drop, length-append, All, Str, nat_eq, str_eq,
}
use mathlib.Core.Path.{subst}
use mathlib.Core.List.{append_assoc}
use dice_db_distributed_syst.Deque.{encode_deq_entry, decode_deq_entry}
use dice_db_distributed_syst.Deque.Codec.{canonical, decode-encode_deq_entry}
use dice_db_distributed_syst.Deque.Refines.{IsShort, encode_all}
use dice_db_distributed_syst.Deque.Linked.{Node, Deque, popped, deque_empty, l_pop, next_entry}
use dice_db_distributed_syst.Deque.Linked.Laws.{Spread, Layout, Holds, cons-ne}
use dice_db_distributed_syst.Deque.Linked.Heads.{drop-junk, no_junk}

pub encode-ne : (x : Str) → IsShort x → encode_deq_entry x ≢ []
unfolding decode_deq_entry
encode-ne x h e =
    let d = decode-encode_deq_entry x [] h in
    let nothing : decode_deq_entry (encode_deq_entry x ++ []) ≡ none =
      ap (λ l. decode_deq_entry (l ++ [])) e in
    ground (arith, d, nothing)

pub no_entries : (g : List Str) → All IsShort g → length (encode_all g) ≡ 0 → g ≡ []
no_entries [] h e = refl
no_entries (y ∷ g) h e = absurd (
    encode-ne y h.0 (
      no_junk (encode_deq_entry y)
        (omega (arith, length-append (encode_deq_entry y) (encode_all g)))))

Spread-Layout : (ns : List Node) (ys : List Str) → Spread ns ys → Layout ns 0 ys
Spread-Layout [] ys e = (refl, e)
Spread-Layout (n ∷ ns) ys (g, rest, e, b, ne, c, s) =
    ([], g, rest, e, b, refl, λ k. absurd (ne k), c, s)

pub All-append-left : (xs ys : List Str) → All IsShort (xs ++ ys) → All IsShort xs
All-append-left [] ys h = tt
All-append-left (x ∷ xs) ys h = (h.0, All-append-left xs ys h.1)

-- What follows the first entry: the other nodes, or a longer start without use.
abbrev Follows : Node → List Node → ℕ → List Str → Type 0
Follows n ns left xs =
    (((left == length n.buf) ≡ true) × Layout ns 0 xs)
    ⊎ (((left == length n.buf) ≡ false) × Layout (n ∷ ns) left xs)

first_entry-Follows :
    (n : Node) (ns : List Node) (left : ℕ) (x : Str) (xs : List Str)
    → All IsShort (x ∷ xs)
    → Layout (n ∷ ns) left (x ∷ xs)
    → (decode_deq_entry (drop left n.buf) ≡ some (canonical x, length (encode_deq_entry x)))
      × Follows n ns (left + length (encode_deq_entry x)) xs
first_entry-Follows n ns left x xs h (junk, [], rest, e, b, j, empty, c, s) =
    let no_rest : rest ≡ [] = subst (λ l. Spread l rest) (empty refl).0 s in
    absurd (cons-ne x xs (e ∙ no_rest))
first_entry-Follows n ns left x xs h (junk, y ∷ g, rest, e, b, j, empty, c, s) =
    let first : x ≡ y = ground (arith, e) in
    let others : xs ≡ g ++ rest = ground (arith, e) in
    let short = All-append-left g rest (subst (All IsShort) others h.1) in
    let at : drop left n.buf ≡ encode_deq_entry x ++ encode_all g =
      drop-junk left junk (encode_all (y ∷ g)) n.buf b j
      ∙ ap (λ t. encode_deq_entry t ++ encode_all g) (sym first) in
    let left' = left + length (encode_deq_entry x) in
    let junk' = junk ++ encode_deq_entry x in
    let b' : n.buf ≡ junk' ++ encode_all g =
      b
      ∙ ap (λ t. junk ++ (encode_deq_entry t ++ encode_all g)) (sym first)
      ∙ sym (append_assoc junk (encode_deq_entry x) (encode_all g)) in
    let j' : length junk' ≡ left' = omega (arith, j, length-append junk (encode_deq_entry x)) in
    let total : length n.buf ≡ left' + length (encode_all g) =
      ap length b' ∙ length-append junk' (encode_all g) ∙ ap (λ t. t + length (encode_all g)) j' in
    (
      ap decode_deq_entry at ∙ decode-encode_deq_entry x (encode_all g) h.0,
      elim (Bool-cases (left' == length n.buf)) [
        | inl t ↦
            let gone : g ≡ [] = no_entries g short (ground (arith, total)) in
            inl (
              t,
              Spread-Layout ns xs (subst (Spread ns) (sym (others ∙ ap (λ l. l ++ rest) gone)) s),
            )
        | inr t ↦
            let more : g ≢ [] = λ k. ground (arith, total, ap (λ l. length (encode_all l)) k) in
            inr (t, (junk', g, rest, others, b', j', λ k. absurd (more k), c, s))
      ],
    )

-- The iterator's Next.
pub next_entry-Layout :
    (ns : List Node) (left : ℕ) (x : Str) (xs : List Str)
    → All IsShort (x ∷ xs)
    → Layout ns left (x ∷ xs)
    → (ns' : List Node) × (left' : ℕ) × (next_entry ns left ≡ some (canonical x, ns', left'))
      × Layout ns' left' xs
unfolding next_entry
next_entry-Layout [] left x xs h (z, e) = absurd (cons-ne x xs e)
next_entry-Layout (n ∷ ns) left x xs h l =
    let (d, f) = first_entry-Follows n ns left x xs h l in
    elim f [
      | inl (t, l') ↦ (ns, 0, rw (next_entry, d, t) refl, l')
      | inr (t, l') ↦ (n ∷ ns, left + length (encode_deq_entry x), rw (next_entry, d, t) refl, l')
    ]

-- The nodes after a pop.
l_pop_nodes :
    (len : ℕ) (ns : List Node) (left : ℕ) (x : Str) (xs : List Str)
    → len ≡ suc (length xs)
    → All IsShort (x ∷ xs)
    → Layout ns left (x ∷ xs)
    → (q' : Deque) × (l_pop (record { length = len; nodes = ns; left_idx = left })
        ≡ popped (canonical x) q')
      × Holds q' xs
unfolding l_pop
l_pop_nodes len [] left x xs size h (z, e) = absurd (cons-ne x xs e)
l_pop_nodes len (n ∷ ns) left x xs size h l =
    let (d, f) = first_entry-Follows n ns left x xs h l in
    let more : (len == 0) ≡ false = ground arith in
    elim f [
      | inl (t, l') ↦ (
        record { length = len - 1; nodes = ns; left_idx = 0 },
        rw (more, d, t) refl,
        record { size = omega arith; short = h.1; layout = l' },
      )
      | inr (t, l') ↦ (
        record { length = len - 1; nodes = n ∷ ns; left_idx = left + length (encode_deq_entry x) },
        rw (more, d, t) refl,
        record { size = omega arith; short = h.1; layout = l' },
      )
    ]

pub l_pop-Holds :
    (q : Deque) (x : Str) (xs : List Str)
    → Holds q (x ∷ xs)
    → (q' : Deque) × (l_pop q ≡ popped (canonical x) q') × Holds q' xs
l_pop-Holds q x xs v = l_pop_nodes q.length q.nodes q.left_idx x xs v.size v.short v.layout

pub l_pop-empty : (q : Deque) → Holds q [] → l_pop q ≡ deque_empty
unfolding l_pop
l_pop-empty q v = let e : (q.length == 0) ≡ true = ground (arith, v.size) in rw e refl
