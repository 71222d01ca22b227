-- ===== src/Deque/Linked/Heads.antt =====
-- LPush of Deque in internal/eval/deque.go.
use dice_db_distributed_syst.Prelude.{
  ℕ, zero, suc, ◌+◌, ◌-◌, ◌≤◌, ◌<◌, ◌≡◌, refl, sym, ap, ◌∙◌, ◌≢◌, ◌⊎◌, inl, inr, true, none, some,
  List, [], ◌∷◌, ◌++◌, arith, ltb, leb, ◌==◌, if◌then◌else◌, Bool-cases, length, drop, take,
  replicate, length-append, Str, nat_eq, str_eq,
}
use mathlib.Core.List.{append_assoc, append-nil}
use dice_db_distributed_syst.Deque.{encode_deq_entry, get_encode_deq_entry_size}
use dice_db_distributed_syst.Deque.Codec.{length-encode_deq_entry}
use dice_db_distributed_syst.Deque.Refines.{encode_all, drop-append}
use dice_db_distributed_syst.Deque.Linked.{Node, min_deque_node_size, node_capacity, push_head}
use dice_db_distributed_syst.Deque.Linked.Laws.{IsSized, Spread, Layout, cons-ne, node_capacity-le}

take_within : (k : ℕ) (a b : Str) → k ≤ length a → take k (a ++ b) ≡ take k a
take_within zero [] b h = refl
take_within zero (x ∷ a) b h = refl
take_within (suc k) [] b h = absurd (omega arith)
take_within (suc k) (x ∷ a) b h = ap (λ l. x ∷ l) (take_within k a b (omega arith))

length-take : (k : ℕ) (a : Str) → k ≤ length a → length (take k a) ≡ k
length-take zero [] h = refl
length-take zero (x ∷ a) h = refl
length-take (suc k) [] h = absurd (omega arith)
length-take (suc k) (x ∷ a) h = omega (arith, length-take k a (omega arith))

length-replicate : (n : ℕ) → length {A = ℕ} (replicate n 0) ≡ n
length-replicate zero = refl
length-replicate (suc n) = omega (arith, length-replicate n)

pub drop-junk :
    (left : ℕ) (junk b buf : Str) → buf ≡ junk ++ b → length junk ≡ left → drop left buf ≡ b
drop-junk left junk b buf e j =
    ap (drop left) e ∙ ap (λ n. drop n (junk ++ b)) (sym j) ∙ drop-append junk b

pub no_junk : (junk : Str) → length junk ≡ 0 → junk ≡ []
no_junk [] h = refl
no_junk (x ∷ junk) h = absurd (omega arith)

Layout-new_head :
    (x : Str) (ns : List Node) (ys : List Str)
    → IsSized x
    → Spread ns ys
    → let size = get_encode_deq_entry_size x in
      Layout
        ((record {
          buf = replicate (node_capacity size - size) 0 ++ encode_deq_entry x;
          cap = node_capacity size;
        })
          ∷ ns)
        (node_capacity size - size)
        (x ∷ ys)
Layout-new_head x ns ys h s =
    let size = get_encode_deq_entry_size x in
    let zeros = replicate (node_capacity size - size) 0 in
    (
      zeros,
      x ∷ [],
      ys,
      refl,
      ap (λ l. zeros ++ l) (sym (append-nil (encode_deq_entry x))),
      length-replicate (node_capacity size - size),
      λ k. absurd (cons-ne x [] k),
      omega (
        arith,
        length-append zeros (encode_deq_entry x),
        length-replicate (node_capacity size - size),
        length-encode_deq_entry x h,
        node_capacity-le size,
      ),
      s,
    )

module _ (grown : ℕ → ℕ → ℕ) (grows : (room n : ℕ) → n ≤ grown room n) where
  -- The head after a push, unless it panics.
  pub push_head-Layout :
      (x : Str) (ns : List Node) (left : ℕ) (xs : List Str)
      → IsSized x
      → Layout ns left xs
      → ((min_deque_node_size < left)
          × (left < get_encode_deq_entry_size x)
          × (push_head grown (get_encode_deq_entry_size x) (encode_deq_entry x) left ns ≡ none))
        ⊎ ((ns' : List Node) × (left' : ℕ) × (push_head grown
                (get_encode_deq_entry_size x)
                (encode_deq_entry x)
                left
                ns
              ≡ some (ns', left'))
            × Layout ns' left' (x ∷ xs))
  unfolding push_head
  push_head-Layout x [] left xs h (z, e) =
      let size = get_encode_deq_entry_size x in
      let t : (left == 0) ≡ true = ground arith in
      inr (
        (record {
          buf = replicate (node_capacity size - size) 0 ++ encode_deq_entry x;
          cap = node_capacity size;
        })
            ∷ [],
        node_capacity size - size,
        rw t refl,
        Layout-new_head x [] xs h e,
      )
  push_head-Layout x (n ∷ ns) left xs h (junk, g, rest, e, b, j, empty, c, s) =
      let size = get_encode_deq_entry_size x in
      let entry = encode_deq_entry x in
      let whole : drop left n.buf ≡ encode_all g = drop-junk left junk (encode_all g) n.buf b j in
      elim (Bool-cases (leb size left)) [
        | inl t ↦
            let k = left - size in
            let front : take k n.buf ≡ take k junk =
              ap (take k) b ∙ take_within k junk (encode_all g) (ground (arith, j)) in
            let taken : length (take k junk) ≡ k = length-take k junk (omega (arith, j)) in
            let now : take k n.buf ++ entry ++ drop left n.buf
                ≡ take k junk ++ entry ++ encode_all g =
              ap (λ l. l ++ entry ++ drop left n.buf) front
              ∙ ap (λ l. take k junk ++ entry ++ l) whole in
            inr (
              (record n { buf = take k n.buf ++ entry ++ drop left n.buf }) ∷ ns,
              k,
              rw t refl,
              (
                take k junk,
                x ∷ g,
                rest,
                ap (λ l. x ∷ l) e,
                now ∙ append_assoc (take k junk) entry (encode_all g),
                taken,
                λ q. absurd (cons-ne x g q),
                ground (
                  arith,
                  ap length now,
                  ap length b,
                  length-append (take k junk ++ entry) (encode_all g),
                  length-append (take k junk) entry,
                  length-append junk (encode_all g),
                  length-encode_deq_entry x h,
                ),
                s,
              ),
            )
        | inr t ↦ elim (Bool-cases (left == 0)) [
          | inl u ↦
              let none_there : junk ≡ [] = no_junk junk (ground (arith, j)) in
              let full : g ≢ [] = λ k. ground (arith, (empty k).1) in
              inr (
                (record {
                  buf = replicate (node_capacity size - size) 0 ++ entry;
                  cap = node_capacity size;
                })
                    ∷ n
                    ∷ ns,
                node_capacity size - size,
                rw (t, u) refl,
                Layout-new_head x (n ∷ ns) xs h
                    (g, rest, e, b ∙ ap (λ l. l ++ encode_all g) none_there, full, c, s),
              )
          | inr u ↦ elim (Bool-cases (ltb min_deque_node_size left)) [
            | inl v ↦ inl (ground arith, ground arith, rw (t, u, v) refl)
            | inr v ↦
                let room = size + min_deque_node_size - left in
                let buf = entry ++ drop left n.buf in
                let cap : ℕ = if leb (length buf) room then room else grown room (length buf) in
                inr (
                  (record { buf = buf; cap = cap }) ∷ ns,
                  0,
                  rw (t, u, v) refl,
                  (
                    [],
                    x ∷ g,
                    rest,
                    ap (λ l. x ∷ l) e,
                    ap (λ l. entry ++ l) whole,
                    refl,
                    λ q. absurd (cons-ne x g q),
                    ground (arith, grows room (length buf)),
                    s,
                  ),
                )
          ]
        ]
      ]
