-- ===== src/Bloom/Answers.antt =====
-- What add and exists of internal/eval/type_bloomfilter.go answer.
use dice_db_distributed_syst.Prelude.{
  ℕ, zero, suc, ◌+◌, ◌*◌, ◌/◌, ◌%◌, ◌≤◌, ◌<◌, ◌≡◌, refl, sym, ap, ◌∙◌, ◌≢◌, ◌↔◌, inl, inr, Bool,
  true, false, List, [], ◌∷◌, arith, ◌==◌, if◌then◌else◌, ==_iff, if_both, Bool-cases, length,
  replicate, All, Str, nat_eq, str_eq,
}
use native.Mathlib.Nat.{mod-lt}
use dice_db_distributed_syst.Bloom.{
  Bloom, set_bit, is_bit_set, new_bloom_filter, indexes, add_loop, BloomReply, integer_zero,
  integer_one, add, all_set, exists,
}
use dice_db_distributed_syst.Bloom.Laws.{
  AreBytes, set_bit-own, set_bit-keeps, set_byte-AreBytes, length-set_byte,
}

-- A filter's bits are those of its bytes.
pub record IsFilter (b : Bloom) : Type 0 where
  pub bytes : AreBytes b.bitset
  pub size : b.bits ≡ length b.bitset * 8
  pub positive : 0 < b.bits

abbrev IsRoomy : ℕ → List ℕ → Type 0
IsRoomy n = All (λ v. v < n * 8)

indexes-IsRoomy :
    (fns : List (Str → ℕ)) (n bits : ℕ) (value : Str)
    → bits ≡ n * 8
    → 0 < bits
    → IsRoomy n (indexes fns bits value)
unfolding indexes
indexes-IsRoomy [] n bits value e p = tt
indexes-IsRoomy (fn ∷ fns) n bits value e p =
    (omega (arith, mod-lt (fn value) p), indexes-IsRoomy fns n bits value e p)

set_bit-AreBytes : (v : ℕ) (buf : Str) → AreBytes buf → AreBytes (set_bit v buf)
unfolding set_bit
set_bit-AreBytes v buf h = set_byte-AreBytes (v / 8) v buf h

length-set_bit : (v : ℕ) (buf : Str) → length (set_bit v buf) ≡ length buf
unfolding set_bit
length-set_bit v buf = length-set_byte (v / 8) v buf

-- One index of the loop of add.
abbrev mark : ℕ → Str → Str
mark v buf = if is_bit_set v buf then buf else set_bit v buf

mark-own :
    (v : ℕ) (buf : Str) → AreBytes buf → v < length buf * 8 → is_bit_set v (mark v buf) ≡ true
mark-own v buf h lt = elim (Bool-cases (is_bit_set v buf)) [
  | inl e ↦ rw e e
  | inr e ↦ rw e (set_bit-own v buf h lt)
]

mark-keeps :
    (v c : ℕ) (buf : Str)
    → AreBytes buf
    → is_bit_set c buf ≡ true
    → is_bit_set c (mark v buf) ≡ true
mark-keeps v c buf h k =
    if_both (λ x. is_bit_set c x ≡ true) (is_bit_set v buf) k (set_bit-keeps v c buf h k)

mark-AreBytes : (v : ℕ) (buf : Str) → AreBytes buf → AreBytes (mark v buf)
mark-AreBytes v buf h = if_both AreBytes (is_bit_set v buf) h (set_bit-AreBytes v buf h)

length-mark : (v : ℕ) (buf : Str) → length (mark v buf) ≡ length buf
length-mark v buf =
    if_both (λ x. length x ≡ length buf) (is_bit_set v buf) refl (length-set_bit v buf)

-- The loop on the bits alone.
abbrev marks : List ℕ → Str → Str
marks [] buf = buf
marks (v ∷ vs) buf = marks vs (mark v buf)

add_loop-marks : (vs : List ℕ) (count : ℕ) (buf : Str) → (add_loop vs count buf).1 ≡ marks vs buf
unfolding add_loop
add_loop-marks [] count buf = refl
add_loop-marks (v ∷ vs) count buf = add_loop-marks vs _ _

marks-keeps :
    (vs : List ℕ) (c : ℕ) (buf : Str)
    → AreBytes buf
    → is_bit_set c buf ≡ true
    → is_bit_set c (marks vs buf) ≡ true
marks-keeps [] c buf h k = k
marks-keeps (v ∷ vs) c buf h k =
    marks-keeps vs c (mark v buf) (mark-AreBytes v buf h) (mark-keeps v c buf h k)

marks-AreBytes : (vs : List ℕ) (buf : Str) → AreBytes buf → AreBytes (marks vs buf)
marks-AreBytes [] buf h = h
marks-AreBytes (v ∷ vs) buf h = marks-AreBytes vs (mark v buf) (mark-AreBytes v buf h)

length-marks : (vs : List ℕ) (buf : Str) → length (marks vs buf) ≡ length buf
length-marks [] buf = refl
length-marks (v ∷ vs) buf = length-marks vs (mark v buf) ∙ length-mark v buf

all_set-keeps :
    (cs vs : List ℕ) (buf : Str)
    → AreBytes buf
    → all_set cs buf ≡ integer_one
    → all_set cs (marks vs buf) ≡ integer_one
unfolding all_set
all_set-keeps [] vs buf h k = refl
all_set-keeps (c ∷ cs) vs buf h k = elim (Bool-cases (is_bit_set c buf)) [
  | inl e ↦
      let rest : all_set cs buf ≡ integer_one = ground arith in
      rw (marks-keeps vs c buf h e) (all_set-keeps cs vs buf h rest)
  | inr e ↦ absurd (ground arith)
]

all_set-marks :
    (vs : List ℕ) (buf : Str)
    → AreBytes buf
    → IsRoomy (length buf) vs
    → all_set vs (marks vs buf) ≡ integer_one
unfolding all_set
all_set-marks [] buf h r = refl
all_set-marks (v ∷ vs) buf h r =
    let h' = mark-AreBytes v buf h in
    let r' : IsRoomy (length (mark v buf)) vs = rw (length-mark v buf) r.1 in
    rw (marks-keeps vs v (mark v buf) h' (mark-own v buf h r.0))
      (all_set-marks vs (mark v buf) h' r')

abbrev next_count : Bool → ℕ → ℕ
next_count hit count = if hit then count + 1 else count

add_loop-cons :
    (v : ℕ) (vs : List ℕ) (count : ℕ) (buf : Str) (hit : Bool)
    → is_bit_set v buf ≡ hit
    → add_loop (v ∷ vs) count buf
      ≡ add_loop vs (next_count hit count) (if hit then buf else set_bit v buf)
unfolding add_loop
add_loop-cons v vs count buf hit e =
    ap (λ b. add_loop vs (next_count b count) (if b then buf else set_bit v buf)) e

all_set-cons :
    (v : ℕ) (vs : List ℕ) (buf : Str) (hit : Bool)
    → is_bit_set v buf ≡ hit
    → all_set (v ∷ vs) buf ≡ (if hit then all_set vs buf else integer_zero)
unfolding all_set
all_set-cons v vs buf true e = rw e refl
all_set-cons v vs buf false e = rw e refl

-- The count of the loop: all indexes, if and only if all bits were set before.
add_loop-count :
    (vs : List ℕ) (count : ℕ) (buf : Str)
    → ((add_loop vs count buf).0 ≤ count + length vs)
      × (all_set vs buf ≡ integer_one → (add_loop vs count buf).0 ≡ count + length vs)
      × ((add_loop vs count buf).0 ≡ count + length vs → all_set vs buf ≡ integer_one)
unfolding add_loop all_set
add_loop-count [] count buf = (omega arith, λ k. omega arith, λ k. refl)
add_loop-count (v ∷ vs) count buf = elim (Bool-cases (is_bit_set v buf)) [
  | inl e ↦
      let r = add_loop-count vs (count + 1) buf in
      rw (add_loop-cons v vs count buf true e, all_set-cons v vs buf true e)
        (omega (arith, r.0), λ k. r.1 k ∙ omega arith, λ k. r.2 (k ∙ omega arith))
  | inr e ↦
      let r = add_loop-count vs count (set_bit v buf) in
      rw (add_loop-cons v vs count buf false e, all_set-cons v vs buf false e)
        (omega (arith, r.0), λ k. absurd (ground arith), λ k. absurd (omega (arith, r.0, k)))
]

abbrev Marked : Bloom → List ℕ → BloomReply × Bloom → Type 0
Marked b vs r = (r.1.hash_fns ≡ b.hash_fns) × (r.1.bits ≡ b.bits) × (r.1.bitset ≡ marks vs b.bitset)

add-Marked :
    (x : ℕ) (xs : Str) (b : Bloom) → Marked b (indexes b.hash_fns b.bits (x ∷ xs)) (add (x ∷ xs) b)
unfolding add
add-Marked x xs b =
    let vs = indexes b.hash_fns b.bits (x ∷ xs) in
    let m = add_loop-marks vs 0 b.bitset in
    if_both (Marked b vs) ((add_loop vs 0 b.bitset).0 == length vs) (refl, refl, m) (refl, refl, m)

-- The filter stays one: as many bits as its bytes have.
pub add-IsFilter : (value : Str) (b : Bloom) → IsFilter b → IsFilter (add value b).1
unfolding add
add-IsFilter [] b h = h
add-IsFilter (x ∷ xs) b h =
    let vs = indexes b.hash_fns b.bits (x ∷ xs) in
    let m = add-Marked x xs b in
    record {
      bytes = rw (m.2) (marks-AreBytes vs b.bitset h.bytes);
      size = rw (m.1, m.2, length-marks vs b.bitset) h.size;
      positive = rw (m.1) h.positive;
    }

-- No add takes a value away.
pub exists-add_keeps :
    (value w : Str) (b : Bloom)
    → IsFilter b
    → exists w b ≡ integer_one
    → exists w (add value b).1 ≡ integer_one
unfolding exists add
exists-add_keeps [] w b h k = k
exists-add_keeps (x ∷ xs) [] b h k = absurd (ground arith)
exists-add_keeps (x ∷ xs) (y ∷ ys) b h k =
    let m = add-Marked x xs b in
    rw (m.0, m.1, m.2)
      (all_set-keeps (indexes b.hash_fns b.bits (y ∷ ys)) (indexes b.hash_fns b.bits (x ∷ xs))
        b.bitset h.bytes k)

exists-add_own :
    (x : ℕ) (xs : Str) (b : Bloom) → IsFilter b → exists (x ∷ xs) (add (x ∷ xs) b).1 ≡ integer_one
unfolding exists
exists-add_own x xs b h =
    let m = add-Marked x xs b in
    let r = indexes-IsRoomy b.hash_fns (length b.bitset) b.bits (x ∷ xs) h.size h.positive in
    rw (m.0, m.1, m.2) (all_set-marks (indexes b.hash_fns b.bits (x ∷ xs)) b.bitset h.bytes r)

all_hit : (n m : ℕ) → (n == m) ≡ false → n ≢ 0 + m
all_hit n m e = ground arith

-- Adding a value answers 0 exactly if the filter says before that the value exists.
add-exists :
    (value : Str) (b : Bloom) → ((add value b).0 ≡ integer_zero) ↔ (exists value b ≡ integer_one)
unfolding add exists
add-exists [] b = ground arith
add-exists (x ∷ xs) b =
    let vs = indexes b.hash_fns b.bits (x ∷ xs) in
    let c = add_loop-count vs 0 b.bitset in
    elim (Bool-cases ((add_loop vs 0 b.bitset).0 == length vs)) [
      | inl e ↦ let n = (==_iff _ _).0 e in rw e (λ k. c.2 (n ∙ omega arith), λ k. refl)
      | inr e ↦ rw e (
        λ k. absurd (ground arith),
        λ k. absurd (all_hit (add_loop vs 0 b.bitset).0 (length vs) e (c.1 k)),
      )
    ]

abbrev pub add_all : List Str → Bloom → Bloom
add_all [] b = b
add_all (v ∷ vs) b = add_all vs (add v b).1

add_all-IsFilter : (vs : List Str) (b : Bloom) → IsFilter b → IsFilter (add_all vs b)
add_all-IsFilter [] b h = h
add_all-IsFilter (v ∷ vs) b h = add_all-IsFilter vs (add v b).1 (add-IsFilter v b h)

exists-add_all_keeps :
    (vs : List Str) (w : Str) (b : Bloom)
    → IsFilter b
    → exists w b ≡ integer_one
    → exists w (add_all vs b) ≡ integer_one
exists-add_all_keeps [] w b h k = k
exists-add_all_keeps (v ∷ vs) w b h k =
    exists-add_all_keeps vs w (add v b).1 (add-IsFilter v b h) (exists-add_keeps v w b h k)

zeros-AreBytes : (n : ℕ) → AreBytes (replicate n 0)
zeros-AreBytes zero = tt
zeros-AreBytes (suc n) = (omega arith, zeros-AreBytes n)

length-zeros : (n : ℕ) → length {A = ℕ} (replicate n 0) ≡ n
length-zeros zero = refl
length-zeros (suc n) = ap suc (length-zeros n)

pub new_bloom_filter-IsFilter :
    (fns : List (Str → ℕ)) (bits : ℕ) → 0 < bits → IsFilter (new_bloom_filter fns bits)
unfolding new_bloom_filter
new_bloom_filter-IsFilter fns bits h =
    let n = if bits % 8 == 0 then bits / 8 else bits / 8 + 1 in
    let p : 0 < n = ground arith in
    record {
      bytes = zeros-AreBytes n;
      size = ap (λ k. k * 8) (sym (length-zeros n));
      positive = omega (arith, p);
    }

-- A value that was added to a new filter with at least one bit exists in it, whatever was added
-- before and after.
pub exists-add_all :
    (before after : List Str) (x : ℕ) (xs : Str) (fns : List (Str → ℕ)) (bits : ℕ)
    → 0 < bits
    → exists (x ∷ xs) (add_all after (add (x ∷ xs) (add_all before (new_bloom_filter fns bits))).1)
      ≡ integer_one
exists-add_all before after x xs fns bits h =
    let b = add_all before (new_bloom_filter fns bits) in
    let p =
      add_all-IsFilter before (new_bloom_filter fns bits) (new_bloom_filter-IsFilter fns bits h) in
    exists-add_all_keeps after (x ∷ xs) (add (x ∷ xs) b).1 (add-IsFilter (x ∷ xs) b p)
      (exists-add_own x xs b p)
