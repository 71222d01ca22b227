-- ===== src/Eval/ByteArray/Counts.antt =====
-- popcount and BitCount of internal/eval/bytearray.go count ones, and so does BITCOUNT's count over a
-- range of bits, from its start to its end or to the end of the last byte.
use dice_db_distributed_syst.Prelude.{
  ℕ, zero, suc, ◌+◌, ◌-◌, ◌*◌, ◌/◌, ◌%◌, ◌≤◌, ◌<◌, ◌≡◌, refl, sym, ap, ◌∙◌, inl, inr, Bool, true,
  false, ◌&&◌, ◌||◌, none, some, [], ◌∷◌, arith, ltb, leb, ◌==◌, if◌then◌else◌, ==_iff, Bool-cases,
  length, drop, Str, nat_eq, str_eq,
}
use Prim.Native.Nat.{bit_and, min}
use dice_db_distributed_syst.Eval.ByteArray.{get_bit, popcount, bit_count}
use dice_db_distributed_syst.Eval.ByteArray.Laws.{all_below, all_below_lem, AreBytes, get_bit-cons}
use dice_db_distributed_syst.Eval.Bits.Count.{
  bit_of, ones_count8, ones_of, from_mask, to_mask, byte_at, count_between,
}

-- The ones among the first n bits, as GetBit reads them.
abbrev pub bit_at : ℕ → Str → ℕ
bit_at i b = elim (get_bit i b) [ none ↦ 0 | some v ↦ bit_of v ]

abbrev pub ones_upto : ℕ → Str → ℕ
ones_upto zero b = 0
ones_upto (suc n) b = ones_upto n b + bit_at n b

popcount_table : all_below 256 (λ x. popcount x == ones_count8 x) ≡ true
unfolding popcount ones_count8 all_below
popcount_table = refl

popcount-ones_count8 : (x : ℕ) → x < 256 → popcount x ≡ ones_count8 x
popcount-ones_count8 x h =
    (==_iff _ _).0 (all_below_lem 256 (λ y. popcount y == ones_count8 y) x popcount_table h)

eight : (x : ℕ) (b : Str) → ones_upto 8 (x ∷ b) ≡ ones_count8 x
unfolding get_bit ones_count8
eight x b = omega arith

ones_upto-cons : (n x : ℕ) (b : Str) → ones_upto (n + 8) (x ∷ b) ≡ ones_count8 x + ones_upto n b
ones_upto-cons zero x b = eight x b ∙ omega arith
ones_upto-cons (suc n) x b =
    let e : bit_at (n + 8) (x ∷ b) ≡ bit_at n b =
      ap (λ t. elim t [ none ↦ 0 | some v ↦ bit_of v ]) (get_bit-cons n x b) in
    let m : suc n + 8 ≡ suc (n + 8) = omega arith in rw m (omega (arith, ones_upto-cons n x b, e))

-- The bits of whole bytes, and some more.
ones_upto-bytes :
    (k r : ℕ) (b : Str)
    → k ≤ length b
    → ones_upto (8 * k + r) b ≡ ones_of k b + ones_upto r (drop k b)
unfolding ones_of
ones_upto-bytes zero r b h =
    let e : 8 * 0 + r ≡ r = omega arith in
    let f : 0 + ones_upto r b ≡ ones_upto r b = omega arith in rw (e, f) refl
ones_upto-bytes (suc k) r [] h = absurd (omega arith)
ones_upto-bytes (suc k) r (x ∷ b) h =
    let e : 8 * suc k + r ≡ 8 * k + r + 8 = omega arith in
    rw e (omega (arith, ones_upto-cons (8 * k + r) x b, ones_upto-bytes k r b (omega arith)))

bit_count-ones_of : (b : Str) → AreBytes b → bit_count b ≡ ones_of (length b) b
unfolding bit_count ones_of
bit_count-ones_of [] h = refl
bit_count-ones_of (x ∷ b) h = omega (arith, popcount-ones_count8 x h.0, bit_count-ones_of b h.1)

-- BitCount is the number of the positions at which GetBit reads a one.
pub bit_count-ones_upto : (b : Str) → AreBytes b → bit_count b ≡ ones_upto (8 * length b) b
bit_count-ones_upto b h =
    let e : 8 * length b ≡ 8 * length b + 0 = omega arith in
    rw e (omega (arith, bit_count-ones_of b h, ones_upto-bytes (length b) 0 b (omega arith)))

-- A byte under a mask.
mask_table :
    all_below 256 (λ x. all_below 8 (λ r.
      (ones_count8 (bit_and x (from_mask r)) + ones_upto r (x ∷ []) == ones_count8 x)
      && (ones_count8 (bit_and x (to_mask r)) == ones_upto (suc r) (x ∷ []))
      && all_below 8 (λ e.
        ltb e r
        || (ones_count8 (bit_and x (bit_and (from_mask r) (to_mask e))) + ones_upto r (x ∷ [])
            == ones_upto (suc e) (x ∷ [])))))
    ≡ true
unfolding all_below ones_count8 get_bit
mask_table = refl

abbrev masks : ℕ → ℕ → ℕ → Bool
masks x r e =
    ltb e r
    || (ones_count8 (bit_and x (bit_and (from_mask r) (to_mask e))) + ones_upto r (x ∷ [])
        == ones_upto (suc e) (x ∷ []))

abbrev mask_facts : ℕ → ℕ → Bool
mask_facts x r =
    (ones_count8 (bit_and x (from_mask r)) + ones_upto r (x ∷ []) == ones_count8 x)
    && (ones_count8 (bit_and x (to_mask r)) == ones_upto (suc r) (x ∷ []))
    && all_below 8 (masks x r)

three : (a b c : Bool) → (a && b && c) ≡ true → (a ≡ true) × (b ≡ true) × (c ≡ true)
three true true c h = (refl, refl, h)
three true false c h = absurd (ground arith)
three false b c h = absurd (ground arith)

mask_lem :
    (x r : ℕ)
    → x < 256
    → r < 8
    → (ones_count8 (bit_and x (from_mask r)) + ones_upto r (x ∷ []) ≡ ones_count8 x)
      × (ones_count8 (bit_and x (to_mask r)) ≡ ones_upto (suc r) (x ∷ []))
      × (all_below 8 (masks x r) ≡ true)
mask_lem x r hx hr =
    let t = all_below_lem 256 (λ y. all_below 8 (mask_facts y)) x mask_table hx in
    let u = all_below_lem 8 (mask_facts x) r t hr in
    let (p, q, m) = three _ _ _ u in ((==_iff _ _).0 p, (==_iff _ _).0 q, m)

or_right : (a b : Bool) → (a || b) ≡ true → a ≡ false → b ≡ true
or_right true b h e = absurd (ground arith)
or_right false b h e = h

both_masks :
    (x r e : ℕ)
    → x < 256
    → r ≤ e
    → e < 8
    → ones_count8 (bit_and x (bit_and (from_mask r) (to_mask e))) + ones_upto r (x ∷ [])
      ≡ ones_upto (suc e) (x ∷ [])
both_masks x r e hx hr he =
    let t = all_below_lem 8 (masks x r) e ((mask_lem x r hx (omega arith)).2) he in
    let u : ltb e r ≡ false = ground arith in (==_iff _ _).0 (or_right _ _ t u)

ones_upto-head : (r x : ℕ) (b : Str) → r ≤ 8 → ones_upto r (x ∷ b) ≡ ones_upto r (x ∷ [])
unfolding get_bit
ones_upto-head zero x b h = refl
ones_upto-head (suc r) x b h =
    let e : r / 8 ≡ 0 = omega arith in
    let f : bit_at r (x ∷ b) ≡ bit_at r (x ∷ []) = rw (bit_at, get_bit, e) refl in
    omega (arith, ones_upto-head r x b (omega arith), f)

drop-byte_at : (k : ℕ) (b : Str) → k < length b → drop k b ≡ byte_at k b ∷ drop (suc k) b
drop-byte_at k [] h = absurd (omega arith)
drop-byte_at zero (x ∷ b) h = refl
drop-byte_at (suc k) (x ∷ b) h = drop-byte_at k b (omega arith)

byte_at-lt : (k : ℕ) (b : Str) → AreBytes b → k < length b → byte_at k b < 256
byte_at-lt k [] h lt = absurd (omega arith)
byte_at-lt zero (x ∷ b) h lt = h.0
byte_at-lt (suc k) (x ∷ b) h lt = byte_at-lt k b h.1 (omega arith)

ones_of-add :
    (k n : ℕ) (b : Str) → k ≤ length b → ones_of (k + n) b ≡ ones_of k b + ones_of n (drop k b)
unfolding ones_of
ones_of-add zero n b h = let e : 0 + n ≡ n = omega arith in rw e (omega arith)
ones_of-add (suc k) n [] h = absurd (omega arith)
ones_of-add (suc k) n (x ∷ b) h =
    let e : suc k + n ≡ suc (k + n) = omega arith in
    rw e (omega (arith, ones_of-add k n b (omega arith)))

ones_of-one : (k : ℕ) (b : Str) → k < length b → ones_of 1 (drop k b) ≡ ones_count8 (byte_at k b)
unfolding ones_of
ones_of-one k b h = rw (drop-byte_at k b h) (omega arith)

ones_upto-byte :
    (k r : ℕ) (b : Str)
    → k < length b
    → r ≤ 8
    → ones_upto (8 * k + r) b ≡ ones_of k b + ones_upto r (byte_at k b ∷ [])
ones_upto-byte k r b h hr =
    ones_upto-bytes k r b (omega arith)
    ∙ ap (λ t. ones_of k b + ones_upto r t) (drop-byte_at k b h)
    ∙ ap (λ t. ones_of k b + t) (ones_upto-head r (byte_at k b) (drop (suc k) b) hr)

-- In one byte, and over several.
one_byte :
    (a r e : ℕ) (b : Str)
    → AreBytes b
    → a < length b
    → r ≤ e
    → e < 8
    → ones_count8 (bit_and (byte_at a b) (bit_and (from_mask r) (to_mask e)))
        + ones_upto (8 * a + r) b
      ≡ ones_upto (8 * a + suc e) b
one_byte a r e b h lt hr he = omega (
  arith,
  ones_upto-byte a r b lt (omega arith),
  ones_upto-byte a (suc e) b lt (omega arith),
  both_masks (byte_at a b) r e (byte_at-lt a b h lt) hr he,
)

more_bytes :
    (a r d e : ℕ) (b : Str)
    → AreBytes b
    → a + 1 + d < length b
    → r < 8
    → e < 8
    → ones_count8 (bit_and (byte_at a b) (from_mask r))
        + ones_of d (drop (a + 1) b)
        + ones_count8 (bit_and (byte_at (a + 1 + d) b) (to_mask e))
        + ones_upto (8 * a + r) b
      ≡ ones_upto (8 * (a + 1 + d) + suc e) b
more_bytes a r d e b h lt hr he = omega (
  arith,
  ones_upto-byte a r b (omega arith) (omega arith),
  ones_upto-byte (a + 1 + d) (suc e) b lt (omega arith),
  (mask_lem (byte_at a b) r (byte_at-lt a b h (omega arith)) hr).0,
  (mask_lem (byte_at (a + 1 + d) b) e (byte_at-lt (a + 1 + d) b h lt) he).1,
  ones_of-add a 1 b (omega arith),
  ones_of-add (a + 1) d b (omega arith),
  ones_of-one a b (omega arith),
)

-- Where the count ends: in the last byte at its last bit.
abbrev pub end_of : ℕ → ℕ → ℕ
end_of end n = if leb n (end / 8 + 1) then 8 * n else end + 1

-- BITCOUNT over a range of bits that starts within the array counts the ones that GetBit reads
-- from its start to its end, where an end in the last byte or beyond stands for the end of the
-- array; the masks and whole bytes come to the same.
pub count_between-ones_upto :
    (start end : ℕ) (b : Str)
    → AreBytes b
    → start ≤ end
    → start / 8 < length b
    → count_between start end b + ones_upto start b ≡ ones_upto (end_of end (length b)) b
unfolding count_between
count_between-ones_upto start end b h le lt =
    let a = start / 8 in
    let e = min (end / 8) (length b - 1) in
    let o : ℕ = if e == length b - 1 then 7 else end % 8 in
    let first : start ≡ 8 * a + start % 8 = omega arith in
    let last : end_of end (length b) ≡ 8 * e + suc o = ground arith in
    let order : a ≤ e = omega arith in
    let room : e < length b = omega arith in
    let d = e - (a + 1) in
    elim (Bool-cases (a == e)) [
      | inl q ↦
          let within : start % 8 ≤ o = ground arith in
          let at : 8 * a + suc o ≡ end_of end (length b) = ground arith in
          rw q (
            ap
              (λ t.
                ones_count8 (bit_and (byte_at a b) (bit_and (from_mask (start % 8)) (to_mask o)))
                + ones_upto t b)
              first
            ∙ one_byte a (start % 8) o b h lt within (ground arith)
            ∙ ap (λ t. ones_upto t b) at)
      | inr q ↦
          let at : a + 1 + d ≡ e = ground arith in
          let count = λ (t : ℕ).
            ones_count8 (bit_and (byte_at a b) (from_mask (start % 8)))
            + ones_of d (drop (a + 1) b)
            + ones_count8 (bit_and (byte_at t b) (to_mask o)) in
          rw q (
            ap (λ t. count e + ones_upto t b) first
            ∙ ap (λ t. count t + ones_upto (8 * a + start % 8) b) (sym at)
            ∙ more_bytes a (start % 8) d o b h (omega (arith, at)) (omega arith) (ground arith)
            ∙ ap (λ t. ones_upto (8 * t + suc o) b) at
            ∙ ap (λ t. ones_upto t b) (sym last))
    ]
