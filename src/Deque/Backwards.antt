-- ===== src/Deque/Backwards.antt =====
-- The lengths that internal/eval/deque.go writes backwards after its entries, found from the end.
use dice_db_distributed_syst.Prelude.{
  ℕ, zero, suc, ◌+◌, ◌*◌, ◌/◌, ◌%◌, ◌^◌, ◌≤◌, ◌<◌, ◌≡◌, refl, sym, ap, ◌∙◌, inl, inr, true, false,
  some, List, [], ◌∷◌, ◌++◌, arith, ltb, leb, ◌==◌, ==_iff, if_both, Bool-cases, length, Str,
  nat_eq, str_eq,
}
use dice_db_distributed_syst.Varint.{
  bit_shifts, get_lsb, continued, ended, decode_loop, get_encode_uint_size,
}
use dice_db_distributed_syst.Varint.RoundTrip.{get_lsb-continued, get_lsb-ended, split}
use dice_db_distributed_syst.Deque.{rev_onto, rev_loop, end_first, encode_uint_rev}
use dice_db_distributed_syst.Deque.Codec.{length-rev_loop}
use dice_db_distributed_syst.Deque.Basic.{scan_back}

abbrev end_last : Str → Str
end_last [] = []
end_last (b ∷ []) = ended b ∷ []
end_last (b ∷ c ∷ l) = b ∷ end_last (c ∷ l)

-- The powers of 128, so that a number of n digits to that base lies below the n-th.
abbrev power : ℕ → ℕ
power zero = 1
power (suc n) = 128 * power n

abbrev AreSevens : ℕ → List ℕ → Type 0
AreSevens zero ws = Unit
AreSevens (suc n) [] = zero ≡ 1
AreSevens (suc n) (w ∷ ws) = (w ≡ 7) × AreSevens n ws

-- What is found from the end: the bytes of the number, and nothing of what follows.
pub record Reads (bs : Str) (k : ℕ) : Type 0 where
  pub scans : (rest : Str) → scan_back (bs ++ rest) ≡ some (bs, rest)
  pub decodes : (v m : ℕ) → v + k * m < 2 ^ 64 → decode_loop v m bs ≡ v + k * m

continued-big : (x : ℕ) → ltb (continued (get_lsb x 7)) 128 ≡ false
unfolding get_lsb
continued-big x = ground arith

ended-small : (b : ℕ) → ltb (ended b) 128 ≡ true
ended-small b = ground arith

Reads-one : (k : ℕ) → k < 128 → Reads (ended (continued (get_lsb k 7)) ∷ []) k
unfolding scan_back decode_loop
Reads-one k h = record {
  scans = λ rest. rw (scan_back, ended-small (continued (get_lsb k 7))) refl;
  decodes = λ v m b. let e : k % 128 ≡ k = omega arith in rw (get_lsb-ended k, e) (omega arith);
}

Reads-zero : Reads (0 ∷ []) 0
unfolding scan_back decode_loop get_lsb
Reads-zero = record { scans = λ rest. refl; decodes = λ v m b. omega arith }

Reads-cons : (k : ℕ) (bs : Str) → Reads bs (k / 128) → Reads (continued (get_lsb k 7) ∷ bs) k
unfolding scan_back decode_loop
Reads-cons k bs r = record {
  scans = λ rest. rw (scan_back, continued-big k, r.scans rest) refl;
  decodes = λ v m b.
      let s = split k m in
      let w = v + k % 128 * m in
      let small_w : w % 2 ^ 64 ≡ w = omega arith in
      rw (decode_loop, get_lsb-continued k, small_w)
        (r.decodes w (m * 128) (omega arith) ∙ omega arith);
}

power-pos : (n : ℕ) → 1 ≤ power n
power-pos zero = omega arith
power-pos (suc n) = omega (arith, power-pos n)

end_last-cons : (b : ℕ) (l : Str) → 0 < length l → end_last (b ∷ l) ≡ b ∷ end_last l
end_last-cons b [] h = absurd (omega arith)
end_last-cons b (c ∷ l) h = refl

least : (n k : ℕ) → power (suc n) ≤ k + 1 → k / 128 ≡ 0 → n ≡ 0
least zero k l y = refl
least (suc n) k l y = absurd (omega (arith, power-pos n))

-- A number of n digits, or one less than the least of them.
Reads-rev_loop :
    (ws : List ℕ) (n k : ℕ)
    → AreSevens (suc n) ws
    → k < power (suc n)
    → power n ≤ k + 1
    → Reads (end_last (rev_loop ws (suc n) k)) k
unfolding rev_loop
Reads-rev_loop [] n k s h l = absurd (ground arith)
Reads-rev_loop (w ∷ ws) zero k s h l = rw (s.0) (
    if_both (λ bs. Reads (end_last (continued (get_lsb k 7) ∷ bs)) k) (k / 2 ^ 7 == 0)
      (Reads-one k (omega arith)) (Reads-one k (omega arith)))
Reads-rev_loop (w ∷ ws) (suc n) k s h l =
    let c = continued (get_lsb k 7) in
    rw (s.0) (elim (Bool-cases (k / 2 ^ 7 == 0)) [
      | inl e ↦
          let y : k / 128 ≡ 0 = (==_iff _ _).0 e in
          let one : n ≡ 0 = least n k l y in rw (e, one) (Reads-cons k (0 ∷ []) (rw y Reads-zero))
      | inr e ↦
          let r = Reads-rev_loop ws n (k / 128) (s.1) (omega arith) (omega arith) in
          let some_bytes : 0 < length (rev_loop ws (suc n) (k / 128)) =
            omega (arith, length-rev_loop ws (suc n) (k / 128)) in
          rw (e, end_last-cons c (rev_loop ws (suc n) (k / 128)) some_bytes) (Reads-cons k _ r)
    ])

rev_onto-append : (a b acc : Str) → rev_onto (a ++ b) acc ≡ rev_onto b (rev_onto a acc)
rev_onto-append [] b acc = refl
rev_onto-append (x ∷ a) b acc = rev_onto-append a b (x ∷ acc)

pub rev_onto-twice : (l acc : Str) → rev_onto (rev_onto l acc) [] ≡ rev_onto acc l
rev_onto-twice [] acc = refl
rev_onto-twice (x ∷ l) acc = rev_onto-twice l (x ∷ acc)

end_last-rev :
    (b : ℕ) (l acc : Str) → rev_onto (end_last (b ∷ l)) acc ≡ end_first (rev_onto (b ∷ l) acc)
end_last-rev b [] acc = refl
end_last-rev b (c ∷ l) acc = end_last-rev c l (b ∷ acc)

rev-end_first : (l : Str) → rev_onto (end_first (rev_onto l [])) [] ≡ end_last l
rev-end_first [] = refl
rev-end_first (b ∷ l) =
    ap (λ k. rev_onto k []) (sym (end_last-rev b l [])) ∙ rev_onto-twice (end_last (b ∷ l)) []

Reads-encode :
    (n k : ℕ)
    → AreSevens (suc n) bit_shifts
    → k < power (suc n)
    → power n ≤ k + 1
    → Reads (rev_onto (encode_uint_rev (suc n) k) []) k
unfolding encode_uint_rev
Reads-encode n k s h l =
    rw (rev-end_first (rev_loop bit_shifts (suc n) k)) (Reads-rev_loop bit_shifts n k s h l)

-- The length of an entry, in the room that is computed for it.
pub Reads-backlen :
    (k : ℕ) → k < 2 ^ 35 → Reads (rev_onto (encode_uint_rev (get_encode_uint_size k) k) []) k
unfolding get_encode_uint_size
Reads-backlen k h = elim (Bool-cases (leb k 127)) [
  | inl a ↦ rw a (Reads-encode 0 k (refl, tt) (ground arith) (omega arith))
  | inr a ↦ elim (Bool-cases (ltb k 16383)) [
    | inl b ↦ rw (a, b) (Reads-encode 1 k (refl, (refl, tt)) (ground arith) (ground arith))
    | inr b ↦ elim (Bool-cases (ltb k 2097151)) [
      | inl c ↦
          rw (a, b, c) (Reads-encode 2 k (refl, (refl, (refl, tt))) (ground arith) (ground arith))
      | inr c ↦ elim (Bool-cases (ltb k 268435455)) [
        | inl d ↦
            rw (a, b, c, d)
              (Reads-encode 3 k (refl, (refl, (refl, (refl, tt)))) (ground arith) (ground arith))
        | inr d ↦
            rw (a, b, c, d)
              (Reads-encode 4 k (refl, (refl, (refl, (refl, (refl, tt))))) (omega arith)
                (ground arith))
      ]
    ]
  ]
]
