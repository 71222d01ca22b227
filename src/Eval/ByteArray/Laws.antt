-- ===== src/Eval/ByteArray/Laws.antt =====
-- SetBit and GetBit of internal/eval/bytearray.go.
use dice_db_distributed_syst.Prelude.{
  ℕ, zero, suc, ◌+◌, ◌-◌, ◌/◌, ◌%◌, ◌^◌, ◌<◌, ◌≡◌, refl, sym, ap, ◌∙◌, inl, inr, Bool, true, false,
  not, ◌&&◌, Option, none, some, [], ◌∷◌, arith, ltb, ◌==◌, if◌then◌else◌, Bool-cases, length,
  get_elem?, All, Str, nat_eq, str_eq,
}
use dice_db_distributed_syst.Eval.ByteArray.{hit, put_weight, put_byte, set_bit, get_bit}

unfoldable pub all_below : ℕ → (ℕ → Bool) → Bool
all_below zero p = true
all_below (suc n) p = p n && all_below n p

pub all_below_lem : (n : ℕ) (p : ℕ → Bool) (x : ℕ) → all_below n p ≡ true → x < n → p x ≡ true
unfolding all_below
all_below_lem zero p x h lt = absurd (omega arith)
all_below_lem (suc n) p x h lt = ground (arith, all_below_lem n p x)

abbrev pub AreBytes : Str → Type 0
AreBytes = All (λ x. x < 256)

abbrev same : Bool → Bool → Bool
same true v = v
same false v = not v

same_lem : (u v : Bool) → same u v ≡ true → u ≡ v
same_lem true v h = sym h
same_lem false true h = absurd (ground arith)
same_lem false false h = refl

abbrev table : Bool → ℕ → ℕ → ℕ → Bool
table v x i j =
    same (hit (put_weight v (2 ^ i) x) (2 ^ j)) (if i == j then v else hit x (2 ^ j))
    && ltb (put_weight v (2 ^ i) x) 256

-- Over all bytes and bits.
set_table : all_below 256 (λ x. all_below 8 (λ i. all_below 8 (λ j. table true x i j))) ≡ true
unfolding all_below
set_table = refl

clear_table : all_below 256 (λ x. all_below 8 (λ i. all_below 8 (λ j. table false x i j))) ≡ true
unfolding all_below
clear_table = refl

table_lem : (v : Bool) (x i j : ℕ) → x < 256 → i < 8 → j < 8 → table v x i j ≡ true
table_lem true x i j hx hi hj =
    let t =
      all_below_lem 256 (λ y. all_below 8 (λ c. all_below 8 (λ d. table true y c d))) x set_table
        hx in
    let u = all_below_lem 8 (λ c. all_below 8 (λ d. table true x c d)) i t hi in
    all_below_lem 8 (λ d. table true x i d) j u hj
table_lem false x i j hx hi hj =
    let t =
      all_below_lem 256 (λ y. all_below 8 (λ c. all_below 8 (λ d. table false y c d))) x clear_table
        hx in
    let u = all_below_lem 8 (λ c. all_below 8 (λ d. table false x c d)) i t hi in
    all_below_lem 8 (λ d. table false x i d) j u hj

both : (a b : Bool) → (a && b) ≡ true → (a ≡ true) × (b ≡ true)
both true b h = (refl, h)
both false b h = absurd (ground arith)

pub put_weight_facts :
    (v : Bool) (x i j : ℕ)
    → x < 256
    → i < 8
    → j < 8
    → (hit (put_weight v (2 ^ i) x) (2 ^ j) ≡ (if i == j then v else hit x (2 ^ j)))
      × (put_weight v (2 ^ i) x < 256)
put_weight_facts v x i j hx hi hj =
    let (e, l) =
      both (same (hit (put_weight v (2 ^ i) x) (2 ^ j)) (if i == j then v else hit x (2 ^ j)))
        (ltb (put_weight v (2 ^ i) x) 256) (table_lem v x i j hx hi hj) in
    (same_lem _ _ e, ground arith)

-- A bit by the index of its byte and its place there.
abbrev pub bit_in : ℕ → ℕ → Str → Option Bool
bit_in idx w b = elim (get_elem? b idx) [ none ↦ none | some x ↦ some (hit x w) ]

pub record Changed (idx i : ℕ) (v : Bool) (b b' : Str) : Type 0 where
  pub result : put_byte idx (2 ^ i) v b ≡ some b'
  pub bytes : AreBytes b'
  pub size : length b' ≡ length b
  pub bits :
      (k j : ℕ)
      → j < 8
      → bit_in k (2 ^ j) b' ≡ (if k == idx && i == j then some v else bit_in k (2 ^ j) b)

head_bits :
    (i : ℕ) (v : Bool) (x : ℕ) (b : Str)
    → x < 256
    → i < 8
    → (k j : ℕ) → j < 8
    → bit_in k (2 ^ j) (put_weight v (2 ^ i) x ∷ b)
      ≡ (if k == 0 && i == j then some v else bit_in k (2 ^ j) (x ∷ b))
head_bits i v x b hx hi zero j hj =
    let (e, l) = put_weight_facts v x i j hx hi hj in
    ap some e ∙ elim (Bool-cases (i == j)) [ inl q ↦ rw q refl | inr q ↦ rw q refl ]
head_bits i v x b hx hi (suc k) j hj = let e : (suc k == 0) ≡ false = ground arith in rw e refl

pub put_byte-Changed :
    (idx i : ℕ) (v : Bool) (b : Str)
    → AreBytes b
    → i < 8
    → idx < length b
    → (b' : Str) × Changed idx i v b b'
unfolding put_byte
put_byte-Changed idx i v [] h hi lt = absurd (omega arith)
put_byte-Changed zero i v (x ∷ b) h hi lt = (
  put_weight v (2 ^ i) x ∷ b,
  record {
    result = refl;
    bytes = ((put_weight_facts v x i i h.0 hi hi).1, h.1);
    size = refl;
    bits = head_bits i v x b h.0 hi;
  },
)
put_byte-Changed (suc idx) i v (x ∷ b) h hi lt =
    let (b', c) = put_byte-Changed idx i v b h.1 hi (omega arith) in
    (
      x ∷ b',
      record {
        result = rw c.result refl;
        bytes = (h.0, c.bytes);
        size = omega (arith, c.size);
        bits = tail_bits idx i v x b b' c.bits;
      },
    )
  where
    tail_bits :
        (idx i : ℕ) (v : Bool) (x : ℕ) (b b' : Str)
        → ((k j : ℕ)
            → j < 8
            → bit_in k (2 ^ j) b' ≡ (if k == idx && i == j then some v else bit_in k (2 ^ j) b))
        → (k j : ℕ) → j < 8
        → bit_in k (2 ^ j) (x ∷ b')
          ≡ (if k == suc idx && i == j then some v else bit_in k (2 ^ j) (x ∷ b))
    tail_bits idx i v x b b' ih zero j hj = ground arith
    tail_bits idx i v x b b' ih (suc k) j hj =
        let e : (k == idx) ≡ (suc k == suc idx) = ground arith in
        ih k j hj ∙ ap (λ t. if t && i == j then some v else bit_in k (2 ^ j) b) e

-- SetBit within the array does not panic, keeps the length, and sets the bit that GetBit reads at
-- its position to the value; at every other position GetBit reads what it read.
pub get_bit-set_bit :
    (i : ℕ) (v : Bool) (b : Str)
    → AreBytes b
    → i / 8 < length b
    → (b' : Str) × (set_bit i v b ≡ some b')
      × AreBytes b'
      × (length b' ≡ length b)
      × ((j : ℕ) → get_bit j b' ≡ (if j == i then some v else get_bit j b))
unfolding set_bit get_bit
get_bit-set_bit i v b h lt =
    let (b', c) = put_byte-Changed (i / 8) (7 - i % 8) v b h (omega arith) lt in
    (
      b',
      c.result,
      c.bytes,
      c.size,
      λ j.
          let e : (j / 8 == i / 8 && 7 - i % 8 == 7 - j % 8) ≡ (j == i) = ground arith in
          c.bits (j / 8) (7 - j % 8) (omega arith)
          ∙ ap (λ t. if t then some v else bit_in (j / 8) (2 ^ (7 - j % 8)) b) e,
    )

pub get_bit-cons : (i x : ℕ) (b : Str) → get_bit (i + 8) (x ∷ b) ≡ get_bit i b
unfolding get_bit
get_bit-cons i x b =
    let e : (i + 8) / 8 ≡ suc (i / 8) = omega arith in
    let f : (i + 8) % 8 ≡ i % 8 = omega arith in
    ap (λ t. bit_in t (2 ^ (7 - (i + 8) % 8)) (x ∷ b)) e
    ∙ ap (λ t. bit_in (i / 8) (2 ^ (7 - t)) b) f
