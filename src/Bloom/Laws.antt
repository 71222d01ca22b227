-- ===== src/Bloom/Laws.antt =====
-- The Bloom filter of internal/eval/type_bloomfilter.go has no false negatives.
use dice_db_distributed_syst.Prelude.{
  ℕ, zero, suc, ◌+◌, ◌-◌, ◌*◌, ◌/◌, ◌%◌, ◌^◌, ◌<◌, ◌≡◌, refl, sym, ap, ◌∙◌, Bool, true, false, ◌&&◌,
  none, some, [], ◌∷◌, arith, ltb, ◌==◌, if◌then◌else◌, length, get_elem?, All, Str, nat_eq, str_eq,
}
use dice_db_distributed_syst.Bloom.{has_bit, with_bit, set_byte, set_bit, is_bit_set}

abbrev all_below : ℕ → (ℕ → Bool) → Bool
all_below zero p = true
all_below (suc n) p = p n && all_below n p

all_below_lem : (n : ℕ) (p : ℕ → Bool) (x : ℕ) → all_below n p ≡ true → x < n → p x ≡ true
all_below_lem zero p x h lt = absurd (omega arith)
all_below_lem (suc n) p x h lt = ground (arith, all_below_lem n p x)

abbrev implies : Bool → Bool → Bool
implies a b = if a then b else true

abbrev hit : ℕ → ℕ → Bool
hit x w = x / w % 2 == 1

abbrev put_weight : ℕ → ℕ → ℕ
put_weight x w = if hit x w then x else x + w

abbrev table : ℕ → ℕ → ℕ → Bool
table x v w =
    hit (put_weight x v) v && implies (hit x w) (hit (put_weight x v) w) && ltb (put_weight x v) 256

bit_table :
    all_below 256 (λ x. all_below 8 (λ b. all_below 8 (λ c. table x (2 ^ (7 - b)) (2 ^ (7 - c)))))
    ≡ true
bit_table = refl

facts :
    (p q r s : Bool)
    → (p && implies q r && s) ≡ true
    → (p ≡ true) × (q ≡ true → r ≡ true) × (s ≡ true)
facts true true true true h = (refl, λ k. refl, refl)
facts true true true false h = absurd (ground arith)
facts true true false s h = absurd (ground arith)
facts true false r true h = (refl, λ k. absurd (ground arith), refl)
facts true false r false h = absurd (ground arith)
facts false q r s h = absurd (ground arith)

-- A bit that is set is there, no other bit goes, and a byte it stays: by all bytes and bits.
bit_facts :
    (x b c : ℕ)
    → x < 256
    → (has_bit (with_bit x b) b ≡ true)
      × (has_bit x c ≡ true → has_bit (with_bit x b) c ≡ true)
      × (ltb (with_bit x b) 256 ≡ true)
bit_facts x b c h =
    let t1 =
      all_below_lem 256
        (λ y. all_below 8 (λ d. all_below 8 (λ e. table y (2 ^ (7 - d)) (2 ^ (7 - e))))) x bit_table
        h in
    let t2 =
      all_below_lem 8 (λ d. all_below 8 (λ e. table x (2 ^ (7 - d)) (2 ^ (7 - e)))) (b % 8) t1
        (omega arith) in
    let t3 =
      all_below_lem 8 (λ e. table x (2 ^ (7 - b % 8)) (2 ^ (7 - e))) (c % 8) t2 (omega arith) in
    facts (has_bit (with_bit x b) b) (has_bit x c) (has_bit (with_bit x b) c)
      (ltb (with_bit x b) 256) t3

abbrev pub AreBytes : Str → Type 0
AreBytes = All (λ x. x < 256)

-- A bit at an index of its byte.
abbrev set_at : ℕ → ℕ → Str → Bool
set_at idx c [] = false
set_at zero c (x ∷ buf) = has_bit x c
set_at (suc idx) c (x ∷ buf) = set_at idx c buf

is_bit_set-set_at :
    (idx c : ℕ) (buf : Str)
    → (elim (get_elem? buf idx) [ none ↦ false | some x ↦ has_bit x c ]) ≡ set_at idx c buf
is_bit_set-set_at idx c [] = refl
is_bit_set-set_at zero c (x ∷ buf) = refl
is_bit_set-set_at (suc idx) c (x ∷ buf) = is_bit_set-set_at idx c buf

set_byte-own :
    (idx b : ℕ) (buf : Str)
    → AreBytes buf
    → idx < length buf
    → set_at idx b (set_byte idx b buf) ≡ true
unfolding set_byte
set_byte-own idx b [] h lt = absurd (omega arith)
set_byte-own zero b (x ∷ buf) h lt = (bit_facts x b b h.0).0
set_byte-own (suc idx) b (x ∷ buf) h lt = set_byte-own idx b buf h.1 (omega arith)

set_byte-keeps :
    (idx b : ℕ) (buf : Str) (j c : ℕ)
    → AreBytes buf
    → set_at j c buf ≡ true
    → set_at j c (set_byte idx b buf) ≡ true
unfolding set_byte
set_byte-keeps idx b [] j c h k = k
set_byte-keeps zero b (x ∷ buf) zero c h k = (bit_facts x b c h.0).1 k
set_byte-keeps zero b (x ∷ buf) (suc j) c h k = k
set_byte-keeps (suc idx) b (x ∷ buf) zero c h k = k
set_byte-keeps (suc idx) b (x ∷ buf) (suc j) c h k = set_byte-keeps idx b buf j c h.1 k

pub set_byte-AreBytes : (idx b : ℕ) (buf : Str) → AreBytes buf → AreBytes (set_byte idx b buf)
unfolding set_byte
set_byte-AreBytes idx b [] h = tt
set_byte-AreBytes zero b (x ∷ buf) h = (ground (arith, (bit_facts x b b h.0).2), h.1)
set_byte-AreBytes (suc idx) b (x ∷ buf) h = (h.0, set_byte-AreBytes idx b buf h.1)

pub length-set_byte : (idx b : ℕ) (buf : Str) → length (set_byte idx b buf) ≡ length buf
unfolding set_byte
length-set_byte idx b [] = refl
length-set_byte zero b (x ∷ buf) = refl
length-set_byte (suc idx) b (x ∷ buf) = ap suc (length-set_byte idx b buf)

pub set_bit-own :
    (b : ℕ) (buf : Str) → AreBytes buf → b < length buf * 8 → is_bit_set b (set_bit b buf) ≡ true
unfolding set_bit is_bit_set
set_bit-own b buf h lt =
    is_bit_set-set_at (b / 8) b (set_byte (b / 8) b buf)
    ∙ set_byte-own (b / 8) b buf h (omega arith)

pub set_bit-keeps :
    (b c : ℕ) (buf : Str)
    → AreBytes buf
    → is_bit_set c buf ≡ true
    → is_bit_set c (set_bit b buf) ≡ true
unfolding set_bit is_bit_set
set_bit-keeps b c buf h k =
    is_bit_set-set_at (c / 8) c (set_byte (b / 8) b buf)
    ∙ set_byte-keeps (b / 8) b buf (c / 8) c h (sym (is_bit_set-set_at (c / 8) c buf) ∙ k)
