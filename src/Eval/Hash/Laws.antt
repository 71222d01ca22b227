-- ===== src/Eval/Hash/Laws.antt =====
-- The hashes of internal/eval: hashMapBuilder against the loop of HSET in internal/cmd, and the range
-- check of HINCRBY.
use dice_db_distributed_syst.Prelude.{
  ◌≡◌, refl, ◌↔◌, ◌⊎◌, inl, inr, Bool, true, false, none, some, List, [], ◌∷◌, arith, if◌then◌else◌,
  Bool-cases, Str, str_beq, nat_eq, str_eq,
}
use dice_db_distributed_syst.Prelude.Int.{ℤ, ◌+ℤ◌, ◌-ℤ◌, IsInt64, wrap64-eq_self}
use dice_db_distributed_syst.Strconv.{parse_int, format_int}
use dice_db_distributed_syst.Table
use dice_db_distributed_syst.Table.Laws.{load-upsert}
use dice_db_distributed_syst.Strconv.RoundTrip.{parse_int-IsInt64, parse_int-format_int}
use dice_db_distributed_syst.Cmd.Hash.{hset_loop}
use dice_db_distributed_syst.Eval.HashMap.{
  HashMap, hash_map_builder, overflows, increment_value, incremented, refused, overflow_text,
}

-- The pairs before a last field that has no value.
abbrev pub whole_pairs : List Str → List Str
whole_pairs (k ∷ v ∷ kvs) = k ∷ v ∷ whole_pairs kvs
whole_pairs _ = []

abbrev pub is_odd : List Str → Bool
is_odd [] = false
is_odd (k ∷ []) = true
is_odd (k ∷ v ∷ kvs) = is_odd kvs

-- HSET of the evaluation library writes exactly what HSET of internal/cmd writes for the whole
-- pairs of its arguments, and counts as many new fields; where the last field has no value it has
-- written the pairs before it all the same, and fails.
pub hash_map_builder-hset_loop :
    (kvs : List Str) (h : HashMap)
    → hash_map_builder kvs h ≡ (
      (hset_loop (whole_pairs kvs) h).1,
      if is_odd kvs then none else some (hset_loop (whole_pairs kvs) h).0,
    )
unfolding hash_map_builder hset_loop
hash_map_builder-hset_loop [] h = refl
hash_map_builder-hset_loop (k ∷ []) h = refl
hash_map_builder-hset_loop (k ∷ v ∷ kvs) h =
    let ih = hash_map_builder-hset_loop kvs (Table.upsert k v h) in
    rw ih (elim (Bool-cases (is_odd kvs)) [ inl q ↦ rw q refl | inr q ↦ rw q refl ])

-- On int64s the test for an overflow is false exactly where the sum is an int64.
overflows_iff : (i n : ℤ) → IsInt64 i → IsInt64 n → (overflows i n ≡ false) ↔ IsInt64 (i +ℤ n)
unfolding overflows ◌+ℤ◌ ◌-ℤ◌
overflows_iff i n hi hn = (λ h. ground arith, λ h. ground arith)

abbrev pub SumKept : Str → ℤ → HashMap → HashMap → Type 0
SumKept field total h h' =
    (j : Str)
    → Table.load j h' ≡ (if str_beq field j then some (format_int total) else Table.load j h)

-- HINCRBY on a field that holds an integer, with an int64 as increment: if the sum is an int64
-- then it is the answer, the field holds a text that reads back as it, and no other field
-- changes; otherwise the answer is the overflow error.
pub increment_value-sum :
    (field v : Str) (i n : ℤ) (h : HashMap)
    → Table.load field h ≡ some v
    → parse_int v ≡ some i
    → IsInt64 n
    → (IsInt64 (i +ℤ n)
        × (parse_int (format_int (i +ℤ n)) ≡ some (i +ℤ n))
        × ((h' : HashMap) × (increment_value field n h ≡ incremented (i +ℤ n) h')
            × SumKept field (i +ℤ n) h h'))
      ⊎ ((¬ IsInt64 (i +ℤ n)) × (increment_value field n h ≡ refused overflow_text))
unfolding increment_value
increment_value-sum field v i n h at p hn =
    let fits = overflows_iff i n (parse_int-IsInt64 v i p) hn in
    elim (Bool-cases (overflows i n)) [
      | inl e ↦ inr (λ f. ground (arith, fits.1 f), rw (increment_value, at, p, e) refl)
      | inr e ↦
          let f = fits.0 e in
          let w = wrap64-eq_self (i +ℤ n) f in
          inl (
            f,
            parse_int-format_int (i +ℤ n) f,
            (
              Table.upsert field (format_int (i +ℤ n)) h,
              rw (increment_value, at, p, e, w) refl,
              λ j. load-upsert field j (format_int (i +ℤ n)) h,
            ),
          )
    ]
