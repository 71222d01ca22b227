-- ===== src/Strconv/RoundTrip.antt =====
-- Printing and reading decimal numbers (strconv.ParseInt and %d, as internal/cmd uses them).
use dice_db_distributed_syst.Prelude.{
  ℕ, zero, suc, ◌+◌, ◌/◌, ◌%◌, ◌^◌, ◌≤◌, ◌<◌, ◌≡◌, refl, ap, ◌∙◌, inl, inr, Option, none, some, [],
  ◌∷◌, arith, ltb, if_both, Bool-cases, Str, nat_eq, str_eq,
}
use dice_db_distributed_syst.Prelude.Int.{ℤ, pos, negsuc, IsInt64}
use dice_db_distributed_syst.Strconv.{
  digits, parse_digits, positive, negative, parse_int, decimal_loop, format_nat, format_int,
}

positive-IsInt64 : (o : Option ℕ) (z : ℤ) → positive o ≡ some z → IsInt64 z
unfolding positive
positive-IsInt64 none z h = cc
positive-IsInt64 (some n) (pos m) h = ground arith
positive-IsInt64 (some n) (negsuc m) h = ground arith

negative-IsInt64 : (o : Option ℕ) (z : ℤ) → negative o ≡ some z → IsInt64 z
unfolding negative
negative-IsInt64 none z h = cc
negative-IsInt64 (some n) (pos m) h = ground arith
negative-IsInt64 (some n) (negsuc m) h = ground arith

-- An accepted number is an int64.
pub parse_int-IsInt64 : (s : Str) (z : ℤ) → parse_int s ≡ some z → IsInt64 z
unfolding parse_int
parse_int-IsInt64 [] z h = cc
parse_int-IsInt64 (c ∷ s) z h = ground (
  arith,
  negative-IsInt64 (parse_digits s) z,
  positive-IsInt64 (parse_digits s) z,
  positive-IsInt64 (parse_digits (c ∷ s)) z,
)

digits-decimal_loop :
    (f n : ℕ) (rest : Str) → n < f → digits 0 (decimal_loop f n rest) ≡ digits n rest
unfolding decimal_loop digits
digits-decimal_loop zero n rest h = absurd (omega arith)
digits-decimal_loop (suc f) n rest h = elim (Bool-cases (ltb n 10)) [
  | inl e ↦ rw (e, decimal_loop) (ground arith)
  | inr e ↦ rw (e, decimal_loop) (digits-decimal_loop f (n / 10) _ (ground arith) ∙ ground arith)
]

abbrev StartsWithDigit : Str → Type 0
StartsWithDigit [] = ⊥
StartsWithDigit (c ∷ s) = 48 ≤ c

decimal_loop-StartsWithDigit :
    (f n : ℕ) (rest : Str) → StartsWithDigit rest → StartsWithDigit (decimal_loop f n rest)
unfolding decimal_loop
decimal_loop-StartsWithDigit zero n rest h = h
decimal_loop-StartsWithDigit (suc f) n rest h =
    if_both StartsWithDigit (ltb n 10) {y = decimal_loop f (n / 10) ((n % 10 + 48) ∷ rest)}
      (omega arith) (decimal_loop-StartsWithDigit f (n / 10) _ (omega arith))

format_nat-StartsWithDigit : (n : ℕ) → StartsWithDigit (format_nat n)
unfolding format_nat
format_nat-StartsWithDigit n =
    if_both StartsWithDigit (ltb n 10) {y = decimal_loop n (n / 10) ((n % 10 + 48) ∷ [])}
      (omega arith) (decimal_loop-StartsWithDigit n (n / 10) _ (omega arith))

parse_int-StartsWithDigit : (s : Str) → StartsWithDigit s → parse_int s ≡ positive (digits 0 s)
unfolding parse_int
parse_int-StartsWithDigit [] h = absurd h
parse_int-StartsWithDigit (c ∷ s) h = ground arith

parse_digits-eq-digits : (s : Str) → StartsWithDigit s → parse_digits s ≡ digits 0 s
unfolding parse_digits
parse_digits-eq-digits [] h = absurd h
parse_digits-eq-digits (c ∷ s) h = refl

digits-format_nat : (n : ℕ) → digits 0 (format_nat n) ≡ some n
unfolding format_nat
digits-format_nat n = digits-decimal_loop (suc n) n [] (omega arith) ∙ (unfold digits in refl)

parse_int-minus : (s : Str) → parse_int (b'-' ∷ s) ≡ negative (parse_digits s)
unfolding parse_int
parse_int-minus s = refl

positive-some : (n : ℕ) → n < 2 ^ 63 → positive (some n) ≡ some (pos n)
unfolding positive
positive-some n h = ground arith

negative-some : (n : ℕ) → suc n ≤ 2 ^ 63 → negative (some (suc n)) ≡ some (negsuc n)
unfolding negative
negative-some n h = ground arith

-- Reading what %d prints gives every int64 back.
pub parse_int-format_int : (z : ℤ) → IsInt64 z → parse_int (format_int z) ≡ some z
unfolding format_int
parse_int-format_int (pos n) h =
    parse_int-StartsWithDigit (format_nat n) (format_nat-StartsWithDigit n)
    ∙ ap positive (digits-format_nat n)
    ∙ positive-some n h.0
parse_int-format_int (negsuc n) h =
    parse_int-minus (format_nat (suc n))
    ∙ ap negative (parse_digits-eq-digits (format_nat (suc n)) (format_nat-StartsWithDigit (suc n)))
    ∙ ap negative (digits-format_nat (suc n))
    ∙ negative-some n h.1
