-- ===== src/Strconv.antt =====
-- strconv.ParseInt(s, 10, 64) and the verb %d of Go, over the bytes of a string.
pub mod RoundTrip
use dice_db_distributed_syst.Prelude.{
  ℕ, zero, suc, ◌+◌, ◌-◌, ◌*◌, ◌/◌, ◌%◌, ◌^◌, ◌&&◌, Option, none, some, [], ◌∷◌, arith, ltb, leb,
  ◌==◌, if◌then◌else◌, Str, nat_eq, str_eq,
}
use dice_db_distributed_syst.Prelude.Int.{ℤ, pos, negsuc, sub_ℕ}

unfoldable pub digit : ℕ → Option ℕ
digit c = if leb b'0' c && leb c b'9' then some (c - 48) else none

-- The number that the digits continue, none for any other byte. ParseUint stops with an error where
-- the number leaves 64 bits; here the whole number is read first, and its range is tested after.
unfoldable pub digits : ℕ → Str → Option ℕ
unfolding digit
digits n [] = some n
digits n (c ∷ s) = elim (digit c) [ none ↦ none | some d ↦ digits (n * 10 + d) s ]

unfoldable pub parse_digits : Str → Option ℕ
unfolding digits
parse_digits [] = none
parse_digits (c ∷ s) = digits 0 (c ∷ s)

unfoldable pub positive : Option ℕ → Option ℤ
positive none = none
positive (some n) = if ltb n (2 ^ 63) then some (pos n) else none

unfoldable pub negative : Option ℕ → Option ℤ
negative none = none
negative (some n) = if leb n (2 ^ 63) then some (sub_ℕ 0 n) else none

unfoldable pub parse_int : Str → Option ℤ
unfolding parse_digits positive negative
parse_int [] = none
parse_int (c ∷ s) =
    if c == b'-'
    then negative (parse_digits s)
    else if c == b'+'
    then positive (parse_digits s)
    else positive (parse_digits (c ∷ s))

-- The decimal digits of a number, on enough fuel.
unfoldable pub decimal_loop : ℕ → ℕ → Str → Str
decimal_loop zero n rest = rest
decimal_loop (suc f) n rest =
    let rest' = (n % 10 + 48) ∷ rest in
    let more = decimal_loop f (n / 10) rest' in if ltb n 10 then rest' else more

unfoldable pub format_nat : ℕ → Str
unfolding decimal_loop
format_nat n = decimal_loop (suc n) n []

unfoldable pub format_int : ℤ → Str
unfolding format_nat
format_int (pos n) = format_nat n
format_int (negsuc n) = b'-' ∷ format_nat (suc n)
