-- ===== src/Upper.antt =====
-- strings.ToUpper of Go, as far as a comparison of its result with ASCII words can tell. Of the
-- letters outside ASCII only dotless i (bytes 196 177) and long s (197 191) have an upper case in
-- ASCII, I and S; all others are left as they are, which keeps them outside ASCII.
use dice_db_distributed_syst.Prelude.{
  ℕ, ◌-◌, ◌&&◌, [], ◌∷◌, leb, ◌==◌, if◌then◌else◌, Str, nat_eq, str_eq,
}

abbrev pub upper_byte : ℕ → ℕ
upper_byte c = if leb b'a' c && leb c b'z' then c - 32 else c

unfoldable pub to_upper : Str → Str
to_upper [] = []
to_upper (c ∷ []) = upper_byte c ∷ []
to_upper (c ∷ d ∷ s) =
    let next = to_upper (d ∷ s) in
    let after = to_upper s in
    if c == 0xC4 && d == 0xB1
    then b'I' ∷ after
    else if c == 0xC5 && d == 0xBF
    then b'S' ∷ after
    else upper_byte c ∷ next
