-- ===== src/Sorted.antt =====
-- internal/types/sortedset.go: ZADD, ZCOUNT and ZRANGE over a sorted set. The set itself is a library's
-- (github.com/wangjia184/sortedset): its operations are a parameter, and what it documents of them is
-- stated as laws.
pub mod Laws
pub mod Commands
pub mod Watched
use dice_db_distributed_syst.Prelude.{
  ℕ, ◌+◌, Bool, true, false, not, ◌&&◌, ◌||◌, Option, none, some, List, [], ◌∷◌, arith, ltb,
  if◌then◌else◌, length, Str, nat_eq, str_eq,
}
use dice_db_distributed_syst.Prelude.Int.{ℤ, pos, ◌+ℤ◌, leb_ℤ, eqb_ℤ, wrap64}
use dice_db_distributed_syst.Wire.{ZElement}
use dice_db_distributed_syst.Cmd.Params.{ParamMap, has, xx, nx, gt, lt, ch, incr}

-- The library's operations. A node is its key with its score; a rank starts at 1, and 0 says that the
-- key is not there.
pub record SetOps (S : Type 0) : Type 0 where
  pub new_set : S
  pub get_count : S → ℕ
  pub get_by_key : Str → S → Option ℤ
  pub add_or_update : Str → ℤ → S → Bool × S
  pub remove : Str → S → Option ℤ × S
  pub find_rank : Str → S → ℕ
  pub get_by_score_range : ℤ → ℤ → S → List (Str × ℤ)
  pub get_by_rank_range : ℤ → ℤ → S → List (Str × ℤ)
  pub pop_min : S → Option (Str × ℤ) × S
  pub pop_max : S → Option (Str × ℤ) × S

abbrev pub is_some : Option ℤ → Bool
is_some none = false
is_some (some _) = true

-- The errors of ZADD, in the order of its tests.
pub data ZaddCheck : Type 0 where
  fine xx_nx gt_lt_nx incr_pairs : ZaddCheck

unfoldable pub zadd_check : ParamMap → List (ℤ × Str) → ZaddCheck
zadd_check m l =
    if has xx m && has nx m
    then xx_nx
    else if (has gt m && has nx m) || (has lt m && has nx m) || (has gt m && has lt m)
    then gt_lt_nx
    else if has incr m && ltb 1 (length l)
    then incr_pairs
    else fine

-- The counts of ZADD's loop and the set.
pub record Tally (S : Type 0) : Type 0 where
  pub added : ℕ
  pub updated : ℕ
  pub set : S

-- Whether a pair is passed over, by the score that its member has.
unfoldable pub is_skipped : ParamMap → Option ℤ → ℤ → Bool
is_skipped m none score = has xx m
is_skipped m (some current) score =
    has nx m || (has gt m && leb_ℤ score current) || (has lt m && leb_ℤ current score)

abbrev pub differs : Option ℤ → ℤ → Bool
differs none score = false
differs (some current) score = not (eqb_ℤ score current)

abbrev pub one_if : Bool → ℕ
one_if b = if b then 1 else 0

module _ {S : Type 0} (ops : SetOps S) where
  -- A round of the loop without INCR.
  unfoldable pub zadd_step : ParamMap → ℤ → Str → Tally S → Tally S
  unfolding is_skipped
  zadd_step m score member t =
      let current = ops.get_by_key member t.set in
      let (inserted, set) = ops.add_or_update member score t.set in
      let fresh = inserted && not (is_some current) in
      if is_skipped m current score then t else record {
        added = t.added + one_if fresh;
        updated = t.updated + one_if (not fresh && differs current score);
        set = set;
      }

  unfoldable pub zadd_loop : ParamMap → List (ℤ × Str) → Tally S → Tally S
  unfolding zadd_step
  zadd_loop m [] t = t
  zadd_loop m ((score, member) ∷ l) t = zadd_loop m l (zadd_step m score member t)

  -- INCR returns from the first round, with the new score. The sum wraps around.
  unfoldable pub zadd_incr : ℤ → Str → S → ℤ × S
  zadd_incr score member s =
      let new : ℤ = elim (ops.get_by_key member s) [
        | none ↦ score
        | some current ↦ wrap64 (current +ℤ score)
      ] in
      (new, (ops.add_or_update member new s).1)

  -- ZADD once its options are tested: the count and the set.
  unfoldable pub zadd_pairs : ParamMap → List (ℤ × Str) → S → ℤ × S
  unfolding zadd_loop zadd_incr
  zadd_pairs m [] s = (pos 0, s)
  zadd_pairs m ((score, member) ∷ l) s =
      let t = zadd_loop m ((score, member) ∷ l) (record { added = 0; updated = 0; set = s }) in
      if has incr m
      then zadd_incr score member s
      else (pos (if has ch m then t.added + t.updated else t.added), t.set)

  unfoldable pub zcount : ℤ → ℤ → S → ℕ
  zcount lo hi s = length (ops.get_by_score_range lo hi s)

  unfoldable pub ranked : ℤ → List (Str × ℤ) → List ZElement
  ranked rank [] = []
  ranked rank ((member, score) ∷ l) =
      record { member = member; score = score; rank = rank } ∷ ranked (rank +ℤ pos 1) l

  -- ZRANGE does not look at byRank.
  unfoldable pub zrange : ℤ → ℤ → Bool → S → List ZElement
  unfolding ranked
  zrange start stop by_score s =
      let nodes : List (Str × ℤ) =
        if by_score
        then ops.get_by_score_range start stop s
        else ops.get_by_rank_range start stop s in
      elim nodes [ [] ↦ [] | x ∷ l ↦ ranked (pos (ops.find_rank x.0 s)) (x ∷ l) ]
