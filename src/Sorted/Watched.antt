-- ===== src/Sorted/Watched.antt =====
-- ZCARD.WATCH, ZCOUNT.WATCH, ZRANGE.WATCH and ZRANK.WATCH of internal/cmd on one shard: the command
-- without its suffix, its answer marked with the fingerprint of the command.
use dice_db_distributed_syst.Prelude.{List, Str, nat_eq, str_eq}
use dice_db_distributed_syst.Prelude.Int.{ℤ}
use dice_db_distributed_syst.Wire.{Run, ◌>>=◌}
use dice_db_distributed_syst.Cmd.Env.{Env}
use dice_db_distributed_syst.Cmd.Session.{Cmd}
use dice_db_distributed_syst.Cmd.Watched.{marked}
use dice_db_distributed_syst.Sorted.{SetOps}
use dice_db_distributed_syst.Sorted.Commands.{
  SetStore, Outcome, eval_zcard, eval_zcount, eval_zrange, eval_zrank,
}

module _ {S : Type 0} (ops : SetOps S) (env : Env) where
  abbrev marking : Cmd → Outcome S → Outcome S
  marking c o = do (r, z) ← o; Run.ok (marked env c r, z)

  unfoldable pub eval_zcard_watch : ℤ → Cmd → List Str → SetStore S → Outcome S
  unfolding eval_zcard marked
  eval_zcard_watch now c args z = marking c (eval_zcard ops now args z)

  unfoldable pub eval_zcount_watch : ℤ → Cmd → List Str → SetStore S → Outcome S
  unfolding eval_zcount marked
  eval_zcount_watch now c args z = marking c (eval_zcount ops now args z)

  unfoldable pub eval_zrange_watch : ℤ → Cmd → List Str → SetStore S → Outcome S
  unfolding eval_zrange marked
  eval_zrange_watch now c args z = marking c (eval_zrange ops now args z)

  unfoldable pub eval_zrank_watch : ℤ → Cmd → List Str → SetStore S → Outcome S
  unfolding eval_zrank marked
  eval_zrank_watch now c args z = marking c (eval_zrank ops now args z)
