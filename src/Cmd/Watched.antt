-- ===== src/Cmd/Watched.antt =====
-- HGET.WATCH and HGETALL.WATCH of internal/cmd: the command without its suffix, its answer marked with
-- the fingerprint of the command.
use dice_db_distributed_syst.Prelude.{
  none, some, List, ◌==◌, if◌then◌else◌, length, Str, codes, nat_eq, str_eq,
}
use dice_db_distributed_syst.Prelude.Int.{ℤ}
use dice_db_distributed_syst.Store.State.{Store}
use dice_db_distributed_syst.Wire.{Response, Reply, Run, ◌>>=◌, fail}
use dice_db_distributed_syst.Cmd.Env.{Env}
use dice_db_distributed_syst.Cmd.Hash.{eval_hget, eval_hgetall}
use dice_db_distributed_syst.Cmd.Session.{Cmd, fingerprint}
use dice_db_distributed_syst.Cmd.Execute.{Shards, Executed, keyed, refuse}

-- An error comes with no result.
unfoldable pub marked : Env → Cmd → Reply → Reply
unfolding fingerprint
marked env c r = elim r.error [
  | none ↦ record r { result = record r.result { fingerprint64 = fingerprint env.fingerprint c } }
  | some e ↦ fail Response.empty e
]

unfoldable pub eval_hget_watch : Env → ℤ → Cmd → List Str → Store → Run (Reply × Store)
unfolding eval_hget marked
eval_hget_watch env now c args s = do (r, s') ← eval_hget now args s; Run.ok (marked env c r, s')

unfoldable pub execute_hget_watch : Env → ℤ → Cmd → Shards → Executed
unfolding keyed eval_hget_watch
execute_hget_watch env now c sm =
    if length c.args == 0
    then refuse Response.empty (codes "HGET.WATCH") c sm
    else keyed env (eval_hget_watch env now c) c sm

unfoldable pub eval_hgetall_watch : Env → ℤ → Cmd → List Str → Store → Run (Reply × Store)
unfolding eval_hgetall marked
eval_hgetall_watch env now c args s = do
  (r, s') ← eval_hgetall now args s
  Run.ok (marked env c r, s')

unfoldable pub execute_hgetall_watch : Env → ℤ → Cmd → Shards → Executed
unfolding keyed eval_hgetall_watch
execute_hgetall_watch env now c sm =
    if length c.args == 0
    then refuse Response.empty (codes "HGETALL.WATCH") c sm
    else keyed env (eval_hgetall_watch env now c) c sm
