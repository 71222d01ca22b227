-- ===== src/Cmd/Execute.antt =====
-- The Execute functions of internal/cmd: the tests of the argument count, the choice of the shard, and
-- Cmd.Execute of cmds.go with the registry. The commands of the registry that are not modelled are
-- a parameter. The monitoring counters that Cmd.Execute keeps are left out.
use dice_db_distributed_syst.Prelude.{
  false, List, [], ltb, leb, ◌==◌, if◌then◌else◌, length, Str, codes, nat_eq, str_eq,
}
use dice_db_distributed_syst.Prelude.Int.{ℤ, pos}
use dice_db_distributed_syst.Store.State.{Store}
use dice_db_distributed_syst.Wire.{Response, Reply, Run, panic, fail, wrong_argument_count}
use dice_db_distributed_syst.Shard.{on_shard}
use dice_db_distributed_syst.Cmd.Env.{Env}
use dice_db_distributed_syst.Cmd.Strings.{eval_set, eval_get, eval_getset, eval_getdel, eval_getex}
use dice_db_distributed_syst.Cmd.Counter.{eval_incr, eval_decr, eval_incrby, eval_decrby}
use dice_db_distributed_syst.Cmd.Expire.{eval_expire, eval_expireat, eval_expiretime, eval_ttl}
use dice_db_distributed_syst.Cmd.Keyspace.{none_text, eval_type}
use dice_db_distributed_syst.Cmd.Hash.{eval_hset, eval_hget, eval_hgetall}
use dice_db_distributed_syst.Cmd.Session.{Cmd, key_of}

abbrev pub Shards : Type 0
Shards = List Store

-- What an execution gives: the reply, the command as it left it, and the shards.
abbrev pub Executed : Type 0
Executed = Run (Reply × Cmd × Shards)

-- A reply of `f` on the shard of the first argument.
unfoldable pub keyed : Env → (List Str → Store → Run (Reply × Store)) → Cmd → Shards → Executed
unfolding on_shard key_of
keyed env f c sm = elim (on_shard env.hash (key_of c.args) (f c.args) sm) [
  | panic ↦ panic
  | Run.ok (r, sm') ↦ Run.ok (r, c, sm')
]

abbrev pub refuse : Response → Str → Cmd → Shards → Executed
refuse r name c sm = Run.ok (fail r (wrong_argument_count name), c, sm)

abbrev pure : {A : Type 0} → (List Str → Store → A) → List Str → Store → Run A
pure f args s = Run.ok (f args s)

unfoldable pub execute_set : Env → ℤ → Cmd → Shards → Executed
unfolding keyed eval_set
execute_set env now c sm =
    if leb (length c.args) 1
    then refuse Response.empty (codes "SET") c sm
    else keyed env (eval_set env now) c sm

unfoldable pub execute_get : Env → ℤ → Cmd → Shards → Executed
unfolding keyed eval_get
execute_get env now c sm =
    if length c.args == 1
    then keyed env (eval_get env now) c sm
    else refuse (Response.value []) (codes "GET") c sm

unfoldable pub execute_getset : Env → ℤ → Cmd → Shards → Executed
unfolding keyed eval_getset
execute_getset env now c sm =
    if length c.args == 2
    then keyed env (eval_getset env now) c sm
    else refuse (Response.value []) (codes "GETSET") c sm

unfoldable pub execute_getdel : Env → ℤ → Cmd → Shards → Executed
unfolding keyed eval_getdel
execute_getdel env now c sm =
    if length c.args == 1
    then keyed env (eval_getdel env now) c sm
    else refuse (Response.value []) (codes "GETDEL") c sm

unfoldable pub execute_getex : Env → ℤ → Cmd → Shards → Executed
unfolding keyed eval_getex
execute_getex env now c sm =
    if length c.args == 0
    then refuse (Response.value []) (codes "GETEX") c sm
    else keyed env (eval_getex env now) c sm

unfoldable pub execute_incr : Env → ℤ → Cmd → Shards → Executed
unfolding keyed eval_incr
execute_incr env now c sm =
    if length c.args == 1
    then keyed env (pure (eval_incr now)) c sm
    else refuse (Response.number (pos 0)) (codes "INCR") c sm

unfoldable pub execute_decr : Env → ℤ → Cmd → Shards → Executed
unfolding keyed eval_decr
execute_decr env now c sm =
    if length c.args == 1
    then keyed env (pure (eval_decr now)) c sm
    else refuse (Response.number (pos 0)) (codes "DECR") c sm

unfoldable pub execute_incrby : Env → ℤ → Cmd → Shards → Executed
unfolding keyed eval_incrby
execute_incrby env now c sm =
    if length c.args == 2
    then keyed env (pure (eval_incrby now)) c sm
    else refuse (Response.number (pos 0)) (codes "INCRBY") c sm

unfoldable pub execute_decrby : Env → ℤ → Cmd → Shards → Executed
unfolding keyed eval_decrby
execute_decrby env now c sm =
    if length c.args == 2
    then keyed env (pure (eval_decrby now)) c sm
    else refuse (Response.number (pos 0)) (codes "DECRBY") c sm

unfoldable pub execute_expire : Env → ℤ → Cmd → Shards → Executed
unfolding keyed eval_expire
execute_expire env now c sm =
    if leb (length c.args) 1
    then refuse (Response.changed false) (codes "EXPIRE") c sm
    else keyed env (pure (eval_expire now)) c sm

unfoldable pub execute_expireat : Env → ℤ → Cmd → Shards → Executed
unfolding keyed eval_expireat
execute_expireat env now c sm =
    if ltb (length c.args) 2
    then refuse (Response.changed false) (codes "EXPIREAT") c sm
    else keyed env (pure (eval_expireat env.expireat_max now)) c sm

unfoldable pub execute_expiretime : Env → ℤ → Cmd → Shards → Executed
unfolding keyed eval_expiretime
execute_expiretime env now c sm =
    if length c.args == 1
    then keyed env (eval_expiretime now) c sm
    else refuse (Response.number (pos 0)) (codes "EXPIRETIME") c sm

unfoldable pub execute_ttl : Env → ℤ → Cmd → Shards → Executed
unfolding keyed eval_ttl
execute_ttl env now c sm =
    if length c.args == 1
    then keyed env (pure (eval_ttl now)) c sm
    else refuse (Response.number (pos 0)) (codes "TTL") c sm

unfoldable pub execute_type : Env → ℤ → Cmd → Shards → Executed
unfolding keyed eval_type
execute_type env now c sm =
    if length c.args == 0
    then refuse (Response.value none_text) (codes "TYPE") c sm
    else keyed env (pure (eval_type now)) c sm

unfoldable pub execute_hset : Env → ℤ → Cmd → Shards → Executed
unfolding keyed eval_hset
execute_hset env now c sm =
    if ltb (length c.args) 3
    then refuse (Response.number (pos 0)) (codes "HSET") c sm
    else keyed env (eval_hset now) c sm

unfoldable pub execute_hget : Env → ℤ → Cmd → Shards → Executed
unfolding keyed eval_hget
execute_hget env now c sm =
    if length c.args == 2
    then keyed env (eval_hget now) c sm
    else refuse (Response.value []) (codes "HGET") c sm

unfoldable pub execute_hgetall : Env → ℤ → Cmd → Shards → Executed
unfolding keyed eval_hgetall
execute_hgetall env now c sm =
    if length c.args == 1
    then keyed env (eval_hgetall now) c sm
    else refuse (Response.elements []) (codes "HGETALL") c sm
