-- ===== src/Cmd/Dispatch.antt =====
-- The commands of internal/cmd that go to several shards or to the shard of "-", and Cmd.Execute of
-- cmds.go with its registry. The registered commands that are not modelled are a parameter; the
-- monitoring counters that Cmd.Execute keeps are left out.
use dice_db_distributed_syst.Prelude.{
  ℕ, zero, suc, ◌+◌, Option, none, some, List, [], ◌∷◌, ◌++◌, ◌==◌, if◌then◌else◌, length, Str,
  codes, str_beq, nat_eq, str_eq,
}
use dice_db_distributed_syst.Prelude.Int.{ℤ, pos}
use dice_db_distributed_syst.Store.State.{Store}
use dice_db_distributed_syst.Wire.{
  Response, Reply, Result, Status, Run, panic, ◌>>=◌, done, fail, unknown_cmd,
}
use dice_db_distributed_syst.Shard.{get_shard_for_key}
use dice_db_distributed_syst.Cmd.Env.{Env}
use dice_db_distributed_syst.Cmd.Strings.{eval_get}
use dice_db_distributed_syst.Cmd.Keyspace.{del_loop, exists_loop, eval_keys, eval_flushdb}
use dice_db_distributed_syst.Cmd.Session.{
  Cmd, fingerprint, eval_ping, eval_echo, eval_unwatch, eval_handshake,
}
use dice_db_distributed_syst.Cmd.Watched.{execute_hget_watch, execute_hgetall_watch}
use dice_db_distributed_syst.Cmd.Execute.{
  Shards, Executed, keyed, refuse, execute_set, execute_get, execute_getset, execute_getdel,
  execute_getex, execute_incr, execute_decr, execute_incrby, execute_decrby, execute_expire,
  execute_expireat, execute_expiretime, execute_ttl, execute_type, execute_hset, execute_hget,
  execute_hgetall,
}

-- A counting loop on one shard.
abbrev counted : (Store → ℕ × Store) → Store → Run (ℕ × Store)
counted f s = Run.ok (f s)

unfoldable pub count_at : (Store → ℕ × Store) → ℕ → Shards → Run (ℕ × Shards)
count_at f i [] = panic
count_at f zero (s ∷ sm) = let (n, s') = f s in Run.ok (n, s' ∷ sm)
count_at f (suc i) (s ∷ sm) = do (n, sm') ← count_at f i sm; Run.ok (n, s ∷ sm')

-- executeDEL: for each key, evalDEL deletes all the arguments on that key's shard.
unfoldable pub del_shards_loop : Env → List Str → List Str → Shards → Run (ℕ × Shards)
unfolding count_at del_loop get_shard_for_key
del_shards_loop env args [] sm = Run.ok (0, sm)
del_shards_loop env args (k ∷ ks) sm = do
  i ← get_shard_for_key env.hash k sm
  (n, sm₁) ← count_at (del_loop args) i sm
  (m, sm₂) ← del_shards_loop env args ks sm₁
  Run.ok (n + m, sm₂)

unfoldable pub execute_del : Env → Cmd → Shards → Executed
unfolding del_shards_loop
execute_del env c sm = elim c.args [
  | [] ↦ refuse (Response.number (pos 0)) (codes "DEL") c sm
  | k ∷ ks ↦ do
    (n, sm') ← del_shards_loop env (k ∷ ks) (k ∷ ks) sm
    Run.ok (done (Response.number (pos n)), c, sm')
]

-- shardMap[shard] = append(shardMap[shard], key)
unfoldable pub add_to_group : ℕ → Str → List (ℕ × List Str) → List (ℕ × List Str)
add_to_group i k [] = (i, k ∷ []) ∷ []
add_to_group i k ((j, ks) ∷ groups) =
    if i == j then (j, ks ++ k ∷ []) ∷ groups else (j, ks) ∷ add_to_group i k groups

unfoldable pub group_keys :
    Env → List Str → Shards → List (ℕ × List Str) → Run (List (ℕ × List Str))
unfolding get_shard_for_key add_to_group
group_keys env [] sm groups = Run.ok groups
group_keys env (k ∷ ks) sm groups = do
  i ← get_shard_for_key env.hash k sm
  group_keys env ks sm (add_to_group i k groups)

-- The loop over the shards, in the order of the groups, leaves the last group in the arguments.
unfoldable pub exists_groups : ℤ → List (ℕ × List Str) → Cmd → Shards → Run (ℕ × Cmd × Shards)
unfolding count_at exists_loop
exists_groups now [] c sm = Run.ok (0, c, sm)
exists_groups now ((i, ks) ∷ groups) c sm = do
  (n, sm₁) ← count_at (exists_loop now ks) i sm
  (m, c', sm₂) ← exists_groups now groups (record c { args = ks }) sm₁
  Run.ok (n + m, c', sm₂)

unfoldable pub execute_exists : Env → ℤ → Cmd → Shards → Executed
unfolding group_keys exists_groups
execute_exists env now c sm = elim c.args [
  | [] ↦ refuse (Response.number (pos 0)) (codes "EXISTS") c sm
  | k ∷ ks ↦ do
    groups ← group_keys env (k ∷ ks) sm []
    (n, c', sm') ← exists_groups now groups c sm
    Run.ok (done (Response.number (pos n)), c', sm')
]

-- The keys of a reply of evalKEYS, or its error.
abbrev keys_of : Reply → List Str
keys_of r = elim r.result.response [ Response.strings ks ↦ ks | _ ↦ [] ]

unfoldable pub keys_shards_loop : Env → List Str → Shards → List Str → Reply
unfolding eval_keys
keys_shards_loop env args [] found = done (Response.strings found)
keys_shards_loop env args (s ∷ sm) found =
    let r = eval_keys env.path_match args s in
    let rest = keys_shards_loop env args sm (found ++ keys_of r) in
    elim r.error [ none ↦ rest | some e ↦ fail (Response.strings []) e ]

unfoldable pub execute_keys : Env → Cmd → Shards → Executed
unfolding keys_shards_loop
execute_keys env c sm =
    if length c.args == 1
    then Run.ok (keys_shards_loop env c.args sm [], c, sm)
    else refuse (Response.strings []) (codes "KEYS") c sm

-- The loop ends at the first error, of which there is one exactly if there are arguments; the reply is
-- then nil, and only the error is looked at.
unfoldable pub flush_loop : List Str → Shards → Reply × Shards
unfolding eval_flushdb
flush_loop args [] = (done Response.empty, [])
flush_loop args (s ∷ sm) =
    let (r, s') = eval_flushdb args s in
    let (r', sm') = flush_loop args sm in
    elim r.error [ none ↦ (r', s' ∷ sm') | some e ↦ (r, s ∷ sm) ]

unfoldable pub execute_flushdb : Cmd → Shards → Executed
unfolding flush_loop
execute_flushdb c sm = let (r, sm') = flush_loop c.args sm in Run.ok (r, c, sm')

-- A command that only asks for the shard of "-".
unfoldable pub on_dash : Env → Reply → Cmd → Shards → Executed
unfolding get_shard_for_key
on_dash env r c sm = do _ ← get_shard_for_key env.hash (codes "-") sm; Run.ok (r, c, sm)

unfoldable pub execute_ping : Env → Cmd → Shards → Executed
unfolding on_dash eval_ping
execute_ping env c sm = on_dash env (eval_ping c.args) c sm

unfoldable pub execute_echo : Env → Cmd → Shards → Executed
unfolding on_dash eval_echo
execute_echo env c sm = on_dash env (eval_echo c.args) c sm

unfoldable pub execute_handshake : Env → Cmd → Shards → Executed
unfolding on_dash eval_handshake
execute_handshake env c sm = let (r, c') = eval_handshake c c.args in on_dash env r c' sm

unfoldable pub execute_unwatch : Env → Cmd → Shards → Executed
unfolding on_dash eval_unwatch
execute_unwatch env c sm =
    if length c.args == 1
    then on_dash env (eval_unwatch c.args) c sm
    else refuse Response.empty (codes "UNWATCH") c sm

-- evalGETWATCH: GET with the command's fingerprint in the result.
unfoldable pub eval_get_watch : Env → ℤ → Cmd → List Str → Store → Run (Reply × Store)
unfolding eval_get fingerprint
eval_get_watch env now c args s = do
  (r, s') ← eval_get env now args s
  let marked = record r {
    result = record r.result { fingerprint64 = fingerprint env.fingerprint c };
  }
  Run.ok (elim r.error [ none ↦ (marked, s') | some e ↦ (fail Response.empty e, s') ])

unfoldable pub execute_get_watch : Env → ℤ → Cmd → Shards → Executed
unfolding keyed eval_get_watch
execute_get_watch env now c sm =
    if length c.args == 0
    then refuse Response.empty (codes "GET.WATCH") c sm
    else keyed env (eval_get_watch env now c) c sm

-- A registered command's Execute.
abbrev pub Handler : Type 0
Handler = Cmd → Shards → Executed

unfoldable pub registry : Env → ℤ → List (Str × Handler)
registry env now =
    (codes "SET", execute_set env now)
    ∷ (codes "GET", execute_get env now)
    ∷ (codes "GETSET", execute_getset env now)
    ∷ (codes "GETDEL", execute_getdel env now)
    ∷ (codes "GETEX", execute_getex env now)
    ∷ (codes "INCR", execute_incr env now)
    ∷ (codes "DECR", execute_decr env now)
    ∷ (codes "INCRBY", execute_incrby env now)
    ∷ (codes "DECRBY", execute_decrby env now)
    ∷ (codes "EXPIRE", execute_expire env now)
    ∷ (codes "EXPIREAT", execute_expireat env now)
    ∷ (codes "EXPIRETIME", execute_expiretime env now)
    ∷ (codes "TTL", execute_ttl env now)
    ∷ (codes "TYPE", execute_type env now)
    ∷ (codes "HSET", execute_hset env now)
    ∷ (codes "HGET", execute_hget env now)
    ∷ (codes "HGETALL", execute_hgetall env now)
    ∷ (codes "DEL", execute_del env)
    ∷ (codes "EXISTS", execute_exists env now)
    ∷ (codes "KEYS", execute_keys env)
    ∷ (codes "FLUSHDB", execute_flushdb)
    ∷ (codes "PING", execute_ping env)
    ∷ (codes "ECHO", execute_echo env)
    ∷ (codes "HANDSHAKE", execute_handshake env)
    ∷ (codes "UNWATCH", execute_unwatch env)
    ∷ (codes "GET.WATCH", execute_get_watch env now)
    ∷ (codes "HGET.WATCH", execute_hget_watch env now)
    ∷ (codes "HGETALL.WATCH", execute_hgetall_watch env now)
    ∷ []

unfoldable pub look_up : Str → List (Str × Handler) → Option Handler
look_up name [] = none
look_up name ((n, h) ∷ l) = if str_beq n name then some h else look_up name l

-- &wire.Result{}
abbrev no_result : Result
no_result = record {
  message = [];
  status = Status.ok;
  response = Response.empty;
  fingerprint64 = 0;
}

-- Cmd.Execute; `others` is the rest of the registry. An unknown name gives an empty result.
unfoldable pub execute : Env → List (Str × Handler) → ℤ → Handler
unfolding look_up registry
execute env others now c sm = elim (look_up c.name (registry env now ++ others)) [
  | none ↦ Run.ok (record { result = no_result; error = some (unknown_cmd c.name) }, c, sm)
  | some h ↦ h c sm
]
