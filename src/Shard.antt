-- ===== src/Shard.antt =====
-- internal/shardmanager/main.go with internal/shard and internal/shardthread: the stores of the shards,
-- and the shard of a key. A run-time panic of the source is a panic here.
pub mod Laws
use dice_db_distributed_syst.Prelude.{
  ℕ, zero, suc, ◌-◌, ◌/◌, ◌%◌, none, some, List, [], ◌∷◌, arith, ltb, ◌==◌, if◌then◌else◌, length,
  get_elem?, Str, nat_eq, str_eq,
}
use dice_db_distributed_syst.Prelude.Int.{ℤ, pos, negsuc, pattern64}
use dice_db_distributed_syst.Store.State.{Store, new_store, new_primitive_eviction_strategy}
use dice_db_distributed_syst.Store.Sweep.{delete_expired_keys}
use dice_db_distributed_syst.Wire.{Run, panic, ◌>>=◌, Reply}

-- config.DefaultKeysLimit
abbrev pub default_keys_limit : ℕ
default_keys_limit = 200000000

-- One shard's thread with its store, which has no watch channel.
unfoldable pub new_shard_thread : ℕ → ℕ → Store
unfolding new_store new_primitive_eviction_strategy
new_shard_thread id max_keys = new_store none (some (new_primitive_eviction_strategy max_keys)) id

-- The loop over i, with the shards still to make.
unfoldable pub shards_from : ℕ → ℕ → ℕ → List Store
unfolding new_shard_thread
shards_from zero id max_keys = []
shards_from (suc n) id max_keys = new_shard_thread id max_keys ∷ shards_from n (suc id) max_keys

-- NewShardManager divides by the number of shards.
unfoldable pub new_shard_manager : ℕ → Run (List Store)
unfolding shards_from
new_shard_manager zero = panic
new_shard_manager (suc n) = Run.ok (shards_from (suc n) 0 (default_keys_limit / suc n))

-- ShardCount: the length as an int8.
unfoldable pub shard_count : List Store → ℤ
shard_count sm = let w = length sm % 256 in if ltb w 128 then pos w else negsuc (255 - w)

-- uint64(manager.ShardCount())
unfoldable pub shard_modulus : List Store → ℕ
unfolding shard_count pattern64
shard_modulus sm = pattern64 (shard_count sm)

-- The index of GetShardForKey: the remainder by zero and an index out of range panic.
unfoldable pub get_shard_for_key : (Str → ℕ) → Str → List Store → Run ℕ
unfolding shard_modulus
get_shard_for_key hash key sm =
    let i = hash key % shard_modulus sm in
    if shard_modulus sm == 0 then panic else if ltb i (length sm) then Run.ok i else panic

unfoldable pub set_shard : ℕ → Store → List Store → List Store
set_shard i t [] = []
set_shard zero t (s ∷ sm) = t ∷ sm
set_shard (suc i) t (s ∷ sm) = s ∷ set_shard i t sm

-- A handler's run on one shard.
unfoldable pub at_index : (Store → Run (Reply × Store)) → ℕ → List Store → Run (Reply × List Store)
unfolding set_shard
at_index f i sm = elim (get_elem? sm i) [
  | none ↦ panic
  | some s ↦ elim (f s) [ panic ↦ panic | Run.ok (r, s') ↦ Run.ok (r, set_shard i s' sm) ]
]

unfoldable pub on_shard :
    (Str → ℕ) → Str → (Store → Run (Reply × Store)) → List Store → Run (Reply × List Store)
unfolding at_index get_shard_for_key
on_shard hash key f sm = elim (get_shard_for_key hash key sm) [
  | panic ↦ panic
  | Run.ok i ↦ at_index f i sm
]

-- runCronTasks of one shard's thread
unfoldable pub run_cron_tasks : ℤ → Store → Store
unfolding delete_expired_keys
run_cron_tasks now s = delete_expired_keys now s
